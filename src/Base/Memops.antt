-- ===== src/Base/Memops.antt =====
-- base/memops.hh: the loop of `Memory::FillT`, for elements of more than one
-- byte. The memory at the pointer is the list of the elements there; an access behind its end is a
-- missing result.
use prot.Prelude.{
  ℕ, zero, suc, ◌≤◌, ◌≡◌, refl, true, if◌then◌else◌, ltb, Option, none, some, List, [], ◌∷◌, ◌++◌,
  length, set, replicate, drop, ap, ◌∙◌, arith,
}

module _ {ℓ} {A : Type ℓ} where
  -- `Memory::FillT`, from index i on with `left` elements to write.
  unfoldable pub fill_t : (left i : ℕ) (ele : A) → List A → Option (List A)
  fill_t zero i e m = some m
  fill_t (suc k) i e m =
      let rest = fill_t k (suc i) e (set m i e) in if ltb i (length m) then rest else none

  push : A → Option (List A) → Option (List A)
  push x none = none
  push x (some m) = some (x ∷ m)

  fill_t-suc :
      (k i : ℕ) (e x : A) (m : List A) → fill_t k (suc i) e (x ∷ m) ≡ push x (fill_t k i e m)
  unfolding fill_t push
  fill_t-suc zero i e x m = refl
  fill_t-suc (suc k) i e x m = ground (arith, fill_t-suc k (suc i) e x (set m i e))

  -- Within the memory, FillT writes the element to each of the first n places and nothing else.
  pub fill_t_lem :
      (n : ℕ) (e : A) (m : List A)
      → n ≤ length m
      → fill_t n 0 e m ≡ some (replicate n e ++ drop n m)
  unfolding fill_t push
  fill_t_lem zero e m h = refl
  fill_t_lem (suc n) e [] h = ground arith
  fill_t_lem (suc n) e (x ∷ m) h =
      let b : ltb 0 (suc (length m)) ≡ true = ground arith in
      rw b (fill_t-suc n 0 e e m ∙ ap (push e) (fill_t_lem n e m (omega (arith, h))))
