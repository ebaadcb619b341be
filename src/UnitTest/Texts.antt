-- ===== src/UnitTest/Texts.antt =====
-- The checks of strings and of memory (test/unittest.h), over the comparison of the C library. A pointer is null
-- or stands for what is compared: the text, or the bytes of the given length.
use prot.Prelude.{
  ◌≡◌, ◌↔◌, Bool, true, false, not, Option, none, some, refl, ap, sym, ◌∙◌, zero, suc, arith,
}
use prot.Prelude.Int.{ℤ, pos, negsuc, ◌==ℤ◌}
use prot.UnitTest.{Case, check}

is_zero : (z : ℤ) → ((pos 0 ==ℤ z) ≡ true) ↔ (z ≡ pos 0)
is_zero (pos zero) = ((λ e. refl), (λ e. refl))
is_zero (pos (suc n)) = (ground arith, ground arith)
is_zero (negsuc n) = (ground arith, ground arith)

check-passes : (r : Bool) (c : Case) → c.is_break ≡ false → (check r c).0 ≡ r
unfolding check
check-passes r c h = ground (arith, h)

module _ {A : Type 0} (cmp : A → A → ℤ) where
  -- `PTUSSTRCMP` and `PTUSMEMCMP`
  unfoldable null_cmp : Option A → Option A → ℤ
  null_cmp none none = pos 0
  null_cmp none (some y) = negsuc 0
  null_cmp (some x) none = pos 1
  null_cmp (some x) (some y) = cmp x y

  -- `TestStreq` and `TestMemeq`
  unfoldable test_streq : (expval actval : Option A) → Case → Bool × Case
  test_streq x y c = check (pos 0 ==ℤ null_cmp x y) c

  -- `TestStrne` and `TestMemne`
  unfoldable test_strne : (expval actval : Option A) → Case → Bool × Case
  test_strne x y c = check (not (pos 0 ==ℤ null_cmp x y)) c

  module _ (documented : (x y : A) → (cmp x y ≡ pos 0) ↔ (x ≡ y)) where
    -- The comparison is 0 for two null pointers, and otherwise only for two of the same text.
    null_cmp_lem : (x y : Option A) → (null_cmp x y ≡ pos 0) ↔ (x ≡ y)
    unfolding null_cmp
    null_cmp_lem none none = ((λ e. refl), (λ e. refl))
    null_cmp_lem none (some y) = (ground arith, ground arith)
    null_cmp_lem (some x) none = (ground arith, ground arith)
    null_cmp_lem (some x) (some y) =
        let same = documented x y in ((λ e. ap some (same.0 e)), (λ e. same.1 (ground (arith, e))))

    -- Before a break, a check of equality passes exactly for the same text or two null pointers.
    test_streq_iff :
        (x y : Option A) (c : Case) → c.is_break ≡ false → ((test_streq x y c).0 ≡ true) ↔ (x ≡ y)
    unfolding test_streq
    test_streq_iff x y c h =
        let same = null_cmp_lem x y in
        let zero_test = is_zero (null_cmp x y) in
        let passes = check-passes (pos 0 ==ℤ null_cmp x y) c h in
        ((λ e. same.0 (zero_test.0 (sym passes ∙ e))), (λ e. passes ∙ zero_test.1 (same.1 e)))

  -- Before a break, exactly one of the two checks passes, at the same operands.
  opposite_checks :
      (x y : Option A) (c : Case)
      → c.is_break ≡ false
      → (test_strne x y c).0 ≡ not (test_streq x y c).0
  unfolding test_streq test_strne
  opposite_checks x y c h =
      let r = pos 0 ==ℤ null_cmp x y in check-passes (not r) c h ∙ ap not (sym (check-passes r c h))
