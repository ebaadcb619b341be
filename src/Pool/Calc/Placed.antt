-- ===== src/Pool/Calc/Placed.antt =====
-- A step of TestPoolParallelCalc leaves the data of each thread at one place.
use prot.Prelude.{
  ℕ, ◌+◌, ◌<◌, ◌≡◌, ◌≢◌, true, ◌==◌, List, [], ◌∷◌, ◌++◌, length, length-append, refl, ap, sym,
  subst, ◌∙◌, arith,
}
use prot.Pool.Calc.{
  Line, World, Step, wait_unit, pop_link, fill_in, run, wait_last, pop_last, add_up, add_result,
  append_link, set_idle, post_unit,
}
use prot.Pool.Calc.Tokens.{
  is_busy, is_away, token, occ, Tokens, Below, occ-append, Below-append, Tokens-at, Tokens-set,
}

pub record Placed (n : ℕ) (queue : List ℕ) (lines : List Line) : Type 0 where
  pub tokens : Tokens queue 0 lines
  pub below : Below n queue
  pub size : length lines ≡ n

module _ {n : ℕ} {q : List ℕ} {ls : List Line} (before after : List Line) (l : Line)
    (e : ls ≡ before ++ (l ∷ after)) (p : Placed n q ls) where
  pub place-below : length before < n
  place-below = omega (arith, ap length e, length-append before (l ∷ after), p.size)

  -- The data at this place is nowhere twice.
  pub token-at : occ (length before) q + token l ≡ 1
  token-at =
      let z : 0 + length before ≡ length before = omega arith in
      subst (λ j. occ j q + token l ≡ 1) z
        (Tokens-at q 0 before after l (subst (Tokens q 0) e p.tokens))

  set-Placed :
      (l' : Line) (q' : List ℕ)
      → ((j : ℕ) → j ≢ length before → occ j q' ≡ occ j q)
      → occ (length before) q' + token l' ≡ occ (length before) q + token l
      → Below n q'
      → Placed n q' (before ++ (l' ∷ after))
  set-Placed l' q' other here b =
      let z : 0 + length before ≡ length before = omega arith in
      record {
        tokens =
            Tokens-set q q' 0 before after l l' (subst (Tokens q 0) e p.tokens)
              (λ j ne. other j (λ e'. ne (e' ∙ sym z)))
              (subst (λ j. occ j q' + token l' ≡ 1) (sym z) (here ∙ token-at));
        below = b;
        size = omega (
          arith,
          ap length e,
          length-append before (l ∷ after),
          length-append before (l' ∷ after),
          p.size,
        );
      }

  -- The list stays as it is.
  pub keep-Placed : (l' : Line) → token l' ≡ token l → Placed n q (before ++ (l' ∷ after))
  keep-Placed l' t = set-Placed l' q (λ j ne. refl) (omega (arith, t)) p.below

-- The first of the list is taken out: it was at no other place.
module _ {n : ℕ} {ls : List Line} (before after : List Line) (l : Line) (rest : List ℕ)
    (e : ls ≡ before ++ (l ∷ after)) where
  pub first-token :
      Placed n (length before ∷ rest) ls → (occ (length before) rest ≡ 0) × (token l ≡ 0)
  first-token p =
      let t = token-at before after l e p in
      let s : (length before == length before) ≡ true = ground arith in
      (ground (arith, t), ground (arith, t))

  pop-Placed :
      (l' : Line)
      → token l' ≡ is_busy l.place + 1
      → Placed n (length before ∷ rest) ls
      → Placed n rest (before ++ (l' ∷ after))
  pop-Placed l' t p =
      set-Placed before after l e p l' rest (λ j ne. ground (arith, ne))
        (ground (arith, t, first-token p)) p.below.1

pub Step-Placed :
    {n step endp : ℕ} {w v : World}
    → Step n step endp w v
    → Placed n w.queue w.lines
    → Placed n v.queue v.lines
Step-Placed (wait_unit s m h e) p = p
Step-Placed {n = n} {w = w} (pop_link b a l rest m h e q) p =
    pop-Placed b a l rest e _ (omega arith) (subst (λ q'. Placed n q' w.lines) q p)
Step-Placed (fill_in b a l m h e g) p = keep-Placed b a l e p _ (omega (arith, ap is_away g))
Step-Placed (run b a l m e g r) p =
    keep-Placed b a l e p _ (omega (arith, ap is_away g, ap is_busy r))
Step-Placed (wait_last s m h k e) p = p
Step-Placed {n = n} {w = w} (pop_last b a l rest m h e q) p =
    pop-Placed b a l rest e _ (omega arith) (subst (λ q'. Placed n q' w.lines) q p)
Step-Placed (add_up b a l e k) p = keep-Placed b a l e p _ (omega (arith, ap is_busy k))
Step-Placed (add_result b a l r e k) p = keep-Placed b a l e p _ (omega (arith, ap is_busy k))
Step-Placed {w = w} (append_link b a l e k) p =
    set-Placed b a l e p _ (w.queue ++ (length b ∷ []))
      (λ j ne. ground (arith, ne, occ-append j (length b) w.queue))
      (ground (arith, ap is_busy k, occ-append (length b) (length b) w.queue))
      (Below-append _ (length b) w.queue (place-below b a l e p) p.below)
Step-Placed (set_idle b a l e k) p = keep-Placed b a l e p _ (omega (arith, ap is_busy k))
Step-Placed (post_unit b a l e k) p = keep-Placed b a l e p _ (omega (arith, ap is_busy k))
