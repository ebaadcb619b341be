-- ===== src/Prelude/Weigh.antt =====
-- The sum of a number for each element of a list, and what it becomes when one element changes.
use Prim.Native.Nat.{ℕ, zero, suc, ◌+◌, ◌≤◌}
use mathlib.Core.Path.{◌≡◌, refl, ap}
use mathlib.Core.Logic.{◌⊎◌, inl, inr}
use mathlib.Core.List.{List, [], ◌∷◌, ◌++◌}
use native.Mathlib.Omega.{arith}

pub zero-or-more : (n : ℕ) → (n ≡ 0) ⊎ (1 ≤ n)
zero-or-more zero = inl refl
zero-or-more (suc n) = inr (omega arith)

module _ {ℓ} {A : Type ℓ} (f : A → ℕ) where
  abbrev pub weigh : List A → ℕ
  weigh [] = 0
  weigh (x ∷ xs) = f x + weigh xs

  pub weigh-++ : (xs ys : List A) → weigh (xs ++ ys) ≡ weigh xs + weigh ys
  weigh-++ [] ys = omega arith
  weigh-++ (x ∷ xs) ys = omega (arith, weigh-++ xs ys)

  -- One element has become another.
  pub moved :
      {xs : List A} (before after : List A) (x y : A)
      → xs ≡ before ++ (x ∷ after)
      → weigh xs + f y ≡ weigh (before ++ (y ∷ after)) + f x
  moved before after x y e =
      omega (arith, ap weigh e, weigh-++ before (x ∷ after), weigh-++ before (y ∷ after))

  -- An element that counts.
  pub find-weigh :
      (xs : List A)
      → 1 ≤ weigh xs
      → (before : List A) × (x : A) × (after : List A) × (xs ≡ before ++ (x ∷ after)) × (1 ≤ f x)
  find-weigh [] h = absurd (omega (arith, h))
  find-weigh (x ∷ xs) h = elim (zero-or-more (f x)) [
    | inr here ↦ ([], x, xs, refl, here)
    | inl none_here ↦
        let (b, y, a, e, c) = find-weigh xs (omega (arith, h, none_here)) in
        (x ∷ b, y, a, ap (x ∷◌) e, c)
  ]

pub weigh-le {ℓ} :
    {A : Type ℓ} (f g : A → ℕ) → ((x : A) → f x ≤ g x) → (xs : List A) → weigh f xs ≤ weigh g xs
weigh-le f g h [] = omega arith
weigh-le f g h (x ∷ xs) = omega (arith, h x, weigh-le f g h xs)
