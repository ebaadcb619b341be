-- ===== src/Prelude/Runs.antt =====
-- Any number of steps of a relation.
pub data Steps {ℓ κ} {A : Type ℓ} (R : A → A → Type κ) : A → A → Type (ℓ ⊔ κ) where
  stay : {w : A} → Steps R w w
  onward : {u v w : A} → R w u → Steps R u v → Steps R w v
