-- ===== src/UnitTest/Registration.antt =====
-- `UnitTest::AddTestCase` (test/unittest.cpp): which cases are registered.
use prot.Prelude.{
  ℕ, ◌≡◌, refl, Bool, true, false, not, ◌&&◌, ◌||◌, if◌then◌else◌, List, [], ◌∷◌, ◌++◌, length,
  length-append, Bool-cases, inl, inr, sym, ◌∙◌, arith,
}
use mathlib.Core.List.{append_assoc, append-nil}
use prot.UnitTest.{Entry, Registry, add_test_case, add_all}

abbrev pub is_ordinary : Entry → Bool
is_ordinary e = not (e.is_init || e.is_done)

-- The ordinary entries of a list, and those with TESTMEONLY.
abbrev pub ordinary : List Entry → List Entry
ordinary [] = []
ordinary (e ∷ es) = if is_ordinary e then e ∷ ordinary es else ordinary es

abbrev pub only : List Entry → List Entry
only [] = []
only (e ∷ es) = if is_ordinary e && e.me_only then e ∷ only es else only es

abbrev pub any_only : List Entry → Bool
any_only [] = false
any_only (e ∷ es) = is_ordinary e && e.me_only || any_only es

abbrev pub empty : Registry
empty = record {
  cases = [];
  test_count = 0;
  nc = 0;
  inits = [];
  dones = [];
  me_only_enabled = false;
}

module _ (strcmp_eq : List ℕ → List ℕ → Bool) where
  add_test_case_skip :
      (e : Entry) (g : Registry)
      → is_ordinary e ≡ false
      → ((add_test_case strcmp_eq e g).cases ≡ g.cases)
        × ((add_test_case strcmp_eq e g).me_only_enabled ≡ g.me_only_enabled)
  unfolding add_test_case
  add_test_case_skip e g o = (ground arith, ground arith)

  add_test_case_late :
      (e : Entry) (g : Registry)
      → is_ordinary e ≡ true
      → g.me_only_enabled ≡ true
      → ((add_test_case strcmp_eq e g).cases ≡ (if e.me_only then g.cases ++ e ∷ [] else g.cases))
        × ((add_test_case strcmp_eq e g).me_only_enabled ≡ true)
  unfolding add_test_case
  add_test_case_late e g o h = (ground arith, ground arith)

  add_test_case_early :
      (e : Entry) (g : Registry)
      → is_ordinary e ≡ true
      → g.me_only_enabled ≡ false
      → ((add_test_case strcmp_eq e g).cases ≡ (if e.me_only then e ∷ [] else g.cases ++ e ∷ []))
        × ((add_test_case strcmp_eq e g).me_only_enabled ≡ e.me_only)
  unfolding add_test_case
  add_test_case_early e g o h = (ground arith, ground arith)

  add_all-enabled :
      (es : List Entry) (g : Registry)
      → g.me_only_enabled ≡ true
      → (add_all strcmp_eq es g).cases ≡ g.cases ++ only es
  unfolding add_all
  add_all-enabled [] g h = sym (append-nil g.cases)
  add_all-enabled (e ∷ es) g h = elim (Bool-cases (is_ordinary e)) [
    | inl o ↦
        let (s, m) = add_test_case_late e g o h in
        let ih = add_all-enabled es (add_test_case strcmp_eq e g) m in
        ground (arith, o, s, ih, append_assoc g.cases (e ∷ []) (only es))
    | inr o ↦
        let (s, m) = add_test_case_skip e g o in
        let ih = add_all-enabled es (add_test_case strcmp_eq e g) (m ∙ h) in
        ground (arith, o, s, ih)
  ]

  add_all_from :
      (es : List Entry) (g : Registry)
      → g.me_only_enabled ≡ false
      → (add_all strcmp_eq es g).cases ≡ (if any_only es then only es else g.cases ++ ordinary es)
  unfolding add_all
  add_all_from [] g h = sym (append-nil g.cases)
  add_all_from (e ∷ es) g h = elim (Bool-cases (is_ordinary e)) [
    | inl o ↦
        let (s, m) = add_test_case_early e g o h in
        elim (Bool-cases e.me_only) [
          | inl y ↦
              let late = add_all-enabled es (add_test_case strcmp_eq e g) (m ∙ y) in
              ground (arith, o, y, s, late)
          | inr n ↦
              let ih = add_all_from es (add_test_case strcmp_eq e g) (m ∙ n) in
              ground (arith, o, n, s, ih, append_assoc g.cases (e ∷ []) (ordinary es))
        ]
    | inr o ↦
        let (s, m) = add_test_case_skip e g o in
        let ih = add_all_from es (add_test_case strcmp_eq e g) (m ∙ h) in ground (arith, o, s, ih)
  ]

  nc-add_test_case :
      (e : Entry) (g : Registry)
      → g.nc ≡ length g.cases
      → (add_test_case strcmp_eq e g).nc ≡ length (add_test_case strcmp_eq e g).cases
  unfolding add_test_case
  nc-add_test_case e g h = ground (arith, h, length-append g.cases (e ∷ []))

  nc-add_all_from :
      (es : List Entry) (g : Registry)
      → g.nc ≡ length g.cases
      → (add_all strcmp_eq es g).nc ≡ length (add_all strcmp_eq es g).cases
  unfolding add_all
  nc-add_all_from [] g h = h
  nc-add_all_from (e ∷ es) g h =
      nc-add_all_from es (add_test_case strcmp_eq e g) (nc-add_test_case e g h)

  -- After any calls of `AddTestCase`, the first on the empty registry, the registered cases are the
  -- ordinary entries in the order of their calls or, if one of those has TESTMEONLY, the ones that
  -- have it; and `_nc_` is their number.
  pub add_all_lem :
      (es : List Entry)
      → ((add_all strcmp_eq es empty).cases ≡ (if any_only es then only es else ordinary es))
        × ((add_all strcmp_eq es empty).nc ≡ length (add_all strcmp_eq es empty).cases)
  add_all_lem es = (add_all_from es empty refl, nc-add_all_from es empty refl)
