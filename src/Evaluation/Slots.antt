-- ===== src/Evaluation/Slots.antt =====
-- wisetraceloom/evaluation.py: a golden set is stored under the stripped slot, and the gate looks for
-- the slot as it is given.
use wisetraceloom.Prelude.{
  ℕ, ◌≡◌, ◌≢◌, inl, inr, refl, ◌∙◌, false, none, List, [], ◌∷◌, Text, text_eq, text_eq_iff, text_Eq,
  option_Eq, nat_Eq, Bool-cases, strip,
}
use wisetraceloom.Results.{Result, ok}
use wisetraceloom.Sql.{Sql}
use wisetraceloom.Residency.{lookup, lookup-assign}
use wisetraceloom.Prompts.{Prompts}
use wisetraceloom.Evaluation.{
  Floats, GoldenCase, EvalCaseResult, Evaluation, set_golden_set,
  assert_production_promotion_allowed,
}

module _ (sql : Sql) (lower : Text → Text) (floats : Floats) {D : Type 0} where
  open floats use {F}

  lookup-set_golden_set :
      (slot : Text) (cases : List (GoldenCase D))
      (runner : Text → GoldenCase D → Result (EvalCaseResult F))
      → (e : Evaluation D F) → strip slot ≢ slot
      → lookup slot (set_golden_set slot cases runner e).1.suites ≡ lookup slot e.suites
  unfolding set_golden_set
  lookup-set_golden_set slot [] runner e other = elim (Bool-cases (text_eq (strip slot) [])) [
    | inl t ↦ rw t refl
    | inr t ↦ rw t refl
  ]
  lookup-set_golden_set slot (c ∷ cases) runner e other =
      let differ : text_eq (strip slot) slot ≡ false =
        elim (Bool-cases (text_eq (strip slot) slot)) [
          | inl t ↦ absurd (other ((text_eq_iff (strip slot) slot).0 t))
          | inr t ↦ t
        ] in
      elim (Bool-cases (text_eq (strip slot) [])) [
        | inl t ↦ rw t refl
        | inr t ↦ rw t (lookup-assign (strip slot) slot _ e.suites ∙ rw differ refl)
      ]

  -- For a slot with surrounding spaces that had no golden set, the gate still lets every version
  -- into production after one was set for it.
  pub assert_production_promotion_allowed-set_golden_set :
      (slot : Text) (cases : List (GoldenCase D))
      (runner : Text → GoldenCase D → Result (EvalCaseResult F))
      → (id : ℕ) (p : Prompts) (e : Evaluation D F) → strip slot ≢ slot
      → lookup slot e.suites ≡ none
      → assert_production_promotion_allowed sql floats lower slot id p
          (set_golden_set slot cases runner e).1
        ≡ ok tt
  unfolding assert_production_promotion_allowed
  assert_production_promotion_allowed-set_golden_set slot cases runner id p e other n =
      let absent = lookup-set_golden_set slot cases runner e other ∙ n in
      rw (assert_production_promotion_allowed, absent) refl
