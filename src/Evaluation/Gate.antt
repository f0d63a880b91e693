-- ===== src/Evaluation/Gate.antt =====
-- wisetraceloom/evaluation.py and prompts.py together: what the gate lets into production.
use wisetraceloom.Prelude.{
  ℕ, ◌≡◌, ◌≢◌, inl, inr, false, not, some, Text, codes, text_eq, text_Eq, option_Eq, nat_Eq, arith,
  nat_eq, nat_eq_iff, Bool-cases, Option-cases,
}
use wisetraceloom.Results.{ok, eval_regression_error, guard, guard-ok, Result-cases}
use wisetraceloom.Sql.{Sql}
use wisetraceloom.Residency.{lookup}
use wisetraceloom.Config.{Row, Rows}
use wisetraceloom.Prompts.{
  PromptVersion, PromptAlias, AliasKey, Prompts, normalize_alias, resolve_prompt_alias,
  find_version,
}
use wisetraceloom.Prompts.Promotion.{check_alias, set_prompt_alias}
use wisetraceloom.Evaluation.{
  Floats, GoldenSuite, EvalSummary, Evaluation, get_eval_summary, regressed,
  assert_production_promotion_allowed,
}

module _ (sql : Sql) (lower : Text → Text) (floats : Floats) {D : Type 0} where
  open floats use {F}

  -- A summary of the candidate is stored, and beside the summary of any other version that
  -- `production` points at it shows no regression.
  abbrev pub IsCleared : Text → ℕ → Prompts → Evaluation D F → Type 0
  IsCleared slot id p e =
      (candidate : EvalSummary F) × (get_eval_summary sql id e ≡ some candidate)
      × ((v : PromptVersion) (baseline : EvalSummary F)
          → resolve_prompt_alias sql lower slot (codes "production") p ≡ ok (some v)
          → v.id ≢ id
          → get_eval_summary sql v.id e ≡ some baseline
          → regressed floats e.thresholds baseline candidate ≡ false)

  gate-IsCleared :
      (slot : Text) (id : ℕ) (p : Prompts) (e : Evaluation D F) (suite : GoldenSuite D F)
      (u : Unit {0})
      → lookup slot e.suites ≡ some suite
      → assert_production_promotion_allowed sql floats lower slot id p e ≡ ok u
      → IsCleared slot id p e
  unfolding assert_production_promotion_allowed
  gate-IsCleared slot id p e suite u s a = elim (Option-cases (get_eval_summary sql id e)) [
    | inl n ↦ absurd (cc a)
    | inr (candidate, c) ↦ (
      candidate,
      c,
      λ v baseline r other b.
          let differ : nat_eq v.id id ≡ false = ground (arith, nat_eq_iff v.id id) in
          let passed : guard (not (regressed floats e.thresholds baseline candidate))
                eval_regression_error
              ≡ ok u =
            rw (assert_production_promotion_allowed, s, c, r, b, differ) at a in
          ground (arith, guard-ok _ _ _ passed),
    )
  ]

  check-IsCleared :
      (slot : Text) (id : ℕ) (p : Prompts) (e : Evaluation D F) (suite : GoldenSuite D F)
      (u : Unit {0})
      → lookup slot e.suites ≡ some suite
      → check_alias sql lower floats slot (codes "production") id p e ≡ ok u
      → IsCleared slot id p e
  unfolding check_alias text_eq
  check-IsCleared slot id p e suite u s fine = elim (Option-cases (find_version id p.versions)) [
    | inl n ↦ absurd (cc (rw (check_alias, n) at fine))
    | inr (v, f) ↦ elim (Bool-cases (text_eq v.slot_name slot)) [
      | inr other ↦ absurd (cc (rw (check_alias, f, other) at fine))
      | inl t ↦ gate-IsCleared slot id p e suite u s (rw (check_alias, f, t) at fine)
    ]
  ]

  -- Where a golden set is registered for a slot, a set_prompt_alias of production that is not an
  -- error means that the candidate has a stored summary, and that it shows no regression beside
  -- the summary of another version that production pointed at.
  pub set_prompt_alias-IsCleared :
      (rival reload : Rows AliasKey PromptAlias → Rows AliasKey PromptAlias)
      → (slot alias : Text) (id now : ℕ) (p : Prompts) (e : Evaluation D F)
        (suite : GoldenSuite D F)
      → (row : Row AliasKey PromptAlias) → normalize_alias lower alias ≡ codes "production"
      → lookup slot e.suites ≡ some suite
      → (set_prompt_alias sql lower floats rival reload slot alias id now p e).0 ≡ ok row
      → IsCleared slot id p e
  unfolding set_prompt_alias
  set_prompt_alias-IsCleared rival reload slot alias id now p e suite row name s a =
      elim (Result-cases (check_alias sql lower floats slot (codes "production") id p e)) [
        | inr (x, bad) ↦ absurd (cc (rw (set_prompt_alias, name, bad) at a))
        | inl (u, fine) ↦ check-IsCleared slot id p e suite u s fine
      ]
