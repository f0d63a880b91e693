-- ===== src/Evaluation.antt =====
-- wisetraceloom/evaluation.py: golden sets, their summaries, and the gate before a promotion.
pub mod Summaries
pub mod Gate
pub mod Slots
pub mod Failures
use wisetraceloom.Prelude.{
  pair_Eq, rstrip, ℕ, zero, suc, ◌+◌, ◌-◌, ◌≤◌, ◌<◌, ◌≡◌, ◌≢◌, ◌↔◌, ◌⊎◌, inl, inr, refl, sym, ap,
  ◌∙◌, Bool, true, false, not, ◌&&◌, ◌||◌, ◌==◌, Eq, if◌then◌else◌, Option, none, some, List, [],
  ◌∷◌, ◌++◌, map, Text, codes, text_eq, text_eq_iff, text_eq_refl, text_Eq, option_Eq, nat_Eq,
  option_eq_iff, filter_by, All, length, arith, ltb, leb, nat_eq, nat_eq_iff, Bool-cases,
  Option-cases, strip, has_char, decimal, join, last?,
}
use mathlib.Core.Option
use mathlib.Core.List.{List}
use wisetraceloom.Results.{Result, ok, err, eval_regression_error, ◌>>=◌, ◌>>◌, guard}
use wisetraceloom.Sql.{Sql}
use wisetraceloom.Residency.{lookup, assign}
use wisetraceloom.Config.{Row, Rows, find, next_id, write_back}
use wisetraceloom.Prompts.{PromptVersion, Prompts, get_prompt_version, resolve_prompt_alias}

-- The floats, as far as the module computes with them.
pub record Floats : Type 1 where
  pub F : Type 0
  pub F_set : IsSet F
  pub nil : F
  pub plus : F → F → F
  pub minus : F → F → F
  pub divide : F → F → F
  -- An integer as a float.
  pub of_int : ℕ → F
  -- `a > b`
  pub above : F → F → Bool
  -- `math.ceil(0.95 * n)`
  pub ceil95 : ℕ → ℕ

-- The inputs and expectations of a case are opaque: `D` is their type.
pub record GoldenCase (D : Type 0) : Type 0 where
  pub case_id : Text
  pub input : D
  pub expected : D

pub record EvalCaseResult (F : Type 0) : Type 0 where
  pub passed : Bool
  pub cost_usd : F
  pub latency_ms : F

-- The columns of a summary beside the version's id, which is unique.
pub record EvalSummary (F : Type 0) : Type 0 where
  pub slot_name : Text
  pub n_cases : ℕ
  pub n_passed : ℕ
  pub pass_rate : F
  pub mean_cost_usd : F
  pub p95_latency_ms : F
  pub evaluated_at : ℕ

pub record RegressionThresholds (F : Type 0) : Type 0 where
  pub pass_rate_max_drop : F
  pub cost_max_increase : F
  pub p95_latency_max_increase : F

-- A runner is the host's: what it raises is a `host_exception`.
pub record GoldenSuite (D F : Type 0) : Type 0 where
  pub cases : List (GoldenCase D)
  pub runner : Text → GoldenCase D → Result (EvalCaseResult F)

-- The process-local registries, and the table of summaries.
pub record Evaluation (D F : Type 0) : Type 0 where
  pub suites : List (Text × GoldenSuite D F)
  pub thresholds : RegressionThresholds F
  pub summaries : Rows ℕ (EvalSummary F)

module _ {D F : Type 0} where
  unfoldable pub set_golden_set :
      Text
      → List (GoldenCase D)
      → (Text → GoldenCase D → Result (EvalCaseResult F))
      → Evaluation D F
      → Result (Unit {0}) × Evaluation D F
  set_golden_set slot cases runner e =
      let name = strip slot in
      if name == [] then (err eval_regression_error, e) else elim cases [
        | [] ↦ (err eval_regression_error, e)
        | c ∷ more ↦ (
          ok tt,
          record e { suites = assign name (record { cases = c ∷ more; runner = runner }) e.suites },
        )
      ]

  unfoldable pub clear_golden_set : Option Text → Evaluation D F → Evaluation D F
  clear_golden_set none e = record e { suites = [] }
  clear_golden_set (some slot) e = record e { suites = filter_by (λ s. not (s.0 == slot)) e.suites }

  unfoldable pub set_regression_thresholds :
      RegressionThresholds F → Evaluation D F → Evaluation D F
  set_regression_thresholds thresholds e = record e { thresholds = thresholds }

module _ (floats : Floats) where
  open floats use {F, nil, plus, minus, divide, of_int, above, ceil95}

  -- `sorted`, which is stable.
  unfoldable pub insert_value : F → List F → List F
  insert_value x [] = x ∷ []
  insert_value x (y ∷ ys) = if above x y then y ∷ insert_value x ys else x ∷ y ∷ ys

  unfoldable pub sort_values : List F → List F
  unfolding insert_value
  sort_values [] = []
  sort_values (x ∷ xs) = insert_value x (sort_values xs)

  -- `ordered[i]`, where the index is in range.
  unfoldable pub entry_at : ℕ → List F → F
  entry_at i [] = nil
  entry_at zero (x ∷ xs) = x
  entry_at (suc i) (x ∷ xs) = entry_at i xs

  -- `min(max(0, rank - 1), n - 1)`; subtraction stops at 0.
  abbrev pub p95_index : ℕ → ℕ
  p95_index n = let i = ceil95 n - 1 in if leb i (n - 1) then i else n - 1

  unfoldable pub p95 : List F → F
  unfolding sort_values entry_at
  p95 values = elim values [
    | [] ↦ nil
    | x ∷ xs ↦ entry_at (p95_index (length (x ∷ xs))) (sort_values (x ∷ xs))
  ]

  abbrev pub total : F → List F → F
  total sum [] = sum
  total sum (x ∷ xs) = total (plus sum x) xs

  unfoldable pub summarize : Text → List (EvalCaseResult F) → ℕ → EvalSummary F
  unfolding p95
  summarize slot results now =
      let n = length results in
      let passed = length (filter_by (λ r. r.passed) results) in
      record {
        slot_name = slot;
        n_cases = n;
        n_passed = passed;
        pass_rate = divide (of_int passed) (of_int n);
        mean_cost_usd = divide (total nil (map (λ r. r.cost_usd) results)) (of_int n);
        p95_latency_ms = p95 (map (λ r. r.latency_ms) results);
        evaluated_at = now;
      }

  -- An increase over a baseline that is above 0.
  abbrev pub increased : F → F → F → Bool
  increased baseline candidate limit =
      above baseline nil && above (divide (minus candidate baseline) baseline) limit

  -- The three failures that the gate collects.
  abbrev pub regressed : RegressionThresholds F → EvalSummary F → EvalSummary F → Bool
  regressed t baseline candidate =
      above (minus baseline.pass_rate candidate.pass_rate) t.pass_rate_max_drop
      || (increased baseline.mean_cost_usd candidate.mean_cost_usd t.cost_max_increase
          || increased baseline.p95_latency_ms candidate.p95_latency_ms t.p95_latency_max_increase)

module _ {D F : Type 0} where
  -- The runs over the cases; the first exception ends them.
  unfoldable pub run_cases :
      (GoldenCase D → Result (EvalCaseResult F))
      → List (GoldenCase D)
      → Result (List (EvalCaseResult F))
  run_cases run [] = ok []
  run_cases run (c ∷ cases) =
      let rest = run_cases run cases in run c >>= λ r. rest >>= λ results. ok (r ∷ results)

module _ (sql : Sql) {D F : Type 0} where
  unfoldable pub get_eval_summary : ℕ → Evaluation D F → Option (EvalSummary F)
  get_eval_summary id e = Option.map (λ r. r.value) (find sql id e.summaries)

  -- On a row that is there, the columns but the slot are overwritten.
  unfoldable pub persist_summary :
      ℕ → EvalSummary F → Evaluation D F → EvalSummary F × Evaluation D F
  persist_summary id summary e = elim (find sql id e.summaries) [
    | none ↦ (
      summary,
      record e {
        summaries =
            e.summaries ++ record { id = next_id sql e.summaries; key = id; value = summary } ∷ [];
      },
    )
    | some r ↦
        let kept = record summary { slot_name = r.value.slot_name } in
        (kept, record e { summaries = write_back r.id kept e.summaries })
  ]

module _ (sql : Sql) (floats : Floats) {D : Type 0} where
  open floats use {F}

  unfoldable pub run_golden_eval :
      ℕ → Text → ℕ → Prompts → Evaluation D F → Result (EvalSummary F) × Evaluation D F
  unfolding run_cases summarize persist_summary
  run_golden_eval id template now p e = elim (get_prompt_version id p) [
    | err x ↦ (err x, e)
    | ok v ↦ elim (lookup v.slot_name e.suites) [
      | none ↦ (err eval_regression_error, e)
      | some suite ↦ elim (run_cases (suite.runner template) suite.cases) [
        | err x ↦ (err x, e)
        | ok results ↦
            let (summary, e') =
              persist_summary sql id (summarize floats v.slot_name results now) e in
            (ok summary, e')
      ]
    ]
  ]

  -- Whatever the run raises is swallowed; the log event is left out.
  unfoldable pub maybe_eval_on_detection :
      PromptVersion → Text → ℕ → Prompts → Evaluation D F → Evaluation D F
  unfolding run_golden_eval
  maybe_eval_on_detection v template now p e = elim (lookup v.slot_name e.suites) [
    | none ↦ e
    | some suite ↦ (run_golden_eval v.id template now p e).1
  ]

  unfoldable pub assert_production_promotion_allowed :
      (Text → Text) → Text → ℕ → Prompts → Evaluation D F → Result (Unit {0})
  unfolding get_eval_summary
  assert_production_promotion_allowed lower slot id p e = elim (lookup slot e.suites) [
    | none ↦ ok tt
    | some suite ↦ elim (get_eval_summary sql id e) [
      | none ↦ err eval_regression_error
      | some candidate ↦ resolve_prompt_alias sql lower slot (codes "production") p >>= λ current.
          elim current [
            | none ↦ ok tt
            | some v ↦ if v.id == id then ok tt else elim (get_eval_summary sql v.id e) [
              | none ↦ ok tt
              | some baseline ↦
                  guard (not (regressed floats e.thresholds baseline candidate))
                    eval_regression_error
            ]
          ]
    ]
  ]
