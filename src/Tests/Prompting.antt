-- ===== src/Tests/Prompting.antt =====
-- Prompts, their golden sets and the gate at concrete inputs, with whole numbers as floats.
use wisetraceloom.Prelude.{
  pair_Eq, ℕ, ◌+◌, ◌-◌, ◌≤◌, ◌<◌, ◌≡◌, refl, true, none, List, [], ◌∷◌, Text, codes, text_eq,
  text_Eq, option_Eq, nat_Eq, filter_by, arith, ltb, strip, decimal,
}
use Prim.Native.Nat.{◌/◌}
use wisetraceloom.Results.{ok, err, host_exception}
use wisetraceloom.Config.{Row, Rows, find, write_back}
use wisetraceloom.Residency.{lookup}
use wisetraceloom.Prompts.{
  PromptVersion, PromptAlias, AliasKey, Prompts, resolve_prompt_alias, find_version,
  fingerprint_prompt, normalize_template, splitlines,
}
use wisetraceloom.Prompts.Promotion.{
  check_alias, set_prompt_alias, point_alias, register_prompt_version,
}
use wisetraceloom.Prompts.Versions.{
  IsRegistered, register_prompt_version-IsRegistered, register_prompt_version-again,
}
use wisetraceloom.Evaluation.{
  Floats, GoldenCase, GoldenSuite, EvalSummary, Evaluation, get_eval_summary, p95,
  assert_production_promotion_allowed,
}
use wisetraceloom.Evaluation.Summaries.{Ordered, count_within, count_below, p95-rank}
use wisetraceloom.Evaluation.Gate.{IsCleared, set_prompt_alias-IsCleared}
use wisetraceloom.Tests.Engine.{engine, digest}

abbrev pub counts : Floats
counts = record {
  F = ℕ;
  F_set = hlevel;
  nil = 0;
  plus = λ a b. a + b;
  minus = λ a b. a - b;
  divide = λ a b. a / b;
  of_int = λ n. n;
  above = λ a b. ltb b a;
  ceil95 = λ n. n - n / 20;
}

counts-Ordered : Ordered counts
counts-Ordered = record {
  above_asym = λ x y h. ground (arith, h);
  above_trans = λ x y z h k. ground (arith, h, k);
  ceil95_bounds = λ n h. (omega (arith, h), omega (arith, h));
}

p95-rank_example :
    (counts.ceil95 3 ≤ count_within counts (p95 counts (7 ∷ 9 ∷ 8 ∷ [])) (7 ∷ 9 ∷ 8 ∷ []))
    × (count_below counts (p95 counts (7 ∷ 9 ∷ 8 ∷ [])) (7 ∷ 9 ∷ 8 ∷ []) < counts.ceil95 3)
p95-rank_example = p95-rank counts counts-Ordered 7 (9 ∷ 8 ∷ [])

-- `str.lower` on ids that are in lower case.
abbrev pub lower : Text → Text
lower t = t

abbrev pub slot : Text
slot = codes "s"

abbrev pub version : ℕ → Text → PromptVersion
version n hash = record {
  id = n;
  slot_name = slot;
  content_hash = hash;
  version_number = n;
  title = hash;
  created_at = n;
}

-- `production` points at the first of two versions.
abbrev pub first_live : Prompts
first_live = record {
  versions = version 1 (codes "a") ∷ version 2 (codes "b") ∷ [];
  aliases =
      record {
        id = 1;
        key = (slot, codes "production");
        value = record { prompt_version_id = 1; updated_at = 3 };
      }
      ∷ [];
}

abbrev case_one : GoldenCase Text
case_one = record { case_id = codes "c"; input = []; expected = [] }

abbrev pub suite : GoldenSuite Text ℕ
suite = record {
  cases = case_one ∷ [];
  runner = λ template c. ok (record { passed = true; cost_usd = 2; latency_ms = 3 });
}

-- A runner that raises on every case.
abbrev pub raising : GoldenSuite Text ℕ
raising = record { cases = case_one ∷ []; runner = λ template c. err host_exception }

abbrev pub summary : ℕ → EvalSummary ℕ
summary cost = record {
  slot_name = slot;
  n_cases = 1;
  n_passed = 1;
  pass_rate = 1;
  mean_cost_usd = cost;
  p95_latency_ms = 3;
  evaluated_at = 4;
}

abbrev pub evaluation : List (Text × GoldenSuite Text ℕ) → Evaluation Text ℕ
evaluation suites = record {
  suites = suites;
  thresholds = record {
    pass_rate_max_drop = 0;
    cost_max_increase = 0;
    p95_latency_max_increase = 0;
  };
  summaries =
      record { id = 1; key = 1; value = summary 2 }
      ∷ record { id = 2; key = 2; value = summary 2 }
      ∷ [];
}

abbrev pub evaluated : Evaluation Text ℕ
evaluated = evaluation ((slot, suite) ∷ [])

abbrev pub quiet : Rows AliasKey PromptAlias → Rows AliasKey PromptAlias
quiet table = table

abbrev pub moved : Row AliasKey PromptAlias
moved = record {
  id = 1;
  key = (slot, codes "production");
  value = record { prompt_version_id = 2; updated_at = 5 };
}

promoted :
    (set_prompt_alias engine lower counts quiet quiet slot
      (codes "production")
      2
      5
      first_live
      evaluated).0
    ≡ ok moved
unfolding set_prompt_alias check_alias point_alias find_version find filter_by text_eq strip lookup
    get_eval_summary assert_production_promotion_allowed resolve_prompt_alias write_back
promoted = refl

set_prompt_alias-IsCleared_example : IsCleared engine lower counts slot 2 first_live evaluated
unfolding strip lookup text_eq
set_prompt_alias-IsCleared_example =
    set_prompt_alias-IsCleared engine lower counts quiet quiet slot (codes "production") 2 5
      first_live evaluated suite moved refl refl promoted

empty_versions-IsRegistered : IsRegistered []
unfolding filter_by
empty_versions-IsRegistered = (tt, λ s. refl)

abbrev pub no_prompts : Prompts
no_prompts = record { versions = []; aliases = [] }

abbrev pub minute : ℕ → Text
minute = decimal

register_prompt_version-IsRegistered_example :
    IsRegistered
      (register_prompt_version engine digest minute counts slot
        (codes "hi")
        none
        3
        no_prompts
        evaluated).1.versions
register_prompt_version-IsRegistered_example =
    register_prompt_version-IsRegistered engine digest minute counts slot (codes "hi") none 3
      no_prompts evaluated empty_versions-IsRegistered

same_fingerprint :
    fingerprint_prompt digest (codes " hi ") none ≡ fingerprint_prompt digest (codes "hi") none
unfolding fingerprint_prompt normalize_template splitlines strip text_eq
same_fingerprint = refl

abbrev pub first : PromptVersion × Prompts × Evaluation Text ℕ
first =
    register_prompt_version engine digest minute counts slot (codes "hi") none 3 no_prompts
      evaluated

register_prompt_version-again_example :
    register_prompt_version engine digest minute counts slot (codes " hi ") none 9 first.1 first.2
    ≡ first
register_prompt_version-again_example =
    register_prompt_version-again engine digest minute counts slot (codes "hi") (codes " hi ") none
      none 3 9 no_prompts evaluated same_fingerprint
