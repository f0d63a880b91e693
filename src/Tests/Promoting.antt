-- ===== src/Tests/Promoting.antt =====
-- Promotions with other sessions in between, and versions whose golden set raises or is not found.
use wisetraceloom.Prelude.{
  pair_Eq, ℕ, ◌≡◌, ◌≢◌, refl, ap, if◌then◌else◌, none, some, [], ◌∷◌, Text, codes, text_eq, text_Eq,
  option_Eq, nat_Eq, filter_by, length, strip,
}
use wisetraceloom.Results.{ok, err, eval_regression_error, host_exception}
use wisetraceloom.Config.{Row, Rows, find, write_back}
use wisetraceloom.Residency.{lookup}
use wisetraceloom.Prompts.{
  PromptVersion, PromptAlias, AliasKey, Prompts, normalize_alias, resolve_prompt_alias,
  find_version,
}
use wisetraceloom.Prompts.Promotion.{
  check_alias, set_prompt_alias, point_alias, register_prompt_version, find_hash,
}
use wisetraceloom.Prompts.Pointers.{written_to}
use wisetraceloom.Prompts.Aliases.{same_key, resolve_prompt_alias-set_prompt_alias}
use wisetraceloom.Evaluation.{
  Evaluation, get_eval_summary, run_cases, set_golden_set, assert_production_promotion_allowed,
}
use wisetraceloom.Evaluation.Failures.{set_prompt_alias-register_prompt_version}
use wisetraceloom.Evaluation.Slots.{assert_production_promotion_allowed-set_golden_set}
use wisetraceloom.Tests.Engine.{engine, digest}
use wisetraceloom.Tests.Prompting.{
  counts, lower, slot, first_live, suite, raising, summary, evaluation, evaluated, quiet, moved,
  no_prompts, minute,
}

abbrev unset : Prompts
unset = record first_live { aliases = [] }

abbrev pointed : Row AliasKey PromptAlias
pointed = record {
  id = 1;
  key = (slot, codes "production");
  value = record { prompt_version_id = 2; updated_at = 5 };
}

-- Another session points `production` at the first version meanwhile.
abbrev overtaken : Rows AliasKey PromptAlias → Rows AliasKey PromptAlias
overtaken table = first_live.aliases

overtaken_set :
    (set_prompt_alias engine lower counts overtaken quiet slot
      (codes "production")
      2
      5
      unset
      evaluated).0
    ≡ ok moved
unfolding set_prompt_alias check_alias point_alias find_version find filter_by text_eq strip lookup
    get_eval_summary assert_production_promotion_allowed resolve_prompt_alias write_back
overtaken_set = refl

resolve_prompt_alias-set_prompt_alias_example :
    (v : PromptVersion) × (find_version 2 unset.versions ≡ some v)
    × (v.slot_name ≡ slot)
    × ((slot' alias' : Text)
        → resolve_prompt_alias engine lower slot' alias'
            (set_prompt_alias engine lower counts overtaken quiet slot
              (codes "production")
              2
              5
              unset
              evaluated).1
          ≡ (if same_key
                (slot, normalize_alias lower (codes "production"))
                (slot', normalize_alias lower alias')
              then ok (some v)
              else resolve_prompt_alias engine lower slot' alias' (record unset {
                aliases =
                    written_to engine overtaken quiet
                      (slot, normalize_alias lower (codes "production"))
                      [];
              })))
unfolding find filter_by text_eq strip
resolve_prompt_alias-set_prompt_alias_example =
    resolve_prompt_alias-set_prompt_alias engine lower counts overtaken quiet slot
      (codes "production") 2 5 unset evaluated moved (tt, tt) overtaken_set

-- The second version costs more than the first.
abbrev dearer : Evaluation Text ℕ
dearer = record evaluated {
  summaries =
      record { id = 1; key = 1; value = summary 2 }
      ∷ record { id = 2; key = 2; value = summary 9 }
      ∷ [];
}

abbrev detected : PromptVersion × Prompts × Evaluation Text ℕ
detected =
    register_prompt_version engine digest minute counts slot (codes "hi") none 3 no_prompts
      (record evaluated { suites = (slot, raising) ∷ []; summaries = [] })

set_prompt_alias-register_prompt_version_example :
    (find_version detected.0.id detected.1.versions ≡ some detected.0)
    × (detected.2 ≡ record evaluated { suites = (slot, raising) ∷ []; summaries = [] })
    × (set_prompt_alias engine lower counts quiet quiet slot
          (codes "production")
          detected.0.id
          8
          detected.1
          detected.2
        ≡ (err eval_regression_error, detected.1))
unfolding find_hash filter_by lookup text_eq run_cases get_eval_summary find strip
set_prompt_alias-register_prompt_version_example =
    set_prompt_alias-register_prompt_version engine counts lower digest minute quiet quiet slot
      (codes "hi") none (codes "production") 3 8 no_prompts
      (record evaluated { suites = (slot, raising) ∷ []; summaries = [] }) raising host_exception
      refl refl refl refl refl

spaced : strip (codes " s") ≢ codes " s"
unfolding strip text_eq
spaced e = cc (ap length e)

assert_production_promotion_allowed-set_golden_set_example :
    assert_production_promotion_allowed engine counts lower
      (codes " s")
      2
      first_live
      (set_golden_set (codes " s") suite.cases suite.runner (evaluation [])).1
    ≡ ok tt
unfolding lookup
assert_production_promotion_allowed-set_golden_set_example =
    assert_production_promotion_allowed-set_golden_set engine lower counts (codes " s") suite.cases
      suite.runner 2 first_live (evaluation []) spaced refl
