-- ===== src/Evaluation/Failures.antt =====
-- wisetraceloom/evaluation.py and prompts.py together: a version whose golden set raised.
use wisetraceloom.Prelude.{
  pair_Eq, ℕ, ◌+◌, ◌≤◌, ◌≡◌, refl, sym, ap, true, Option, none, some, List, [], ◌∷◌, ◌++◌, map,
  Text, codes, text_eq, text_eq_iff, text_Eq, option_Eq, nat_Eq, All, arith,
}
use wisetraceloom.Results.{err, Error, eval_regression_error}
use mathlib.Core.Path.{subst}
use wisetraceloom.Sql.{Sql}
use wisetraceloom.Residency.{lookup}
use wisetraceloom.Config.{Rows}
use wisetraceloom.Config.Upserts.{below_max}
use wisetraceloom.Prompts.{
  PromptVersion, PromptAlias, AliasKey, Prompts, normalize_alias, find_version, get_prompt_version,
  fingerprint_prompt,
}
use wisetraceloom.Prompts.Promotion.{
  check_alias, set_prompt_alias, register_prompt_version, find_hash, new_version,
}
use wisetraceloom.Evaluation.{
  Floats, GoldenSuite, Evaluation, get_eval_summary, run_cases, run_golden_eval,
  maybe_eval_on_detection, assert_production_promotion_allowed,
}

find_version-last :
    (versions : List PromptVersion) (v : PromptVersion)
    → All (λ n. n + 1 ≤ v.id) (map (λ w. w.id) versions)
    → find_version v.id (versions ++ v ∷ []) ≡ some v
unfolding find_version
find_version-last [] v b = ground arith
find_version-last (w ∷ versions) v b = ground (arith, b.0, find_version-last versions v b.1)

module _ (sql : Sql) (floats : Floats) {D : Type 0} where
  open floats use {F}

  maybe_eval_on_detection-raised :
      (v : PromptVersion) (template : Text) (now : ℕ) (p : Prompts) (e : Evaluation D F)
      → (suite : GoldenSuite D F) (x : Error) → find_version v.id p.versions ≡ some v
      → lookup v.slot_name e.suites ≡ some suite
      → run_cases (suite.runner template) suite.cases ≡ err x
      → maybe_eval_on_detection sql floats v template now p e ≡ e
  unfolding maybe_eval_on_detection run_golden_eval get_prompt_version
  maybe_eval_on_detection-raised v template now p e suite x f s r =
      rw (maybe_eval_on_detection, s, run_golden_eval, get_prompt_version, f, s, r) refl

  module _ (lower : Text → Text) where
    check_alias-refused :
        (slot : Text) (v : PromptVersion) (p : Prompts) (e : Evaluation D F)
        (suite : GoldenSuite D F)
        → find_version v.id p.versions ≡ some v
        → v.slot_name ≡ slot
        → lookup slot e.suites ≡ some suite
        → get_eval_summary sql v.id e ≡ none
        → check_alias sql lower floats slot (codes "production") v.id p e
          ≡ err eval_regression_error
    unfolding check_alias assert_production_promotion_allowed text_eq
    check_alias-refused slot v p e suite f same s n =
        let here : text_eq v.slot_name slot ≡ true = (text_eq_iff v.slot_name slot).1 same in
        rw (check_alias, f, here, assert_production_promotion_allowed, s, n) refl

    set_prompt_alias-refused :
        (rival reload : Rows AliasKey PromptAlias → Rows AliasKey PromptAlias)
        → (slot alias : Text) (now : ℕ) (v : PromptVersion) (p : Prompts) (e : Evaluation D F)
        → (suite : GoldenSuite D F) → normalize_alias lower alias ≡ codes "production"
        → find_version v.id p.versions ≡ some v
        → v.slot_name ≡ slot
        → lookup slot e.suites ≡ some suite
        → get_eval_summary sql v.id e ≡ none
        → set_prompt_alias sql lower floats rival reload slot alias v.id now p e
          ≡ (err eval_regression_error, p)
    unfolding set_prompt_alias
    set_prompt_alias-refused rival reload slot alias now v p e suite name f same s n =
        rw (set_prompt_alias, name, check_alias-refused slot v p e suite f same s n) refl

    module _ (sha256 : Text → Text) (strftime : ℕ → Text) where
      registered :
          (slot template : Text) (params : Option Text) (now : ℕ) (p : Prompts) (e : Evaluation D F)
          → (suite : GoldenSuite D F) (x : Error)
          → let v =
              new_version sql strftime slot
                (fingerprint_prompt sha256 template params)
                now
                p.versions in
            find_hash sql slot (fingerprint_prompt sha256 template params) p.versions ≡ none
            → lookup slot e.suites ≡ some suite
            → run_cases (suite.runner template) suite.cases ≡ err x
            → (find_version v.id (p.versions ++ v ∷ []) ≡ some v)
              × (register_prompt_version sql sha256 strftime floats slot template params now p e
                  ≡ (v, record p { versions = p.versions ++ v ∷ [] }, e))
      unfolding register_prompt_version new_version
      registered slot template params now p e suite x new s r =
          let v =
            new_version sql strftime slot (fingerprint_prompt sha256 template params) now
              p.versions in
          let found = find_version-last p.versions v (below_max sql (map (λ w. w.id) p.versions)) in
          (
            found,
            rw (register_prompt_version, new)
                (ap (λ after. (v, record p { versions = p.versions ++ v ∷ [] }, after))
                  (maybe_eval_on_detection-raised v template now
                    (record p { versions = p.versions ++ v ∷ [] }) e suite x found s r)),
          )

      -- A new version whose golden set raises is registered all the same and leaves the summaries
      -- as they are, and, as long as its id has no stored summary, production cannot be moved to
      -- it: the gate refuses and no pointer changes.
      pub set_prompt_alias-register_prompt_version :
          (rival reload : Rows AliasKey PromptAlias → Rows AliasKey PromptAlias)
          → (slot template : Text) (params : Option Text) (alias : Text) (now later : ℕ)
          → (p : Prompts) (e : Evaluation D F) (suite : GoldenSuite D F) (x : Error)
          → let hash = fingerprint_prompt sha256 template params in
            let after =
              register_prompt_version sql sha256 strftime floats slot template params now p e in
            find_hash sql slot hash p.versions ≡ none
            → lookup slot e.suites ≡ some suite
            → run_cases (suite.runner template) suite.cases ≡ err x
            → get_eval_summary sql (new_version sql strftime slot hash now p.versions).id e ≡ none
            → normalize_alias lower alias ≡ codes "production"
            → (find_version after.0.id after.1.versions ≡ some after.0)
              × (after.2 ≡ e)
              × (set_prompt_alias sql lower floats rival reload slot alias after.0.id later after.1
                    after.2
                  ≡ (err eval_regression_error, after.1))
      unfolding new_version
      set_prompt_alias-register_prompt_version rival reload slot template params alias now later p e
            suite x new s r n name =
          let v =
            new_version sql strftime slot (fingerprint_prompt sha256 template params) now
              p.versions in
          let (found, reg) = registered slot template params now p e suite x new s r in
          subst
            (λ after.
              (find_version after.0.id after.1.versions ≡ some after.0)
              × (after.2 ≡ e)
              × (set_prompt_alias sql lower floats rival reload slot alias after.0.id later after.1
                    after.2
                  ≡ (err eval_regression_error, after.1)))
            (sym reg)
            (
              found,
              refl,
              set_prompt_alias-refused rival reload slot alias later v
                  (record p { versions = p.versions ++ v ∷ [] }) e suite name found refl s n,
            )
