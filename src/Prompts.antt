-- ===== src/Prompts.antt =====
-- wisetraceloom/prompts.py: fingerprints, versions and the reads of alias pointers. Registration and
-- promotion, which call evaluation.py, stand in Prompts/Promotion.
pub mod Promotion
pub mod Versions
pub mod Pointers
pub mod Aliases
pub mod Conflicts
use wisetraceloom.Prelude.{
  pair_Eq, rstrip, ℕ, zero, suc, ◌+◌, ◌-◌, ◌≤◌, ◌<◌, ◌≡◌, ◌≢◌, ◌↔◌, ◌⊎◌, inl, inr, refl, sym, ap,
  ◌∙◌, Bool, true, false, not, ◌&&◌, ◌||◌, ◌==◌, Eq, if◌then◌else◌, Option, none, some, List, [],
  ◌∷◌, ◌++◌, map, Text, codes, text_eq, text_eq_iff, text_eq_refl, text_Eq, option_Eq, nat_Eq,
  option_eq_iff, filter_by, All, length, arith, ltb, leb, nat_eq, nat_eq_iff, Bool-cases,
  Option-cases, strip, has_char, decimal, join, last?,
}
use mathlib.Core.Option
use mathlib.Core.List.{List}
use wisetraceloom.Results.{Result, ok, err, prompt_version_error}
use wisetraceloom.Sql.{Sql, select, select_first}
use wisetraceloom.Config.{Row, Rows, find}
use wisetraceloom.Tenancy.Roles.{delete_row}

pub record PromptVersion : Type 0 where
  pub id : ℕ
  pub slot_name : Text
  pub content_hash : Text
  pub version_number : ℕ
  pub title : Text
  pub created_at : ℕ

-- A pointer's columns beside slot and alias, which are its key.
pub record PromptAlias : Type 0 where
  pub prompt_version_id : ℕ
  pub updated_at : ℕ

abbrev pub AliasKey : Type 0
AliasKey = Text × Text

pub record Prompts : Type 0 where
  pub versions : List PromptVersion
  pub aliases : Rows AliasKey PromptAlias

-- `str.splitlines` ends a line at these characters, and at a carriage return with a line feed once.
unfoldable pub is_line_end : ℕ → Bool
is_line_end c =
    leb 10 c && leb c 13 || leb 28 c && leb c 30 || nat_eq c 133 || nat_eq c 8232 || nat_eq c 8233

abbrev pub add_to_first : ℕ → List Text → List Text
add_to_first c [] = (c ∷ []) ∷ []
add_to_first c (line ∷ lines) = (c ∷ line) ∷ lines

-- The lines behind a character, the last of them perhaps empty.
unfoldable pub lines_after : ℕ → Text → List Text
unfolding is_line_end
lines_after before [] = [] ∷ []
lines_after before (c ∷ s) =
    let rest = lines_after c s in
    if nat_eq before 13 && nat_eq c 10
    then rest
    else if is_line_end c
    then [] ∷ rest
    else add_to_first c rest

abbrev pub drop_last_empty : List Text → List Text
drop_last_empty [] = []
drop_last_empty ([] ∷ []) = []
drop_last_empty ((c ∷ line) ∷ []) = (c ∷ line) ∷ []
drop_last_empty (line ∷ next ∷ lines) = line ∷ drop_last_empty (next ∷ lines)

unfoldable pub splitlines : Text → List Text
unfolding lines_after
splitlines s = drop_last_empty (lines_after 0 s)

unfoldable pub normalize_template : Text → Text
unfolding splitlines
normalize_template template = join b'\n' (map rstrip (splitlines (strip template)))

-- `model_params` as `json.dumps` writes them; none are written as an empty object is.
unfoldable pub fingerprint_prompt : (Text → Text) → Text → Option Text → Text
unfolding normalize_template
fingerprint_prompt sha256 template params_json =
    sha256 (normalize_template template ++ 0 ∷ Option.get_or params_json (codes "{}"))

-- `session.get(PromptVersion, version_id)`
unfoldable pub find_version : ℕ → List PromptVersion → Option PromptVersion
find_version id [] = none
find_version id (v ∷ versions) = if v.id == id then some v else find_version id versions

unfoldable pub get_prompt_version : ℕ → Prompts → Result PromptVersion
unfolding find_version
get_prompt_version id p = elim (find_version id p.versions) [
  | none ↦ err prompt_version_error
  | some v ↦ ok v
]

unfoldable pub retitle : ℕ → Text → List PromptVersion → List PromptVersion
retitle id title [] = []
retitle id title (v ∷ versions) =
    (if v.id == id then record v { title = title } else v) ∷ retitle id title versions

unfoldable pub set_prompt_title : ℕ → Text → Prompts → Result PromptVersion × Prompts
unfolding find_version retitle
set_prompt_title id title p =
    let stripped = strip title in
    if stripped == [] then (err prompt_version_error, p) else elim (find_version id p.versions) [
      | none ↦ (err prompt_version_error, p)
      | some v ↦ (
        ok (record v { title = stripped }),
        record p { versions = retitle id stripped p.versions },
      )
    ]

-- `lower` is `str.lower`.
abbrev pub normalize_alias : (Text → Text) → Text → Text
normalize_alias lower alias = lower (strip alias)

module _ (sql : Sql) (lower : Text → Text) where
  unfoldable pub clear_prompt_alias : Text → Text → Prompts → Prompts
  clear_prompt_alias slot alias p =
      let name = normalize_alias lower alias in
      if name == [] then p else elim (find sql (slot, name) p.aliases) [
        | none ↦ p
        | some row ↦ record p { aliases = delete_row row.id p.aliases }
      ]

  unfoldable pub resolve_prompt_alias : Text → Text → Prompts → Result (Option PromptVersion)
  unfolding find_version
  resolve_prompt_alias slot alias p =
      let name = normalize_alias lower alias in
      if name == [] then ok none else elim (find sql (slot, name) p.aliases) [
        | none ↦ ok none
        | some pointer ↦ elim (find_version pointer.value.prompt_version_id p.versions) [
          | none ↦ err prompt_version_error
          | some v ↦ ok (some v)
        ]
      ]

  unfoldable pub list_prompt_aliases : Text → Prompts → List (Row AliasKey PromptAlias)
  list_prompt_aliases slot p =
      select sql (Row AliasKey PromptAlias) (λ r. r.key.0 == slot) p.aliases
