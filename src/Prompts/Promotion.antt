-- ===== src/Prompts/Promotion.antt =====
-- wisetraceloom/prompts.py: the registration of a version, which runs its golden set, and the move of
-- an alias, which for `production` asks the gate of evaluation.py.
use wisetraceloom.Results.{Result, ok, err, prompt_version_error}
use wisetraceloom.Prelude.{
  pair_Eq, or_zero, ℕ, ◌+◌, ◌&&◌, ◌==◌, if◌then◌else◌, Option, none, some, List, [], ◌∷◌, ◌++◌, map,
  Text, codes, text_Eq, option_Eq, nat_Eq, length, decimal,
}
use wisetraceloom.Sql.{Sql, select, select_first}
use wisetraceloom.Config.{Row, Rows, find, next_id, write_back}
use wisetraceloom.Prompts.{
  PromptVersion, PromptAlias, AliasKey, Prompts, fingerprint_prompt, find_version, normalize_alias,
}
use wisetraceloom.Evaluation.{
  Floats, Evaluation, maybe_eval_on_detection, assert_production_promotion_allowed,
}

-- `strftime` prints a time to the minute.
abbrev pub default_title : (ℕ → Text) → Text → ℕ → ℕ → Text
default_title strftime slot n now = slot ++ codes " — v" ++ decimal n ++ codes " — " ++ strftime now

module _ (sql : Sql) where
  -- The row that a hash is linked to, if the slot has it.
  unfoldable pub find_hash : Text → Text → List PromptVersion → Option PromptVersion
  find_hash slot hash versions =
      select_first sql PromptVersion (λ v. v.slot_name == slot && v.content_hash == hash) versions

module _ (sql : Sql) (strftime : ℕ → Text) where
  -- The row that a new hash is given.
  unfoldable pub new_version : Text → Text → ℕ → List PromptVersion → PromptVersion
  new_version slot hash now versions =
      let n = length (select sql PromptVersion (λ v. v.slot_name == slot) versions) + 1 in
      record {
        id = or_zero (sql.max (map (λ v. v.id) versions)) + 1;
        slot_name = slot;
        content_hash = hash;
        version_number = n;
        title = default_title strftime slot n now;
        created_at = now;
      }

module _ (sql : Sql) (sha256 : Text → Text) (strftime : ℕ → Text) (floats : Floats)
    {D : Type 0} where
  open floats use {F}

  unfoldable pub register_prompt_version :
      Text
      → Text
      → Option Text
      → ℕ
      → Prompts
      → Evaluation D F
      → PromptVersion × Prompts × Evaluation D F
  register_prompt_version slot template params_json now p e =
      let hash = fingerprint_prompt sha256 template params_json in
      elim (find_hash sql slot hash p.versions) [
        | some existing ↦ (existing, p, e)
        | none ↦
            let row = new_version sql strftime slot hash now p.versions in
            let p' = record p { versions = p.versions ++ row ∷ [] } in
            (row, p', maybe_eval_on_detection sql floats row template now p' e)
      ]

module _ (sql : Sql) where
  -- Other sessions commit between the statements: `rival` before the insert, `reload` between a
  -- refused insert and the second select.
  unfoldable pub point_alias :
      (rival reload : Rows AliasKey PromptAlias → Rows AliasKey PromptAlias)
      → AliasKey
      → PromptAlias
      → Rows AliasKey PromptAlias
      → Result (Row AliasKey PromptAlias) × Rows AliasKey PromptAlias
  point_alias rival reload key pointer table = elim (find sql key table) [
    | some r ↦ (ok (record r { value = pointer }), write_back r.id pointer table)
    | none ↦ elim (find sql key (rival table)) [
      | none ↦
          let row : Row AliasKey PromptAlias = record {
            id = next_id sql (rival table);
            key = key;
            value = pointer;
          } in
          (ok row, rival table ++ row ∷ [])
      | some winner ↦ elim (find sql key (reload (rival table))) [
        | none ↦ (err prompt_version_error, reload (rival table))
        | some r ↦
            (ok (record r { value = pointer }), write_back r.id pointer (reload (rival table)))
      ]
    ]
  ]

  module _ (lower : Text → Text) (floats : Floats) {D : Type 0} where
    open floats use {F}

    -- The checks before the pointer is written.
    unfoldable pub check_alias : Text → Text → ℕ → Prompts → Evaluation D F → Result (Unit {0})
    check_alias slot name id p e =
        if name == [] then err prompt_version_error else elim (find_version id p.versions) [
          | none ↦ err prompt_version_error
          | some v ↦
              if v.slot_name == slot
              then (if name == codes "production"
                  then assert_production_promotion_allowed sql floats lower slot id p e
                  else ok tt)
              else err prompt_version_error
        ]

    unfoldable pub set_prompt_alias :
        (rival reload : Rows AliasKey PromptAlias → Rows AliasKey PromptAlias)
        → Text
        → Text
        → ℕ
        → ℕ
        → Prompts
        → Evaluation D F
        → Result (Row AliasKey PromptAlias) × Prompts
    set_prompt_alias rival reload slot alias id now p e =
        let name = normalize_alias lower alias in
        elim (check_alias slot name id p e) [
          | err x ↦ (err x, p)
          | ok u ↦
              let pointer : PromptAlias = record { prompt_version_id = id; updated_at = now } in
              let (r, aliases) = point_alias rival reload (slot, name) pointer p.aliases in
              (r, record p { aliases = aliases })
        ]
