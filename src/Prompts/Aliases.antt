-- ===== src/Prompts/Aliases.antt =====
-- wisetraceloom/prompts.py: what an alias resolves to after a pointer is set, also when other sessions
-- commit between the statements.
use wisetraceloom.Prelude.{
  pair_Eq, pair_eq_iff, ℕ, ◌≡◌, inl, inr, refl, sym, ap, ◌∙◌, Bool, true, false, ◌==◌,
  if◌then◌else◌, Option, none, some, List, [], Text, text_eq, text_eq_iff, text_Eq, option_Eq,
  nat_Eq, Bool-cases, Option-cases,
}
use wisetraceloom.Results.{Result, ok, err, Result-cases}
use mathlib.Core.Path.{subst}
use wisetraceloom.Sql.{Sql}
use wisetraceloom.Config.{Row, Rows, upsert}
use wisetraceloom.Config.Rows.{IsUnique, value_at, find_cases}
use wisetraceloom.Config.Upserts.{value_at-upsert, upsert-IsUnique}
use wisetraceloom.Prompts.{
  PromptVersion, PromptAlias, AliasKey, Prompts, normalize_alias, resolve_prompt_alias,
  find_version, prompt_version_error,
}
use wisetraceloom.Prompts.Promotion.{check_alias, set_prompt_alias}
use wisetraceloom.Evaluation.{Floats, Evaluation}
use wisetraceloom.Prompts.Pointers.{written_to, point_alias-upsert}

AliasRow-set : IsSet (Row AliasKey PromptAlias)
AliasRow-set = hlevel

-- Slot and alias agree.
abbrev pub same_key : AliasKey → AliasKey → Bool
same_key j k = j == k

-- What a pointer, or none, resolves to.
abbrev points_at : List PromptVersion → Option PromptAlias → Result (Option PromptVersion)
points_at versions none = ok none
points_at versions (some pointer) = elim (find_version pointer.prompt_version_id versions) [
  | none ↦ err prompt_version_error
  | some v ↦ ok (some v)
]

exchange :
    (versions : List PromptVersion) (pointer : PromptAlias) (old : Option PromptAlias) (b c : Bool)
    → (b ≡ true → c ≡ false)
    → (if c then ok none else points_at versions (if b then some pointer else old)) ≡ (
        if b
        then points_at versions (some pointer)
        else (if c then ok none else points_at versions old))
exchange versions pointer old true c h = rw (h refl) refl
exchange versions pointer old false c h = refl

module _ (sql : Sql) (lower : Text → Text) where
  resolve_prompt_alias-points_at :
      (slot alias : Text) (p : Prompts)
      → IsUnique p.aliases
      → resolve_prompt_alias sql lower slot alias p ≡ (
          let name = normalize_alias lower alias in
          if name == [] then ok none else points_at p.versions (value_at (slot, name) p.aliases))
  unfolding resolve_prompt_alias
  resolve_prompt_alias-points_at slot alias p u =
      elim (find_cases sql AliasRow-set (slot, normalize_alias lower alias) p.aliases u) [
        | inl (f, _, v) ↦ rw (f, v) refl
        | inr (r, f, _, v) ↦ rw (f, v) refl
      ]

  resolve_prompt_alias-upsert :
      (slot name : Text) (pointer : PromptAlias) (p : Prompts) (table : Rows AliasKey PromptAlias)
      → IsUnique table
      → text_eq name [] ≡ false
      → (slot' alias' : Text)
      → resolve_prompt_alias sql lower slot' alias'
          (record p { aliases = upsert sql (slot, name) pointer table })
        ≡ (if same_key (slot, name) (slot', normalize_alias lower alias')
            then points_at p.versions (some pointer)
            else resolve_prompt_alias sql lower slot' alias' (record p { aliases = table }))
  resolve_prompt_alias-upsert slot name pointer p table unique named slot' alias' =
      let key' : AliasKey = (slot', normalize_alias lower alias') in
      let other_name : same_key (slot, name) key' ≡ true → text_eq key'.1 [] ≡ false =
        λ t. subst (λ k. text_eq k.1 [] ≡ false) ((pair_eq_iff (slot, name) key').0 t) named in
      resolve_prompt_alias-points_at slot' alias'
        (record p { aliases = upsert sql (slot, name) pointer table })
        (upsert-IsUnique sql AliasRow-set (slot, name) pointer table unique)
      ∙ ap (λ a. if text_eq key'.1 [] then ok none else points_at p.versions a)
          (value_at-upsert sql AliasRow-set (slot, name) key' pointer table unique)
      ∙ exchange p.versions pointer (value_at key' table) (same_key (slot, name) key')
          (text_eq key'.1 []) other_name
      ∙ ap (λ r. if same_key (slot, name) key' then points_at p.versions (some pointer) else r)
          (sym (resolve_prompt_alias-points_at slot' alias' (record p { aliases = table }) unique))

  module _ (floats : Floats) {D : Type 0} where
    open floats use {F}

    check_alias-found :
        (slot name : Text) (id : ℕ) (p : Prompts) (e : Evaluation D F) (u : Unit {0})
        → check_alias sql lower floats slot name id p e ≡ ok u
        → (text_eq name [] ≡ false)
          × ((v : PromptVersion) × (find_version id p.versions ≡ some v) × (v.slot_name ≡ slot))
    unfolding check_alias
    check_alias-found slot name id p e u fine = elim (Bool-cases (text_eq name [])) [
      | inl t ↦ absurd (cc (rw (check_alias, t) at fine))
      | inr t ↦ elim (Option-cases (find_version id p.versions)) [
        | inl n ↦ absurd (cc (rw (check_alias, t, n) at fine))
        | inr (v, f) ↦ elim (Bool-cases (text_eq v.slot_name slot)) [
          | inr other ↦ absurd (cc (rw (check_alias, t, f, other) at fine))
          | inl same ↦ (t, (v, f, (text_eq_iff v.slot_name slot).0 same))
        ]
      ]
    ]

    set_prompt_alias-upsert :
        (rival reload : Rows AliasKey PromptAlias → Rows AliasKey PromptAlias)
        → (slot alias : Text) (id now : ℕ) (p : Prompts) (e : Evaluation D F)
        → (row : Row AliasKey PromptAlias) (u : Unit {0})
        → let key : AliasKey = (slot, normalize_alias lower alias) in
          check_alias sql lower floats slot (normalize_alias lower alias) id p e ≡ ok u
          → (set_prompt_alias sql lower floats rival reload slot alias id now p e).0 ≡ ok row
          → (set_prompt_alias sql lower floats rival reload slot alias id now p e).1 ≡ record p {
            aliases =
                upsert sql key
                  (record { prompt_version_id = id; updated_at = now })
                  (written_to sql rival reload key p.aliases);
          }
    unfolding set_prompt_alias
    set_prompt_alias-upsert rival reload slot alias id now p e row u fine a =
        let key : AliasKey = (slot, normalize_alias lower alias) in
        let pointer : PromptAlias = record { prompt_version_id = id; updated_at = now } in
        rw (set_prompt_alias, fine)
          (ap (λ aliases. record p { aliases = aliases })
            (point_alias-upsert sql rival reload key pointer p.aliases row
              (rw (set_prompt_alias, fine) at a)))

    set_prompt_alias-checked :
        (rival reload : Rows AliasKey PromptAlias → Rows AliasKey PromptAlias)
        → (slot alias : Text) (id now : ℕ) (p : Prompts) (e : Evaluation D F)
        → (row : Row AliasKey PromptAlias)
        → (set_prompt_alias sql lower floats rival reload slot alias id now p e).0 ≡ ok row
        → (u : Unit {0}) × (check_alias sql lower floats slot (normalize_alias lower alias) id p e
            ≡ ok u)
    unfolding set_prompt_alias
    set_prompt_alias-checked rival reload slot alias id now p e row a =
        elim (Result-cases
          (check_alias sql lower floats slot (normalize_alias lower alias) id p e)) [
            | inr (x, bad) ↦ absurd (cc (rw (set_prompt_alias, bad) at a))
            | inl (u, fine) ↦ (u, fine)
          ]

    -- If the table that the pointer is written to has unique rows, then after a set_prompt_alias
    -- that is not an error the version exists in the slot, the alias resolves to it, and every
    -- other alias resolves to what it did in that table, also where other sessions commit in
    -- between.
    pub resolve_prompt_alias-set_prompt_alias :
        (rival reload : Rows AliasKey PromptAlias → Rows AliasKey PromptAlias)
        → (slot alias : Text) (id now : ℕ) (p : Prompts) (e : Evaluation D F)
        → (row : Row AliasKey PromptAlias)
        → let name = normalize_alias lower alias in
          let met = written_to sql rival reload (slot, name) p.aliases in
          let after = set_prompt_alias sql lower floats rival reload slot alias id now p e in
          IsUnique met
          → after.0 ≡ ok row
          → (v : PromptVersion) × (find_version id p.versions ≡ some v)
            × (v.slot_name ≡ slot)
            × ((slot' alias' : Text)
                → resolve_prompt_alias sql lower slot' alias' after.1 ≡ (
                    if same_key (slot, name) (slot', normalize_alias lower alias')
                    then ok (some v)
                    else resolve_prompt_alias sql lower slot' alias' (record p { aliases = met })))
    resolve_prompt_alias-set_prompt_alias rival reload slot alias id now p e row unique a =
        let name = normalize_alias lower alias in
        let key : AliasKey = (slot, name) in
        let pointer : PromptAlias = record { prompt_version_id = id; updated_at = now } in
        let (u, fine) = set_prompt_alias-checked rival reload slot alias id now p e row a in
        let (named, (v, f, same)) = check_alias-found slot name id p e u fine in
        let after = set_prompt_alias-upsert rival reload slot alias id now p e row u fine a in
        (
          v,
          f,
          same,
          λ slot' alias'.
              ap (resolve_prompt_alias sql lower slot' alias') after
              ∙ resolve_prompt_alias-upsert slot name pointer p
                  (written_to sql rival reload key p.aliases) unique named slot' alias'
              ∙ ap
                  (λ r.
                    if same_key key (slot', normalize_alias lower alias')
                    then r
                    else resolve_prompt_alias sql lower slot' alias'
                        (record p { aliases = written_to sql rival reload key p.aliases }))
                  (rw (points_at, f) refl),
        )
