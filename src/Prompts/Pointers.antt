-- ===== src/Prompts/Pointers.antt =====
-- wisetraceloom/prompts.py: the write of a pointer is an upsert on the table that it meets, also behind an
-- IntegrityError.
use wisetraceloom.Prelude.{
  pair_Eq, ◌≡◌, inl, inr, refl, sym, ap, ◌∙◌, none, some, [], ◌∷◌, ◌++◌, text_Eq, option_Eq, nat_Eq,
  Option-cases,
}
use wisetraceloom.Results.{ok}
use wisetraceloom.Sql.{Sql}
use wisetraceloom.Config.{Row, Rows, find, upsert, next_id, write_back}
use wisetraceloom.Prompts.{PromptAlias, AliasKey}
use wisetraceloom.Prompts.Promotion.{point_alias}

module _ (sql : Sql) (key : AliasKey) (pointer : PromptAlias)
    (table : Rows AliasKey PromptAlias) where
  upsert-none :
      find sql key table ≡ none
      → upsert sql key pointer table
        ≡ table ++ record { id = next_id sql table; key = key; value = pointer } ∷ []
  unfolding upsert
  upsert-none f = rw (f, upsert) refl

  upsert-some :
      (r : Row AliasKey PromptAlias)
      → find sql key table ≡ some r
      → upsert sql key pointer table ≡ write_back r.id pointer table
  unfolding upsert
  upsert-some r f = rw (f, upsert) refl

module _ (sql : Sql) (rival reload : Rows AliasKey PromptAlias → Rows AliasKey PromptAlias) where
  -- The table that a pointer is written to, with what the other sessions committed before.
  abbrev pub written_to : AliasKey → Rows AliasKey PromptAlias → Rows AliasKey PromptAlias
  written_to key table = elim (find sql key table) [
    | some r ↦ table
    | none ↦ elim (find sql key (rival table)) [
      | none ↦ rival table
      | some r ↦ reload (rival table)
    ]
  ]

  -- The write is an upsert, whichever branch is taken.
  pub point_alias-upsert :
      (key : AliasKey) (pointer : PromptAlias) (table : Rows AliasKey PromptAlias)
      → (row : Row AliasKey PromptAlias)
      → (point_alias sql rival reload key pointer table).0 ≡ ok row
      → (point_alias sql rival reload key pointer table).1
        ≡ upsert sql key pointer (written_to key table)
  unfolding point_alias upsert
  point_alias-upsert key pointer table row a =
      let kept = λ (t : Rows AliasKey PromptAlias) (w : written_to key table ≡ t).
        ap (upsert sql key pointer) (sym w) in
      elim (Option-cases (find sql key table)) [
        | inr (r, f) ↦
            rw (f, point_alias) (sym (upsert-some sql key pointer table r f))
            ∙ kept table (rw (f, written_to) refl)
        | inl f ↦ elim (Option-cases (find sql key (rival table))) [
          | inl g ↦
              rw (f, g, point_alias) (sym (upsert-none sql key pointer (rival table) g))
              ∙ kept (rival table) (rw (f, g, written_to) refl)
          | inr (r, g) ↦ elim (Option-cases (find sql key (reload (rival table)))) [
            | inl h ↦ absurd (cc (rw (point_alias, f, g, h) at a))
            | inr (s, h) ↦
                rw (f, g, h, point_alias)
                  (sym (upsert-some sql key pointer (reload (rival table)) s h))
                ∙ kept (reload (rival table)) (rw (f, g, written_to) refl)
          ]
        ]
      ]
