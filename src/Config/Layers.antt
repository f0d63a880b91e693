-- ===== src/Config/Layers.antt =====
-- The fallback from tenant to global to default, described apart from the queries.
use mathlib.Core.Path.{fun_ext}
use wisetraceloom.Prelude.{
  ◌≡◌, ap, ◌∙◌, Option, none, some, Text, option_Eq, text_Eq, if◌then◌else◌, ◌==◌, arith, inl, inr,
}
use wisetraceloom.Sql.{Sql}
use wisetraceloom.Config.{Row, Rows, resolve, upsert}
use wisetraceloom.Config.Rows.{value_at, IsUnique, find_cases}
use wisetraceloom.Config.Upserts.{value_at-upsert, upsert-IsUnique}

-- The value of a tenant over a view of the table: its own, else the global one.
abbrev pub layered {ℓ} : {V : Type ℓ} → Option Text → (Option Text → Option V) → Option V
layered none view = view none
layered (some tenant) view = elim (view (some tenant)) [ some v ↦ some v | none ↦ view none ]

module _ {V : Type 0} (sql : Sql) (set : IsSet (Row (Option Text) V)) where
  pub resolve-layered :
      (tenant : Option Text) (table : Rows (Option Text) V)
      → IsUnique table
      → resolve sql tenant table ≡ layered tenant (λ k. value_at k table)
  unfolding resolve
  resolve-layered none table u = elim (find_cases sql set none table u) [
    | inl (n, _, v) ↦ ground (arith, n, v)
    | inr (r, s, _, v) ↦ ground (arith, s, v)
  ]
  resolve-layered (some t) table u = elim (find_cases sql set (some t) table u) [
    | inr (r, s, _, v) ↦ ground (arith, s, v)
    | inl (n, _, v) ↦ elim (find_cases sql set none table u) [
      | inl (m, _, w) ↦ ground (arith, n, v, m, w)
      | inr (r, s, _, w) ↦ ground (arith, n, v, s, w)
    ]
  ]

  -- On a table with unique rows, what a tenant resolves to after a write for one key is the
  -- tenant's value, else the global one, over the table with that key overwritten.
  pub resolve-upsert :
      (tenant k : Option Text) (v : V) (table : Rows (Option Text) V)
      → IsUnique table
      → resolve sql tenant (upsert sql k v table)
        ≡ layered tenant (λ j. if k == j then some v else value_at j table)
  resolve-upsert tenant k v table u =
      resolve-layered tenant (upsert sql k v table) (upsert-IsUnique sql set k v table u)
      ∙ ap (layered tenant) (fun_ext λ j. value_at-upsert sql set k j v table u)
