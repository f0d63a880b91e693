-- ===== src/Config.antt =====
-- The convention that every configuration domain of wisetraceloom follows: a table with one row for
-- a tenant, or for no tenant, resolved tenant first, then global, then a default.
pub mod Rows
pub mod Upserts
pub mod Layers
pub mod Cache
pub mod Coherence
pub mod Tables
use mathlib.Core.Option
use wisetraceloom.Prelude.{
  or_zero, ℕ, ◌+◌, Bool, ◌==◌, Eq, if◌then◌else◌, Option, none, some, List, [], ◌∷◌, ◌++◌, map,
  Text, text_Eq, nat_Eq, option_Eq, filter_by, All, ◌≡◌, ◌≢◌,
}
use wisetraceloom.Sql.{Sql, select_first}

-- A row: its primary key, the columns that it is found by, and the others.
pub record Row (K V : Type 0) : Type 0 where
  pub id : ℕ
  pub key : K
  pub value : V

abbrev pub Rows : Type 0 → Type 0 → Type 0
Rows K V = List (Row K V)

module _ {K V : Type 0} where
  -- The ORM writes the columns of one object back to the row with its primary key.
  unfoldable pub write_back : ℕ → V → Rows K V → Rows K V
  write_back i v [] = []
  write_back i v (r ∷ table) =
      (if r.id == i then record r { value = v } else r) ∷ write_back i v table

module _ (sql : Sql) {K V : Type 0} ⦃e : Eq K⦄ where
  -- `session.exec(select(T).where(T.key == key)).first()`
  unfoldable pub find : K → Rows K V → Option (Row K V)
  find k table = select_first sql (Row K V) (λ r. r.key == k) table

  -- The primary key of a new row: SQLite takes one more than the largest.
  unfoldable pub next_id : Rows K V → ℕ
  next_id table = or_zero (sql.max (map (λ r. r.id) table)) + 1

  -- The common `set_…_config`: write the columns to the row that is found, or to a new row.
  unfoldable pub upsert : K → V → Rows K V → Rows K V
  unfolding find next_id write_back
  upsert k v table = elim (find k table) [
    | none ↦ table ++ record { id = next_id table; key = k; value = v } ∷ []
    | some r ↦ write_back r.id v table
  ]

module _ (sql : Sql) {V : Type 0} where
  -- The common `get_…_config`: the tenant's row if a tenant is given and has one, else the global.
  unfoldable pub resolve : Option Text → Rows (Option Text) V → Option V
  unfolding find
  resolve none table = Option.map (λ r. r.value) (find sql none table)
  resolve (some tenant) table = elim (find sql (some tenant) table) [
    | some r ↦ some r.value
    | none ↦ Option.map (λ r. r.value) (find sql none table)
  ]
