-- ===== src/Sql.antt =====
-- What the program relies on of SQLite through SQLModel. A table is the list of its rows; what a
-- statement leaves to the engine is a parameter, with the documented behaviour as laws.
pub mod Order
use mathlib.Core.List.{Perm, Memᴰ, head?}
use wisetraceloom.Prelude.{
  ℕ, ◌≤◌, ◌<◌, ◌≡◌, ◌≢◌, Bool, Option, none, some, List, [], ◌∷◌, filter_by, All,
}

-- The keys of the rows do not fall.
abbrev pub IsSorted {ℓ} : {R : Type ℓ} → (R → ℕ) → List R → Type 0
IsSorted key [] = Unit
IsSorted key (r ∷ rows) = All (λ s. key r ≤ key s) rows × IsSorted key rows

-- The keys of the rows rise, so no two rows share one.
abbrev pub IsRising {ℓ} : {R : Type ℓ} → (R → ℕ) → List R → Type 0
IsRising key [] = Unit
IsRising key (r ∷ rows) = All (λ s. key r < key s) rows × IsRising key rows

pub record Sql : Type 1 where
  -- The order in which a SELECT with no ORDER BY returns the rows that it selects.
  pub arrange : (R : Type 0) → List R → List R
  pub arrange_perm : (R : Type 0) (rows : List R) → Perm (arrange R rows) rows
  -- ORDER BY an integer column.
  pub order_by : (R : Type 0) → (R → ℕ) → List R → List R
  pub order_by_perm : (R : Type 0) (key : R → ℕ) (rows : List R) → Perm (order_by R key rows) rows
  pub order_by_sorted :
      (R : Type 0) (key : R → ℕ) (rows : List R) → IsSorted key (order_by R key rows)
  -- The aggregate max(column): NULL over no rows.
  pub max : List ℕ → Option ℕ
  pub max_nil : max [] ≡ none
  pub max_cons : (n : ℕ) (l : List ℕ) → max (n ∷ l) ≢ none
  pub max_bounds : (l : List ℕ) (m : ℕ) → max l ≡ some m → All (λ n. n ≤ m) l
  pub max_mem : (l : List ℕ) (m : ℕ) → max l ≡ some m → Memᴰ m l

-- SELECT … WHERE, all the rows or the first of them.
module _ (sql : Sql) (R : Type 0) (p : R → Bool) (table : List R) where
  abbrev pub select : List R
  select = sql.arrange R (filter_by p table)

  abbrev pub select_first : Option R
  select_first = head? select
