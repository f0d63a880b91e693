-- ===== src/Sql/Order.antt =====
-- What the laws of the engine give: a selection of one row, and the order by a rising column.
use mathlib.Core.List.Perm
use mathlib.Core.List.{
  Perm, Mem, mem-cons, mem-cons_self, mem-cons_of_mem, mem-singleton, not-mem-nil, perm-cons, head?,
}
use mathlib.Core.Logic.Or
use native.Mathlib.Bridge.{le_prop}
use wisetraceloom.Prelude.{
  suc, ℕ, length, Bool, some, ◌∙◌, ◌≤◌, ◌<◌, ◌≡◌, sym, ap, List, [], ◌∷◌, All, arith, Bool, none,
  false, filter_by, filter_by-nil, refl,
}
use mathlib.Core.Path.{ap₂, subst}
use wisetraceloom.Sql.{IsSorted, IsRising, Sql, select, select_first}
use mathlib.Core.Nat
use mathlib.Core.List

module _ {ℓ κ} {R : Type ℓ} (P : R → Type κ) where
  pub mem→All : (rows : List R) → ((r : R) → Mem r rows → P r) → All P rows
  mem→All [] h = tt
  mem→All (r ∷ rows) h = (h r mem-cons_self, mem→All rows (λ s m. h s (mem-cons_of_mem r m)))

  pub All→mem : ((r : R) → IsProp (P r)) → (rows : List R) (r : R) → All P rows → Mem r rows → P r
  All→mem prop [] r h m = absurd (not-mem-nil m)
  All→mem prop (s ∷ rows) r h m =
      Or.elim (prop r) (mem-cons.0 m) (λ e. rw e h.0) (All→mem prop rows r h.1)

  pub All-perm :
      ((r : R) → IsProp (P r)) → (rows rows' : List R) → Perm rows' rows → All P rows → All P rows'
  All-perm prop rows rows' perm h =
      mem→All rows' (λ r m. All→mem prop rows r h ((Perm.mem_iff perm).0 m))

module _ {ℓ} {R : Type ℓ} (set : IsSet R) where
  -- A permutation of one row is that row.
  pub perm_one : (rows : List R) (r : R) → Perm rows (r ∷ []) → rows ≡ r ∷ []
  perm_one [] r perm = absurd (not-mem-nil ((Perm.mem_iff perm).1 mem-cons_self))
  perm_one (s ∷ []) r perm =
      ap (λ t. t ∷ []) ((mem-singleton (set)).0 ((Perm.mem_iff perm).0 mem-cons_self))
  perm_one (s ∷ t ∷ rows) r perm = cc (Perm.length-eq perm)

  -- ORDER BY a column that rises along a list of the same rows gives that list.
  pub rising_unique :
      (key : R → ℕ) (rows rows' : List R)
      → IsSorted key rows
      → IsRising key rows'
      → Perm rows rows'
      → rows ≡ rows'
  rising_unique key [] rows' s t perm = Perm.nil-eq perm
  rising_unique key (x ∷ rows) [] s t perm = cc (Perm.eq-nil perm)
  rising_unique key (x ∷ rows) (y ∷ rows') s t perm =
      let same : x ≡ y =
        Or.elim (set x y) (mem-cons.0 ((Perm.mem_iff perm).0 mem-cons_self)) (λ e. e)
          (λ m.
            Or.elim (set x y) (mem-cons.0 ((Perm.mem_iff perm).1 mem-cons_self)) (λ e. sym e)
              λ n. absurd (
                omega (
                  arith,
                  All→mem (λ r. key y < key r) (λ r. le_prop) rows' x t.0 m,
                  All→mem (λ r. key x ≤ key r) (λ r. le_prop) rows y s.0 n,
                ))) in
      ap₂ ◌∷◌ same (rising_unique key rows rows' s.1 t.1 ((perm-cons y).0 (rw same at perm)))

head?-none : {R : Type 0} (rows : List R) → head? rows ≡ none → rows ≡ []
head?-none [] e = refl
head?-none (r ∷ rows) e = cc e

-- A select that gives no first row has met none.
pub select_first-none :
    (sql : Sql) (R : Type 0) (p : R → Bool) (table : List R)
    → select_first sql R p table ≡ none
    → All (λ r. p r ≡ false) table
select_first-none sql R p table e =
    let rows = sql.arrange R (filter_by p table) in
    let empty : rows ≡ [] = head?-none rows e in
    filter_by-nil p table (
      sym (
        Perm.nil-eq
          (subst (λ z. Perm z (filter_by p table)) empty (sql.arrange_perm R (filter_by p table)))))

-- A selection of one row gives that row first.
pub select_first-one :
    (sql : Sql) (R : Type 0)
    → IsSet R
    → (p : R → Bool) (table : List R) (r : R) → filter_by p table ≡ r ∷ []
    → select_first sql R p table ≡ some r
select_first-one sql R set p table r e = ap head? (
    perm_one set _ r (
      subst (λ l. Perm (sql.arrange R (filter_by p table)) l) e
        (sql.arrange_perm R (filter_by p table))))

abbrev as_native : Nat.ℕ → ℕ
as_native Nat.zero = 0
as_native (Nat.suc n) = suc (as_native n)

length-native : {R : Type 0} (rows : List R) → length rows ≡ as_native (List.length rows)
length-native [] = refl
length-native (r ∷ rows) = ap suc (length-native rows)

-- A selection has as many rows as pass the test.
pub length-select :
    (sql : Sql) (R : Type 0) (p : R → Bool) (table : List R)
    → length (select sql R p table) ≡ length (filter_by p table)
length-select sql R p table =
    length-native (select sql R p table)
    ∙ ap as_native (Perm.length-eq (sql.arrange_perm R (filter_by p table)))
    ∙ sym (length-native (filter_by p table))
