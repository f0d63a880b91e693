-- ===== src/Cost/Spending.antt =====
-- No spend is lost: the totals after any sequence of recorded amounts.

use wisetraceloom.Prelude.{
  pair_Eq, pair_eq, pair_eq_iff, ℕ, ◌≡◌, ◌≢◌, inl, inr, refl, sym, ap, ◌∙◌, true, false, ◌==◌,
  if◌then◌else◌, Option, none, some, List, [], ◌∷◌, Text, text_Eq, option_Eq, nat_Eq, filter_by,
  All, arith, Bool-cases, Option-cases,
}
use mathlib.Core.Option
use mathlib.Core.List.{List}
use wisetraceloom.Sql.{Sql}
use wisetraceloom.Config.{Row, next_id}
use wisetraceloom.Config.Rows.{IsUnique, value_at, find_cases}
use wisetraceloom.Config.Upserts.{IsUnique-append, absent→apart, value_at-append, below_next_id}
use wisetraceloom.Cost.{
  Amounts, TenantDailySpend, SpendKey, SpendTable, has_key, add_to_row, record_spend,
  get_daily_spend,
}

pub SpendRow-set : (amounts : Amounts) → IsSet (Row SpendKey (TenantDailySpend amounts.F))
SpendRow-set amounts = let s = amounts.F_set in hlevel

-- One recorded amount.
pub record Payment (F : Type 0) : Type 0 where
  pub tenant : Text
  pub amount : F
  pub day : ℕ
  pub now : ℕ

module _ (sql : Sql) (amounts : Amounts) where
  open amounts use {F, plus, nil}

  -- The row after an amount was added to what was there.
  abbrev bump : F → ℕ → Option (TenantDailySpend F) → TenantDailySpend F
  bump amount now none = record { total_usd = amount; updated_at = now }
  bump amount now (some v) = record { total_usd = plus v.total_usd amount; updated_at = now }

  has_key-false :
      (key : SpendKey) (table : SpendTable sql amounts)
      → has_key sql amounts key table ≡ false
      → (filter_by (λ r. r.key == key) table ≡ []) × (value_at key table ≡ none)
  unfolding has_key filter_by
  has_key-false key [] e = (refl, refl)
  has_key-false key (r ∷ table) e =
      let other : (r.key == key) ≡ false = ground arith in
      let (p, q) = has_key-false key table (ground arith) in (rw other p, rw other q)

  has_key-true :
      (key : SpendKey) (table : SpendTable sql amounts)
      → has_key sql amounts key table ≡ true
      → (v : TenantDailySpend F) × (value_at key table ≡ some v)
  unfolding has_key
  has_key-true key [] e = cc e
  has_key-true key (r ∷ table) e = elim (Bool-cases (r.key == key)) [
    | inl t ↦ (r.value, rw t refl)
    | inr f ↦ let (v, q) = has_key-true key table (ground (arith, f, e)) in (v, rw f q)
  ]

  Apart-add_to_row :
      (key : SpendKey) (amount : F) (now : ℕ) (k : SpendKey) (j : ℕ)
      (table : SpendTable sql amounts)
      → All (λ s. (k ≢ s.key) × (j ≢ s.id)) table
      → All (λ s. (k ≢ s.key) × (j ≢ s.id)) (add_to_row sql amounts key amount now table)
  unfolding add_to_row
  Apart-add_to_row key amount now k j [] u = tt
  Apart-add_to_row key amount now k j (r ∷ table) u = elim (Bool-cases (r.key == key)) [
    | inl t ↦ rw t (u.0, u.1)
    | inr f ↦ rw f (u.0, Apart-add_to_row key amount now k j table u.1)
  ]

  add_to_row-IsUnique :
      (key : SpendKey) (amount : F) (now : ℕ) (table : SpendTable sql amounts)
      → IsUnique table
      → IsUnique (add_to_row sql amounts key amount now table)
  unfolding add_to_row
  add_to_row-IsUnique key amount now [] u = tt
  add_to_row-IsUnique key amount now (r ∷ table) u = elim (Bool-cases (r.key == key)) [
    | inl t ↦ rw t (u.0, u.1)
    | inr f ↦ rw f (
      Apart-add_to_row key amount now r.key r.id table u.0,
      add_to_row-IsUnique key amount now table u.1,
    )
  ]

  distinct : (i j k : SpendKey) → (i == j) ≡ false → (i == k) ≡ true → (j == k) ≡ false
  distinct i j k f t = elim (Bool-cases (j == k)) [
    | inr o ↦ o
    | inl s ↦
        absurd (cc (f, (pair_eq_iff i j).1 ((pair_eq_iff i k).0 t ∙ sym ((pair_eq_iff j k).0 s))))
  ]

  value_at-add_to_row :
      (key k : SpendKey) (amount : F) (now : ℕ) (v : TenantDailySpend F)
      (table : SpendTable sql amounts)
      → value_at key table ≡ some v
      → value_at k (add_to_row sql amounts key amount now table)
        ≡ (if key == k then some (bump amount now (some v)) else value_at k table)
  unfolding add_to_row
  value_at-add_to_row key k amount now v [] q = cc q
  value_at-add_to_row key k amount now v (r ∷ table) q = elim (Bool-cases (r.key == key)) [
    | inl t ↦
        let same : r.key ≡ key = (pair_eq_iff r.key key).0 t in
        let held : r.value ≡ v = cc (rw t at q) in
        rw (t, same)
          (rw held (elim (Bool-cases (key == k)) [ inl o ↦ rw o refl | inr o ↦ rw o refl ]))
    | inr f ↦
        let ih = value_at-add_to_row key k amount now v table (rw f at q) in
        rw f (elim (Bool-cases (r.key == k)) [
          | inr o ↦ rw o ih
          | inl t ↦ let apart : (key == k) ≡ false = distinct r.key key k f t in rw (t, apart) refl
        ])
  ]

  pub record_spend-IsUnique :
      (tenant : Text) (amount : F) (day now : ℕ) (table : SpendTable sql amounts)
      → IsUnique table
      → IsUnique (record_spend sql amounts tenant amount day now table)
  unfolding record_spend
  record_spend-IsUnique tenant amount day now table u =
      elim (Bool-cases (has_key sql amounts (tenant, day) table)) [
        | inl t ↦ rw t (add_to_row-IsUnique (tenant, day) amount now table u)
        | inr f ↦ rw f (
            IsUnique-append table _ u (
              absent→apart (tenant, day) (next_id sql table) table
                (has_key-false (tenant, day) table f).0
                (below_next_id sql (SpendRow-set amounts) table)))
      ]

  value_at-record_spend :
      (tenant : Text) (amount : F) (day now : ℕ) (k : SpendKey) (table : SpendTable sql amounts)
      → value_at k (record_spend sql amounts tenant amount day now table) ≡ (
          if (tenant, day) == k
          then some (bump amount now (value_at (tenant, day) table))
          else value_at k table)
  unfolding record_spend
  value_at-record_spend tenant amount day now k table =
      elim (Bool-cases (has_key sql amounts (tenant, day) table)) [
        | inl t ↦
            let (v, q) = has_key-true (tenant, day) table t in
            rw (t, q) (value_at-add_to_row (tenant, day) k amount now v table q)
        | inr f ↦
            let q = (has_key-false (tenant, day) table f).1 in
            rw (f, q) (value_at-append k table _ q)
      ]

  -- The payments in the order in which their statements were executed.
  unfoldable pub record_all : List (Payment F) → SpendTable sql amounts → SpendTable sql amounts
  record_all [] table = table
  record_all (p ∷ payments) table =
      record_all payments (record_spend sql amounts p.tenant p.amount p.day p.now table)

  -- The sum of the payments for one tenant and day, on top of what there was.
  abbrev pub tally : SpendKey → Option F → List (Payment F) → Option F
  tally key total [] = total
  tally key total (p ∷ payments) =
      tally key
        (if (p.tenant, p.day) == key
          then some (elim total [ none ↦ p.amount | some x ↦ plus x p.amount ])
          else total)
        payments

  one_more :
      (p : Payment F) (key : SpendKey) (table : SpendTable sql amounts)
      → Option.map
          (λ v. v.total_usd)
          (value_at key (record_spend sql amounts p.tenant p.amount p.day p.now table))
        ≡ (if (p.tenant, p.day) == key
            then some (elim (Option.map (λ v. v.total_usd) (value_at key table)) [
              | none ↦ p.amount
              | some x ↦ plus x p.amount
            ])
            else Option.map (λ v. v.total_usd) (value_at key table))
  one_more p key table =
      ap (Option.map (λ v. v.total_usd))
        (value_at-record_spend p.tenant p.amount p.day p.now key table)
      ∙ elim (Bool-cases (pair_eq (p.tenant, p.day) key)) [
        | inl t ↦
            let same : (p.tenant, p.day) ≡ key = (pair_eq_iff (p.tenant, p.day) key).0 t in
            rw (t, same)
              (elim (Option-cases (value_at key table)) [
                | inl n ↦ rw n refl
                | inr (v, q) ↦ rw q refl
              ])
        | inr f ↦ rw f refl
      ]

  pub value_at-record_all :
      (payments : List (Payment F)) (key : SpendKey) (table : SpendTable sql amounts)
      → Option.map (λ v. v.total_usd) (value_at key (record_all payments table))
        ≡ tally key (Option.map (λ v. v.total_usd) (value_at key table)) payments
  unfolding record_all
  value_at-record_all [] key table = refl
  value_at-record_all (p ∷ payments) key table =
      value_at-record_all payments key _ ∙ ap (λ o. tally key o payments) (one_more p key table)

  record_all-IsUnique :
      (payments : List (Payment F)) (table : SpendTable sql amounts)
      → IsUnique table
      → IsUnique (record_all payments table)
  unfolding record_all
  record_all-IsUnique [] table u = u
  record_all-IsUnique (p ∷ payments) table u =
      record_all-IsUnique payments _ (record_spend-IsUnique p.tenant p.amount p.day p.now table u)

  pub get_daily_spend-value_at :
      (tenant : Text) (day : ℕ) (table : SpendTable sql amounts)
      → IsUnique table
      → get_daily_spend sql amounts tenant day table
        ≡ Option.get_or (Option.map (λ v. v.total_usd) (value_at (tenant, day) table)) nil
  unfolding get_daily_spend
  get_daily_spend-value_at tenant day table u =
      elim (find_cases sql (SpendRow-set amounts) (tenant, day) table u) [
        | inl (n, _, v) ↦ rw (n, v) refl
        | inr (r, s, _, v) ↦ rw (s, v) refl
      ]

  -- On totals with unique rows, the daily spend after any sequence of recorded amounts is what
  -- there was with each amount for that tenant and day added, in that order.
  pub get_daily_spend-record_all :
      (payments : List (Payment F)) (tenant : Text) (day : ℕ) (table : SpendTable sql amounts)
      → IsUnique table
      → get_daily_spend sql amounts tenant day (record_all payments table)
        ≡ Option.get_or
            (tally
              (tenant, day)
              (Option.map (λ v. v.total_usd) (value_at (tenant, day) table))
              payments)
            nil
  get_daily_spend-record_all payments tenant day table u =
      get_daily_spend-value_at tenant day (record_all payments table)
        (record_all-IsUnique payments table u)
      ∙ ap (λ o. Option.get_or o nil) (value_at-record_all payments (tenant, day) table)
