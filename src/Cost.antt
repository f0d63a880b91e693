-- ===== src/Cost.antt =====
-- wisetraceloom/cost.py: prices, daily totals and the daily cap. A day stands for its ISO date.
pub mod Spending
pub mod Quotas
use wisetraceloom.Prelude.{
  pair_Eq, ℕ, zero, suc, ◌+◌, ◌-◌, ◌≤◌, ◌<◌, ◌≡◌, ◌≢◌, ◌↔◌, ◌⊎◌, inl, inr, refl, sym, ap, ◌∙◌, Bool,
  true, false, not, ◌&&◌, ◌||◌, ◌==◌, Eq, if◌then◌else◌, Option, none, some, List, [], ◌∷◌, ◌++◌,
  map, Text, codes, text_eq, text_eq_iff, text_eq_refl, text_Eq, option_Eq, nat_Eq, option_eq_iff,
  filter_by, All, length, arith, ltb, leb, nat_eq, nat_eq_iff, Bool-cases, Option-cases, strip,
  has_char, decimal, join, last?,
}
use mathlib.Core.Option
use mathlib.Core.List.{List}
use wisetraceloom.Results.{Result, ok, err, quota_exceeded}
use wisetraceloom.Sql.{Sql, select}
use wisetraceloom.Config.{Row, Rows, find, upsert, resolve, next_id}
use wisetraceloom.Config.Tables.{Dated, ConfigTable}

-- The floats, as far as the code computes with them.
pub record Amounts : Type 1 where
  pub F : Type 0
  pub F_set : IsSet F
  pub nil : F
  pub plus : F → F → F
  pub times : F → F → F
  -- `n / 1000`
  pub thousandths : ℕ → F
  -- `total / days`
  pub over : F → ℕ → F
  -- `a >= b` and `a > b`
  pub at_least : F → F → Bool
  pub above : F → F → Bool

-- The prices of one row, per thousand tokens.
pub record PricingConfig (F : Type 0) : Type 0 where
  pub input_cost_per_1k_usd : F
  pub output_cost_per_1k_usd : F
  pub cache_read_cost_per_1k_usd : F
  pub cache_creation_cost_per_1k_usd : F

-- Tenant, provider and model.
abbrev pub PricingKey : Type 0
PricingKey = (Option Text × Text) × Text

-- The token counts of a call.
pub record Tokens : Type 0 where
  pub input_tokens : Option ℕ
  pub output_tokens : Option ℕ
  pub cache_read_input_tokens : Option ℕ
  pub cache_creation_input_tokens : Option ℕ

pub record TenantDailySpend (F : Type 0) : Type 0 where
  pub total_usd : F
  pub updated_at : ℕ

-- Tenant and day: the unique columns of the totals.
abbrev pub SpendKey : Type 0
SpendKey = Text × ℕ

module _ (sql : Sql) (amounts : Amounts) where
  open amounts use {F, nil, plus, times, thousandths, over, at_least, above}

  abbrev pub PricingTable : Type 0
  PricingTable = Rows PricingKey (Dated (PricingConfig F))

  unfoldable pub get_pricing_config :
      Text → Text → Option Text → PricingTable → Option (Dated (PricingConfig F))
  get_pricing_config provider model none table =
      Option.map (λ r. r.value) (find sql ((none, provider), model) table)
  get_pricing_config provider model (some tenant) table =
      elim (find sql ((some tenant, provider), model) table) [
        | some r ↦ some r.value
        | none ↦ Option.map (λ r. r.value) (find sql ((none, provider), model) table)
      ]

  unfoldable pub set_pricing_config :
      Text → Text → Option Text → PricingConfig F → ℕ → PricingTable → PricingTable
  set_pricing_config provider model tenant prices now table =
      upsert sql ((tenant, provider), model) (record { settings = prices; updated_at = now }) table

  -- `(tokens or 0) / 1000 * price`
  abbrev pub charge : Option ℕ → F → F
  charge tokens price = times (thousandths (Option.get_or tokens 0)) price

  unfoldable pub estimate_cost_usd : Text → Text → Option Text → Tokens → PricingTable → Option F
  unfolding get_pricing_config
  estimate_cost_usd provider model tenant tokens table =
      Option.map
        (λ d.
          let p = d.settings in
          plus
            (plus
              (plus (charge tokens.input_tokens p.input_cost_per_1k_usd)
                (charge tokens.output_tokens p.output_cost_per_1k_usd))
              (charge tokens.cache_read_input_tokens p.cache_read_cost_per_1k_usd))
            (charge tokens.cache_creation_input_tokens p.cache_creation_cost_per_1k_usd))
        (get_pricing_config provider model tenant table)

  unfoldable pub get_quota_config : Option Text → ConfigTable F → Option (Dated F)
  get_quota_config tenant table = resolve sql tenant table

  unfoldable pub set_quota_config : Option Text → F → ℕ → ConfigTable F → ConfigTable F
  set_quota_config tenant cap now table =
      upsert sql tenant (record { settings = cap; updated_at = now }) table

  abbrev pub SpendTable : Type 0
  SpendTable = Rows SpendKey (TenantDailySpend F)

  -- Whether the unique constraint on (tenant_id, spend_date) meets a row.
  unfoldable pub has_key : SpendKey → SpendTable → Bool
  has_key key [] = false
  has_key key (r ∷ table) = r.key == key || has_key key table

  -- DO UPDATE: the row that is in the way.
  unfoldable pub add_to_row : SpendKey → F → ℕ → SpendTable → SpendTable
  add_to_row key amount now [] = []
  add_to_row key amount now (r ∷ table) =
      if r.key == key
      then record r {
        value = record { total_usd = plus r.value.total_usd amount; updated_at = now };
      }
        ∷ table
      else r ∷ add_to_row key amount now table

  -- `INSERT … ON CONFLICT DO UPDATE`, one atomic statement.
  unfoldable pub record_spend : Text → F → ℕ → ℕ → SpendTable → SpendTable
  unfolding has_key add_to_row
  record_spend tenant amount day now table =
      if has_key (tenant, day) table
      then add_to_row (tenant, day) amount now table
      else table
        ++ record {
          id = next_id sql table;
          key = (tenant, day);
          value = record { total_usd = amount; updated_at = now };
        }
          ∷ []

  unfoldable pub get_daily_spend : Text → ℕ → SpendTable → F
  get_daily_spend tenant day table =
      Option.get_or (Option.map (λ r. r.value.total_usd) (find sql (tenant, day) table)) nil

  unfoldable pub assert_within_quota : Text → ℕ → ConfigTable F → SpendTable → Result (Unit {0})
  unfolding get_quota_config get_daily_spend
  assert_within_quota tenant day quotas spends = elim (get_quota_config (some tenant) quotas) [
    | none ↦ ok tt
    | some quota ↦
        if at_least (get_daily_spend tenant day spends) quota.settings
        then err quota_exceeded
        else ok tt
  ]

  -- The days before `today`, as far back as the window reaches.
  unfoldable pub window_dates : ℕ → ℕ → List ℕ
  window_dates today zero = []
  window_dates today (suc offset) = (today - suc offset) ∷ window_dates today offset

  -- `day in dates`
  unfoldable pub is_in : ℕ → List ℕ → Bool
  is_in day [] = false
  is_in day (d ∷ dates) = nat_eq d day || is_in day dates

  -- `sum(…)`, from 0 on.
  abbrev pub sum_from : F → List F → F
  sum_from total [] = total
  sum_from total (a ∷ l) = sum_from (plus total a) l

  unfoldable pub get_rolling_baseline : Text → ℕ → ℕ → SpendTable → Option F
  unfolding window_dates is_in
  get_rolling_baseline tenant today window_days table =
      let rows =
        select sql (Row SpendKey (TenantDailySpend F))
          (λ r. r.key.0 == tenant && is_in r.key.1 (window_dates today window_days)) table in
      elim rows [
        | [] ↦ none
        | r ∷ more ↦
            some (over (sum_from nil (map (λ s. s.value.total_usd) (r ∷ more))) window_days)
      ]

  -- Whether the day is anomalous, with the numbers that it was compared by. The log event is left out.
  unfoldable pub check_spend_anomaly : Text → ℕ → ℕ → F → SpendTable → Bool × (F × Option F)
  unfolding get_rolling_baseline get_daily_spend
  check_spend_anomaly tenant day window_days multiplier table =
      let spend = get_daily_spend tenant day table in
      let baseline = get_rolling_baseline tenant day window_days table in
      elim baseline [
        | none ↦ (false, (spend, none))
        | some b ↦ (above b nil && above spend (times b multiplier), (spend, some b))
      ]
