-- ===== src/Cost/Quotas.antt =====
-- Prices and the daily cap, from what the tables say.
use mathlib.Core.Path.{fun_ext, ap₂}
use wisetraceloom.Prelude.{
  pair_Eq, ℕ, ◌≡◌, inl, inr, refl, ap, ◌∙◌, ◌==◌, if◌then◌else◌, Option, none, some, Text, text_Eq,
  option_Eq, nat_Eq, arith,
}
use mathlib.Core.Option
use wisetraceloom.Results.{Result, ok, err, quota_exceeded}
use wisetraceloom.Sql.{Sql}
use wisetraceloom.Config.{Row, upsert, resolve}
use wisetraceloom.Config.Tables.{Dated, ConfigTable}
use wisetraceloom.Config.Rows.{IsUnique, value_at, find_cases}
use wisetraceloom.Config.Upserts.{upsert-IsUnique, value_at-upsert}
use wisetraceloom.Config.Layers.{layered, resolve-layered}
use wisetraceloom.Cost.{
  Amounts, PricingConfig, PricingKey, PricingTable, SpendTable, get_pricing_config,
  set_pricing_config, get_quota_config, get_daily_spend, assert_within_quota,
}
use wisetraceloom.Cost.Spending.{get_daily_spend-value_at}

pub QuotaRow-set : (amounts : Amounts) → IsSet (Row (Option Text) (Dated amounts.F))
QuotaRow-set amounts = let s = amounts.F_set in hlevel

pub PricingRow-set : (amounts : Amounts) → IsSet (Row PricingKey (Dated (PricingConfig amounts.F)))
PricingRow-set amounts = let s = amounts.F_set in hlevel

module _ (sql : Sql) (amounts : Amounts) where
  open amounts use {F, nil, at_least}

  -- The rule: no cap, no refusal; else a refusal from the cap on.
  abbrev pub within : Option (Dated F) → F → Result (Unit {0})
  within none spent = ok tt
  within (some quota) spent = if at_least spent quota.settings then err quota_exceeded else ok tt

  -- On tables with unique rows, the quota check refuses exactly where the tenant's own cap, or
  -- else the global one, is reached by the total of the day, and never without a cap.
  pub assert_within_quota-eq-within :
      (tenant : Text) (day : ℕ) (quotas : ConfigTable F) (spends : SpendTable sql amounts)
      → IsUnique quotas
      → IsUnique spends
      → assert_within_quota sql amounts tenant day quotas spends
        ≡ within
            (layered (some tenant) (λ k. value_at k quotas))
            (Option.get_or (Option.map (λ v. v.total_usd) (value_at (tenant, day) spends)) nil)
  unfolding assert_within_quota get_quota_config
  assert_within_quota-eq-within tenant day quotas spends u u' =
      rule (resolve sql (some tenant) quotas) refl
      ∙ ap₂ within (resolve-layered sql (QuotaRow-set amounts) (some tenant) quotas u)
          (get_daily_spend-value_at sql amounts tenant day spends u')
    where
      rule :
          (found : Option (Dated F))
          → resolve sql (some tenant) quotas ≡ found
          → assert_within_quota sql amounts tenant day quotas spends
            ≡ within
                (resolve sql (some tenant) quotas)
                (get_daily_spend sql amounts tenant day spends)
      rule none e = rw (e, assert_within_quota) refl
      rule (some q) e = rw (e, assert_within_quota) refl

  get_pricing_config-layered :
      (provider model : Text) (tenant : Option Text) (table : PricingTable sql amounts)
      → IsUnique table
      → get_pricing_config sql amounts provider model tenant table
        ≡ layered tenant (λ k. value_at ((k, provider), model) table)
  unfolding get_pricing_config
  get_pricing_config-layered provider model none table u =
      elim (find_cases sql (PricingRow-set amounts) ((none, provider), model) table u) [
        | inl (n, _, v) ↦ ground (arith, n, v)
        | inr (r, s, _, v) ↦ ground (arith, s, v)
      ]
  get_pricing_config-layered provider model (some tenant) table u =
      elim (find_cases sql (PricingRow-set amounts) ((some tenant, provider), model) table u) [
        | inr (r, s, _, v) ↦ ground (arith, s, v)
        | inl (n, _, v) ↦
            elim (find_cases sql (PricingRow-set amounts) ((none, provider), model) table u) [
              | inl (m, _, w) ↦ ground (arith, n, v, m, w)
              | inr (r, s, _, w) ↦ ground (arith, n, v, s, w)
            ]
      ]

  -- On a table with unique rows, the prices that a tenant gets after prices were set for one
  -- tenant, provider and model are its own, else the global ones, over the table with that row
  -- overwritten.
  pub get_pricing_config-set_pricing_config :
      (provider model provider' model' : Text) (tenant tenant' : Option Text)
      (prices : PricingConfig F) (now : ℕ) (table : PricingTable sql amounts)
      → IsUnique table
      → get_pricing_config sql amounts provider' model' tenant'
          (set_pricing_config sql amounts provider model tenant prices now table)
        ≡ layered tenant' (λ k.
          if ◌==◌ {K = PricingKey} ((tenant, provider), model) ((k, provider'), model')
          then some (record { settings = prices; updated_at = now })
          else value_at ((k, provider'), model') table)
  unfolding set_pricing_config
  get_pricing_config-set_pricing_config provider model provider' model' tenant tenant' prices now
        table u =
      let key : PricingKey = ((tenant, provider), model) in
      let v : Dated (PricingConfig F) = record { settings = prices; updated_at = now } in
      get_pricing_config-layered provider' model' tenant' (upsert sql key v table)
        (upsert-IsUnique sql (PricingRow-set amounts) key v table u)
      ∙ ap (layered tenant') (
          fun_ext λ k.
            value_at-upsert sql (PricingRow-set amounts) key ((k, provider'), model') v table u)
