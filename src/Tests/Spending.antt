-- ===== src/Tests/Spending.antt =====
-- Prices, totals and caps at concrete inputs, with whole numbers as amounts.
use wisetraceloom.Prelude.{
  ◌*◌, ◌/◌, pair_Eq, ℕ, ◌+◌, ◌≡◌, some, List, [], ◌∷◌, Text, codes, text_eq, text_Eq, option_Eq,
  nat_Eq, ltb, leb,
}
use wisetraceloom.Tests.Engine.{engine}
use wisetraceloom.Results.{ok}
use wisetraceloom.Config.Tables.{ConfigTable}
use wisetraceloom.Cost.{
  Amounts, PricingConfig, PricingTable, SpendTable, get_daily_spend, assert_within_quota,
}
use wisetraceloom.Cost.Spending.{Payment, record_all, get_daily_spend-record_all}
use wisetraceloom.Cost.Quotas.{assert_within_quota-eq-within}

abbrev pub cents : Amounts
cents = record {
  F = ℕ;
  F_set = hlevel;
  nil = 0;
  plus = λ a b. a + b;
  times = λ a b. a * b;
  thousandths = λ n. n / 1000;
  over = λ a n. a / n;
  at_least = λ a b. leb b a;
  above = λ a b. ltb b a;
}

abbrev acme : Text
acme = codes "acme"

abbrev totals : SpendTable engine cents
totals = record { id = 1; key = (acme, 20); value = record { total_usd = 40; updated_at = 1 } } ∷ []

abbrev caps : ConfigTable ℕ
caps = record { id = 1; key = some acme; value = record { settings = 50; updated_at = 1 } } ∷ []

abbrev payments : List (Payment ℕ)
payments =
    record { tenant = acme; amount = 7; day = 20; now = 2 }
    ∷ record { tenant = codes "beta"; amount = 9; day = 20; now = 3 }
    ∷ record { tenant = acme; amount = 5; day = 20; now = 4 }
    ∷ []

get_daily_spend-record_all_example :
    get_daily_spend engine cents acme 20 (record_all engine cents payments totals) ≡ 52
unfolding text_eq
get_daily_spend-record_all_example =
    get_daily_spend-record_all engine cents payments acme 20 totals (tt, tt)

assert_within_quota-eq-within_example : assert_within_quota engine cents acme 20 caps totals ≡ ok tt
unfolding text_eq
assert_within_quota-eq-within_example =
    assert_within_quota-eq-within engine cents acme 20 caps totals (tt, tt) (tt, tt)

abbrev no_prices : PricingTable engine cents
no_prices = []

abbrev prices : PricingConfig ℕ
prices = record {
  input_cost_per_1k_usd = 3;
  output_cost_per_1k_usd = 15;
  cache_read_cost_per_1k_usd = 1;
  cache_creation_cost_per_1k_usd = 4;
}
