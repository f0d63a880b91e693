-- ===== src/Instrumentation/Charges.antt =====
-- `_attribute_cost` of wisetraceloom/instrumentation.py: what an LLM call costs and who is charged with it.
use wisetraceloom.Prelude.{
  pair_Eq, ℕ, ◌≡◌, refl, ap, ◌∙◌, Option, none, some, List, [], ◌∷◌, Text, text_Eq, option_Eq,
  nat_Eq,
}
use wisetraceloom.Cost.{Amounts, record_spend, estimate_cost_usd}
use wisetraceloom.Cost.Spending.{Payment, record_all}
use wisetraceloom.Storage.{Host}
use wisetraceloom.Instrumentation.{LlmSpan, Outside, App, attribute_cost, cost_of}

module _ (host : Host) (amounts : Amounts) (outside : Outside host.Payload amounts.F) where
  open host use {sql}
  open amounts use {F}
  open outside use {T, clock, today, dump}

  -- What a call costs and who is charged: the host's own figure before an estimate, and no payment
  -- without a cost or without a tenant.
  pub data Charged (span : LlmSpan F) (app : App host amounts outside)
      : Option F → List (Payment F) → Type 0 where
    own :
        (amount : F) (tenant : Text)
        → span.estimated_cost_usd ≡ some amount
        → span.base.tenant_id ≡ some tenant
        → Charged span app (some amount) (
            record {
              tenant = tenant;
              amount = amount;
              day = today app.world;
              now = clock app.world;
            }
            ∷ [])
    estimated :
        (amount : F) (tenant : Text)
        → span.estimated_cost_usd ≡ none
        → span.base.tenant_id ≡ some tenant
        → estimate_cost_usd sql amounts span.provider_name span.request_model
            (some tenant)
            span.tokens
            app.pricing
          ≡ some amount
        → Charged span app (some amount) (
            record {
              tenant = tenant;
              amount = amount;
              day = today app.world;
              now = clock app.world;
            }
            ∷ [])
    unpriced :
        span.estimated_cost_usd ≡ none
        → estimate_cost_usd sql amounts span.provider_name span.request_model span.base.tenant_id
            span.tokens app.pricing
          ≡ none
        → Charged span app none []
    own_untagged :
        (amount : F)
        → span.estimated_cost_usd ≡ some amount
        → span.base.tenant_id ≡ none
        → Charged span app (some amount) []
    estimated_untagged :
        (amount : F)
        → span.estimated_cost_usd ≡ none
        → span.base.tenant_id ≡ none
        → estimate_cost_usd sql amounts span.provider_name span.request_model none span.tokens
            app.pricing
          ≡ some amount
        → Charged span app (some amount) []

  -- The attribution of a cost to a tenant.
  abbrev attributed :
      LlmSpan F
      → App host amounts outside
      → Option F
      → Option Text
      → LlmSpan F × App host amounts outside
  attributed span app cost tenant_id =
      let priced : LlmSpan F = record span { estimated_cost_usd = cost } in
      elim cost [
        | none ↦ (priced, app)
        | some amount ↦ elim tenant_id [
          | none ↦ (priced, app)
          | some tenant ↦ (
            priced,
            record app {
              spends =
                  record_spend sql amounts tenant amount (today app.world) (clock app.world)
                    app.spends;
            },
          )
        ]
      ]

  attribute_cost-attributed :
      (span : LlmSpan F) (app : App host amounts outside) (cost : Option F)
      (tenant_id : Option Text)
      → cost_of host amounts outside span app ≡ cost
      → span.base.tenant_id ≡ tenant_id
      → attribute_cost host amounts outside span app ≡ attributed span app cost tenant_id
  unfolding attribute_cost
  attribute_cost-attributed span app cost tenant_id c t =
      ap (λ k. attributed span app k span.base.tenant_id) c ∙ ap (attributed span app cost) t

  cost_of-own :
      (span : LlmSpan F) (app : App host amounts outside) (amount : F)
      → span.estimated_cost_usd ≡ some amount
      → cost_of host amounts outside span app ≡ some amount
  cost_of-own span app amount e = rw e refl

  cost_of-estimated :
      (span : LlmSpan F) (app : App host amounts outside) (tenant_id : Option Text)
      (cost : Option F)
      → span.estimated_cost_usd ≡ none
      → span.base.tenant_id ≡ tenant_id
      → estimate_cost_usd sql amounts span.provider_name span.request_model tenant_id span.tokens
          app.pricing
        ≡ cost
      → cost_of host amounts outside span app ≡ cost
  cost_of-estimated span app tenant_id cost e t c = rw (e, t) c

  pub attribute_cost-Charged :
      (span : LlmSpan F) (app : App host amounts outside) (cost : Option F)
      (payments : List (Payment F))
      → Charged span app cost payments
      → attribute_cost host amounts outside span app ≡ (
        record span { estimated_cost_usd = cost },
        record app { spends = record_all sql amounts payments app.spends },
      )
  unfolding record_all
  attribute_cost-Charged span app cost payments (own amount tenant e t) =
      attribute_cost-attributed span app (some amount) (some tenant) (cost_of-own span app amount e)
        t
  attribute_cost-Charged span app cost payments (estimated amount tenant e t c) =
      attribute_cost-attributed span app (some amount) (some tenant)
        (cost_of-estimated span app (some tenant) (some amount) e t c) t
  attribute_cost-Charged span app cost payments (unpriced e c) =
      attribute_cost-attributed span app none span.base.tenant_id
        (cost_of-estimated span app span.base.tenant_id none e refl c) refl
  attribute_cost-Charged span app cost payments (own_untagged amount e t) =
      attribute_cost-attributed span app (some amount) none (cost_of-own span app amount e) t
  attribute_cost-Charged span app cost payments (estimated_untagged amount e t c) =
      attribute_cost-attributed span app (some amount) none
        (cost_of-estimated span app none (some amount) e t c) t

  -- The time at which a span ended has no part in its cost.
  pub Charged-ended :
      (span : LlmSpan F) (app : App host amounts outside) (ended_at : Option ℕ) (cost : Option F)
      (payments : List (Payment F))
      → Charged span app cost payments
      → Charged (record span { base = record span.base { ended_at = ended_at } }) app cost payments
  Charged-ended span app at cost payments (own amount tenant e t) = own amount tenant e t
  Charged-ended span app at cost payments (estimated amount tenant e t c) =
      estimated amount tenant e t c
  Charged-ended span app at cost payments (unpriced e c) = unpriced e c
  Charged-ended span app at cost payments (own_untagged amount e t) = own_untagged amount e t
  Charged-ended span app at cost payments (estimated_untagged amount e t c) =
      estimated_untagged amount e t c
