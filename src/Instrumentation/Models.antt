-- ===== src/Instrumentation/Models.antt =====
-- `llm_call` of wisetraceloom/instrumentation.py: how it ends, the entry that it queues and the spend that it
-- is charged with.
use wisetraceloom.Prelude.{
  pair_Eq, ℕ, ◌<◌, ◌≡◌, ap, ◌∙◌, Option, none, some, List, [], ◌∷◌, ◌++◌, Text, codes, text_Eq,
  option_Eq, nat_Eq, length,
}
use mathlib.Core.Option
use wisetraceloom.Failsafe.{Call}
use wisetraceloom.Results.{ok}
use wisetraceloom.TraceContext.{Context}
use wisetraceloom.Residency.{resolve_engine}
use wisetraceloom.Config.Rows.{value_at}
use wisetraceloom.Cost.{Amounts, SpendKey}
use wisetraceloom.Cost.Spending.{Payment, tally, value_at-record_all}
use wisetraceloom.Storage.{Host}
use wisetraceloom.Storage.Queue.{max_queued}
use wisetraceloom.Instrumentation.{SpanBase, LlmSpan, llm, Outside, App}
use wisetraceloom.Instrumentation.Blocks.{Body, llm_call}
use wisetraceloom.Instrumentation.Emission.{Contained}
use wisetraceloom.Instrumentation.Outcomes.{inside, llm_call-eq}
use wisetraceloom.Instrumentation.Stored.{StreamOf, Starts, new_base-Starts, store_span-queued}
use wisetraceloom.Instrumentation.Charges.{Charged, attribute_cost-Charged, Charged-ended}

module _ (host : Host) (amounts : Amounts) (outside : Outside host.Payload amounts.F) where
  open host use {sql}
  open amounts use {F}
  open outside use {T, clock, today, dump}

  -- Where the logger and the exporters end with an Exception at most, the stream and the database
  -- of the span that the block left are there and the queue has room, an LLM call ends as its
  -- block ended, gives the context variables back and puts one write at the end of the queue, as
  -- an llm_span of that stream and database, with the block's span dumped at its end and its cost
  -- filled in: the host's own figure, or the estimate, or none; the total spend of every tenant
  -- and day is what it was, with that cost added for the span's tenant and the current day where
  -- there are both a cost and a tenant.
  pub llm_call-charges :
      (contained : Contained outside) {A : Type 0} (tenant_id namespace : Option Text)
      (app : App host amounts outside) (context : Context)
      (provider_name request_model operation_name : Text) (prompt_version_id : Option Text)
      (temperature : Option F) (max_tokens : Option ℕ)
      (body : Body host amounts outside (LlmSpan F) A) (base : SpanBase) (t : T)
      → Starts host amounts outside context tenant_id app.world base t
      → (result : Call A) (span' : LlmSpan F) (app' : App host amounts outside)
      → (body
          (record {
            base = base;
            provider_name = provider_name;
            request_model = request_model;
            response_model = none;
            operation_name = operation_name;
            tokens = record {
              input_tokens = none;
              output_tokens = none;
              cache_read_input_tokens = none;
              cache_creation_input_tokens = none;
            };
            reasoning_tokens = none;
            finish_reasons = [];
            temperature = temperature;
            max_tokens = max_tokens;
            estimated_cost_usd = none;
            prompt_version_id = prompt_version_id;
          })
          (record app { world = t })
          (inside base)).0
        ≡ (result, span', app')
      → (cost : Option F) (payments : List (Payment F))
      → Charged host amounts outside span' app' cost payments
      → (stream path : Text) → StreamOf namespace span'.base.tenant_id stream
      → (resolve_engine sql span'.base.tenant_id app'.writer.world.residency).0 ≡ ok path
      → length app'.writer.queue < max_queued
      → (key : SpendKey)
      → let after =
          llm_call host amounts outside
            (provider_name, request_model)
            operation_name
            (prompt_version_id, temperature, max_tokens)
            tenant_id
            namespace
            body
            app
            context in
        let done : LlmSpan F = record span' {
          base = record span'.base { ended_at = some (clock app'.world) };
          estimated_cost_usd = cost;
        } in
        (after.0.0 ≡ result)
        × (after.1 ≡ context)
        × (after.0.1.writer.queue
            ≡ app'.writer.queue
              ++ record {
                stream_id = stream;
                record_type = codes "llm_span";
                payload = dump (llm done);
                tenant_id = span'.base.tenant_id;
                engine = path;
              }
                ∷ [])
        × (Option.map (λ v. v.total_usd) (value_at key after.0.1.spends)
            ≡ tally sql amounts key
                (Option.map (λ v. v.total_usd) (value_at key app'.spends))
                payments)
  llm_call-charges contained tenant_id namespace app context provider_name request_model
        operation_name prompt_version_id temperature max_tokens body base t starts result span' app'
        ran cost payments charged stream path s e room key =
      let eq =
        llm_call-eq host amounts outside contained tenant_id namespace none app context
          provider_name request_model operation_name prompt_version_id temperature max_tokens
          body in
      let eq' =
        rw (new_base-Starts host amounts outside context tenant_id app.world t base starts) at eq in
      let finished : LlmSpan F = record span' {
        base = record span'.base { ended_at = some (clock app'.world) };
      } in
      let eq'' =
        rw
          (
            ran,
            attribute_cost-Charged host amounts outside finished app' cost payments (
                Charged-ended host amounts outside span' app' (some (clock app'.world)) cost
                  payments charged),
          )
          at eq' in
      let done : LlmSpan F = record finished { estimated_cost_usd = cost } in
      let (queue, residency) =
        store_span-queued host amounts outside (llm done) namespace app'.writer stream path s e
          room in
      (
        eq''.0,
        eq''.1,
        ap (λ w. w.queue) eq''.2 ∙ queue,
        ap (λ spends. Option.map (λ v. v.total_usd) (value_at key spends)) eq''.3
            ∙ value_at-record_all sql amounts payments key app'.spends,
      )
