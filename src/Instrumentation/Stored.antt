-- ===== src/Instrumentation/Stored.antt =====
-- wisetraceloom/instrumentation.py: how a span starts, and the entry of the write queue that its end
-- leaves, told without the code's own helpers.
use wisetraceloom.Prelude.{
  ltb→ge, ◌<◌, ◌≡◌, ◌≢◌, ◌⊎◌, inl, inr, refl, Bool, true, false, Option, none, some, [], ◌∷◌, ◌++◌,
  Text, codes, text_eq, text_eq_iff, text_Eq, option_Eq, nat_Eq, length, arith, ltb, Bool-cases,
}
use wisetraceloom.Failsafe.{Call, returns, raises, exits}
use wisetraceloom.Results.{ok}
use wisetraceloom.TraceContext.{Context}
use wisetraceloom.Tenancy.{isolated_stream_id}
use wisetraceloom.Residency.{resolve_engine}
use wisetraceloom.Cost.{Amounts}
use wisetraceloom.Storage.{Host}
use wisetraceloom.Storage.Queue.{Writer, max_queued, enqueue_append}
use wisetraceloom.Instrumentation.{
  SpanBase, ToolSpan, Span, Outside, base_of, event_name, store_span, span_stream,
}
use wisetraceloom.Instrumentation.Blocks.{new_base, trace_or_new, settle}

-- The stream of a span: "spans" without a tenant, and the tenant's own otherwise.
pub data StreamOf (namespace : Option Text) : Option Text → Text → Type 0 where
  untagged : StreamOf namespace none (codes "spans")
  tagged :
      (tenant stream : Text)
      → isolated_stream_id (codes "spans") tenant namespace ≡ ok stream
      → StreamOf namespace (some tenant) stream

span_stream-StreamOf :
    (namespace tenant : Option Text) (stream : Text)
    → StreamOf namespace tenant stream
    → span_stream tenant namespace ≡ ok stream
unfolding span_stream
span_stream-StreamOf namespace tenant stream untagged = refl
span_stream-StreamOf namespace tenant stream (tagged t s e) = e

-- What the end of a tool's block says: a call that returns is a success unless the block said
-- otherwise, one that raises is none and has the message, and an exit says nothing.
pub data Told {A : Type 0} : Call A → ToolSpan → Option Bool → Option Text → Type 0 where
  unsaid :
      (a : A) (span : ToolSpan)
      → span.success ≡ none
      → Told (returns a) span (some true) span.error_message
  said :
      (a : A) (span : ToolSpan) (success : Bool)
      → span.success ≡ some success
      → Told (returns a) span (some success) span.error_message
  failed :
      (message : Text) (span : ToolSpan) → Told (raises message) span (some false) (some message)
  gone : (span : ToolSpan) → Told exits span span.success span.error_message

module _ (host : Host) (amounts : Amounts) (outside : Outside host.Payload amounts.F) where
  open host use {sql, Payload}
  open amounts use {F}
  open outside use {T, clock, token_hex, dump}

  pub settle-Told :
      {A : Type 0} (result : Call A) (span : ToolSpan) (success : Option Bool)
      (message : Option Text)
      → Told result span success message
      → settle host amounts outside result span
        ≡ record span { success = success; error_message = message }
  settle-Told result span success message (unsaid a s e) = rw e refl
  settle-Told result span success message (said a s b e) = rw e refl
  settle-Told result span success message (failed m s) = refl
  settle-Told result span success message (gone s) = refl

  -- How a span starts, and the world after: in the trace that is current, or in a new one where
  -- none is or its id is empty; its parent is the span that is current.
  pub data Starts (context : Context) (tenant_id : Option Text) (t : T)
      : SpanBase → T → Type 0 where
    joins :
        (trace : Text)
        → context.trace_id ≡ some trace
        → trace ≢ []
        → Starts context tenant_id t
            (record {
              span_id = (token_hex 8 t).0;
              trace_id = trace;
              parent_span_id = context.span_id;
              tenant_id = tenant_id;
              started_at = clock (token_hex 8 t).1;
              ended_at = none;
            })
            (token_hex 8 t).1
    begins :
        (context.trace_id ≡ none) ⊎ (context.trace_id ≡ some [])
        → Starts context tenant_id t
            (record {
              span_id = (token_hex 8 (token_hex 16 t).1).0;
              trace_id = (token_hex 16 t).0;
              parent_span_id = context.span_id;
              tenant_id = tenant_id;
              started_at = clock (token_hex 8 (token_hex 16 t).1).1;
              ended_at = none;
            })
            (token_hex 8 (token_hex 16 t).1).1

  pub new_base-Starts :
      (context : Context) (tenant_id : Option Text) (t t' : T) (base : SpanBase)
      → Starts context tenant_id t base t'
      → new_base host amounts outside context tenant_id t ≡ (base, t')
  unfolding new_base trace_or_new text_eq
  new_base-Starts context tenant_id t t' base (joins trace e n) =
      elim (Bool-cases (text_eq trace [])) [
        | inl c ↦ absurd (n ((text_eq_iff trace []).0 c))
        | inr c ↦ rw (e, trace_or_new, c) refl
      ]
  new_base-Starts context tenant_id t t' base (begins (inl e)) = rw (e, trace_or_new) refl
  new_base-Starts context tenant_id t t' base (begins (inr e)) = rw (e, trace_or_new) refl

  pub store_span-queued :
      (span : Span F) (namespace : Option Text) (writer : Writer Payload) (stream path : Text)
      → StreamOf namespace (base_of span).tenant_id stream
      → (resolve_engine sql (base_of span).tenant_id writer.world.residency).0 ≡ ok path
      → length writer.queue < max_queued
      → ((store_span host amounts outside span namespace writer).queue
          ≡ writer.queue
            ++ record {
              stream_id = stream;
              record_type = event_name span;
              payload = dump span;
              tenant_id = (base_of span).tenant_id;
              engine = path;
            }
              ∷ [])
        × ((store_span host amounts outside span namespace writer).world.residency
            ≡ (resolve_engine sql (base_of span).tenant_id writer.world.residency).1)
  unfolding store_span enqueue_append
  store_span-queued span namespace writer stream path s e room =
      let there = span_stream-StreamOf namespace (base_of span).tenant_id stream s in
      let open_queue : ltb (length writer.queue) max_queued ≡ true =
        elim (Bool-cases (ltb (length writer.queue) max_queued)) [
          | inl t ↦ t
          | inr f ↦ absurd (omega (arith, ltb→ge (length writer.queue) max_queued f))
        ] in
      rw (there, store_span) (rw (e, enqueue_append) (rw open_queue (refl, refl)))
