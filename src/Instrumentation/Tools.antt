-- ===== src/Instrumentation/Tools.antt =====
-- `tool_call` of wisetraceloom/instrumentation.py: how it ends and the entry that it queues.
use wisetraceloom.Prelude.{
  ◌<◌, ◌≡◌, ap, ◌∙◌, Bool, Option, none, some, [], ◌∷◌, ◌++◌, Text, codes, text_Eq, option_Eq,
  nat_Eq, length,
}
use wisetraceloom.Failsafe.{Call}
use wisetraceloom.Results.{ok}
use wisetraceloom.TraceContext.{Context}
use wisetraceloom.Residency.{resolve_engine}
use wisetraceloom.Cost.{Amounts}
use wisetraceloom.Storage.{Host}
use wisetraceloom.Storage.Queue.{max_queued}
use wisetraceloom.Instrumentation.{SpanBase, ToolSpan, tool, Outside, App}
use wisetraceloom.Instrumentation.Blocks.{Body, tool_call}
use wisetraceloom.Instrumentation.Emission.{Contained}
use wisetraceloom.Instrumentation.Outcomes.{inside, tool_call-eq}
use wisetraceloom.Instrumentation.Stored.{
  StreamOf, Told, Starts, settle-Told, new_base-Starts, store_span-queued,
}

-- The span that the block of a tool call is given.
abbrev pub new_tool : SpanBase → Text → Text → Option Text → Option Text → ToolSpan
new_tool base tool_name tool_type tool_call_id description = record {
  base = base;
  tool_name = tool_name;
  tool_call_id = tool_call_id;
  tool_type = tool_type;
  description = description;
  success = none;
  error_message = none;
}

module _ (host : Host) (amounts : Amounts) (outside : Outside host.Payload amounts.F)
    (contained : Contained outside) where
  open host use {sql}
  open outside use {T, clock, dump}

  -- Where the logger and the exporters end with an Exception at most, the stream and the database
  -- of the span that the block left are there and the queue has room, a tool call ends as its
  -- block ended, gives the context variables back and puts one write at the end of the queue, as a
  -- tool_span of that stream and database, with the block's span dumped at its end: a call that
  -- returned is a success unless the block had set success, one that raised is none and has the
  -- message, and an exit changes neither; the span that the block is given joins the current trace
  -- or begins one, with the current span as its parent.
  pub tool_call-queues :
      {A : Type 0} (tenant_id namespace description : Option Text) (app : App host amounts outside)
      (context : Context) (tool_name tool_type : Text) (tool_call_id : Option Text)
      (body : Body host amounts outside ToolSpan A) (base : SpanBase) (t : T)
      → Starts host amounts outside context tenant_id app.world base t
      → (result : Call A) (span' : ToolSpan) (app' : App host amounts outside)
      → (body
          (new_tool base tool_name tool_type tool_call_id description)
          (record app { world = t })
          (inside base)).0
        ≡ (result, span', app')
      → (success : Option Bool) (message : Option Text) → Told result span' success message
      → (stream path : Text) → StreamOf namespace span'.base.tenant_id stream
      → (resolve_engine sql span'.base.tenant_id app'.writer.world.residency).0 ≡ ok path
      → length app'.writer.queue < max_queued
      → let after =
          tool_call host amounts outside tool_name
            (tool_type, tool_call_id)
            tenant_id
            namespace
            description
            body
            app
            context in
        let done : ToolSpan = record span' {
          base = record span'.base { ended_at = some (clock app'.world) };
          success = success;
          error_message = message;
        } in
        (after.0.0 ≡ result)
        × (after.1 ≡ context)
        × (after.0.1.writer.queue
            ≡ app'.writer.queue
              ++ record {
                stream_id = stream;
                record_type = codes "tool_span";
                payload = dump (tool done);
                tenant_id = span'.base.tenant_id;
                engine = path;
              }
                ∷ [])
        × (after.0.1.writer.world.residency
            ≡ (resolve_engine sql span'.base.tenant_id app'.writer.world.residency).1)
  tool_call-queues tenant_id namespace description app context tool_name tool_type tool_call_id body
        base t starts result span' app' ran success message told stream path s e room =
      let eq =
        tool_call-eq host amounts outside contained tenant_id namespace description app context
          tool_name tool_type tool_call_id body in
      let eq' =
        rw (new_base-Starts host amounts outside context tenant_id app.world t base starts) at eq in
      let eq'' =
        rw (ran, settle-Told host amounts outside result span' success message told) at eq' in
      let done : ToolSpan = record span' {
        base = record span'.base { ended_at = some (clock app'.world) };
        success = success;
        error_message = message;
      } in
      let (queue, residency) =
        store_span-queued host amounts outside (tool done) namespace app'.writer stream path s e
          room in
      (
        eq''.0,
        eq''.1,
        ap (λ w. w.queue) eq''.2 ∙ queue,
        ap (λ w. w.world.residency) eq''.2 ∙ residency,
      )
