-- ===== src/Instrumentation/Blocks.antt =====
-- wisetraceloom/instrumentation.py: `agent_step`, `tool_call` and `llm_call` around a block of host code,
-- and `bound_trace_context` of tracecontext.py.
use wisetraceloom.Prelude.{
  ℕ, true, false, ◌==◌, if◌then◌else◌, Option, none, some, [], Text, text_Eq, option_Eq, nat_Eq,
}
use mathlib.Core.Option
use wisetraceloom.Failsafe.{Call, returns, raises, exits}
use wisetraceloom.TraceContext.{Context}
use wisetraceloom.Cost.{Amounts}
use wisetraceloom.Storage.{Host}
use wisetraceloom.Instrumentation.{
  SpanBase, AgentSpan, ToolSpan, LlmSpan, agent, tool, llm, Outside, App, emit_span, attribute_cost,
}

-- What a caller does not give is none at first.
abbrev pub new_llm :
    {F : Type 0} → SpanBase → Text → Text → Text → Option Text → Option F → Option ℕ → LlmSpan F
new_llm base provider_name request_model operation_name prompt_version_id temperature max_tokens =
    record {
      base = base;
      provider_name = provider_name;
      request_model = request_model;
      response_model = none;
      operation_name = operation_name;
      tokens = record {
        input_tokens = none;
        output_tokens = none;
        cache_read_input_tokens = none;
        cache_creation_input_tokens = none;
      };
      reasoning_tokens = none;
      finish_reasons = [];
      temperature = temperature;
      max_tokens = max_tokens;
      estimated_cost_usd = none;
      prompt_version_id = prompt_version_id;
    }

-- Each variable is reset to what it was, however the block ends and whatever it did to them.
unfoldable pub bound_trace_context {ℓ} :
    {R : Type ℓ} → Text → Text → Option Text → (Context → R × Context) → Context → R × Context
bound_trace_context trace_id span_id tracestate block context =
    let bound : Context = record {
      trace_id = some trace_id;
      span_id = some span_id;
      tracestate = tracestate;
    } in
    ((block bound).0, context)

module _ (host : Host) (amounts : Amounts) (outside : Outside host.Payload amounts.F) where
  open amounts use {F}
  open outside use {T, clock, token_hex}

  abbrev pub AppState : Type 0
  AppState = App host amounts outside

  -- `current_trace_id() or generate_trace_id()`: an empty id is no id.
  unfoldable pub trace_or_new : Option Text → T → Text × T
  trace_or_new none t = token_hex 16 t
  trace_or_new (some id) t = if id == [] then token_hex 16 t else (id, t)

  -- The fields that every span starts with.
  unfoldable pub new_base : Context → Option Text → T → SpanBase × T
  new_base context tenant_id t =
      let (trace_id, t') = trace_or_new context.trace_id t in
      let (span_id, t'') = token_hex 8 t' in
      (
        record {
          span_id = span_id;
          trace_id = trace_id;
          parent_span_id = context.span_id;
          tenant_id = tenant_id;
          started_at = clock t'';
          ended_at = none;
        },
        t'',
      )

  -- What a block of host code makes of its span, the context variables and the process.
  abbrev pub Body : Type 0 → Type 0 → Type 0
  Body S A = S → AppState → Context → (Call A × S × AppState) × Context

  -- An exit of the emission takes the place of how the block ended.
  abbrev pub end_with : {A : Type 0} → Call A → Call (Unit {0}) × AppState → Call A × AppState
  end_with ended (returns u, app) = (ended, app)
  end_with ended (raises message, app) = (raises message, app)
  end_with ended (exits, app) = (exits, app)

  abbrev pub ended : SpanBase → AppState → SpanBase
  ended base app = record base { ended_at = some (clock app.world) }

  module _ {A : Type 0} where
    unfoldable pub agent_step :
        (Text × Text)
        → (Text × Option Text)
        → Option Text
        → Option Text
        → Option Text
        → ℕ
        → Body AgentSpan A
        → AppState
        → Context
        → (Call A × AppState) × Context
    agent_step (agent_id, agent_name) (operation_name, conversation_id) tenant_id namespace
          description loop_iteration body app context =
        let (base, t) = new_base context tenant_id app.world in
        let span : AgentSpan = record {
          base = base;
          agent_id = agent_id;
          agent_name = agent_name;
          description = description;
          conversation_id = conversation_id;
          operation_name = operation_name;
          loop_iteration = loop_iteration;
        } in
        bound_trace_context base.trace_id base.span_id none
          (λ bound.
            let ((result, span', app'), left) = body span (record app { world = t }) bound in
            let done : AgentSpan = record span' { base = ended span'.base app' } in
            (end_with result (emit_span host amounts outside (agent done) namespace app'), left))
          context

    -- What the block's end says of the call.
    abbrev pub settle : Call A → ToolSpan → ToolSpan
    settle (returns a) span = record span { success = some (Option.get_or span.success true) }
    settle (raises message) span = record span {
      success = some false;
      error_message = some message;
    }
    settle exits span = span

    unfoldable pub tool_call :
        Text
        → (Text × Option Text)
        → Option Text
        → Option Text
        → Option Text
        → Body ToolSpan A
        → AppState
        → Context
        → (Call A × AppState) × Context
    tool_call tool_name (tool_type, tool_call_id) tenant_id namespace description body app context =
        let (base, t) = new_base context tenant_id app.world in
        let span : ToolSpan = record {
          base = base;
          tool_name = tool_name;
          tool_call_id = tool_call_id;
          tool_type = tool_type;
          description = description;
          success = none;
          error_message = none;
        } in
        bound_trace_context base.trace_id base.span_id none
          (λ bound.
            let ((result, span', app'), left) = body span (record app { world = t }) bound in
            let settled = settle result span' in
            let done : ToolSpan = record settled { base = ended settled.base app' } in
            (end_with result (emit_span host amounts outside (tool done) namespace app'), left))
          context

    unfoldable pub llm_call :
        (Text × Text)
        → Text
        → (Option Text × Option F × Option ℕ)
        → Option Text
        → Option Text
        → Body (LlmSpan F) A
        → AppState
        → Context
        → (Call A × AppState) × Context
    llm_call (provider_name, request_model) operation_name
          (prompt_version_id, temperature, max_tokens) tenant_id namespace body app context =
        let (base, t) = new_base context tenant_id app.world in
        let span =
          new_llm base provider_name request_model operation_name prompt_version_id temperature
            max_tokens in
        bound_trace_context base.trace_id base.span_id none
          (λ bound.
            let ((result, span', app'), left) = body span (record app { world = t }) bound in
            let done : LlmSpan F = record span' { base = ended span'.base app' } in
            let (priced, app'') = attribute_cost host amounts outside done app' in
            (end_with result (emit_span host amounts outside (llm priced) namespace app''), left))
          context
