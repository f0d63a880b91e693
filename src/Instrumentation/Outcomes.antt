-- ===== src/Instrumentation/Outcomes.antt =====
-- wisetraceloom/instrumentation.py: the three blocks where the emission of their span is contained.
use wisetraceloom.Prelude.{ℕ, ◌≡◌, refl, ap, Option, none, some, Text, text_Eq, option_Eq, nat_Eq}
use wisetraceloom.TraceContext.{Context}
use wisetraceloom.Cost.{Amounts}
use wisetraceloom.Storage.{Host}
use wisetraceloom.Instrumentation.{
  SpanBase, AgentSpan, ToolSpan, LlmSpan, agent, tool, llm, Outside, App, store_span,
  attribute_cost,
}
use wisetraceloom.Instrumentation.Blocks.{
  new_llm, Body, new_base, bound_trace_context, end_with, ended, settle, agent_step, tool_call,
  llm_call,
}
use wisetraceloom.Instrumentation.Emission.{Contained, emit_span-eq}

-- The context that a block's host code runs in.
abbrev pub inside : SpanBase → Context
inside base = record {
  trace_id = some base.trace_id;
  span_id = some base.span_id;
  tracestate = none;
}

module _ (host : Host) (amounts : Amounts) (outside : Outside host.Payload amounts.F)
    (contained : Contained outside) where
  open amounts use {F}

  module _ {A : Type 0} (tenant_id namespace description : Option Text)
      (app : App host amounts outside) (context : Context) where
    pub tool_call-eq :
        (tool_name tool_type : Text) (tool_call_id : Option Text)
        (body : Body host amounts outside ToolSpan A)
        → let (base, t) = new_base host amounts outside context tenant_id app.world in
          let span : ToolSpan = record {
            base = base;
            tool_name = tool_name;
            tool_call_id = tool_call_id;
            tool_type = tool_type;
            description = description;
            success = none;
            error_message = none;
          } in
          let (result, span', app') = (body span (record app { world = t }) (inside base)).0 in
          let settled = settle host amounts outside result span' in
          let done : ToolSpan = record settled {
            base = ended host amounts outside settled.base app';
          } in
          let after =
            tool_call host amounts outside tool_name
              (tool_type, tool_call_id)
              tenant_id
              namespace
              description
              body
              app
              context in
          (after.0.0 ≡ result)
          × (after.1 ≡ context)
          × (after.0.1.writer ≡ store_span host amounts outside (tool done) namespace app'.writer)
    unfolding tool_call bound_trace_context
    tool_call-eq tool_name tool_type tool_call_id body =
        let (base, t) = new_base host amounts outside context tenant_id app.world in
        let span : ToolSpan = record {
          base = base;
          tool_name = tool_name;
          tool_call_id = tool_call_id;
          tool_type = tool_type;
          description = description;
          success = none;
          error_message = none;
        } in
        let (result, span', app') = (body span (record app { world = t }) (inside base)).0 in
        let settled = settle host amounts outside result span' in
        let done : ToolSpan = record settled {
          base = ended host amounts outside settled.base app';
        } in
        let e = emit_span-eq host amounts outside contained (tool done) namespace app' in
        (
          ap (λ x. (end_with host amounts outside result x).0) e,
          refl,
          ap (λ x. (end_with host amounts outside result x).1.writer) e,
        )

    pub llm_call-eq :
        (provider_name request_model operation_name : Text) (prompt_version_id : Option Text)
        (temperature : Option F) (max_tokens : Option ℕ)
        (body : Body host amounts outside (LlmSpan F) A)
        → let (base, t) = new_base host amounts outside context tenant_id app.world in
          let span : LlmSpan F =
            new_llm base provider_name request_model operation_name prompt_version_id temperature
              max_tokens in
          let (result, span', app') = (body span (record app { world = t }) (inside base)).0 in
          let done : LlmSpan F = record span' {
            base = ended host amounts outside span'.base app';
          } in
          let (priced, app'') = attribute_cost host amounts outside done app' in
          let after =
            llm_call host amounts outside
              (provider_name, request_model)
              operation_name
              (prompt_version_id, temperature, max_tokens)
              tenant_id
              namespace
              body
              app
              context in
          (after.0.0 ≡ result)
          × (after.1 ≡ context)
          × (after.0.1.writer ≡ store_span host amounts outside (llm priced) namespace app''.writer)
          × (after.0.1.spends ≡ app''.spends)
    unfolding llm_call bound_trace_context
    llm_call-eq provider_name request_model operation_name prompt_version_id temperature max_tokens
          body =
        let (base, t) = new_base host amounts outside context tenant_id app.world in
        let span : LlmSpan F =
          new_llm base provider_name request_model operation_name prompt_version_id temperature
            max_tokens in
        let (result, span', app') = (body span (record app { world = t }) (inside base)).0 in
        let done : LlmSpan F = record span' { base = ended host amounts outside span'.base app' } in
        let (priced, app'') = attribute_cost host amounts outside done app' in
        let e = emit_span-eq host amounts outside contained (llm priced) namespace app'' in
        (
          ap (λ x. (end_with host amounts outside result x).0) e,
          refl,
          ap (λ x. (end_with host amounts outside result x).1.writer) e,
          ap (λ x. (end_with host amounts outside result x).1.spends) e,
        )

    pub agent_step-eq :
        (ids : Text × Text) (operation : Text × Option Text) (loop_iteration : ℕ)
        (body : Body host amounts outside AgentSpan A)
        → let (base, t) = new_base host amounts outside context tenant_id app.world in
          let span : AgentSpan = record {
            base = base;
            agent_id = ids.0;
            agent_name = ids.1;
            description = description;
            conversation_id = operation.1;
            operation_name = operation.0;
            loop_iteration = loop_iteration;
          } in
          let after =
            agent_step host amounts outside ids operation tenant_id namespace description
              loop_iteration body app context in
          let (result, span', app') = (body span (record app { world = t }) (inside base)).0 in
          let done : AgentSpan = record span' {
            base = ended host amounts outside span'.base app';
          } in
          (after.0.0 ≡ result)
          × (after.1 ≡ context)
          × (after.0.1.writer ≡ store_span host amounts outside (agent done) namespace app'.writer)
    unfolding agent_step bound_trace_context
    agent_step-eq ids operation loop_iteration body =
        let (base, t) = new_base host amounts outside context tenant_id app.world in
        let span : AgentSpan = record {
          base = base;
          agent_id = ids.0;
          agent_name = ids.1;
          description = description;
          conversation_id = operation.1;
          operation_name = operation.0;
          loop_iteration = loop_iteration;
        } in
        let (result, span', app') = (body span (record app { world = t }) (inside base)).0 in
        let done : AgentSpan = record span' { base = ended host amounts outside span'.base app' } in
        let e = emit_span-eq host amounts outside contained (agent done) namespace app' in
        (
          ap (λ x. (end_with host amounts outside result x).0) e,
          refl,
          ap (λ x. (end_with host amounts outside result x).1.writer) e,
        )
