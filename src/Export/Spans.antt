-- ===== src/Export/Spans.antt =====
-- wisetraceloom/otel_export.py: the three exporters, which export nothing for a tenant that has not opted in.
use wisetraceloom.Prelude.{
  ℕ, Bool, if◌then◌else◌, Option, none, some, List, [], ◌∷◌, ◌++◌, Text, codes, text_Eq, option_Eq,
  nat_Eq,
}
use mathlib.Core.Option
use wisetraceloom.Residency.{assign}
use wisetraceloom.Sql.{Sql}
use wisetraceloom.Config.Cache.{Process}
use wisetraceloom.Config.Tables.{Dated, ExportConfig, get_export_config}
use wisetraceloom.Instrumentation.{SpanBase, AgentSpan, ToolSpan, LlmSpan}
use wisetraceloom.Export.{
  text, count, Attributes, Conventions, OtelSpan, Metrics, set_truthy, set_count, set_float,
  set_texts, set_correlation_attrs,
}

-- `time.time_ns()` where the span has no end.
abbrev pub end_of : Conventions → SpanBase → ℕ → ℕ
end_of conventions base time_ns =
    Option.get_or (Option.map conventions.to_epoch_ns base.ended_at) time_ns

module _ (conventions : Conventions) {F : Type 0} where
  open conventions use {
    operation_name, provider_name, agent_id, agent_name, agent_description, conversation_id,
    tool_name, tool_type, tool_call_id, tool_description, request_model, response_model,
    input_tokens, output_tokens, reasoning_tokens, cache_read_tokens, cache_creation_tokens,
    finish_reasons, temperature, max_tokens, token_type, token_type_input, token_type_completion,
    to_epoch_ns,
  }

  unfoldable pub agent_otel_span : AgentSpan → ℕ → OtelSpan F
  agent_otel_span s time_ns =
      let named =
        assign agent_name (text s.agent_name)
          (assign agent_id (text s.agent_id) (assign operation_name (text s.operation_name) [])) in
      let described =
        set_truthy conversation_id s.conversation_id
          (set_truthy agent_description s.description named) in
      record {
        name = s.operation_name ++ b' ' ∷ s.agent_name;
        start_time = to_epoch_ns s.base.started_at;
        attributes =
            set_correlation_attrs s.base
              (assign (codes "wisetraceloom.loop_iteration") (count s.loop_iteration) described);
        error_status = none;
        end_time = end_of conventions s.base time_ns;
      }

  unfoldable pub tool_otel_span : ToolSpan → ℕ → OtelSpan F
  tool_otel_span s time_ns =
      let named = assign tool_type (text s.tool_type) (
        assign tool_name (text s.tool_name)
          (assign operation_name (text (codes "execute_tool")) [])) in
      record {
        name = codes "execute_tool " ++ s.tool_name;
        start_time = to_epoch_ns s.base.started_at;
        attributes = set_correlation_attrs s.base (
            set_truthy tool_description s.description
              (set_truthy tool_call_id s.tool_call_id named));
        error_status = elim s.success [
          | none ↦ none
          | some success ↦ if success then none else some s.error_message
        ];
        end_time = end_of conventions s.base time_ns;
      }

  -- The attributes of `base_attrs`, which the metrics carry too.
  abbrev pub base_attrs : LlmSpan F → Attributes F
  base_attrs s = assign request_model (text s.request_model) (
      assign provider_name (text s.provider_name)
        (assign operation_name (text s.operation_name) []))

  abbrev pub usage_attrs : LlmSpan F → Attributes F → Attributes F
  usage_attrs s attributes = set_count cache_creation_tokens s.tokens.cache_creation_input_tokens (
      set_count cache_read_tokens s.tokens.cache_read_input_tokens (
        set_count reasoning_tokens s.reasoning_tokens (
          set_count output_tokens s.tokens.output_tokens
            (set_count input_tokens s.tokens.input_tokens attributes))))

  abbrev pub request_attrs : LlmSpan F → Attributes F → Attributes F
  request_attrs s attributes =
      set_truthy (codes "wisetraceloom.prompt_version_id") s.prompt_version_id (
        set_float (codes "wisetraceloom.estimated_cost_usd") s.estimated_cost_usd (
          set_count max_tokens s.max_tokens (
            set_float temperature s.temperature
              (set_texts finish_reasons s.finish_reasons attributes))))

  unfoldable pub llm_otel_span : LlmSpan F → ℕ → OtelSpan F
  llm_otel_span s time_ns = record {
    name = s.operation_name ++ b' ' ∷ s.request_model;
    start_time = to_epoch_ns s.base.started_at;
    attributes = set_correlation_attrs s.base (
        request_attrs s
          (usage_attrs s (set_truthy response_model s.response_model (base_attrs s))));
    error_status = none;
    end_time = end_of conventions s.base time_ns;
  }

  abbrev pub usage_of : Text → Option ℕ → Attributes F → List (ℕ × Attributes F)
  usage_of kind none attributes = []
  usage_of kind (some n) attributes = (n, assign token_type (text kind) attributes) ∷ []

  unfoldable pub record_llm_metrics : LlmSpan F → ℕ → Metrics F
  record_llm_metrics s time_ns = record {
    token_usage =
        usage_of token_type_input s.tokens.input_tokens (base_attrs s)
        ++ usage_of token_type_completion s.tokens.output_tokens (base_attrs s);
    started_ns = to_epoch_ns s.base.started_at;
    ended_ns = end_of conventions s.base time_ns;
    duration_attributes = base_attrs s;
  }

module _ (sql : Sql) where
  abbrev pub ExportProcess : Type 0
  ExportProcess = Process (Dated ExportConfig) ExportConfig

  unfoldable pub gen_ai_semconv_enabled : Option Text → ExportProcess → Bool × ExportProcess
  gen_ai_semconv_enabled tenant process =
      let (config, process') = get_export_config sql tenant process in
      (config.gen_ai_semconv_enabled, process')

  -- Nothing is exported for a tenant that has not opted in.
  unfoldable pub if_enabled : {E : Type 0} → SpanBase → E → ExportProcess → Option E × ExportProcess
  if_enabled base exported process =
      let (enabled, process') = gen_ai_semconv_enabled base.tenant_id process in
      (if enabled then some exported else none, process')

  module _ (conventions : Conventions) {F : Type 0} where
    unfoldable pub export_agent_span :
        AgentSpan → ℕ → ExportProcess → Option (OtelSpan F) × ExportProcess
    export_agent_span s time_ns process =
        if_enabled s.base (agent_otel_span conventions s time_ns) process

    unfoldable pub export_tool_span :
        ToolSpan → ℕ → ExportProcess → Option (OtelSpan F) × ExportProcess
    export_tool_span s time_ns process =
        if_enabled s.base (tool_otel_span conventions s time_ns) process

    unfoldable pub export_llm_span :
        LlmSpan F → ℕ → ExportProcess → Option (OtelSpan F × Metrics F) × ExportProcess
    export_llm_span s time_ns process =
        if_enabled s.base
          (llm_otel_span conventions s time_ns, record_llm_metrics conventions s time_ns) process
