-- ===== src/Export/Correlation.antt =====
-- wisetraceloom/otel_export.py: which spans are exported, and that an exported span can be traced back.
use wisetraceloom.Prelude.{
  ℕ, ◌≡◌, inl, inr, refl, ap, ◌∙◌, Bool, false, if◌then◌else◌, Option, none, some, [], Text, codes,
  text_eq, text_Eq, option_Eq, nat_Eq, Bool-cases,
}
use mathlib.Core.Option
use wisetraceloom.Residency.{lookup, assign, lookup-assign}
use wisetraceloom.Sql.{Sql}
use wisetraceloom.Config.Tables.{Dated, ExportConfig, get_export_config, load_export_config}
use wisetraceloom.Config.Rows.{IsUnique, value_at}
use wisetraceloom.Config.Layers.{layered, resolve-layered}
use wisetraceloom.Config.Coherence.{IsCoherent, read_coherent}
use wisetraceloom.Config.{Row, Rows}
use wisetraceloom.Instrumentation.{SpanBase, AgentSpan, ToolSpan, LlmSpan}
use wisetraceloom.Export.{
  text, Attributes, Conventions, OtelSpan, set_truthy, set_correlation_attrs,
}
use wisetraceloom.Export.Spans.{
  ExportProcess, gen_ai_semconv_enabled, if_enabled, export_agent_span, export_tool_span,
  export_llm_span, agent_otel_span, tool_otel_span, llm_otel_span, record_llm_metrics,
}

ExportRow-set : IsSet (Row (Option Text) (Dated ExportConfig))
ExportRow-set = hlevel

module _ {F : Type 0} where
  lookup-set_truthy :
      (key other : Text) (value : Option Text) (attributes : Attributes F)
      → text_eq key other ≡ false
      → lookup other (set_truthy key value attributes) ≡ lookup other attributes
  unfolding set_truthy
  lookup-set_truthy key other none attributes e = refl
  lookup-set_truthy key other (some value) attributes e = elim (Bool-cases (text_eq value [])) [
    | inl t ↦ rw t refl
    | inr t ↦ rw t (lookup-assign key other (text value) attributes ∙ rw e refl)
  ]

  -- Whose span it is, as the attributes tell.
  abbrev pub IsTraceable : SpanBase → Attributes F → Type 0
  IsTraceable base attributes =
      (lookup (codes "wisetraceloom.trace_id") attributes ≡ some (text base.trace_id))
      × (lookup (codes "wisetraceloom.span_id") attributes ≡ some (text base.span_id))

  set_correlation_attrs-IsTraceable :
      (base : SpanBase) (attributes : Attributes F)
      → IsTraceable base (set_correlation_attrs base attributes)
  unfolding set_correlation_attrs text_eq
  set_correlation_attrs-IsTraceable base attributes =
      let trace_id = codes "wisetraceloom.trace_id" in
      let span_id = codes "wisetraceloom.span_id" in
      let parent_id = codes "wisetraceloom.parent_span_id" in
      let tenant_id = codes "wisetraceloom.tenant_id" in
      let versioned =
        assign (codes "wisetraceloom.schema_version") (text (codes "1.0.0")) attributes in
      let traced = assign trace_id (text base.trace_id) versioned in
      let named = assign span_id (text base.span_id) traced in
      let nested = set_truthy parent_id base.parent_span_id named in
      (
        lookup-set_truthy tenant_id trace_id base.tenant_id nested refl
            ∙ lookup-set_truthy parent_id trace_id base.parent_span_id named refl
            ∙ lookup-assign span_id trace_id (text base.span_id) traced
            ∙ lookup-assign trace_id trace_id (text base.trace_id) versioned,
        lookup-set_truthy tenant_id span_id base.tenant_id nested refl
            ∙ lookup-set_truthy parent_id span_id base.parent_span_id named refl
            ∙ lookup-assign span_id span_id (text base.span_id) traced,
      )

-- The tenant's own choice, else the global one, else no.
abbrev pub opted_in : Option Text → Rows (Option Text) (Dated ExportConfig) → Bool
opted_in tenant table = elim (layered tenant (λ k. value_at k table)) [
  | none ↦ false
  | some d ↦ d.settings.gen_ai_semconv_enabled
]

by_default :
    (found : Option (Dated ExportConfig))
    → (Option.get_or
        (Option.map (λ d. d.settings) found)
        (record { gen_ai_semconv_enabled = false })).gen_ai_semconv_enabled
      ≡ elim found [ none ↦ false | some d ↦ d.settings.gen_ai_semconv_enabled ]
by_default none = refl
by_default (some d) = refl

module _ (sql : Sql) (process : ExportProcess sql) where
  abbrev table : Rows (Option Text) (Dated ExportConfig)
  table = process.stores process.db_path

  module _ (coherent : IsCoherent sql (load_export_config sql) process)
      (unique : IsUnique table) where
    loaded :
        (tenant : Option Text)
        → (load_export_config sql table tenant).gen_ai_semconv_enabled ≡ opted_in tenant table
    unfolding load_export_config
    loaded tenant =
        rw (resolve-layered sql ExportRow-set tenant table unique)
          (by_default (layered tenant (λ k. value_at k table)))

    enabled-eq :
        (tenant : Option Text)
        → (gen_ai_semconv_enabled sql tenant process).0 ≡ opted_in tenant table
    unfolding gen_ai_semconv_enabled get_export_config
    enabled-eq tenant =
        ap (λ c. c.gen_ai_semconv_enabled)
          (read_coherent sql (load_export_config sql) process tenant coherent)
        ∙ loaded tenant

    module _ (conventions : Conventions) {F : Type 0} where
      -- With a coherent cache and unique rows, each of the three exporters exports its span
      -- exactly where the tenant's own row, or else the global one, has opted in, and the
      -- attributes of the exported span tell the trace and span ids of the internal one.
      pub export-opted_in :
          (a : AgentSpan) (t : ToolSpan) (l : LlmSpan F) (time_ns : ℕ)
          → let agents : OtelSpan F = agent_otel_span conventions a time_ns in
            let tools : OtelSpan F = tool_otel_span conventions t time_ns in
            let llms = llm_otel_span conventions l time_ns in
            ((export_agent_span sql conventions a time_ns process).0
              ≡ (if opted_in a.base.tenant_id table then some agents else none))
            × ((export_tool_span sql conventions t time_ns process).0
                ≡ (if opted_in t.base.tenant_id table then some tools else none))
            × ((export_llm_span sql conventions l time_ns process).0 ≡ (
                if opted_in l.base.tenant_id table
                then some (llms, record_llm_metrics conventions l time_ns)
                else none))
            × IsTraceable a.base agents.attributes
            × IsTraceable t.base tools.attributes
            × IsTraceable l.base llms.attributes
      unfolding export_agent_span export_tool_span export_llm_span if_enabled agent_otel_span
          tool_otel_span llm_otel_span
      export-opted_in a t l time_ns = (
        rw (enabled-eq a.base.tenant_id) refl,
        rw (enabled-eq t.base.tenant_id) refl,
        rw (enabled-eq l.base.tenant_id) refl,
        set_correlation_attrs-IsTraceable a.base _,
        set_correlation_attrs-IsTraceable t.base _,
        set_correlation_attrs-IsTraceable l.base _,
      )
