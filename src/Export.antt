-- ===== src/Export.antt =====
-- wisetraceloom/otel_export.py: the name, the times and the attributes of an exported span, and the metrics
-- of an LLM call. The tracer and the meter that take them are not modelled.
pub mod Spans
pub mod Correlation
use wisetraceloom.Prelude.{
  ℕ, zero, suc, ◌+◌, ◌-◌, ◌≤◌, ◌<◌, ◌≡◌, ◌≢◌, ◌↔◌, ◌⊎◌, inl, inr, refl, sym, ap, ◌∙◌, Bool, true,
  false, not, ◌&&◌, ◌||◌, ◌==◌, Eq, if◌then◌else◌, Option, none, some, List, [], ◌∷◌, ◌++◌, map,
  Text, codes, text_eq, text_eq_iff, text_eq_refl, text_Eq, option_Eq, nat_Eq, option_eq_iff,
  filter_by, All, length, arith, ltb, leb, nat_eq, nat_eq_iff, Bool-cases, Option-cases, strip,
  has_char, decimal, join, last?,
}
use mathlib.Core.Option
use wisetraceloom.Residency.{lookup, assign}
use wisetraceloom.Sql.{Sql}
use wisetraceloom.Config.Cache.{Process}
use wisetraceloom.Config.Tables.{Dated, ExportConfig, get_export_config}
use wisetraceloom.Instrumentation.{SpanBase, AgentSpan, ToolSpan, LlmSpan}

-- What an attribute holds.
pub data Attribute (F : Type 0) : Type 0 where
  text : Text → Attribute F
  count : ℕ → Attribute F
  float : F → Attribute F
  texts : List Text → Attribute F

abbrev pub Attributes : Type 0 → Type 0
Attributes F = List (Text × Attribute F)

-- The attribute names and token types of the OpenTelemetry conventions, and `int` of a timestamp in
-- nanoseconds of a time.
pub record Conventions : Type 0 where
  pub operation_name : Text
  pub provider_name : Text
  pub agent_id : Text
  pub agent_name : Text
  pub agent_description : Text
  pub conversation_id : Text
  pub tool_name : Text
  pub tool_type : Text
  pub tool_call_id : Text
  pub tool_description : Text
  pub request_model : Text
  pub response_model : Text
  pub input_tokens : Text
  pub output_tokens : Text
  pub reasoning_tokens : Text
  pub cache_read_tokens : Text
  pub cache_creation_tokens : Text
  pub finish_reasons : Text
  pub temperature : Text
  pub max_tokens : Text
  pub token_type : Text
  pub token_type_input : Text
  pub token_type_completion : Text
  pub to_epoch_ns : ℕ → ℕ

pub record OtelSpan (F : Type 0) : Type 0 where
  pub name : Text
  pub start_time : ℕ
  pub attributes : Attributes F
  -- The description of an error status, if that status was set.
  pub error_status : Option (Option Text)
  pub end_time : ℕ

-- The recorded counts with their attributes, and the times whose difference is recorded as the
-- duration.
pub record Metrics (F : Type 0) : Type 0 where
  pub token_usage : List (ℕ × Attributes F)
  pub started_ns : ℕ
  pub ended_ns : ℕ
  pub duration_attributes : Attributes F

module _ {F : Type 0} where
  -- `if value:` of a text that may be missing.
  unfoldable pub set_truthy : Text → Option Text → Attributes F → Attributes F
  set_truthy key none attributes = attributes
  set_truthy key (some value) attributes =
      if value == [] then attributes else assign key (text value) attributes

  -- `if value is not None:`
  abbrev pub set_count : Text → Option ℕ → Attributes F → Attributes F
  set_count key none attributes = attributes
  set_count key (some n) attributes = assign key (count n) attributes

  abbrev pub set_float : Text → Option F → Attributes F → Attributes F
  set_float key none attributes = attributes
  set_float key (some x) attributes = assign key (float x) attributes

  abbrev pub set_texts : Text → List Text → Attributes F → Attributes F
  set_texts key [] attributes = attributes
  set_texts key (t ∷ ts) attributes = assign key (texts (t ∷ ts)) attributes

  unfoldable pub set_correlation_attrs : SpanBase → Attributes F → Attributes F
  set_correlation_attrs base attributes =
      let versioned =
        assign (codes "wisetraceloom.schema_version") (text (codes "1.0.0")) attributes in
      let traced = assign (codes "wisetraceloom.trace_id") (text base.trace_id) versioned in
      let named = assign (codes "wisetraceloom.span_id") (text base.span_id) traced in
      let nested = set_truthy (codes "wisetraceloom.parent_span_id") base.parent_span_id named in
      set_truthy (codes "wisetraceloom.tenant_id") base.tenant_id nested
