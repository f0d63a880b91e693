-- ===== src/Instrumentation.antt =====
-- wisetraceloom/instrumentation.py with the models of schema.py and `bound_trace_context` of
-- tracecontext.py: blocks of host code, each with a span that is emitted when the block ends.
pub mod Blocks
pub mod Outcomes
pub mod Nesting
pub mod Emission
pub mod Stored
pub mod Tools
pub mod Charges
pub mod Models
use wisetraceloom.Prelude.{
  ℕ, zero, suc, ◌+◌, ◌-◌, ◌≤◌, ◌<◌, ◌≡◌, ◌≢◌, ◌↔◌, ◌⊎◌, inl, inr, refl, sym, ap, ◌∙◌, Bool, true,
  false, not, ◌&&◌, ◌||◌, ◌==◌, Eq, if◌then◌else◌, Option, none, some, List, [], ◌∷◌, ◌++◌, map,
  Text, codes, text_eq, text_eq_iff, text_eq_refl, text_Eq, option_Eq, nat_Eq, option_eq_iff,
  filter_by, All, length, arith, ltb, leb, nat_eq, nat_eq_iff, Bool-cases, Option-cases, strip,
  has_char, decimal, join, last?,
}
use mathlib.Core.Option
use wisetraceloom.Failsafe.{Call, returns, raises, exits, fail_open_context}
use wisetraceloom.Results.{Result, ok, err}
use wisetraceloom.TraceContext.{Context}
use wisetraceloom.Tenancy.{isolated_stream_id}
use wisetraceloom.Cost.{Amounts, Tokens, PricingTable, SpendTable, estimate_cost_usd, record_spend}
use wisetraceloom.Storage.{Host}
use wisetraceloom.Storage.Queue.{Writer, enqueue_append}

-- `_SpanBase`, without the constant schema_version.
pub record SpanBase : Type 0 where
  pub span_id : Text
  pub trace_id : Text
  pub parent_span_id : Option Text
  pub tenant_id : Option Text
  pub started_at : ℕ
  pub ended_at : Option ℕ

pub record AgentSpan : Type 0 where
  pub base : SpanBase
  pub agent_id : Text
  pub agent_name : Text
  pub description : Option Text
  pub conversation_id : Option Text
  pub operation_name : Text
  pub loop_iteration : ℕ

pub record ToolSpan : Type 0 where
  pub base : SpanBase
  pub tool_name : Text
  pub tool_call_id : Option Text
  pub tool_type : Text
  pub description : Option Text
  pub success : Option Bool
  pub error_message : Option Text

pub record LlmSpan (F : Type 0) : Type 0 where
  pub base : SpanBase
  pub provider_name : Text
  pub request_model : Text
  pub response_model : Option Text
  pub operation_name : Text
  pub tokens : Tokens
  pub reasoning_tokens : Option ℕ
  pub finish_reasons : List Text
  pub temperature : Option F
  pub max_tokens : Option ℕ
  pub estimated_cost_usd : Option F
  pub prompt_version_id : Option Text

pub data Span (F : Type 0) : Type 0 where
  agent : AgentSpan → Span F
  tool : ToolSpan → Span F
  llm : LlmSpan F → Span F

module _ {F : Type 0} where
  -- `_SPAN_EVENT_NAMES`
  abbrev pub event_name : Span F → Text
  event_name (agent s) = codes "agent_span"
  event_name (tool s) = codes "tool_span"
  event_name (llm s) = codes "llm_span"

  abbrev pub base_of : Span F → SpanBase
  base_of (agent s) = s.base
  base_of (tool s) = s.base
  base_of (llm s) = s.base

-- What the process has outside: a clock, random ids, the logger, an exporter for each kind of span,
-- and pydantic's dump. The logger and the exporters may raise.
pub record Outside (P F : Type 0) : Type 1 where
  pub T : Type 0
  pub clock : T → ℕ
  pub today : T → ℕ
  pub token_hex : ℕ → T → Text × T
  pub info : Text → P → T → Call (Unit {0}) × T
  pub export : Span F → T → Call (Unit {0}) × T
  pub dump : Span F → P

-- The stream that a span is stored on.
unfoldable pub span_stream : Option Text → Option Text → Result Text
span_stream none namespace = ok (codes "spans")
span_stream (some tenant) namespace = isolated_stream_id (codes "spans") tenant namespace

module _ (host : Host) (amounts : Amounts) (outside : Outside host.Payload amounts.F) where
  open host use {sql, Payload}
  open amounts use {F}
  open outside use {T, clock, today, token_hex, info, export, dump}

  pub record App : Type 0 where
    pub writer : Writer Payload
    pub pricing : PricingTable sql amounts
    pub spends : SpendTable sql amounts
    pub world : T

  -- The first block of `_emit_span`: the exporter runs if the logger has not raised.
  unfoldable pub observe : Span F → T → Call (Unit {0}) × T
  observe span t =
      let (logged, t') = info (event_name span) (dump span) t in
      elim logged [
        | returns u ↦ let (exported, t'') = export span t' in (fail_open_context exported, t'')
        | raises message ↦ (returns tt, t')
        | exits ↦ (exits, t')
      ]

  -- The second block, all of whose errors are swallowed.
  unfoldable pub store_span : Span F → Option Text → Writer Payload → Writer Payload
  store_span span namespace writer =
      let tenant = (base_of span).tenant_id in
      elim (span_stream tenant namespace) [
        | err e ↦ writer
        | ok stream_id ↦
            (enqueue_append host stream_id (event_name span) (dump span) tenant writer).1
      ]

  unfoldable pub emit_span : Span F → Option Text → App → Call (Unit {0}) × App
  emit_span span namespace app =
      let (observed, t) = observe span app.world in
      elim observed [
        | returns u ↦
            (returns tt, record app { writer = store_span span namespace app.writer; world = t })
        | raises message ↦ (raises message, record app { world = t })
        | exits ↦ (exits, record app { world = t })
      ]

  -- The host's own figure, or an estimate.
  abbrev pub cost_of : LlmSpan F → App → Option F
  cost_of span app = elim span.estimated_cost_usd [
    | some amount ↦ some amount
    | none ↦
        estimate_cost_usd sql amounts span.provider_name span.request_model span.base.tenant_id
          span.tokens app.pricing
  ]

  -- An error of the pricing or spend tables, which would be swallowed, does not occur in the model,
  -- and the check for an anomaly only logs.
  unfoldable pub attribute_cost : LlmSpan F → App → LlmSpan F × App
  attribute_cost span app =
      let cost = cost_of span app in
      let priced : LlmSpan F = record span { estimated_cost_usd = cost } in
      elim cost [
        | none ↦ (priced, app)
        | some amount ↦ elim span.base.tenant_id [
          | none ↦ (priced, app)
          | some tenant ↦ (
            priced,
            record app {
              spends =
                  record_spend sql amounts tenant amount (today app.world) (clock app.world)
                    app.spends;
            },
          )
        ]
      ]
