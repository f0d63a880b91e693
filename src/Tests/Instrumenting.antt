-- ===== src/Tests/Instrumenting.antt =====
-- The write queue and the blocks of the instrumentation, with a logger that always raises.
use wisetraceloom.Prelude.{
  filter_by, text_eq, strip, lstrip, rstrip, is_space, has_char, join, pair_Eq, inl, refl, arith,
  Option, ℕ, ◌+◌, ◌≤◌, ◌≡◌, true, false, none, some, List, [], ◌∷◌, ◌++◌, map, Text, codes, text_Eq,
  option_Eq, nat_Eq, length,
}
use wisetraceloom.Masking.{Masked, returned}
use wisetraceloom.Residency.{register_region}
use wisetraceloom.Failsafe.{Call, returns, raises}
use wisetraceloom.TraceContext.{Context}
use wisetraceloom.Storage.Queue.{Write, Writer, max_queued, is_drained}
use wisetraceloom.Storage.Queue.Order.{
  Event, enqueue, take, finish, route, run, accepted, written, pending, append_all, run-append_all,
}
use wisetraceloom.Instrumentation.{SpanBase, ToolSpan, LlmSpan, Span, base_of, Outside, App}
use wisetraceloom.Instrumentation.Blocks.{Body, new_llm, agent_step, tool_call, llm_call}
use wisetraceloom.Instrumentation.Emission.{Contained}
use wisetraceloom.Instrumentation.Stored.{begins, untagged, tagged, failed}
use wisetraceloom.Instrumentation.Tools.{new_tool, tool_call-queues}
use wisetraceloom.Instrumentation.Charges.{own}
use wisetraceloom.Instrumentation.Models.{llm_call-charges}
use wisetraceloom.Cost.Spending.{Payment, tally}
use wisetraceloom.Config.Rows.{value_at}
use mathlib.Core.Option
use wisetraceloom.Residency.{resolve_engine, load_region_config, lookup}
use wisetraceloom.Config.{resolve}
use wisetraceloom.Config.Cache.{get_cached, cached}
use wisetraceloom.Tenancy.{isolated_stream_id, validate_name, namespace_or}
use wisetraceloom.Instrumentation.Nesting.{calling}
use wisetraceloom.Tests.Engine.{machine, engine}
use wisetraceloom.Tests.Storing.{stream, event, alone}
use wisetraceloom.Tests.Configuring.{world}
use wisetraceloom.Tests.Spending.{cents}

abbrev writer : Writer Text
writer = record { queue = []; taken = none; world = world }

-- A write is queued, its region is registered anew, and the thread appends it.
abbrev events : List (Event machine)
events =
    enqueue stream event (codes "one") none
    ∷ route (register_region (codes "eu") (codes "moved.db"))
    ∷ take
    ∷ enqueue stream event (codes "two") none
    ∷ finish (alone 5 ∷ [])
    ∷ []

abbrev masked : Text → Masked Text
masked p = returned (codes "masked")

abbrev after : Writer Text
after = run machine masked events writer

run-append_all_example :
    (map (λ x. x.0) (written machine masked events writer) ++ pending machine masked after
      ≡ pending machine masked writer ++ accepted machine masked events writer)
    × (after.world.stores
        ≡ append_all machine masked (written machine masked events writer) world.stores)
    × (length {A = Write Text} [] ≤ max_queued → length after.queue ≤ max_queued)
    × (is_drained after ≡ true → pending machine masked after ≡ [])
run-append_all_example = run-append_all machine masked events writer

-- The parent's id and the span's own.
abbrev shown_ids : Span ℕ → Text
shown_ids span = Option.get_or (base_of span).parent_span_id [] ++ b'<' ∷ (base_of span).span_id

abbrev outside : Outside Text ℕ
outside = record {
  T = ℕ;
  clock = λ t. t;
  today = λ t. 20;
  token_hex = λ n t. (t ∷ [], t + 1);
  info = λ name p t. (raises (codes "no log"), t + 1);
  export = λ span t. (returns tt, t + 1);
  dump = shown_ids;
}

outside-Contained : Contained outside
outside-Contained = record {
  info_stays = λ name p t e. cc e;
  export_stays = λ span t e. cc e;
  token_there = λ n t h e. cc e;
}

abbrev app : App machine cents outside
app = record { writer = writer; pricing = []; spends = []; world = 3 }

abbrev unbound : Context
unbound = record { trace_id = none; span_id = none; tracestate = none }

-- Host code that raises.
abbrev failing : Body machine cents outside ToolSpan ℕ
failing span app context = ((raises (codes "host"), span, app), context)

abbrev called : (Call ℕ × App machine cents outside) × Context
called =
    tool_call machine cents outside (codes "search") (codes "function", none) none none none failing
      app unbound

abbrev pub failed_search : ToolSpan
failed_search = record {
  base = record {
    span_id = codes "ab";
    trace_id = codes "ab";
    parent_span_id = none;
    tenant_id = none;
    started_at = 5;
    ended_at = some 5;
  };
  tool_name = codes "search";
  tool_call_id = none;
  tool_type = codes "function";
  description = none;
  success = some false;
  error_message = some (codes "host");
}

-- The write that a span leaves, in the database of everyone or of a tenant.
abbrev stored : Text → Text → Text → Option Text → Text → Write Text
stored s name payload tenant_id path = record {
  stream_id = s;
  record_type = name;
  payload = payload;
  tenant_id = tenant_id;
  engine = path;
}

-- The span and the process that a tool's block leaves where its span starts at 5.
abbrev searching : Option Text → Text → Text → ToolSpan
searching parent trace id =
    new_tool
      (record {
        span_id = id;
        trace_id = trace;
        parent_span_id = parent;
        tenant_id = none;
        started_at = 5;
        ended_at = none;
      })
      (codes "search") (codes "function") none none

tool_call-queues_example :
    (called.0.0 ≡ raises (codes "host"))
    × (called.1 ≡ unbound)
    × (called.0.1.writer.queue
        ≡ stored (codes "spans") (codes "tool_span") (b'<' ∷ 4 ∷ []) none (codes "a.db") ∷ [])
    × (called.0.1.writer.world.residency ≡ (resolve_engine engine none world.residency).1)
unfolding resolve_engine get_cached cached load_region_config resolve filter_by text_eq
tool_call-queues_example =
    tool_call-queues machine cents outside outside-Contained none none none app unbound
      (codes "search") (codes "function") none failing (searching none (3 ∷ []) (4 ∷ [])).base 5
      (begins (inl refl)) (raises (codes "host")) (searching none (3 ∷ []) (4 ∷ []))
      (record app { world = 5 }) refl (some false) (some (codes "host"))
      (failed (codes "host") (searching none (3 ∷ []) (4 ∷ []))) (codes "spans") (codes "a.db")
      untagged refl (omega arith)

-- Host code that gives a cost of its own.
abbrev paying : Body machine cents outside (LlmSpan ℕ) ℕ
paying span app context = ((returns 1, record span { estimated_cost_usd = some 7 }, app), context)

abbrev asked : (Call ℕ × App machine cents outside) × Context
asked =
    llm_call machine cents outside (codes "p", codes "m") (codes "chat") (none, none, none)
      (some (codes "acme")) none paying app unbound

abbrev answer_base : SpanBase
answer_base = record {
  span_id = 4 ∷ [];
  trace_id = 3 ∷ [];
  parent_span_id = none;
  tenant_id = some (codes "acme");
  started_at = 5;
  ended_at = none;
}

abbrev answered : LlmSpan ℕ
answered = record (new_llm answer_base (codes "p") (codes "m") (codes "chat") none none none) {
  estimated_cost_usd = some 7;
}

abbrev charge : Payment ℕ
charge = record { tenant = codes "acme"; amount = 7; day = 20; now = 5 }

llm_call-charges_example :
    (asked.0.0 ≡ returns 1)
    × (asked.1 ≡ unbound)
    × (asked.0.1.writer.queue
        ≡ stored
            (codes "spans:acme:default")
            (codes "llm_span")
            (b'<' ∷ 4 ∷ [])
            (some (codes "acme"))
            (codes "eu.db")
          ∷ [])
    × (Option.map (λ v. v.total_usd) (value_at (codes "acme", 20) asked.0.1.spends)
        ≡ tally engine cents (codes "acme", 20) none (charge ∷ []))
unfolding resolve_engine isolated_stream_id validate_name namespace_or text_eq strip lstrip rstrip
    is_space has_char join get_cached cached load_region_config resolve filter_by lookup
llm_call-charges_example =
    llm_call-charges machine cents outside outside-Contained (some (codes "acme")) none app unbound
      (codes "p") (codes "m") (codes "chat") none none none paying answer_base 5 (begins (inl refl))
      (returns 1) answered (record app { world = 5 }) refl (some 7) (charge ∷ [])
      (own 7 (codes "acme") refl refl) (codes "spans:acme:default") (codes "eu.db")
      (tagged (codes "acme") (codes "spans:acme:default") refl) refl (omega arith)
      (codes "acme", 20)

abbrev stepped : (Call ℕ × App machine cents outside) × Context
stepped =
    agent_step machine cents outside (codes "a", codes "agent") (codes "plan", none) none none none
      0
      (calling machine cents outside outside-Contained unbound app (codes "search")
        (codes "function", none) none none none failing)
      app unbound

abbrev step_base : SpanBase
step_base = (searching none (3 ∷ []) (4 ∷ [])).base

abbrev nested : ToolSpan
nested = record (searching (some (4 ∷ [])) (3 ∷ []) (5 ∷ [])) {
  base = record (searching (some (4 ∷ [])) (3 ∷ []) (5 ∷ [])).base { started_at = 6 };
}
