-- ===== src/Tests/Exporting.antt =====
-- Redaction and export at concrete inputs.
use wisetraceloom.Prelude.{
  ltb, ◌+◌, if◌then◌else◌, ℕ, ◌≡◌, refl, true, none, some, [], ◌∷◌, Text, codes, text_Eq, option_Eq,
  nat_Eq, ◌*◌,
}
use wisetraceloom.Redaction.{
  text, Fields, Patterns, pii_redaction_processor, default_masking_callback,
}
use wisetraceloom.Redaction.Interference.{
  password, Agrees, nothing, hidden, shown, with_fields, append_commit-default_masking_callback,
}
use wisetraceloom.Storage.Commit.{append_commit}
use wisetraceloom.Config.Coherence.{IsCoherent-empty}
use wisetraceloom.Config.Tables.{load_export_config}
use wisetraceloom.Instrumentation.{AgentSpan, LlmSpan}
use wisetraceloom.Instrumentation.Blocks.{new_llm}
use wisetraceloom.Export.{Conventions}
use wisetraceloom.Export.Spans.{
  ExportProcess, export_agent_span, export_tool_span, export_llm_span, agent_otel_span,
  tool_otel_span, llm_otel_span, record_llm_metrics,
}
use wisetraceloom.Export.Correlation.{IsTraceable, export-opted_in}
use wisetraceloom.Tests.Engine.{engine, machine}
use wisetraceloom.Tests.Storing.{stream, event, alone}
use wisetraceloom.Tests.Configuring.{world}
use wisetraceloom.Tests.Instrumenting.{failed_search}

-- A lower case for the first letter, enough for these names.
abbrev lower_first : Text → Text
lower_first [] = []
lower_first (c ∷ s) = (if ltb c 91 then c + 32 else c) ∷ s

abbrev unchanged : Patterns
unchanged = record {
  lower = lower_first;
  sub_email = λ s. s;
  sub_card = λ s. s;
  sub_phone = λ s. s;
}

abbrev shown_texts : Fields ℕ → Text
shown_texts fields = codes "fields"

abbrev login : Text → Fields ℕ
login word = (codes "user", text (codes "ann")) ∷ (codes "Password", text word) ∷ []

login-Agrees : Agrees unchanged (login (codes "one")) (login (codes "two"))
login-Agrees =
    shown (codes "user") (text (codes "ann"))
      (hidden (codes "Password") (text (codes "one")) (text (codes "two")) password nothing)

append_commit-default_masking_callback_example :
    (append_commit
        (with_fields machine ℕ shown_texts (λ s. []))
        (default_masking_callback unchanged)
        stream
        event
        (login (codes "one"))
        none
        none
        (alone 5 ∷ [])
        world
      ≡ append_commit
          (with_fields machine ℕ shown_texts (λ s. []))
          (default_masking_callback unchanged)
          stream
          event
          (login (codes "two"))
          none
          none
          (alone 5 ∷ [])
          world)
    × (pii_redaction_processor unchanged (login (codes "one"))
        ≡ pii_redaction_processor unchanged (login (codes "two")))
append_commit-default_masking_callback_example =
    append_commit-default_masking_callback unchanged machine shown_texts (λ s. []) stream event
      (login (codes "one")) (login (codes "two")) none none (alone 5 ∷ []) world login-Agrees

abbrev conventions : Conventions
conventions = record {
  operation_name = codes "op";
  provider_name = codes "provider";
  agent_id = codes "agent.id";
  agent_name = codes "agent.name";
  agent_description = codes "agent.description";
  conversation_id = codes "conversation";
  tool_name = codes "tool.name";
  tool_type = codes "tool.type";
  tool_call_id = codes "tool.id";
  tool_description = codes "tool.description";
  request_model = codes "request.model";
  response_model = codes "response.model";
  input_tokens = codes "in";
  output_tokens = codes "out";
  reasoning_tokens = codes "reasoning";
  cache_read_tokens = codes "read";
  cache_creation_tokens = codes "creation";
  finish_reasons = codes "reasons";
  temperature = codes "temperature";
  max_tokens = codes "max";
  token_type = codes "type";
  token_type_input = codes "input";
  token_type_completion = codes "output";
  to_epoch_ns = λ n. n * 1000;
}

abbrev step : AgentSpan
step = record {
  base = failed_search.base;
  agent_id = codes "a";
  agent_name = codes "agent";
  description = none;
  conversation_id = none;
  operation_name = codes "plan";
  loop_iteration = 2;
}

abbrev call : LlmSpan ℕ
call = new_llm failed_search.base (codes "p") (codes "m") (codes "chat") none none none

-- Everyone has opted in.
abbrev exporting : ExportProcess engine
exporting = record {
  db_path = codes "a.db";
  stores = λ path.
      record {
        id = 1;
        key = none;
        value = record { settings = record { gen_ai_semconv_enabled = true }; updated_at = 1 };
      }
      ∷ [];
  cache = [];
}

export-opted_in_example :
    ((export_agent_span engine conventions {F = ℕ} step 9 exporting).0
      ≡ some (agent_otel_span conventions step 9))
    × ((export_tool_span engine conventions {F = ℕ} failed_search 9 exporting).0
        ≡ some (tool_otel_span conventions failed_search 9))
    × ((export_llm_span engine conventions call 9 exporting).0
        ≡ some (llm_otel_span conventions call 9, record_llm_metrics conventions call 9))
    × IsTraceable {F = ℕ} step.base (agent_otel_span conventions step 9).attributes
    × IsTraceable {F = ℕ} failed_search.base (tool_otel_span conventions failed_search 9).attributes
    × IsTraceable call.base (llm_otel_span conventions call 9).attributes
export-opted_in_example =
    export-opted_in engine exporting
      (IsCoherent-empty engine (load_export_config engine) exporting refl) (tt, tt) conventions step
      failed_search call 9
