-- ===== src/Instrumentation/Nesting.antt =====
-- wisetraceloom/instrumentation.py: a tool call inside an agent step.
use wisetraceloom.Prelude.{Option, Text, text_Eq, option_Eq, nat_Eq}
use wisetraceloom.TraceContext.{Context}
use wisetraceloom.Cost.{Amounts}
use wisetraceloom.Storage.{Host}
use wisetraceloom.Instrumentation.{AgentSpan, ToolSpan, Outside, App}
use wisetraceloom.Instrumentation.Blocks.{Body, tool_call}
use wisetraceloom.Instrumentation.Emission.{Contained}

module _ (host : Host) (amounts : Amounts) (outside : Outside host.Payload amounts.F)
    (contained : Contained outside) where
  open host use {sql}
  open outside use {T, clock, token_hex, dump}

  module _ {A : Type 0} (context : Context) (app : App host amounts outside) where
    -- The step's body is the tool call, whose block is the host's code.
    abbrev pub calling :
        Text
        → (Text × Option Text)
        → Option Text
        → Option Text
        → Option Text
        → Body host amounts outside ToolSpan A
        → Body host amounts outside AgentSpan A
    calling name kind tenant_id namespace description inner span app bound =
        let ((result, app'), left) =
          tool_call host amounts outside name kind tenant_id namespace description inner app
            bound in
        ((result, span, app'), left)
