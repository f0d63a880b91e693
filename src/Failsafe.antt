-- ===== src/Failsafe.antt =====
-- wisetraceloom/failsafe.py: exceptions of the instrumentation are caught, control flow is not.
use wisetraceloom.Prelude.{Option, none, some, Text, text_Eq, option_Eq, nat_Eq}

-- How a piece of code ends: with a value, with an Exception and its text, or with another BaseException.
pub data Call {ℓ} (A : Type ℓ) : Type ℓ where
  returns : A → Call A
  raises : Text → Call A
  exits : Call A

-- Where `fail_open` wraps a function, none stands for the None that a swallowed exception gives.
unfoldable pub fail_open {ℓ} : {A : Type ℓ} → Call A → Call (Option A)
fail_open (returns a) = returns (some a)
fail_open (raises message) = returns none
fail_open exits = exits

unfoldable pub fail_open_context : Call (Unit {0}) → Call (Unit {0})
fail_open_context (returns u) = returns u
fail_open_context (raises message) = returns tt
fail_open_context exits = exits
