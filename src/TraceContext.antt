-- ===== src/TraceContext.antt =====
-- wisetraceloom/tracecontext.py: the traceparent header, and the ids that it carries.
pub mod Headers
use wisetraceloom.Prelude.{
  ◌%◌, ℕ, zero, suc, ◌+◌, ◌-◌, ◌≤◌, ◌<◌, ◌≡◌, ◌≢◌, ◌↔◌, ◌⊎◌, inl, inr, refl, sym, ap, ◌∙◌, Bool,
  true, false, not, ◌&&◌, ◌||◌, ◌==◌, Eq, if◌then◌else◌, Option, none, some, List, [], ◌∷◌, ◌++◌,
  map, Text, codes, text_eq, text_eq_iff, text_eq_refl, text_Eq, option_Eq, nat_Eq, option_eq_iff,
  filter_by, All, length, arith, ltb, leb, nat_eq, nat_eq_iff, Bool-cases, Option-cases, strip,
  has_char, decimal, join, last?,
}
use mathlib.Core.List.{List}
use wisetraceloom.Residency.{lookup, assign}

-- `[0-9a-f]`
unfoldable pub is_hex : ℕ → Bool
is_hex c = leb b'0' c && leb c b'9' || leb b'a' c && leb c b'f'

-- `[0-9a-f]{n}`: so many digits, and the text behind them.
unfoldable pub take_hex : ℕ → Text → Option (Text × Text)
unfolding is_hex
take_hex zero s = some ([], s)
take_hex (suc n) [] = none
take_hex (suc n) (c ∷ s) =
    let rest = take_hex n s in
    if is_hex c then elim rest [ none ↦ none | some (digits, t) ↦ some (c ∷ digits, t) ] else none

-- One separator.
unfoldable pub take_dash : Text → Option Text
take_dash [] = none
take_dash (c ∷ s) = if nat_eq c b'-' then some s else none

unfoldable pub format_traceparent : Text → Text → Bool → Text
format_traceparent trace_id span_id sampled =
    codes "00-"
    ++ trace_id
    ++ b'-' ∷ (span_id ++ b'-' ∷ (if sampled then codes "01" else codes "00"))

-- The lowest bit of two hexadecimal digits: 0 to 9 start at an even code, a to f at an odd one.
abbrev pub lowest_bit : Text → Bool
lowest_bit [] = false
lowest_bit (c ∷ []) = if leb c b'9' then nat_eq (c % 2) 1 else nat_eq (c % 2) 0
lowest_bit (c ∷ d ∷ digits) = lowest_bit (d ∷ digits)

infixl 5 ◌>>=◌
abbrev ◌>>=◌ : {A B : Type 0} → Option A → (A → Option B) → Option B
none >>= f = none
some a >>= f = f a

-- The groups of `_TRACEPARENT_RE`: trace id, span id and flags.
unfoldable pub match_traceparent : Text → Option (Text × (Text × Text))
unfolding take_hex take_dash
match_traceparent header = do
  (version, s) ← take_hex 2 header
  s ← take_dash s
  (trace_id, s) ← take_hex 32 s
  s ← take_dash s
  (span_id, s) ← take_hex 16 s
  s ← take_dash s
  (flags, s) ← take_hex 2 s
  if s == [] then some (trace_id, (span_id, flags)) else none

abbrev pub zeros : ℕ → Text
zeros zero = []
zeros (suc n) = b'0' ∷ zeros n

unfoldable pub parse_traceparent : Text → Option (Text × (Text × Bool))
unfolding match_traceparent
parse_traceparent header = elim (match_traceparent (strip header)) [
  | none ↦ none
  | some (trace_id, (span_id, flags)) ↦
      if trace_id == zeros 32 || span_id == zeros 16
      then none
      else some (trace_id, (span_id, lowest_bit flags))
]

-- The context variables of a task.
pub record Context : Type 0 where
  pub trace_id : Option Text
  pub span_id : Option Text
  pub tracestate : Option Text

abbrev pub HeaderMap : Type 0
HeaderMap = List (Text × Text)

-- `if tracestate:`
abbrev pub with_tracestate : Option Text → HeaderMap → HeaderMap
with_tracestate none headers = headers
with_tracestate (some state) headers =
    if state == [] then headers else assign (codes "tracestate") state headers

unfoldable pub inject_traceparent : Context → HeaderMap → HeaderMap
unfolding format_traceparent
inject_traceparent context headers = elim context.trace_id [
  | none ↦ headers
  | some trace_id ↦ elim context.span_id [
    | none ↦ headers
    | some span_id ↦
        with_tracestate context.tracestate
          (assign (codes "traceparent") (format_traceparent trace_id span_id true) headers)
  ]
]

unfoldable pub extract_traceparent : HeaderMap → Option (Text × (Text × Bool))
unfolding parse_traceparent
extract_traceparent headers = elim (lookup (codes "traceparent") headers) [
  | none ↦ none
  | some header ↦ parse_traceparent header
]
