-- ===== src/Tests/Tracing.antt =====
-- Trace headers at concrete ids.
use wisetraceloom.Prelude.{
  ℕ, zero, suc, ◌≡◌, refl, true, some, [], ◌∷◌, Text, codes, text_eq, text_eq_iff, text_Eq,
  option_Eq, nat_Eq, All,
}
use wisetraceloom.TraceContext.{is_hex, zeros, inject_traceparent, extract_traceparent}
use wisetraceloom.TraceContext.Headers.{IsId, extract-inject_traceparent}

abbrev letters : ℕ → Text
letters zero = []
letters (suc n) = b'a' ∷ letters n

letters-hex : (n : ℕ) → All (λ c. is_hex c ≡ true) (letters n)
unfolding is_hex
letters-hex zero = tt
letters-hex (suc n) = (refl, letters-hex n)

trace-IsId : IsId 32 (letters 32)
unfolding text_eq
trace-IsId = (refl, letters-hex 32, λ e. cc ((text_eq_iff (letters 32) (zeros 32)).1 e))

span-IsId : IsId 16 (letters 16)
unfolding text_eq
span-IsId = (refl, letters-hex 16, λ e. cc ((text_eq_iff (letters 16) (zeros 16)).1 e))

extract-inject_traceparent_example :
    extract_traceparent (
      inject_traceparent
        (record {
          trace_id = some (letters 32);
          span_id = some (letters 16);
          tracestate = some (codes "vendor=1");
        })
        ((codes "accept", codes "*") ∷ []))
    ≡ some (letters 32, (letters 16, true))
extract-inject_traceparent_example =
    extract-inject_traceparent (letters 32) (letters 16) (some (codes "vendor=1"))
      ((codes "accept", codes "*") ∷ []) trace-IsId span-IsId
