-- ===== src/TraceContext/Headers.antt =====
-- The header round trip.
use wisetraceloom.Prelude.{
  is_space, rstrip, lstrip, ℕ, zero, suc, ◌≡◌, ◌≢◌, inl, inr, refl, sym, ap, ◌∙◌, Bool, true, false,
  if◌then◌else◌, Option, none, some, [], ◌∷◌, ◌++◌, Text, codes, text_eq, text_eq_iff, text_eq_refl,
  text_Eq, option_Eq, nat_Eq, All, length, arith, Bool-cases, strip,
}
use mathlib.Core.List.{append_assoc}
use wisetraceloom.Residency.{lookup, assign, lookup-assign}
use wisetraceloom.TraceContext.{
  is_hex, take_hex, format_traceparent, parse_traceparent, match_traceparent, zeros, lowest_bit,
  HeaderMap, inject_traceparent, extract_traceparent, with_tracestate,
}

-- So many lowercase hexadecimal digits, not all of them 0.
abbrev pub IsId : ℕ → Text → Type 0
IsId n id = (length id ≡ n) × All (λ c. is_hex c ≡ true) id × (id ≢ zeros n)

take_hex-append :
    (n : ℕ) (s t : Text)
    → length s ≡ n
    → All (λ c. is_hex c ≡ true) s
    → take_hex n (s ++ t) ≡ some (s, t)
unfolding take_hex
take_hex-append zero [] t e h = refl
take_hex-append zero (c ∷ s) t e h = absurd (omega arith)
take_hex-append (suc n) [] t e h = absurd (omega arith)
take_hex-append (suc n) (c ∷ s) t e h = ground (arith, h.0, take_hex-append n s t (omega arith) h.1)

nonempty : (s : Text) (c : ℕ) → text_eq (s ++ c ∷ []) [] ≡ false
unfolding text_eq
nonempty [] c = refl
nonempty (d ∷ s) c = refl

-- A text that ends in a character that is no space keeps its end.
rstrip-append : (s : Text) (c : ℕ) → is_space c ≡ false → rstrip (s ++ c ∷ []) ≡ s ++ c ∷ []
unfolding rstrip text_eq
rstrip-append [] c f = ground (arith, f)
rstrip-append (d ∷ s) c f = ground (arith, rstrip-append s c f, nonempty s c)

abbrev flags : Bool → Text
flags sampled = if sampled then codes "01" else codes "00"

take_hex-flags : (sampled : Bool) → take_hex 2 (flags sampled) ≡ some (flags sampled, [])
unfolding take_hex is_hex
take_hex-flags true = refl
take_hex-flags false = refl

match-format :
    (trace_id span_id : Text) (sampled : Bool)
    → IsId 32 trace_id
    → IsId 16 span_id
    → match_traceparent (format_traceparent trace_id span_id sampled)
      ≡ some (trace_id, (span_id, flags sampled))
unfolding match_traceparent format_traceparent text_eq
match-format trace_id span_id sampled t s =
    rw (take_hex-append 32 trace_id _ t.0 t.1, match_traceparent)
      (rw (take_hex-append 16 span_id _ s.0 s.1, match_traceparent)
        (rw (take_hex-flags sampled, match_traceparent) refl))

strip-ends :
    (s : Text) (c d : ℕ)
    → is_space c ≡ false
    → is_space d ≡ false
    → strip (c ∷ (s ++ d ∷ [])) ≡ c ∷ (s ++ d ∷ [])
unfolding strip lstrip
strip-ends s c d f g = rw f (rstrip-append (c ∷ s) d g)

strip-format :
    (trace_id span_id : Text) (sampled : Bool)
    → strip (format_traceparent trace_id span_id sampled)
      ≡ format_traceparent trace_id span_id sampled
unfolding format_traceparent is_space
strip-format trace_id span_id true =
    rw
      (sym (
        append_assoc trace_id (b'-' ∷ (span_id ++ codes "-0")) (codes "1")
        ∙ ap (λ z. trace_id ++ b'-' ∷ z) (append_assoc span_id (codes "-0") (codes "1"))))
      (strip-ends (codes "0-" ++ (trace_id ++ b'-' ∷ (span_id ++ codes "-0"))) b'0' b'1' refl refl)
strip-format trace_id span_id false =
    rw
      (sym (
        append_assoc trace_id (b'-' ∷ (span_id ++ codes "-0")) (codes "0")
        ∙ ap (λ z. trace_id ++ b'-' ∷ z) (append_assoc span_id (codes "-0") (codes "0"))))
      (strip-ends (codes "0-" ++ (trace_id ++ b'-' ∷ (span_id ++ codes "-0"))) b'0' b'0' refl refl)

differ : (s t : Text) → s ≢ t → text_eq s t ≡ false
differ s t n = elim (Bool-cases (text_eq s t)) [
  | inl e ↦ absurd (n ((text_eq_iff s t).0 e))
  | inr f ↦ f
]

lowest_bit-flags : (sampled : Bool) → lowest_bit (flags sampled) ≡ sampled
lowest_bit-flags true = refl
lowest_bit-flags false = refl

-- A header that was formatted from two ids of lowercase hexadecimal digits, 32 and 16 of them and
-- not all 0, parses to these ids and the sampled flag.
pub parse-format_traceparent :
    (trace_id span_id : Text) (sampled : Bool)
    → IsId 32 trace_id
    → IsId 16 span_id
    → parse_traceparent (format_traceparent trace_id span_id sampled)
      ≡ some (trace_id, (span_id, sampled))
unfolding parse_traceparent
parse-format_traceparent trace_id span_id sampled t s =
    rw (strip-format trace_id span_id sampled, parse_traceparent)
      (rw (match-format trace_id span_id sampled t s, parse_traceparent)
        (rw (differ trace_id (zeros 32) t.2, differ span_id (zeros 16) s.2)
          (ap (λ b. some (trace_id, (span_id, b))) (lowest_bit-flags sampled))))

lookup-with_tracestate :
    (state : Option Text) (headers : HeaderMap)
    → lookup (codes "traceparent") (with_tracestate state headers)
      ≡ lookup (codes "traceparent") headers
unfolding text_eq
lookup-with_tracestate none headers = refl
lookup-with_tracestate (some state) headers = elim (Bool-cases (text_eq state [])) [
  | inl e ↦ rw e refl
  | inr f ↦ rw f (lookup-assign (codes "tracestate") (codes "traceparent") state headers)
]

-- What a process with two bound ids, of lowercase hexadecimal digits, 32 and 16 of them and not
-- all 0, injects into any headers, another extracts, marked as sampled.
pub extract-inject_traceparent :
    (trace_id span_id : Text) (tracestate : Option Text) (headers : HeaderMap)
    → IsId 32 trace_id
    → IsId 16 span_id
    → extract_traceparent (
        inject_traceparent
          (record { trace_id = some trace_id; span_id = some span_id; tracestate = tracestate })
          headers)
      ≡ some (trace_id, (span_id, true))
unfolding extract_traceparent inject_traceparent
extract-inject_traceparent trace_id span_id tracestate headers t s =
    let header = format_traceparent trace_id span_id true in
    let found : lookup (codes "traceparent") (assign (codes "traceparent") header headers)
        ≡ some header =
      rw (lookup-assign (codes "traceparent") (codes "traceparent") header headers)
        (rw (text_eq_refl (codes "traceparent")) refl) in
    rw
      (
        lookup-with_tracestate tracestate (assign (codes "traceparent") header headers),
        extract_traceparent,
      )
      (rw (found, extract_traceparent) (parse-format_traceparent trace_id span_id true t s))
