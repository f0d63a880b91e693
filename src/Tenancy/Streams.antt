-- ===== src/Tenancy/Streams.antt =====
-- Isolated streams: a stream names one base, tenant and namespace.
use mathlib.Core.List.{append_assoc}
use wisetraceloom.Prelude.{
  ℕ, ◌≡◌, inl, inr, refl, sym, ap, ◌∙◌, true, false, ◌||◌, Option, none, some, [], ◌∷◌, ◌++◌, Text,
  text_Eq, option_Eq, nat_Eq, arith, strip, has_char, join, ◌≢◌, text_eq_iff,
}
use wisetraceloom.Results.{ok, Result-cases}
use wisetraceloom.Tenancy.{validate_name, namespace_or, isolated_stream_id, default_namespace}

has_char-append : (c : ℕ) (s t : Text) → has_char c (s ++ t) ≡ (has_char c s || has_char c t)
unfolding has_char
has_char-append c [] t = refl
has_char-append c (d ∷ s) t = ground (arith, has_char-append c s t)

-- A separator occurs in what it ends and what follows it.
has_separator : (c : ℕ) (s t : Text) → has_char c (s ++ c ∷ t) ≡ true
unfolding has_char
has_separator c [] t = ground arith
has_separator c (d ∷ s) t = ground (arith, has_separator c s t)

-- The last separator splits a text in one way.
split_last :
    (c : ℕ) (s s' t t' : Text)
    → has_char c t ≡ false
    → has_char c t' ≡ false
    → s ++ c ∷ t ≡ s' ++ c ∷ t'
    → (s ≡ s') × (t ≡ t')
split_last c [] [] t t' f f' e = (refl, cc e)
split_last c [] (d ∷ s') t t' f f' e =
    let same : t ≡ s' ++ c ∷ t' = cc e in
    absurd (cc (f, ap (has_char c) same, has_separator c s' t'))
split_last c (d ∷ s) [] t t' f f' e =
    let same : s ++ c ∷ t ≡ t' = cc e in absurd (cc (f', ap (has_char c) same, has_separator c s t))
split_last c (d ∷ s) (d' ∷ s') t t' f f' e =
    let (p, q) = split_last c s s' t t' f f' (cc e) in (cc (e, p), q)

-- A validated name is the stripped one, which is not empty and has no separator.
pub validate_name-ok :
    (value name : Text)
    → validate_name value ≡ ok name
    → (name ≡ strip value) × (has_char b':' name ≡ false) × (strip value ≢ [])
unfolding validate_name
validate_name-ok value name e =
    let same : name ≡ strip value = ground arith in
    (
      same,
      ap (has_char b':') same ∙ ground arith,
      λ z. absurd (ground (arith, z, text_eq_iff (strip value) [])),
    )

-- The namespace that a name stands for.
abbrev pub namespace_of : Option Text → Text
namespace_of none = default_namespace
namespace_of (some namespace) = strip namespace

namespace_or-ok :
    (namespace : Option Text) (name : Text)
    → namespace_or default_namespace namespace ≡ ok name
    → (name ≡ namespace_of namespace) × (has_char b':' name ≡ false)
unfolding namespace_or has_char
namespace_or-ok none name e =
    let same : default_namespace ≡ name = cc e in (sym same, ap (has_char b':') (sym same))
namespace_or-ok (some namespace) name e =
    let (same, free, _) = validate_name-ok namespace name e in (same, free)

pub isolated_stream_id-ok :
    (base tenant_id : Text) (namespace : Option Text) (stream : Text)
    → isolated_stream_id base tenant_id namespace ≡ ok stream
    → (has_char b':' (strip tenant_id) ≡ false)
      × (has_char b':' (namespace_of namespace) ≡ false)
      × (stream ≡ (strip base ++ b':' ∷ strip tenant_id) ++ b':' ∷ namespace_of namespace)
unfolding isolated_stream_id join
isolated_stream_id-ok base tenant_id namespace stream e =
    elim (Result-cases (validate_name tenant_id)) [
      | inr (x, p) ↦ absurd (ground (arith, p))
      | inl (tenant, p) ↦ elim (Result-cases (namespace_or default_namespace namespace)) [
        | inr (x, q) ↦ absurd (ground (arith, p, q))
        | inl (ns, q) ↦
            let (t, f, _) = validate_name-ok tenant_id tenant p in
            let (n, g) = namespace_or-ok namespace ns q in
            let s : stream ≡ strip base ++ b':' ∷ (tenant ++ b':' ∷ ns) = ground (arith, p, q) in
            (
              ap (has_char b':') (sym t) ∙ f,
              ap (has_char b':') (sym n) ∙ g,
              s ∙ sym (append_assoc (strip base) (b':' ∷ tenant) (b':' ∷ ns)) ∙ cc (t, n),
            )
      ]
    ]

-- Two requests for an isolated stream that are given one stream are for the same base, tenant and
-- namespace, up to surrounding spaces.
pub isolated_stream_id_inj :
    (base tenant_id base' tenant_id' : Text) (namespace namespace' : Option Text) (stream : Text)
    → isolated_stream_id base tenant_id namespace ≡ ok stream
    → isolated_stream_id base' tenant_id' namespace' ≡ ok stream
    → (strip base ≡ strip base')
      × (strip tenant_id ≡ strip tenant_id')
      × (namespace_of namespace ≡ namespace_of namespace')
isolated_stream_id_inj base tenant_id base' tenant_id' namespace namespace' stream e e' =
    let (t, n, s) = isolated_stream_id-ok base tenant_id namespace stream e in
    let (t', n', s') = isolated_stream_id-ok base' tenant_id' namespace' stream e' in
    let (front, same_namespace) = split_last b':' _ _ _ _ n n' (sym s ∙ s') in
    let (same_base, same_tenant) = split_last b':' _ _ _ _ t t' front in
    (same_base, same_tenant, same_namespace)
