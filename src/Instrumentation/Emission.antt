-- ===== src/Instrumentation/Emission.antt =====
-- wisetraceloom/instrumentation.py: what an emission leaves, whatever the logger and the exporters do, and
-- which stream it goes to.
use wisetraceloom.Prelude.{
  ℕ, ◌≤◌, ◌≡◌, ◌≢◌, ◌⊎◌, inl, inr, refl, sym, ap, ◌∙◌, true, false, Option, none, some, [], ◌∷◌,
  ◌++◌, Text, codes, text_Eq, option_Eq, nat_Eq, arith, strip, has_char,
}
use mathlib.Core.Option
use wisetraceloom.Failsafe.{Call, returns, raises, exits, fail_open_context}
use wisetraceloom.Cost.{Amounts}
use wisetraceloom.Results.{ok}
use wisetraceloom.Storage.{Host}
use wisetraceloom.Tenancy.{isolated_stream_id}
use wisetraceloom.Tenancy.Streams.{isolated_stream_id_inj, isolated_stream_id-ok, namespace_of}
use wisetraceloom.Instrumentation.{
  event_name, Span, Outside, App, observe, store_span, emit_span, span_stream,
}

pub Call-cases {ℓ} :
    {A : Type ℓ} (c : Call A)
    → ((a : A) × (c ≡ returns a)) ⊎ (((m : Text) × (c ≡ raises m)) ⊎ (c ≡ exits))
Call-cases (returns a) = inl (a, refl)
Call-cases (raises m) = inr (inl (m, refl))
Call-cases exits = inr (inr refl)

-- The logger and the exporters end with an Exception at most, and a random id is not empty.
pub record Contained {P F : Type 0} (outside : Outside P F) : Type 0 where
  pub info_stays : (name : Text) (p : P) (t : outside.T) → (outside.info name p t).0 ≢ exits
  pub export_stays : (span : Span F) (t : outside.T) → (outside.export span t).0 ≢ exits
  pub token_there : (n : ℕ) (t : outside.T) → 1 ≤ n → (outside.token_hex n t).0 ≢ []

module _ (host : Host) (amounts : Amounts) (outside : Outside host.Payload amounts.F) where
  open amounts use {F}
  open outside use {T, info, export, dump}

  module _ (contained : Contained outside) where
    observe-returns : (span : Span F) (t : T) → (observe host amounts outside span t).0 ≡ returns tt
    unfolding observe fail_open_context
    observe-returns span t =
        let logged = info (event_name span) (dump span) t in
        elim (Call-cases logged.0) [
          | inr (inr x) ↦ absurd (contained.info_stays (event_name span) (dump span) t x)
          | inr (inl (m, x)) ↦ rw (x, observe) refl
          | inl (u, x) ↦ elim (Call-cases (export span logged.1).0) [
            | inr (inr y) ↦ absurd (contained.export_stays span logged.1 y)
            | inr (inl (m, y)) ↦ rw (x, observe, y, fail_open_context) refl
            | inl (v, y) ↦ rw (x, observe, y, fail_open_context) refl
          ]
        ]

    pub emit_span-eq :
        (span : Span F) (namespace : Option Text) (app : App host amounts outside)
        → emit_span host amounts outside span namespace app ≡ (
          returns tt,
          record app {
            writer = store_span host amounts outside span namespace app.writer;
            world = (observe host amounts outside span app.world).1;
          },
        )
    unfolding emit_span
    emit_span-eq span namespace app = rw (observe-returns span app.world, emit_span) refl

has_char-append : (c : ℕ) (s t : Text) → has_char c (s ++ c ∷ t) ≡ true
unfolding has_char
has_char-append c [] t = ground arith
has_char-append c (d ∷ s) t = ground (arith, has_char-append c s t)

untagged :
    (tenant : Text) (namespace : Option Text)
    → isolated_stream_id (codes "spans") tenant namespace ≢ ok (codes "spans")
unfolding has_char
untagged tenant namespace e =
    let (_, _, s) = isolated_stream_id-ok (codes "spans") tenant namespace (codes "spans") e in
    let clash : false ≡ true =
      ap (has_char b':') s
      ∙ has_char-append b':' (strip (codes "spans") ++ b':' ∷ strip tenant)
          (namespace_of namespace) in
    cc clash

-- Two spans that go to the same stream have the same tenant after strip, or both none; with a
-- tenant they have the same namespace too.
pub span_stream_inj :
    (tenant tenant' namespace namespace' : Option Text) (stream : Text)
    → span_stream tenant namespace ≡ ok stream
    → span_stream tenant' namespace' ≡ ok stream
    → (Option.map strip tenant ≡ Option.map strip tenant')
      × ((tenant ≡ none) ⊎ (namespace_of namespace ≡ namespace_of namespace'))
unfolding span_stream
span_stream_inj none none namespace namespace' stream e e' = (refl, inl refl)
span_stream_inj none (some t') namespace namespace' stream e e' =
    absurd (untagged t' namespace' (e' ∙ sym e))
span_stream_inj (some t) none namespace namespace' stream e e' =
    absurd (untagged t namespace (e ∙ sym e'))
span_stream_inj (some t) (some t') namespace namespace' stream e e' =
    let (_, same, spaces) =
      isolated_stream_id_inj (codes "spans") t (codes "spans") t' namespace namespace' stream e
        e' in
    (ap some same, inr spaces)
