-- ===== src/Redaction.antt =====
-- wisetraceloom/redaction.py: fields by name and patterns in texts, and the default masking callback of
-- masking.py that applies both.
pub mod Interference
use wisetraceloom.Prelude.{
  ℕ, zero, suc, ◌+◌, ◌-◌, ◌≤◌, ◌<◌, ◌≡◌, ◌≢◌, ◌↔◌, ◌⊎◌, inl, inr, refl, sym, ap, ◌∙◌, Bool, true,
  false, not, ◌&&◌, ◌||◌, ◌==◌, Eq, if◌then◌else◌, Option, none, some, List, [], ◌∷◌, ◌++◌, map,
  Text, codes, text_eq, text_eq_iff, text_eq_refl, text_Eq, option_Eq, nat_Eq, option_eq_iff,
  filter_by, All, length, arith, ltb, leb, nat_eq, nat_eq_iff, Bool-cases, Option-cases, strip,
  has_char, decimal, join, last?,
}
use wisetraceloom.Masking.{Masked, returned}

-- A value of a payload or an event: a text, or anything else, a nested dict or list included.
pub data Value (D : Type 0) : Type 0 where
  text : Text → Value D
  opaque : D → Value D

-- A dict, in its order; no key stands in it twice.
abbrev pub Fields : Type 0 → Type 0
Fields D = List (Text × Value D)

-- `SENSITIVE_FIELD_NAMES`
abbrev pub sensitive_field_names : List Text
sensitive_field_names =
    codes "password"
    ∷ codes "passwd"
    ∷ codes "secret"
    ∷ codes "api_key"
    ∷ codes "apikey"
    ∷ codes "access_token"
    ∷ codes "refresh_token"
    ∷ codes "auth_token"
    ∷ codes "token"
    ∷ codes "authorization"
    ∷ codes "ssn"
    ∷ codes "social_security_number"
    ∷ codes "credit_card"
    ∷ codes "card_number"
    ∷ codes "cvv"
    ∷ codes "email"
    ∷ codes "phone"
    ∷ codes "phone_number"
    ∷ codes "address"
    ∷ codes "dob"
    ∷ codes "date_of_birth"
    ∷ codes "private_key"
    ∷ []

abbrev pub redacted_value : Text
redacted_value = codes "[REDACTED]"

unfoldable pub is_in : Text → List Text → Bool
is_in name [] = false
is_in name (n ∷ names) = n == name || is_in name names

-- `str.lower`, and what `re.sub` puts for the matches of the three patterns.
pub record Patterns : Type 0 where
  pub lower : Text → Text
  pub sub_email : Text → Text
  pub sub_card : Text → Text
  pub sub_phone : Text → Text

module _ (patterns : Patterns) where
  open patterns use {lower, sub_email, sub_card, sub_phone}

  abbrev pub is_sensitive : List Text → Text → Bool
  is_sensitive names key = is_in (lower key) names

  -- Emails, then cards, then phone numbers.
  abbrev pub redact_regex_matches : Text → Text
  redact_regex_matches s = sub_phone (sub_card (sub_email s))

  module _ {D : Type 0} where
    unfoldable pub redact_structured_fields : List Text → Fields D → Fields D
    redact_structured_fields names [] = []
    redact_structured_fields names ((key, value) ∷ fields) =
        (key, if is_sensitive names key then text redacted_value else value)
        ∷ redact_structured_fields names fields

    abbrev pub scrub : Value D → Value D
    scrub (text s) = text (redact_regex_matches s)
    scrub (opaque d) = opaque d

    -- The loop over the items.
    unfoldable pub scrub_texts : Fields D → Fields D
    scrub_texts [] = []
    scrub_texts ((key, value) ∷ fields) = (key, scrub value) ∷ scrub_texts fields

    unfoldable pub pii_redaction_processor : Fields D → Fields D
    pii_redaction_processor event_dict =
        scrub_texts (redact_structured_fields sensitive_field_names event_dict)

    unfoldable pub default_masking_callback : Fields D → Masked (Fields D)
    default_masking_callback payload =
        returned (scrub_texts (redact_structured_fields sensitive_field_names payload))
