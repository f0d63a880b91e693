-- ===== src/Redaction/Interference.antt =====
-- What is stored and logged does not depend on what stands under a sensitive field name.
use wisetraceloom.Prelude.{
  codes, text_eq, ◌≡◌, inl, inr, refl, ap, true, if◌then◌else◌, Option, List, [], ◌∷◌, Text,
  text_Eq, option_Eq, nat_Eq,
}
use wisetraceloom.Masking.{Masked, returned, apply_masking}
use wisetraceloom.Results.{Result-cases}
use wisetraceloom.Redaction.{
  is_in, redacted_value, Value, text, Fields, Patterns, is_sensitive, sensitive_field_names,
  redact_structured_fields, scrub_texts, pii_redaction_processor, default_masking_callback,
}
use wisetraceloom.Storage.{Host}
use wisetraceloom.Storage.Append.{Turn}
use wisetraceloom.Storage.Commit.{World, append_commit, engine_for}

-- The lowercase names that mark a secret, each for itself.
pub data IsSecret : Text → Type 0 where
  password : IsSecret (codes "password")
  passwd : IsSecret (codes "passwd")
  secret : IsSecret (codes "secret")
  api_key : IsSecret (codes "api_key")
  apikey : IsSecret (codes "apikey")
  access_token : IsSecret (codes "access_token")
  refresh_token : IsSecret (codes "refresh_token")
  auth_token : IsSecret (codes "auth_token")
  token : IsSecret (codes "token")
  authorization : IsSecret (codes "authorization")
  ssn : IsSecret (codes "ssn")
  social_security_number : IsSecret (codes "social_security_number")
  credit_card : IsSecret (codes "credit_card")
  card_number : IsSecret (codes "card_number")
  cvv : IsSecret (codes "cvv")
  email : IsSecret (codes "email")
  phone : IsSecret (codes "phone")
  phone_number : IsSecret (codes "phone_number")
  address : IsSecret (codes "address")
  dob : IsSecret (codes "dob")
  date_of_birth : IsSecret (codes "date_of_birth")
  private_key : IsSecret (codes "private_key")

is_in-IsSecret : (name : Text) → IsSecret name → is_in name sensitive_field_names ≡ true
unfolding is_in text_eq
is_in-IsSecret name password = refl
is_in-IsSecret name passwd = refl
is_in-IsSecret name secret = refl
is_in-IsSecret name api_key = refl
is_in-IsSecret name apikey = refl
is_in-IsSecret name access_token = refl
is_in-IsSecret name refresh_token = refl
is_in-IsSecret name auth_token = refl
is_in-IsSecret name token = refl
is_in-IsSecret name authorization = refl
is_in-IsSecret name ssn = refl
is_in-IsSecret name social_security_number = refl
is_in-IsSecret name credit_card = refl
is_in-IsSecret name card_number = refl
is_in-IsSecret name cvv = refl
is_in-IsSecret name email = refl
is_in-IsSecret name phone = refl
is_in-IsSecret name phone_number = refl
is_in-IsSecret name address = refl
is_in-IsSecret name dob = refl
is_in-IsSecret name date_of_birth = refl
is_in-IsSecret name private_key = refl

-- The same fields of a dict, with any two values under a name that marks a secret in lower case.
-- What stands inside a nested dict or list is part of its field's value.
pub data Agrees (patterns : Patterns) {D : Type 0} : Fields D → Fields D → Type 0 where
  nothing : Agrees patterns [] []
  hidden :
      {fields fields' : Fields D} (key : Text) (value value' : Value D)
      → IsSecret (patterns.lower key)
      → Agrees patterns fields fields'
      → Agrees patterns ((key, value) ∷ fields) ((key, value') ∷ fields')
  shown :
      {fields fields' : Fields D} (key : Text) (value : Value D)
      → Agrees patterns fields fields'
      → Agrees patterns ((key, value) ∷ fields) ((key, value) ∷ fields')

-- A host whose payloads are dicts.
abbrev pub with_fields : Host → (D : Type 0) → (Fields D → Text) → (Text → Fields D) → Host
with_fields host D dumps loads = record host { Payload = Fields D; dumps = dumps; loads = loads }

-- An append sees of its payload what the callback makes of it.
append_commit-masked :
    (host : Host) (callback : host.Payload → Masked host.Payload) (stream_id record_type : Text)
    (payload payload' : host.Payload) (tenant_id engine : Option Text) (turns : List Turn)
    (world : World)
    → callback payload ≡ callback payload'
    → append_commit host callback stream_id record_type payload tenant_id engine turns world
      ≡ append_commit host callback stream_id record_type payload' tenant_id engine turns world
unfolding append_commit apply_masking
append_commit-masked host callback stream_id record_type payload payload' tenant_id engine turns
      world e =
    elim (Result-cases (engine_for host engine tenant_id world.residency).0) [
      | inr (x, r) ↦ rw (r, append_commit) refl
      | inl (path, r) ↦ rw (r, append_commit, apply_masking, e) refl
    ]

module _ (patterns : Patterns) {D : Type 0} where
  redact_structured_fields-Agrees :
      (fields fields' : Fields D)
      → Agrees patterns fields fields'
      → redact_structured_fields patterns sensitive_field_names fields
        ≡ redact_structured_fields patterns sensitive_field_names fields'
  unfolding redact_structured_fields
  redact_structured_fields-Agrees fields fields' nothing = refl
  redact_structured_fields-Agrees fields fields' (hidden key value value' h a) =
      rw (is_in-IsSecret (patterns.lower key) h)
        (ap (λ l. (key, text redacted_value) ∷ l) (redact_structured_fields-Agrees _ _ a))
  redact_structured_fields-Agrees fields fields' (shown key value a) =
      ap
        (λ l.
          (
            key,
            if is_sensitive patterns sensitive_field_names key then text redacted_value else value,
          )
          ∷ l)
        (redact_structured_fields-Agrees _ _ a)

  -- Under the default masking callback, append_commit of two payloads that differ only in values
  -- at the top level of the dict, under names that are one of 22 listed names in lower case, gives
  -- the same commit or error and leaves the same databases, and the log processor makes the same
  -- event of both; a value inside a nested dict or list is not at the top level.
  pub append_commit-default_masking_callback :
      (host : Host) (dumps : Fields D → Text) (loads : Text → Fields D)
      → (stream_id record_type : Text) (payload payload' : Fields D)
        (tenant_id engine : Option Text)
      → (turns : List Turn) (world : World) → Agrees patterns payload payload'
      → (append_commit
            (with_fields host D dumps loads)
            (default_masking_callback patterns)
            stream_id
            record_type
            payload
            tenant_id
            engine
            turns
            world
          ≡ append_commit
              (with_fields host D dumps loads)
              (default_masking_callback patterns)
              stream_id
              record_type
              payload'
              tenant_id
              engine
              turns
              world)
        × (pii_redaction_processor patterns payload ≡ pii_redaction_processor patterns payload')
  unfolding default_masking_callback pii_redaction_processor
  append_commit-default_masking_callback host dumps loads stream_id record_type payload payload'
        tenant_id engine turns world a =
      let same = redact_structured_fields-Agrees payload payload' a in
      (
        append_commit-masked (with_fields host D dumps loads) (default_masking_callback patterns)
            stream_id record_type payload payload' tenant_id engine turns world
            (ap (λ fields. returned (scrub_texts patterns fields)) same),
        ap (scrub_texts patterns) same,
      )
