-- ===== src/Results.antt =====
-- Exceptions as values: one constructor for each exception class that the modelled code raises.
use wisetraceloom.Prelude.{Bool, true, false, ◌≡◌, ◌⊎◌, inl, inr, refl}

pub data Error : Type 0 where
  masking_error storage_conflict unrouted_region no_single_row value_error : Error
  prompt_version_error eval_regression_error host_exception : Error
  tenancy_error access_denied quota_exceeded erasure_request_error invalid_token : Error

pub data Result {ℓ} (A : Type ℓ) : Type ℓ where
  ok : A → Result A
  err : Error → Result A

infixl 5 ◌>>=◌ ◌>>◌
abbrev pub ◌>>=◌ {ℓ κ} : {A : Type ℓ} {B : Type κ} → Result A → (A → Result B) → Result B
ok a >>= f = f a
err e >>= f = err e

abbrev pub ◌>>◌ {ℓ κ} : {A : Type ℓ} {B : Type κ} → Result A → Result B → Result B
m >> k = m >>= λ _. k

-- `if not condition: raise e`
abbrev pub guard : Bool → Error → Result (Unit {0})
guard true e = ok tt
guard false e = err e

pub Result-cases {ℓ} :
    {A : Type ℓ} (r : Result A) → ((a : A) × (r ≡ ok a)) ⊎ ((e : Error) × (r ≡ err e))
Result-cases (ok a) = inl (a, refl)
Result-cases (err e) = inr (e, refl)

-- A chain that gives a result gave one at its first step.
pub bind-ok {ℓ κ} :
    {A : Type ℓ} {B : Type κ} (m : Result A) (f : A → Result B) (b : B)
    → (m >>= f) ≡ ok b
    → (a : A) × (m ≡ ok a) × (f a ≡ ok b)
bind-ok (ok a) f b e = (a, refl, e)
bind-ok (err x) f b e = cc e

pub guard-ok : (t : Bool) (x : Error) (u : Unit {0}) → guard t x ≡ ok u → t ≡ true
guard-ok true x u e = refl
guard-ok false x u e = cc e
