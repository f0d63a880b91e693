-- ===== src/Masking.antt =====
-- wisetraceloom/masking.py: the callback that every payload goes through before it is stored.
use wisetraceloom.Prelude.{Option, none, some, text_Eq, option_Eq, nat_Eq}
use wisetraceloom.Results.{Result, ok, err, masking_error}

-- What a host's callback does: it returns a dict, returns something else, or raises.
pub data Masked {ℓ} (P : Type ℓ) : Type ℓ where
  returned : P → Masked P
  not_a_dict : Masked P
  raised : Masked P

-- `_masking_callback = callback or default_masking_callback`
unfoldable pub set_masking_callback {ℓ} :
    {P : Type ℓ} → (P → Masked P) → Option (P → Masked P) → P → Masked P
set_masking_callback default none = default
set_masking_callback default (some callback) = callback

unfoldable pub apply_masking {ℓ} : {P : Type ℓ} → (P → Masked P) → P → Result P
apply_masking callback payload = elim (callback payload) [
  | returned masked ↦ ok masked
  | not_a_dict ↦ err masking_error
  | raised ↦ err masking_error
]
