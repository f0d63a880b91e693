-- ===== src/Storage/Checkpoint/Paths.antt =====
-- One file for one stream and version, as far as the sanitized stream ids tell the streams apart.
use wisetraceloom.Prelude.{
  value_from, value_from-decimal, split_first, cancel_part, cancel_end, ℕ, zero, suc, ◌≡◌, inl, inr,
  refl, sym, ap, ◌∙◌, true, false, [], ◌∷◌, Text, codes, text_Eq, option_Eq, nat_Eq, All, length,
  arith, leb, Bool-cases, has_char, decimal, join,
}
use wisetraceloom.Storage.Checkpoint.{sanitize, is_path_safe, zero_padded, checkpoint_file_path}

no_slash : (s : Text) → has_char b'/' (sanitize s) ≡ false
unfolding has_char sanitize is_path_safe
no_slash [] = refl
no_slash (c ∷ s) = ground (arith, no_slash s)

value_from-zero_padded :
    (places : ℕ) (digits : Text) → value_from 0 (zero_padded places digits) ≡ value_from 0 digits
unfolding zero_padded
value_from-zero_padded zero digits = refl
value_from-zero_padded (suc places) digits = elim (Bool-cases (leb (suc places) (length digits))) [
  | inl t ↦ rw t refl
  | inr f ↦ rw f (value_from-zero_padded places digits)
]

zero_padded_inj :
    (places m n : ℕ) → zero_padded places (decimal m) ≡ zero_padded places (decimal n) → m ≡ n
zero_padded_inj places m n e =
    sym (value_from-decimal m)
    ∙ sym (value_from-zero_padded places (decimal m))
    ∙ ap (value_from 0) e
    ∙ value_from-zero_padded places (decimal n)
    ∙ value_from-decimal n

-- Two checkpoints of one store and directory with one path have one sanitized stream id and one
-- version.
pub checkpoint_file_path_inj :
    (s s' : Text) (v v' : ℕ) (dir stem : Text)
    → checkpoint_file_path s v dir stem ≡ checkpoint_file_path s' v' dir stem
    → (sanitize s ≡ sanitize s') × (v ≡ v')
unfolding checkpoint_file_path join
checkpoint_file_path_inj s s' v v' dir stem e =
    let inner = cancel_part b'/' (sanitize stem) _ _ (cancel_part b'/' dir _ _ e) in
    let (same, file) =
      split_first b'/' (sanitize s) (sanitize s') _ _ (no_slash s) (no_slash s') inner in
    (same, zero_padded_inj 20 v v' (cancel_end _ _ (codes ".checkpoint.parquet") file))

-- An id of safe characters is its own sanitized form.
pub sanitize_safe : (s : Text) → All (λ c. is_path_safe c ≡ true) s → sanitize s ≡ s
unfolding sanitize
sanitize_safe [] h = refl
sanitize_safe (c ∷ s) h = ground (arith, h.0, sanitize_safe s h.1)
