-- ===== src/Prelude/Strings.antt =====
-- Text as the list of its code points, with the string methods that the program calls.
use Prim.Native.Nat.{ℕ, zero, suc, ◌+◌, ◌-◌, ◌*◌, ◌/◌, ◌%◌, ◌≤◌, ◌<◌}
use Prim.Native.Char.{code}
use Prim.Native.String.{String}
use mathlib.Core.Path.{◌≡◌, refl, ap, ◌∙◌}
use mathlib.Core.Logic.{◌↔◌, inl, inr}
use mathlib.Core.Bool.{Bool, true, false, ◌&&◌, ◌||◌}
use mathlib.Core.List.{List, [], ◌∷◌, ◌++◌}
use native.Mathlib.Omega.{arith}
use wisetraceloom.Prelude.Tests.{Eq, nat_eq, leb, ltb, if◌then◌else◌, Bool-cases, ltb→ge}

abbrev pub Text : Type 0
Text = List ℕ

-- A literal.
abbrev pub codes : String → Text
codes String.[] = []
codes (String.◌∷◌ c s) = code c ∷ codes s

unfoldable pub text_eq : Text → Text → Bool
text_eq [] [] = true
text_eq [] (d ∷ t) = false
text_eq (c ∷ s) [] = false
text_eq (c ∷ s) (d ∷ t) = nat_eq c d && text_eq s t

pub text_eq→eq : (s t : Text) → text_eq s t ≡ true → s ≡ t
unfolding text_eq
text_eq→eq [] [] h = refl
text_eq→eq [] (d ∷ t) h = cc
text_eq→eq (c ∷ s) [] h = cc
text_eq→eq (c ∷ s) (d ∷ t) h = ground (arith, text_eq→eq s t)

pub text_eq_refl : (s : Text) → text_eq s s ≡ true
unfolding text_eq
text_eq_refl [] = refl
text_eq_refl (c ∷ s) = ground (arith, text_eq_refl s)

pub text_eq_iff : (s t : Text) → (text_eq s t ≡ true) ↔ (s ≡ t)
text_eq_iff s t = (text_eq→eq s t, λ e. rw e (text_eq_refl t))

instance abbrev pub text_Eq : Eq Text
text_Eq = record { beq = text_eq; beq_iff = text_eq_iff }

-- `str.isspace` of one character.
unfoldable pub is_space : ℕ → Bool
is_space c =
    leb 9 c && leb c 13
    || leb 28 c && leb c 32
    || nat_eq c 133
    || nat_eq c 160
    || nat_eq c 5760
    || leb 8192 c && leb c 8202
    || nat_eq c 8232
    || nat_eq c 8233
    || nat_eq c 8239
    || nat_eq c 8287
    || nat_eq c 12288

unfoldable pub lstrip : Text → Text
unfolding is_space
lstrip [] = []
lstrip (c ∷ s) = if is_space c then lstrip s else c ∷ s

-- `s.rstrip()`: a space stays only if something other than spaces follows.
unfoldable pub rstrip : Text → Text
unfolding is_space
rstrip [] = []
rstrip (c ∷ s) = let rest = rstrip s in if text_eq rest [] && is_space c then [] else c ∷ rest

-- `s.strip()`
unfoldable pub strip : Text → Text
unfolding lstrip rstrip
strip s = rstrip (lstrip s)

-- `c in s` for one character.
unfoldable pub has_char : ℕ → Text → Bool
has_char c [] = false
has_char c (d ∷ s) = nat_eq c d || has_char c s

-- `sep.join(parts)` for a separator of one character.
unfoldable pub join : ℕ → List Text → Text
join sep [] = []
join sep (part ∷ []) = part
join sep (part ∷ next ∷ rest) = part ++ sep ∷ join sep (next ∷ rest)

-- The decimal digits of a number before those that stand in `rest`.
decimal_before : ℕ → ℕ → Text → Text
decimal_before zero n rest = rest
decimal_before (suc fuel) n rest =
    let more = decimal_before fuel (n / 10) ((b'0' + n % 10) ∷ rest) in
    if ltb n 10 then (b'0' + n) ∷ rest else more

-- `str(n)`: a number has fewer digits than its successor, so the fuel is enough.
unfoldable pub decimal : ℕ → Text
unfolding decimal_before
decimal n = decimal_before (suc n) n []

-- The number that decimal digits spell behind those already read.
abbrev pub value_from : ℕ → Text → ℕ
value_from n [] = n
value_from n (c ∷ s) = value_from (n * 10 + (c - b'0')) s

value_from-decimal_before :
    (fuel n : ℕ) (rest : Text)
    → n < fuel
    → value_from 0 (decimal_before fuel n rest) ≡ value_from n rest
unfolding decimal_before
value_from-decimal_before zero n rest h = absurd (omega arith)
value_from-decimal_before (suc fuel) n rest h = elim (Bool-cases (ltb n 10)) [
  | inl t ↦ rw t (ap (λ m. value_from m rest) (omega arith))
  | inr f ↦
      let ge : 10 ≤ n = ltb→ge n 10 f in
      rw f (
        value_from-decimal_before fuel (n / 10) ((b'0' + n % 10) ∷ rest) (omega arith)
        ∙ ap (λ m. value_from m rest) (omega arith))
]

-- The digits of a number spell it.
pub value_from-decimal : (n : ℕ) → value_from 0 (decimal n) ≡ n
unfolding decimal
value_from-decimal n = value_from-decimal_before (suc n) n [] (omega arith)

-- The first occurrence of a separator splits a text in one way.
pub split_first :
    (c : ℕ) (s s' t t' : Text)
    → has_char c s ≡ false
    → has_char c s' ≡ false
    → s ++ c ∷ t ≡ s' ++ c ∷ t'
    → (s ≡ s') × (t ≡ t')
unfolding has_char
split_first c [] [] t t' f f' e = (refl, cc e)
split_first c [] (d ∷ s') t t' f f' e = let same : c ≡ d = cc e in absurd (ground (arith, same, f'))
split_first c (d ∷ s) [] t t' f f' e = let same : d ≡ c = cc e in absurd (ground (arith, same, f))
split_first c (d ∷ s) (d' ∷ s') t t' f f' e =
    let (p, q) = split_first c s s' t t' (ground arith) (ground arith) (cc e) in (cc (e, p), q)
