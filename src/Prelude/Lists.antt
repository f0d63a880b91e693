-- ===== src/Prelude/Lists.antt =====
-- Lists measured by native numbers, and filtered by Boolean tests.
use mathlib.Core.Logic.{inl, inr}
use Prim.Native.Nat.{ℕ, suc, ◌+◌}
use mathlib.Core.Path.{◌≡◌, refl, ap}
use mathlib.Core.Bool.{Bool, true, false}
use mathlib.Core.Option.{Option, none, some}
use mathlib.Core.List.{List, [], ◌∷◌, ◌++◌, map}
use native.Mathlib.Omega.{arith}
use wisetraceloom.Prelude.Tests.{if◌then◌else◌, Bool-cases}

module _ {ℓ} {A : Type ℓ} where
  abbrev pub length : List A → ℕ
  length [] = 0
  length (x ∷ xs) = suc (length xs)

  pub length-append : (xs ys : List A) → length (xs ++ ys) ≡ length xs + length ys
  length-append [] ys = omega arith
  length-append (x ∷ xs) ys = omega (arith, length-append xs ys)

  -- The rows that pass a Boolean test, in their order.
  unfoldable pub filter_by : (A → Bool) → List A → List A
  filter_by p [] = []
  filter_by p (x ∷ xs) = if p x then x ∷ filter_by p xs else filter_by p xs

  pub filter_by-append :
      (p : A → Bool) (xs ys : List A) → filter_by p (xs ++ ys) ≡ filter_by p xs ++ filter_by p ys
  unfolding filter_by
  filter_by-append p [] ys = refl
  filter_by-append p (x ∷ xs) ys = ground (arith, filter_by-append p xs ys)

  abbrev pub All {κ} : (A → Type κ) → List A → Type κ
  All P [] = Unit
  All P (x ∷ xs) = P x × All P xs

  -- The last entry, `xs[-1]`.
  abbrev pub last? : List A → Option A
  last? [] = none
  last? (x ∷ []) = some x
  last? (x ∷ y ∷ xs) = last? (y ∷ xs)

module _ {ℓ κ} {A : Type ℓ} (P : A → Type κ) where
  pub All-append : (xs ys : List A) → All P xs → All P ys → All P (xs ++ ys)
  All-append [] ys h k = k
  All-append (x ∷ xs) ys h k = (h.0, All-append xs ys h.1 k)

module _ {ℓ} {A : Type ℓ} where
  pub filter_by-All : (p : A → Bool) (xs : List A) → All (λ x. p x ≡ true) (filter_by p xs)
  unfolding filter_by
  filter_by-All p [] = tt
  filter_by-All p (x ∷ xs) = ground (arith, filter_by-All p xs)

module _ {ℓ κ} {A : Type ℓ} where
  pub All-weaken : (P Q : A → Type κ) → ((a : A) → P a → Q a) → (xs : List A) → All P xs → All Q xs
  All-weaken P Q f [] h = tt
  All-weaken P Q f (x ∷ xs) h = (f x h.0, All-weaken P Q f xs h.1)

module _ {ℓ κ} {A : Type ℓ} where
  -- What holds of the rows holds of those that pass a test, with the test.
  pub All-filter_by :
      (P : A → Type κ) (p : A → Bool) (xs : List A)
      → All P xs
      → All (λ x. (p x ≡ true) × P x) (filter_by p xs)
  unfolding filter_by
  All-filter_by P p [] h = tt
  All-filter_by P p (x ∷ xs) h = elim (Bool-cases (p x)) [
    | inl t ↦ rw t ((t, h.0), All-filter_by P p xs h.1)
    | inr f ↦ rw f (All-filter_by P p xs h.1)
  ]

module _ {ℓ} {A : Type ℓ} where
  pub append_inj_left :
      (xs ys s t : List A) → length xs ≡ length ys → xs ++ s ≡ ys ++ t → (xs ≡ ys) × (s ≡ t)
  append_inj_left [] [] s t n e = (refl, e)
  append_inj_left [] (y ∷ ys) s t n e = absurd (omega arith)
  append_inj_left (x ∷ xs) [] s t n e = absurd (omega arith)
  append_inj_left (x ∷ xs) (y ∷ ys) s t n e =
      let (f, g) = append_inj_left xs ys s t (omega arith) (cc e) in (cc (e, f), g)

  pub cancel_part : (sep : A) (part s t : List A) → part ++ sep ∷ s ≡ part ++ sep ∷ t → s ≡ t
  cancel_part sep part s t e = cc (append_inj_left part part (sep ∷ s) (sep ∷ t) refl e).1

  pub cancel_end : (s t end : List A) → s ++ end ≡ t ++ end → s ≡ t
  cancel_end s t end e =
      (append_inj_left s t end end
        (omega (arith, length-append s end, length-append t end, ap length e)) e).0

module _ {ℓ} {A : Type ℓ} where
  pub filter_by-nil : (p : A → Bool) (xs : List A) → filter_by p xs ≡ [] → All (λ x. p x ≡ false) xs
  unfolding filter_by
  filter_by-nil p [] e = tt
  filter_by-nil p (x ∷ xs) e = elim (Bool-cases (p x)) [
    | inl t ↦ absurd (ground (arith, t, e))
    | inr f ↦ (f, filter_by-nil p xs (ground (arith, f, e)))
  ]

  pub filter_by-none :
      (p : A → Bool) (xs : List A) → All (λ x. p x ≡ false) xs → filter_by p xs ≡ []
  unfolding filter_by
  filter_by-none p [] h = refl
  filter_by-none p (x ∷ xs) h = rw h.0 (filter_by-none p xs h.1)

pub map-append {ℓ κ} :
    {A : Type ℓ} {B : Type κ} (f : A → B) (xs ys : List A) → map f (xs ++ ys) ≡ map f xs ++ map f ys
map-append f [] ys = refl
map-append f (x ∷ xs) ys = ap (λ l. f x ∷ l) (map-append f xs ys)
