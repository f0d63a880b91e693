-- ===== src/Evaluation/Summaries.antt =====
-- wisetraceloom/evaluation.py: `_p95` is the nearest-rank percentile.

use wisetraceloom.Prelude.{
  All-weaken, ℕ, zero, suc, ◌+◌, ◌≤◌, ◌<◌, ◌≡◌, inl, inr, refl, true, false, if◌then◌else◌, List,
  [], ◌∷◌, text_Eq, option_Eq, nat_Eq, All, length, arith, Bool-cases,
}
use wisetraceloom.Evaluation.{Floats, insert_value, sort_values, entry_at, p95_index, p95}

module _ (floats : Floats) where
  open floats use {F, nil, above, ceil95}

  -- What `>` does on floats none of which is NaN, and the ceiling of 95 of 100 parts.
  pub record Ordered : Type 0 where
    pub above_asym : (x y : F) → above x y ≡ true → above y x ≡ false
    pub above_trans : (x y z : F) → above x y ≡ false → above y z ≡ false → above x z ≡ false
    pub ceil95_bounds : (n : ℕ) → 1 ≤ n → (1 ≤ ceil95 n) × (ceil95 n ≤ n)

  -- How many of the values are not above x.
  abbrev pub count_within : F → List F → ℕ
  count_within x [] = 0
  count_within x (y ∷ ys) = if above y x then count_within x ys else 1 + count_within x ys

  abbrev pub count_below : F → List F → ℕ
  count_below x [] = 0
  count_below x (y ∷ ys) = if above x y then 1 + count_below x ys else count_below x ys

  -- No value stands before one that it is above.
  abbrev IsAscending : List F → Type 0
  IsAscending [] = Unit
  IsAscending (x ∷ xs) = All (λ y. above x y ≡ false) xs × IsAscending xs

  count_within-insert_value :
      (p x : F) (xs : List F) → count_within p (insert_value floats x xs) ≡ count_within p (x ∷ xs)
  unfolding insert_value
  count_within-insert_value p x [] = refl
  count_within-insert_value p x (y ∷ ys) = ground (arith, count_within-insert_value p x ys)

  count_within-sort_values :
      (p : F) (xs : List F) → count_within p (sort_values floats xs) ≡ count_within p xs
  unfolding sort_values
  count_within-sort_values p [] = refl
  count_within-sort_values p (x ∷ xs) =
      ground (
        arith,
        count_within-insert_value p x (sort_values floats xs),
        count_within-sort_values p xs,
      )

  count_below-insert_value :
      (p x : F) (xs : List F) → count_below p (insert_value floats x xs) ≡ count_below p (x ∷ xs)
  unfolding insert_value
  count_below-insert_value p x [] = refl
  count_below-insert_value p x (y ∷ ys) = ground (arith, count_below-insert_value p x ys)

  count_below-sort_values :
      (p : F) (xs : List F) → count_below p (sort_values floats xs) ≡ count_below p xs
  unfolding sort_values
  count_below-sort_values p [] = refl
  count_below-sort_values p (x ∷ xs) =
      ground
        (arith, count_below-insert_value p x (sort_values floats xs), count_below-sort_values p xs)

  length-insert_value : (x : F) (xs : List F) → length (insert_value floats x xs) ≡ 1 + length xs
  unfolding insert_value
  length-insert_value x [] = refl
  length-insert_value x (y ∷ ys) = ground (arith, length-insert_value x ys)

  length-sort_values : (xs : List F) → length (sort_values floats xs) ≡ length xs
  unfolding sort_values
  length-sort_values [] = refl
  length-sort_values (x ∷ xs) =
      ground (arith, length-insert_value x (sort_values floats xs), length-sort_values xs)

  All-insert_value :
      (P : F → Type 0) (x : F) (xs : List F) → P x → All P xs → All P (insert_value floats x xs)
  unfolding insert_value
  All-insert_value P x [] h t = (h, tt)
  All-insert_value P x (y ∷ ys) h t = elim (Bool-cases (above x y)) [
    | inl e ↦ rw e (t.0, All-insert_value P x ys h t.1)
    | inr e ↦ rw e (h, t)
  ]

  module _ (ordered : Ordered) where
    open ordered use {above_asym, above_trans, ceil95_bounds}

    insert_value-IsAscending :
        (x : F) (xs : List F) → IsAscending xs → IsAscending (insert_value floats x xs)
    unfolding insert_value
    insert_value-IsAscending x [] s = (tt, tt)
    insert_value-IsAscending x (y ∷ ys) s = elim (Bool-cases (above x y)) [
      | inl e ↦ rw e (
        All-insert_value (λ z. above y z ≡ false) x ys (above_asym x y e) s.0,
        insert_value-IsAscending x ys s.1,
      )
      | inr e ↦ rw e ((e, All-weaken _ _ (λ z b. above_trans x y z e b) ys s.0), s)
    ]

    sort_values-IsAscending : (xs : List F) → IsAscending (sort_values floats xs)
    unfolding sort_values
    sort_values-IsAscending [] = tt
    sort_values-IsAscending (x ∷ xs) = insert_value-IsAscending x _ (sort_values-IsAscending xs)

    not_self : (x : F) → above x x ≡ false
    not_self x = elim (Bool-cases (above x x)) [ inl e ↦ above_asym x x e | inr e ↦ e ]

    count_below-floor :
        (x : F) (xs : List F) → All (λ y. above x y ≡ false) xs → count_below x xs ≡ 0
    count_below-floor x [] h = refl
    count_below-floor x (y ∷ ys) h = ground (arith, h.0, count_below-floor x ys h.1)

    entry_at-All :
        (P : F → Type 0) (i : ℕ) (xs : List F) → i < length xs → All P xs → P (entry_at floats i xs)
    unfolding entry_at
    entry_at-All P i [] l h = absurd (omega (arith, l))
    entry_at-All P zero (x ∷ xs) l h = h.0
    entry_at-All P (suc i) (x ∷ xs) l h = entry_at-All P i xs (omega (arith, l)) h.1

    -- In ascending values, i of them and itself are not above the entry at i, and at most i are below.
    entry_at-rank :
        (i : ℕ) (xs : List F)
        → i < length xs
        → IsAscending xs
        → (i < count_within (entry_at floats i xs) xs) × (count_below (entry_at floats i xs) xs ≤ i)
    unfolding entry_at
    entry_at-rank i [] l s = absurd (omega (arith, l))
    entry_at-rank zero (x ∷ xs) l s =
        (ground (arith, not_self x), ground (arith, not_self x, count_below-floor x xs s.0))
    entry_at-rank (suc i) (x ∷ xs) l s =
        let below : i < length xs = omega (arith, l) in
        let rest = entry_at-rank i xs below s.1 in
        let first : above x (entry_at floats i xs) ≡ false =
          entry_at-All (λ y. above x y ≡ false) i xs below s.0 in
        (ground (arith, first, rest.0), ground (arith, rest.1))

    sorted-rank :
        (i : ℕ) (xs : List F)
        → i < length xs
        → (i < count_within (entry_at floats i (sort_values floats xs)) xs)
          × (count_below (entry_at floats i (sort_values floats xs)) xs ≤ i)
    sorted-rank i xs l =
        let sorted = sort_values floats xs in
        let p = entry_at floats i sorted in
        let rank =
          entry_at-rank i sorted (rw (length-sort_values xs) l) (sort_values-IsAscending xs) in
        (
          omega (arith, rank.0, count_within-sort_values p xs),
          omega (arith, rank.1, count_below-sort_values p xs),
        )

    p95_index-ceil95 : (n : ℕ) → 1 ≤ n → p95_index floats n + 1 ≡ ceil95 n
    p95_index-ceil95 n l = ground (arith, ceil95_bounds n l)

    -- Where > is a strict order on the floats and the ceiling of 95 of 100 parts of n lies from 1
    -- to n, the p95 of values that are not empty is their nearest-rank percentile: at least so
    -- many values are not above it, and fewer are below it.
    pub p95-rank :
        (x : F) (xs : List F)
        → (ceil95 (length (x ∷ xs)) ≤ count_within (p95 floats (x ∷ xs)) (x ∷ xs))
          × (count_below (p95 floats (x ∷ xs)) (x ∷ xs) < ceil95 (length (x ∷ xs)))
    unfolding p95
    p95-rank x xs =
        let n = length (x ∷ xs) in
        let at_rank = p95_index-ceil95 n (omega arith) in
        let bounds = ceil95_bounds n (omega arith) in
        let rank = sorted-rank (p95_index floats n) (x ∷ xs) (omega (arith, at_rank, bounds.1)) in
        (omega (arith, at_rank, rank.0), omega (arith, at_rank, rank.1))
