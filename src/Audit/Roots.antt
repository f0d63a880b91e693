-- ===== src/Audit/Roots.antt =====
-- What a Merkle root says of its leaves: it binds a list of known length, and it does not tell a
-- trailing leaf from its copy.
use mathlib.Core.List.{append-nil}
use wisetraceloom.Prelude.{
  true, false, some, append_inj_left, ℕ, zero, suc, ◌+◌, ◌≡◌, ◌<◌, ◌%◌, ◌/◌, ◌⊎◌, inl, inr, refl,
  sym, ap, ◌∙◌, List, [], ◌∷◌, ◌++◌, Text, All, All-append, length, length-append, last?, ltb,
  nat_eq, arith, Bool-cases,
}
use wisetraceloom.Results.{ok}
use wisetraceloom.Audit.{singleton?, pad, hash_pairs, reduce_level, compute_merkle_root}
use wisetraceloom.Audit.Tamper.{Collision}
use wisetraceloom.Audit.Merkle.{
  IsDigest, next, length-last, length-pad, length-next, reduce_level_more, hash_pairs_bind,
  compute_merkle_root_total,
}

All-last :
    (x : Text) (l : List Text) → All IsDigest (x ∷ l) → All IsDigest (singleton? (last? (x ∷ l)))
All-last x [] d = (d.0, tt)
All-last x (y ∷ l) d = All-last y l d.1

pad-IsDigest : (l : List Text) → All IsDigest l → All IsDigest (pad l)
unfolding pad
pad-IsDigest [] d = tt
pad-IsDigest (x ∷ l) d = elim (Bool-cases (nat_eq (length (x ∷ l) % 2) 1)) [
  | inl t ↦ rw t (All-append IsDigest (x ∷ l) _ d (All-last x l d))
  | inr f ↦ rw f d
]

pad_extra : (l : List Text) → (extra : List Text) × (pad l ≡ l ++ extra)
unfolding pad
pad_extra l = elim (Bool-cases (nat_eq (length l % 2) 1)) [
  | inl t ↦ (singleton? (last? l), rw t refl)
  | inr f ↦ ([], rw (f, append-nil) refl)
]

pad_inj : (l l' : List Text) → length l ≡ length l' → pad l ≡ pad l' → l ≡ l'
pad_inj l l' n e =
    let (x, f) = pad_extra l in
    let (y, g) = pad_extra l' in (append_inj_left l l' x y n (sym f ∙ e ∙ g)).0

module _ (sha256 : Text → Text) where
  -- The root that is returned is the only entry of the last level.
  root_level :
      (l : List Text) (root : Text)
      → compute_merkle_root sha256 l ≡ ok root
      → reduce_level sha256 (length l) l ≡ some (root ∷ [])
  unfolding compute_merkle_root reduce_level
  root_level [] root e = cc
  root_level (x ∷ l) root e =
      let (found, level, returned) = compute_merkle_root_total sha256 (x ∷ l) (λ n. cc n) in
      let same : found ≡ root = cc (returned, e) in rw (← same) level

  -- A level of odd length and the same level with its last entry repeated are paired alike.
  pad_repeated : (l : List Text) → length l % 2 ≡ 1 → pad (l ++ singleton? (last? l)) ≡ pad l
  unfolding pad
  pad_repeated [] h = absurd (omega arith)
  pad_repeated (x ∷ l) h =
      ground (arith, length-append (x ∷ l) (singleton? (last? (x ∷ l))), length-last x l)

  reduce_level_step :
      (fuel : ℕ) (l : List Text)
      → 1 < length l
      → reduce_level sha256 (suc fuel) l ≡ reduce_level sha256 fuel (next sha256 l)
  unfolding reduce_level
  reduce_level_step fuel l m = ground arith

  repeated_levels :
      (l : List Text)
      → length l % 2 ≡ 1
      → 1 < length l
      → reduce_level sha256 (length (l ++ singleton? (last? l))) (l ++ singleton? (last? l))
        ≡ reduce_level sha256 (length l) l
  repeated_levels [] h m = absurd (omega arith)
  repeated_levels (x ∷ l) h m =
      let l' = (x ∷ l) ++ singleton? (last? (x ∷ l)) in
      let n : length l' ≡ suc (suc (length l)) =
        omega (arith, length-append (x ∷ l) (singleton? (last? (x ∷ l))), length-last x l) in
      ap (λ k. reduce_level sha256 k l') n
      ∙ reduce_level_step (suc (length l)) l' (omega arith)
      ∙ ap (λ p. reduce_level sha256 (suc (length l)) (hash_pairs sha256 p))
          (pad_repeated (x ∷ l) h)
      ∙ reduce_level_more sha256 (length l) (next sha256 (x ∷ l))
          (omega (arith, length-next sha256 (x ∷ l)))
      ∙ sym (reduce_level_step (length l) (x ∷ l) m)

  -- For an odd number of leaves, more than one, the list with its last leaf repeated has the same
  -- Merkle root as the list itself.
  pub merkle_root_repeated_leaf :
      (l : List Text)
      → length l % 2 ≡ 1
      → 1 < length l
      → compute_merkle_root sha256 (l ++ singleton? (last? l)) ≡ compute_merkle_root sha256 l
  unfolding compute_merkle_root
  merkle_root_repeated_leaf l h m = rw (repeated_levels l h m, compute_merkle_root) refl

module _ (sha256 : Text → Text) (digest : (t : Text) → IsDigest (sha256 t)) where
  hash_pairs-IsDigest : (l : List Text) → All IsDigest (hash_pairs sha256 l)
  unfolding hash_pairs
  hash_pairs-IsDigest [] = tt
  hash_pairs-IsDigest (x ∷ []) = tt
  hash_pairs-IsDigest (x ∷ y ∷ l) = (digest (x ++ y), hash_pairs-IsDigest l)

  -- A level that the loop does not go on with is the last.
  last_level :
      (fuel : ℕ) (l last : List Text)
      → ltb 1 (length l) ≡ false
      → reduce_level sha256 fuel l ≡ some last
      → l ≡ last
  unfolding reduce_level
  last_level zero l last f e = ground arith
  last_level (suc fuel) l last f e = ground arith

  ended :
      (fuel : ℕ) (l l' last : List Text)
      → length l ≡ length l'
      → ltb 1 (length l) ≡ false
      → reduce_level sha256 fuel l ≡ some last
      → reduce_level sha256 fuel l' ≡ some last
      → l ≡ l'
  ended fuel l l' last n f e e' =
      last_level fuel l last f e ∙ sym (last_level fuel l' last (ap (ltb 1) (sym n) ∙ f) e')

  reduce_level_binds :
      (fuel : ℕ) (l l' last : List Text)
      → length l ≡ length l'
      → All IsDigest l
      → All IsDigest l'
      → reduce_level sha256 fuel l ≡ some last
      → reduce_level sha256 fuel l' ≡ some last
      → (l ≡ l') ⊎ Collision sha256
  unfolding reduce_level
  reduce_level_binds zero l l' last n d d' e e' = elim (Bool-cases (ltb 1 (length l))) [
    | inl t ↦ absurd (ground (arith, t, e))
    | inr f ↦ inl (ended zero l l' last n f e e')
  ]
  reduce_level_binds (suc fuel) l l' last n d d' e e' = elim (Bool-cases (ltb 1 (length l))) [
    | inr f ↦ inl (ended (suc fuel) l l' last n f e e')
    | inl t ↦
        let t' : ltb 1 (length l') ≡ true = ap (ltb 1) (sym n) ∙ t in
        elim (reduce_level_binds fuel (next sha256 l) (next sha256 l') last
          (length-next sha256 l ∙ ap (λ k. (k + k % 2) / 2) n ∙ sym (length-next sha256 l'))
          (hash_pairs-IsDigest (pad l)) (hash_pairs-IsDigest (pad l')) (rw t at e) (rw t' at e')) [
            | inr c ↦ inr c
            | inl same ↦
                elim (hash_pairs_bind sha256 (pad l) (pad l')
                  (length-pad l ∙ ap (λ k. k + k % 2) n ∙ sym (length-pad l'))
                  (rw (length-pad l) (omega arith)) (pad-IsDigest l d) (pad-IsDigest l' d') same) [
                    | inr c ↦ inr c
                    | inl p ↦ inl (pad_inj l l' n p)
                  ]
          ]
  ]

  -- Two lists of as many digests, of 64 characters each, that have the same Merkle root are equal,
  -- or the digest has a collision.
  pub merkle_root_binds :
      (l l' : List Text)
      → length l ≡ length l'
      → All IsDigest l
      → All IsDigest l'
      → (root : Text) → compute_merkle_root sha256 l ≡ ok root
      → compute_merkle_root sha256 l' ≡ ok root
      → (l ≡ l') ⊎ Collision sha256
  merkle_root_binds l l' n d d' root e e' =
      reduce_level_binds (length l) l l' (root ∷ []) n d d' (root_level sha256 l root e)
        (ap (λ k. reduce_level sha256 k l') n ∙ root_level sha256 l' root e')
