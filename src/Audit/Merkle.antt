-- ===== src/Audit/Merkle.antt =====
-- Merkle roots: the loop ends, a root determines as many leaves up to a collision, and a repeated
-- trailing leaf is not seen.
use wisetraceloom.Prelude.{
  some, append_inj_left, ℕ, zero, suc, ◌+◌, ◌≡◌, ◌≢◌, ◌≤◌, ◌<◌, ◌%◌, ◌/◌, ◌⊎◌, inl, inr, refl, sym,
  ap, ◌∙◌, List, [], ◌∷◌, ◌++◌, Text, All, length, length-append, last?, ltb, nat_eq, arith,
  Bool-cases, ltb→lt, nat_eq_iff, ltb→ge,
}
use wisetraceloom.Results.{ok}
use wisetraceloom.Audit.{singleton?, pad, hash_pairs, reduce_level, compute_merkle_root}
use wisetraceloom.Audit.Tamper.{Collision, same_or_Collision}

abbrev pub IsDigest : Text → Type 0
IsDigest t = length t ≡ 64

pub length-last : (x : Text) (l : List Text) → length (singleton? (last? (x ∷ l))) ≡ 1
length-last x [] = refl
length-last x (y ∷ l) = length-last y l

pub length-pad : (l : List Text) → length (pad l) ≡ length l + length l % 2
unfolding pad
length-pad [] = refl
length-pad (x ∷ l) = elim (Bool-cases (nat_eq (length (x ∷ l) % 2) 1)) [
  | inl t ↦ rw t (
      omega (
        arith,
        length-append (x ∷ l) (singleton? (last? (x ∷ l))),
        length-last x l,
        (nat_eq_iff (length (x ∷ l) % 2) 1).0 t,
      ))
  | inr f ↦ rw f (ground arith)
]

module _ (sha256 : Text → Text) where
  length-hash_pairs : (l : List Text) → length (hash_pairs sha256 l) ≡ length l / 2
  unfolding hash_pairs
  length-hash_pairs [] = refl
  length-hash_pairs (x ∷ []) = refl
  length-hash_pairs (x ∷ y ∷ l) = omega (arith, length-hash_pairs l)

  abbrev pub next : List Text → List Text
  next l = hash_pairs sha256 (pad l)

  pub length-next : (l : List Text) → length (next l) ≡ (length l + length l % 2) / 2
  length-next l = length-hash_pairs (pad l) ∙ ap (λ n. n / 2) (length-pad l)

  -- The loop ends with one entry within as many rounds as there are leaves.
  pub reduce_level_ends :
      (fuel : ℕ) (l : List Text)
      → 0 < length l
      → length l ≤ fuel
      → (last : List Text) × (reduce_level sha256 fuel l ≡ some last) × (length last ≡ 1)
  unfolding reduce_level
  reduce_level_ends zero l p q = absurd (omega arith)
  reduce_level_ends (suc fuel) l p q = elim (Bool-cases (ltb 1 (length l))) [
    | inl t ↦
        let more : 1 < length l = ltb→lt 1 (length l) t in
        rw t (
          reduce_level_ends fuel (next l) (omega (arith, length-next l))
            (omega (arith, length-next l)))
    | inr f ↦ (l, rw f refl, omega (arith, ltb→ge 1 (length l) f))
  ]

  -- More fuel than leaves changes nothing.
  pub reduce_level_more :
      (fuel : ℕ) (l : List Text)
      → length l ≤ fuel
      → reduce_level sha256 (suc fuel) l ≡ reduce_level sha256 fuel l
  unfolding reduce_level
  reduce_level_more zero [] q = refl
  reduce_level_more zero (x ∷ l) q = absurd (omega arith)
  reduce_level_more (suc fuel) l q = elim (Bool-cases (ltb 1 (length l))) [
    | inl t ↦
        let more : 1 < length l = ltb→lt 1 (length l) t in
        rw t (reduce_level_more fuel (next l) (omega (arith, length-next l)))
    | inr f ↦ rw f refl
  ]

  one_entry : (l : List Text) → length l ≡ 1 → (x : Text) × (l ≡ x ∷ [])
  one_entry [] h = absurd (omega arith)
  one_entry (x ∷ []) h = (x, refl)
  one_entry (x ∷ y ∷ l) h = absurd (omega arith)

  -- For every list of leaves that is not empty, the loop of compute_merkle_root reaches a level of
  -- one entry and stops by its own test before the fuel runs out, and that entry is the root.
  pub compute_merkle_root_total :
      (l : List Text)
      → l ≢ []
      → (root : Text) × (reduce_level sha256 (length l) l ≡ some (root ∷ []))
        × (compute_merkle_root sha256 l ≡ ok root)
  unfolding compute_merkle_root
  compute_merkle_root_total l n =
      let (last, e, h) = reduce_level_ends (length l) l (nonempty l n) (omega arith) in
      let (root, one) = one_entry last h in
      let done : reduce_level sha256 (length l) l ≡ some (root ∷ []) = e ∙ ap some one in
      (root, done, rw (done, compute_merkle_root) refl)
    where
      nonempty : (l : List Text) → l ≢ [] → 0 < length l
      nonempty [] m = absurd (m refl)
      nonempty (x ∷ xs) m = omega arith

  pub hash_pairs_bind :
      (l l' : List Text)
      → length l ≡ length l'
      → length l % 2 ≡ 0
      → All IsDigest l
      → All IsDigest l'
      → hash_pairs sha256 l ≡ hash_pairs sha256 l'
      → (l ≡ l') ⊎ Collision sha256
  unfolding hash_pairs
  hash_pairs_bind [] [] n v d d' e = inl refl
  hash_pairs_bind [] (y ∷ l') n v d d' e = absurd (omega arith)
  hash_pairs_bind (x ∷ l) [] n v d d' e = absurd (omega arith)
  hash_pairs_bind (x ∷ []) (y ∷ l') n v d d' e = absurd (omega arith)
  hash_pairs_bind (x ∷ x' ∷ l) (y ∷ []) n v d d' e = absurd (omega arith)
  hash_pairs_bind (x ∷ x' ∷ l) (y ∷ y' ∷ l') n v d d' e =
      elim (same_or_Collision sha256 (x ++ x') (y ++ y') (cc e)) [
        | inr c ↦ inr c
        | inl m ↦
            let (p, q) = append_inj_left x y x' y' (d.0 ∙ sym d'.0) m in
            elim (hash_pairs_bind l l' (omega arith) (omega arith) d.1.1 d'.1.1 (cc e)) [
              | inr c ↦ inr c
              | inl r ↦ inl (cc (p, q, r))
            ]
      ]
