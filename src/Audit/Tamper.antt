-- ===== src/Audit/Tamper.antt =====
-- Tampering: what a change to a verified stream takes. A statement names the collision of the
-- digest that an undetected change would be.
use wisetraceloom.Prelude.{
  append_inj_left, cancel_part, ℕ, ◌≡◌, ◌≢◌, ◌⊎◌, inl, inr, refl, sym, ap, ◌∙◌, true, false, Option,
  none, some, List, [], ◌∷◌, ◌++◌, map, Text, text_eq, text_eq_iff, text_Eq, option_eq_iff, length,
  arith, join, Bool-cases, ◌↔◌,
}
use wisetraceloom.Storage.{
  Host, StorageCommit, iso_utc, entry_material, compute_entry_hash, or_empty,
}
use wisetraceloom.Storage.Append.{Table}
use wisetraceloom.Storage.Append.Chain.{row_hash, last_hash}
use wisetraceloom.Audit.{commits_of, verify_from, verify_chain}

-- Two different texts with one digest.
pub record Collision (sha256 : Text → Text) : Type 0 where
  pub first : Text
  pub second : Text
  pub differ : first ≢ second
  pub collide : sha256 first ≡ sha256 second

-- Texts of one digest are equal, or they are a collision.
pub same_or_Collision :
    (sha256 : Text → Text) (s t : Text) → sha256 s ≡ sha256 t → (s ≡ t) ⊎ Collision sha256
same_or_Collision sha256 s t e = elim (Bool-cases (text_eq s t)) [
  | inl same ↦ inl ((text_eq_iff s t).0 same)
  | inr other ↦
      inr (record { first = s; second = t; differ = λ p. cc ((text_eq_iff s t).1 p); collide = e })
]

-- The last of seven joined parts is found again.
join-last :
    (sep : ℕ) (a b c d e f p q : Text)
    → join sep (a ∷ b ∷ c ∷ d ∷ e ∷ f ∷ p ∷ []) ≡ join sep (a ∷ b ∷ c ∷ d ∷ e ∷ f ∷ q ∷ [])
    → p ≡ q
unfolding join
join-last sep a b c d e f p q h = cancel_part sep f p q (
    cancel_part sep e _ _ (
      cancel_part sep d _ _
        (cancel_part sep c _ _ (cancel_part sep b _ _ (cancel_part sep a _ _ h)))))

-- The text that a row's hash is taken over.
abbrev pub row_material : Host → StorageCommit → Text
row_material host r =
    entry_material r.prev_hash r.stream_id r.version r.record_type r.tenant_id
      (iso_utc host r.committed_at) r.payload

-- Both are absent, or both are digests.
abbrev pub Alike : Option Text → Option Text → Type 0
Alike none none = Unit
Alike none (some t) = ⊥
Alike (some s) none = ⊥
Alike (some s) (some t) = length s ≡ length t

prev-material :
    (p q : Option Text) (s t : Text) → Alike p q → or_empty p ++ s ≡ or_empty q ++ t → p ≡ q
prev-material none none s t a e = refl
prev-material none (some y) s t a e = elim a [ ]
prev-material (some x) none s t a e = elim a [ ]
prev-material (some x) (some y) s t a e = ap some (append_inj_left x y s t a e).0

module _ (host : Host) where
  open host use {sha256, length-sha256}

  -- What a passed verification says of the rows, in order.
  abbrev pub Linked : Option Text → List StorageCommit → Type 0
  Linked prev [] = Unit
  Linked prev (r ∷ rows) =
      (r.prev_hash ≡ prev) × (r.entry_hash ≡ row_hash host r) × Linked (some r.entry_hash) rows

  verify_from→Linked :
      (prev : Option Text) (rows : List StorageCommit)
      → (verify_from host prev rows).verified ≡ true
      → Linked prev rows
  unfolding verify_from
  verify_from→Linked prev [] h = tt
  verify_from→Linked prev (r ∷ rows) h = ground (
    arith,
    option_eq_iff r.prev_hash prev,
    text_eq_iff (row_hash host r) r.entry_hash,
    verify_from→Linked (some r.entry_hash) rows,
  )

  Linked→verify_from :
      (prev : Option Text) (rows : List StorageCommit)
      → Linked prev rows
      → (verify_from host prev rows).verified ≡ true
  unfolding verify_from
  Linked→verify_from prev [] h = refl
  Linked→verify_from prev (r ∷ rows) h = ground (
    arith,
    (option_eq_iff r.prev_hash prev).1 h.0,
    (text_eq_iff (row_hash host r) r.entry_hash).1 (sym h.1),
    Linked→verify_from (some r.entry_hash) rows h.2,
  )

  -- Verify_chain passes on a stream exactly where each of its rows, in version order, has the hash
  -- of the row before it as prev_hash and its own recomputed hash as entry_hash.
  pub verify_chain-iff-Linked :
      (s : Text) (table : Table)
      → ((verify_chain host s table).verified ≡ true) ↔ Linked none (commits_of host s table)
  unfolding verify_chain
  verify_chain-iff-Linked s table = (
    verify_from→Linked none (commits_of host s table),
    Linked→verify_from none (commits_of host s table),
  )

  hash-material : (r : StorageCommit) → row_hash host r ≡ sha256 (row_material host r)
  unfolding compute_entry_hash
  hash-material r = refl

  material-prev :
      (r r' : StorageCommit)
      → Alike r.prev_hash r'.prev_hash
      → row_material host r ≡ row_material host r'
      → r.prev_hash ≡ r'.prev_hash
  unfolding entry_material join
  material-prev r r' a e = prev-material r.prev_hash r'.prev_hash _ _ a e

  -- Linked rows, as many, with one final hash: the rows agree in all that is hashed, or the digest
  -- has a collision.
  Linked-agree :
      (prev prev' : Option Text) (rows rows' : List StorageCommit)
      → Alike prev prev'
      → Linked prev rows
      → Linked prev' rows'
      → length rows ≡ length rows'
      → last_hash prev rows ≡ last_hash prev' rows'
      → ((prev ≡ prev') × (map (row_material host) rows ≡ map (row_material host) rows'))
        ⊎ Collision sha256
  Linked-agree prev prev' [] [] a h h' n e = inl (e, refl)
  Linked-agree prev prev' [] (y ∷ ys) a h h' n e = absurd (omega arith)
  Linked-agree prev prev' (x ∷ xs) [] a h h' n e = absurd (omega arith)
  Linked-agree prev prev' (x ∷ xs) (y ∷ ys) a h h' n e =
      let hx : x.entry_hash ≡ sha256 (row_material host x) = h.1 ∙ hash-material x in
      let hy : y.entry_hash ≡ sha256 (row_material host y) = h'.1 ∙ hash-material y in
      let alike : length x.entry_hash ≡ length y.entry_hash =
        ap length hx
        ∙ length-sha256 (row_material host x)
        ∙ sym (ap length hy ∙ length-sha256 (row_material host y)) in
      elim (Linked-agree (some x.entry_hash) (some y.entry_hash) xs ys alike h.2 h'.2 (omega arith)
        e) [
          | inr c ↦ inr c
          | inl (same, rest) ↦
              elim (same_or_Collision sha256 (row_material host x) (row_material host y)
                (cc (same, hx, hy))) [
                  | inr c ↦ inr c
                  | inl m ↦
                      let p : x.prev_hash ≡ y.prev_hash = material-prev x y (rw (h.0, h'.0) a) m in
                      inl (cc (p, h.0, h'.0), cc (m, rest))
                ]
        ]

  -- Two tables on which a stream verifies, with as many commits of the stream and the same newest
  -- hash, agree in all that is hashed of each entry, or the digest has a collision.
  pub verify_chain_binds :
      (s : Text) (table table' : Table)
      → (verify_chain host s table).verified ≡ true
      → (verify_chain host s table').verified ≡ true
      → length (commits_of host s table) ≡ length (commits_of host s table')
      → last_hash none (commits_of host s table) ≡ last_hash none (commits_of host s table')
      → (map (row_material host) (commits_of host s table)
          ≡ map (row_material host) (commits_of host s table'))
        ⊎ Collision sha256
  verify_chain_binds s table table' v v' n e =
      elim (Linked-agree none none _ _ tt ((verify_chain-iff-Linked s table).0 v)
        ((verify_chain-iff-Linked s table').0 v') n e) [ inl same ↦ inl same.1 | inr c ↦ inr c ]

  abbrev pub edit_payload : StorageCommit → Text → StorageCommit
  edit_payload r p = record r { payload = p }

  material-payload :
      (r : StorageCommit) (p : Text)
      → row_material host r ≡ row_material host (edit_payload r p)
      → r.payload ≡ p
  unfolding entry_material
  material-payload r p e = join-last b'\n' _ _ _ _ _ _ r.payload p e

  -- If rows verify, then the same rows with another payload in one of them fail to verify and the
  -- report names the version of that row, or the digest has a collision.
  pub edited_payload_detected :
      (prev : Option Text) (before after : List StorageCommit) (r : StorageCommit) (p : Text)
      → p ≢ r.payload
      → (verify_from host prev (before ++ r ∷ after)).verified ≡ true
      → (((verify_from host prev (before ++ edit_payload r p ∷ after)).verified ≡ false)
          × ((verify_from host prev (before ++ edit_payload r p ∷ after)).broken_at_version
              ≡ some r.version))
        ⊎ Collision sha256
  unfolding verify_from
  edited_payload_detected prev [] after r p n v =
      let (linked, hashed, _) = verify_from→Linked prev (r ∷ after) v in
      elim (Bool-cases (text_eq (row_hash host (edit_payload r p)) r.entry_hash)) [
        | inr f ↦ inl (ground arith, ground arith)
        | inl t ↦
            let e : row_hash host (edit_payload r p) ≡ r.entry_hash = (text_eq_iff _ _).0 t in
            elim (same_or_Collision sha256 (row_material host r)
              (row_material host (edit_payload r p))
              (sym (hash-material r) ∙ sym hashed ∙ sym e ∙ hash-material (edit_payload r p))) [
                | inl m ↦ absurd (n (sym (material-payload r p m)))
                | inr c ↦ inr c
              ]
      ]
  edited_payload_detected prev (x ∷ before) after r p n v =
      ground (arith, edited_payload_detected (some x.entry_hash) before after r p n)
