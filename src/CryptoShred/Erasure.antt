-- ===== src/CryptoShred/Erasure.antt =====
-- A confirmed erasure is final: no plaintext afterwards, no second confirmation, no other subject.
use mathlib.Core.Path.{subst}
use mathlib.Core.Option
use mathlib.Core.HLevel.{×_prop}
use wisetraceloom.Prelude.{
  All-filter_by, ℕ, ◌≡◌, ◌≢◌, inl, inr, refl, Bool, true, false, ◌&&◌, ◌==◌, none, some, List, [],
  ◌∷◌, Text, codes, text_eq, text_eq_iff, text_Eq, option_Eq, nat_Eq, filter_by, All, arith,
  Bool-cases, Option-cases,
}
use mathlib.Core.List.{List, head?}
use wisetraceloom.Results.{ok, err, Result-cases, bind-ok, erasure_request_error}
use wisetraceloom.Sql.{Sql, select_first}
use wisetraceloom.Sql.Order.{All-perm}
use wisetraceloom.Masking.{Masked}
use wisetraceloom.Storage.{Host}
use wisetraceloom.Storage.Append.{Turn}
use wisetraceloom.Storage.Commit.{World}
use wisetraceloom.CryptoShred.{
  SubjectKey, ErasureRequest, Shredding, Cipher, is_live, partition, decrypt_for_subject,
  get_request, shred, mark_confirmed, confirm, confirm_erasure,
}

Bool-set : IsSet Bool
Bool-set = hlevel

-- No live key of the subject.
abbrev AllShredded : Text → List SubjectKey → Type 0
AllShredded subject keys = All (λ k. (k.subject_id == subject && is_live k) ≡ false) keys

shred-AllShredded :
    (subject : Text) (now : ℕ) (keys : List SubjectKey)
    → AllShredded subject (shred subject now keys)
unfolding shred
shred-AllShredded subject now [] = tt
shred-AllShredded subject now (k ∷ keys) =
    elim (Bool-cases (k.subject_id == subject && is_live k)) [
      | inl t ↦ rw t (ground arith, shred-AllShredded subject now keys)
      | inr f ↦ rw f (f, shred-AllShredded subject now keys)
    ]

head?-All :
    (P : SubjectKey → Type 0) (keys : List SubjectKey) (k : SubjectKey)
    → All P keys
    → head? keys ≡ some k
    → P k
head?-All P [] k h e = cc e
head?-All P (x ∷ keys) k h e = let same : x ≡ k = cc e in subst P same h.0

module _ (sql : Sql) (cipher : Cipher) where
  -- A key that is found for a subject with no live key has no material.
  found-none :
      (subject : Text) (generation : ℕ) (keys : List SubjectKey) (row : SubjectKey)
      → AllShredded subject keys
      → select_first sql SubjectKey
          (λ k. k.subject_id == subject && k.generation == generation)
          keys
        ≡ some row
      → row.key_material ≡ none
  found-none subject generation keys row h e =
      let p = λ (k : SubjectKey). k.subject_id == subject && k.generation == generation in
      let P = λ (k : SubjectKey). (p k ≡ true) × ((k.subject_id == subject && is_live k) ≡ false) in
      let (found, dead) =
        head?-All P (sql.arrange SubjectKey (filter_by p keys)) row
          (All-perm P (λ k. ×_prop (Bool-set _ _) (Bool-set _ _)) (filter_by p keys) _
            (sql.arrange_perm SubjectKey (filter_by p keys))
            (All-filter_by (λ k. (k.subject_id == subject && is_live k) ≡ false) p keys h))
          e in
      elim (Option-cases row.key_material) [
        | inl n ↦ n
        | inr (m, q) ↦ absurd (ground (arith, found, dead, q))
      ]

  decrypt-AllShredded :
      (subject ciphertext plaintext : Text) (s : Shredding)
      → AllShredded subject s.keys
      → decrypt_for_subject sql cipher subject ciphertext s ≢ ok (some plaintext)
  unfolding decrypt_for_subject
  decrypt-AllShredded subject ciphertext plaintext s h e =
      let (generation, _, found) =
        bind-ok (cipher.int (partition b'.' ciphertext).0) _ (some plaintext) e in
      elim (Option-cases (
        select_first sql SubjectKey (λ k. k.subject_id == subject && k.generation == generation)
          s.keys)) [
            | inl n ↦ cc (rw n at found)
            | inr (row, q) ↦ cc (rw (q, found-none subject generation s.keys row h q) at found)
          ]

-- A request as a confirmation leaves it.
abbrev as_confirmed : ℕ → ErasureRequest → ErasureRequest
as_confirmed now r = record r { status = codes "Confirmed"; confirmed_at = some now }

get_request-mark_confirmed :
    (id now : ℕ) (requests : List ErasureRequest)
    → get_request id (mark_confirmed id now requests)
      ≡ Option.map (as_confirmed now) (get_request id requests)
unfolding get_request mark_confirmed
get_request-mark_confirmed id now [] = refl
get_request-mark_confirmed id now (r ∷ requests) =
    ground (arith, get_request-mark_confirmed id now requests)

-- A confirmation that follows one of the same request is an error.
pub confirm_twice :
    (request_id now now' : ℕ) (s : Shredding)
    → (confirm request_id now' (confirm request_id now s).1).0 ≡ err erasure_request_error
unfolding confirm text_eq
confirm_twice request_id now now' s = elim (Option-cases (get_request request_id s.requests)) [
  | inl n ↦ ground (arith, n)
  | inr (r, q) ↦ elim (Bool-cases (text_eq r.status (codes "Requested"))) [
    | inr f ↦ ground (arith, q, f)
    | inl t ↦
        let again = get_request-mark_confirmed request_id now s.requests in
        ground (arith, q, t, again)
  ]
]

shred-others :
    (subject other : Text) (now : ℕ) (keys : List SubjectKey)
    → other ≢ subject
    → filter_by (λ k. k.subject_id == other) (shred subject now keys)
      ≡ filter_by (λ k. k.subject_id == other) keys
unfolding shred filter_by
shred-others subject other now [] n = refl
shred-others subject other now (k ∷ keys) n = ground (
  arith,
  shred-others subject other now keys n,
  text_eq_iff k.subject_id subject,
  text_eq_iff k.subject_id other,
)

-- A confirmation leaves the keys of every subject other than the request's as they are.
pub confirm_others :
    (request_id now : ℕ) (s : Shredding) (request : ErasureRequest) (other : Text)
    → get_request request_id s.requests ≡ some request
    → other ≢ request.subject_id
    → filter_by (λ k. k.subject_id == other) (confirm request_id now s).1.keys
      ≡ filter_by (λ k. k.subject_id == other) s.keys
unfolding confirm
confirm_others request_id now s request other e n =
    elim (Bool-cases (text_eq request.status (codes "Requested"))) [
      | inl t ↦ ground (arith, e, t, shred-others request.subject_id other now s.keys n)
      | inr f ↦ ground (arith, e, f)
    ]

confirm-AllShredded :
    (request_id now : ℕ) (s : Shredding) (request : ErasureRequest)
    → get_request request_id s.requests ≡ some request
    → request.status ≡ codes "Requested"
    → AllShredded request.subject_id (confirm request_id now s).1.keys
unfolding confirm
confirm-AllShredded request_id now s request e q =
    let t : text_eq request.status (codes "Requested") ≡ true = (text_eq_iff _ _).1 q in
    rw (e, confirm) (rw (t, confirm) (shred-AllShredded request.subject_id now s.keys))

module _ (host : Host) (cipher : Cipher) where
  open host use {Payload}

  confirm_erasure-tables :
      (callback : Payload → Masked Payload) (fact : ErasureRequest → ℕ → Payload)
      (turns : List Turn) (request_id now : ℕ) (s : Shredding) (w : World)
      → (confirm_erasure host callback fact turns request_id now s w).1.0
        ≡ (confirm request_id now s).1
  unfolding confirm_erasure
  confirm_erasure-tables callback fact turns request_id now s w =
      elim (Result-cases (confirm request_id now s).0) [
        | inl (out, e) ↦ rw (e, confirm_erasure) refl
        | inr (x, e) ↦ rw (e, confirm_erasure) refl
      ]

  -- After an open request was confirmed, no ciphertext of its subject decrypts to a plaintext,
  -- also where the append of the erasure fact failed.
  pub decrypt_for_subject_erased :
      (callback : Payload → Masked Payload) (fact : ErasureRequest → ℕ → Payload)
      (turns : List Turn) (request_id now : ℕ) (s : Shredding) (w : World)
      (request : ErasureRequest) (ciphertext plaintext : Text)
      → get_request request_id s.requests ≡ some request
      → request.status ≡ codes "Requested"
      → decrypt_for_subject host.sql cipher request.subject_id ciphertext
          (confirm_erasure host callback fact turns request_id now s w).1.0
        ≢ ok (some plaintext)
  decrypt_for_subject_erased callback fact turns request_id now s w request ciphertext plaintext e
        q =
      decrypt-AllShredded host.sql cipher request.subject_id ciphertext plaintext _ (
        rw (confirm_erasure-tables callback fact turns request_id now s w)
          (confirm-AllShredded request_id now s request e q))
