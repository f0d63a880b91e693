-- ===== src/CryptoShred.antt =====
-- wisetraceloom/crypto_shred.py: keys for data subjects by generation, and their erasure.
pub mod Erasure
use wisetraceloom.Prelude.{
  or_zero, ℕ, zero, suc, ◌+◌, ◌-◌, ◌≤◌, ◌<◌, ◌≡◌, ◌≢◌, ◌↔◌, ◌⊎◌, inl, inr, refl, sym, ap, ◌∙◌, Bool,
  true, false, not, ◌&&◌, ◌||◌, ◌==◌, Eq, if◌then◌else◌, Option, none, some, List, [], ◌∷◌, ◌++◌,
  map, Text, codes, text_eq, text_eq_iff, text_eq_refl, text_Eq, option_Eq, nat_Eq, option_eq_iff,
  filter_by, All, length, arith, ltb, leb, nat_eq, nat_eq_iff, Bool-cases, Option-cases, strip,
  has_char, decimal, join, last?,
}
use mathlib.Core.List.{List, head?}
use wisetraceloom.Results.{Result, ok, err, erasure_request_error, value_error, ◌>>=◌, ◌>>◌}
use wisetraceloom.Sql.{Sql, select, select_first}
use wisetraceloom.Masking.{Masked}
use wisetraceloom.Storage.{Host, StorageCommit}
use wisetraceloom.Storage.Append.{Turn}
use wisetraceloom.Storage.Commit.{World, append_commit}
use wisetraceloom.Config.{next_id}

pub record SubjectKey : Type 0 where
  pub subject_id : Text
  pub tenant_id : Option Text
  pub generation : ℕ
  pub key_material : Option Text
  pub created_at : ℕ
  pub destroyed_at : Option ℕ

pub record ErasureRequest : Type 0 where
  pub id : ℕ
  pub subject_id : Text
  pub tenant_id : Option Text
  pub status : Text
  pub scope : Option Text
  pub requested_by : Option Text
  pub requested_at : ℕ
  pub confirmed_at : Option ℕ

-- The two tables.
pub record Shredding : Type 0 where
  pub keys : List SubjectKey
  pub requests : List ErasureRequest

-- What is used of `cryptography.fernet` and of `int`. Each call of `encrypt` takes fresh randomness;
-- `int` gives 0, which no generation is, for a negative number too.
pub record Cipher : Type 0 where
  pub encrypt : Text → ℕ → Text → Text
  pub decrypt : Text → Text → Result Text
  pub decrypt-encrypt :
      (key : Text) (random : ℕ) (plaintext : Text)
      → decrypt key (encrypt key random plaintext) ≡ ok plaintext
  pub int : Text → Result ℕ

abbrev pub is_live : SubjectKey → Bool
is_live key = elim key.key_material [ none ↦ false | some k ↦ true ]

-- `ciphertext.partition(".")`: before and after the first dot.
unfoldable pub partition : ℕ → Text → Text × Text
partition sep [] = ([], [])
partition sep (c ∷ s) =
    let (before, after) = partition sep s in if nat_eq c sep then ([], s) else (c ∷ before, after)

module _ (sql : Sql) where
  unfoldable pub get_active_subject_key : Text → Shredding → Option SubjectKey
  get_active_subject_key subject s = last? (
      sql.order_by SubjectKey (λ k. k.generation)
        (filter_by (λ k. k.subject_id == subject && is_live k) s.keys))

  -- `material` is a freshly generated key.
  unfoldable pub get_or_create_subject_key :
      Text → Option Text → Text → ℕ → Shredding → SubjectKey × Shredding
  unfolding get_active_subject_key
  get_or_create_subject_key subject tenant material now s =
      elim (get_active_subject_key subject s) [
        | some key ↦ (key, s)
        | none ↦
            let last =
              sql.max (map (λ k. k.generation) (filter_by (λ k. k.subject_id == subject) s.keys)) in
            let row : SubjectKey = record {
              subject_id = subject;
              tenant_id = tenant;
              generation = or_zero last + 1;
              key_material = some material;
              created_at = now;
              destroyed_at = none;
            } in
            (row, record s { keys = s.keys ++ row ∷ [] })
      ]

  -- The new row takes the next primary key.
  unfoldable pub request_erasure :
      Text → Option Text → Option Text → Option Text → ℕ → Shredding → ErasureRequest × Shredding
  request_erasure subject tenant requested_by scope now s =
      let row : ErasureRequest = record {
        id = or_zero (sql.max (map (λ r. r.id) s.requests)) + 1;
        subject_id = subject;
        tenant_id = tenant;
        status = codes "Requested";
        scope = scope;
        requested_by = requested_by;
        requested_at = now;
        confirmed_at = none;
      } in
      (row, record s { requests = s.requests ++ row ∷ [] })

  module _ (cipher : Cipher) where
    open cipher use {encrypt, decrypt, int}

    -- An active key has its material: the empty text stands for a case that does not come.
    unfoldable pub encrypt_for_subject :
        Text → Text → Option Text → Text → ℕ → ℕ → Shredding → Text × Shredding
    unfolding get_or_create_subject_key
    encrypt_for_subject subject plaintext tenant material random now s =
        let (key, s') = get_or_create_subject_key subject tenant material now s in
        (
          decimal key.generation
              ++ b'.' ∷ encrypt (elim key.key_material [ none ↦ [] | some k ↦ k ]) random plaintext,
          s',
        )

    unfoldable pub decrypt_for_subject : Text → Text → Shredding → Result (Option Text)
    decrypt_for_subject subject ciphertext s = do
      let (generation_str, token) = partition b'.' ciphertext
      generation ← int generation_str
      elim (select_first sql SubjectKey (λ k. k.subject_id == subject && k.generation == generation)
          s.keys) [
            | none ↦ ok none
            | some row ↦ elim row.key_material [
              | none ↦ ok none
              | some material ↦ decrypt material token >>= λ plaintext. ok (some plaintext)
            ]
          ]

-- `session.get(ErasureRequest, request_id)`
unfoldable pub get_request : ℕ → List ErasureRequest → Option ErasureRequest
get_request id [] = none
get_request id (r ∷ requests) = if r.id == id then some r else get_request id requests

-- Every live key of the subject loses its material.
unfoldable pub shred : Text → ℕ → List SubjectKey → List SubjectKey
shred subject now [] = []
shred subject now (k ∷ keys) =
    (if k.subject_id == subject && is_live k
      then record k { key_material = none; destroyed_at = some now }
      else k)
    ∷ shred subject now keys

unfoldable pub mark_confirmed : ℕ → ℕ → List ErasureRequest → List ErasureRequest
mark_confirmed id now [] = []
mark_confirmed id now (r ∷ requests) =
    (if r.id == id then record r { status = codes "Confirmed"; confirmed_at = some now } else r)
    ∷ mark_confirmed id now requests

-- The transaction on the two tables: the request as it is confirmed, and how many keys were
-- destroyed.
unfoldable pub confirm : ℕ → ℕ → Shredding → Result (ErasureRequest × ℕ) × Shredding
unfolding get_request shred mark_confirmed
confirm request_id now s = elim (get_request request_id s.requests) [
  | none ↦ (err erasure_request_error, s)
  | some request ↦
      if request.status == codes "Requested"
      then (
        ok (
          record request { status = codes "Confirmed"; confirmed_at = some now },
          length (filter_by (λ k. k.subject_id == request.subject_id && is_live k) s.keys),
        ),
        record {
          keys = shred request.subject_id now s.keys;
          requests = mark_confirmed request_id now s.requests;
        },
      )
      else (err erasure_request_error, s)
]

module _ (host : Host) where
  open host use {Payload}

  -- The erasure fact is appended after the transaction: an append that fails raises, with the keys
  -- already destroyed. `fact` makes the payload.
  unfoldable pub confirm_erasure :
      (Payload → Masked Payload)
      → (ErasureRequest → ℕ → Payload)
      → List Turn
      → ℕ
      → ℕ
      → Shredding
      → World
      → Result ErasureRequest × (Shredding × World)
  unfolding confirm
  confirm_erasure callback fact turns request_id now s w =
      let (confirmed, s') = confirm request_id now s in
      elim confirmed [
        | err e ↦ (err e, (s', w))
        | ok (request, destroyed) ↦
            let (appended, w') =
              append_commit host callback (codes "erasure_log") (codes "erasure_fact")
                (fact request destroyed) request.tenant_id none turns w in
            (appended >> ok request, (s', w'))
      ]
