-- ===== src/Audit.antt =====
-- wisetraceloom/audit_chain.py: chain verification, Merkle roots and anchoring. The proofs stand in
-- the modules below.
pub mod Chain
pub mod Tamper
pub mod Merkle
pub mod Roots
pub mod Anchors
use wisetraceloom.Prelude.{
  ℕ, ◌≤◌, ◌%◌, zero, suc, ltb, leb, Bool, true, false, ◌&&◌, ◌==◌, if◌then◌else◌, Option, none,
  some, List, [], ◌∷◌, ◌++◌, map, Text, codes, decimal, filter_by, last?, length, text_Eq, nat_Eq,
  option_Eq,
}
use wisetraceloom.Results.{Result, ok, err, value_error, ◌>>=◌}
use wisetraceloom.Storage.{Host, StorageCommit, Stamp, iso_utc}
use wisetraceloom.Storage.Append.{Table, in_stream}
use wisetraceloom.Storage.Append.Chain.{row_hash}

-- The field `ok` of the code is `verified` here.
pub record ChainVerificationResult : Type 0 where
  pub verified : Bool
  pub broken_at_version : Option ℕ
  pub reason : Option Text

abbrev pub broken : StorageCommit → Text → ChainVerificationResult
broken commit reason = record {
  verified = false;
  broken_at_version = some commit.version;
  reason = some (reason ++ decimal commit.version);
}

abbrev pub sound : ChainVerificationResult
sound = record { verified = true; broken_at_version = none; reason = none }

module _ (host : Host) where
  open host use {sql, sha256}

  -- SELECT … WHERE stream_id = s ORDER BY version
  abbrev pub commits_of : Text → Table → List StorageCommit
  commits_of s table = sql.order_by StorageCommit (λ r. r.version) (filter_by (in_stream s) table)

  -- The loop of `verify_chain`, with `expected_prev`.
  unfoldable pub verify_from : Option Text → List StorageCommit → ChainVerificationResult
  verify_from expected_prev [] = sound
  verify_from expected_prev (commit ∷ commits) =
      let rest = verify_from (some commit.entry_hash) commits in
      if commit.prev_hash == expected_prev
      then if row_hash host commit == commit.entry_hash
        then rest
        else broken commit (codes "entry_hash does not match its own recomputed fields at version ")
      else broken commit
          (codes "prev_hash does not match the preceding entry's entry_hash at version ")

  unfoldable pub verify_chain : Text → Table → ChainVerificationResult
  unfolding verify_from
  verify_chain s table = verify_from none (commits_of s table)

abbrev pub singleton? : Option Text → List Text
singleton? none = []
singleton? (some leaf) = leaf ∷ []

-- `if len(level) % 2 == 1: level.append(level[-1])`
unfoldable pub pad : List Text → List Text
pad level = if length level % 2 == 1 then level ++ singleton? (last? level) else level

module _ (sha256 : Text → Text) where
  -- `range(0, len(level), 2)`. A list of odd length does not get here.
  unfoldable pub hash_pairs : List Text → List Text
  hash_pairs [] = []
  hash_pairs (x ∷ []) = []
  hash_pairs (x ∷ y ∷ level) = sha256 (x ++ y) ∷ hash_pairs level

  -- The loop `while len(level) > 1`, on fuel; none where it runs out before the loop
  -- ends. The number of leaves is enough of it.
  unfoldable pub reduce_level : ℕ → List Text → Option (List Text)
  unfolding pad hash_pairs
  reduce_level zero level = if ltb 1 (length level) then none else some level
  reduce_level (suc fuel) level =
      let rest = reduce_level fuel (hash_pairs (pad level)) in
      if ltb 1 (length level) then rest else some level

  unfoldable pub compute_merkle_root : List Text → Result Text
  unfolding reduce_level
  compute_merkle_root leaf_hashes = elim (reduce_level (length leaf_hashes) leaf_hashes) [
    | none ↦ err value_error
    | some level ↦ elim level [ [] ↦ err value_error | root ∷ _ ↦ ok root ]
  ]

pub record AnchorRecord : Type 0 where
  pub stream_id : Text
  pub version : ℕ
  pub merkle_root : Text
  pub external_reference : Text

module _ (host : Host) where
  open host use {sql, sha256}

  -- `sink` is the host's external anchor; the record is returned for the AnchorRecord table.
  unfoldable pub anchor_commits : (Text → Text → Text) → Text → Table → Result AnchorRecord
  anchor_commits sink s table =
      let commits = commits_of host s table in
      elim (last? commits) [
        | none ↦ err value_error
        | some newest ↦ do
          root ← compute_merkle_root sha256 (map (λ r. r.entry_hash) commits)
          ok (record {
            stream_id = s;
            version = newest.version;
            merkle_root = root;
            external_reference = sink s root;
          })
      ]

  -- WHERE stream_id = … AND version <= … ORDER BY version
  abbrev pub commits_up_to : Text → ℕ → Table → List StorageCommit
  commits_up_to s v table =
      sql.order_by StorageCommit (λ r. r.version)
        (filter_by (λ r. in_stream s r && leb r.version v) table)

  unfoldable pub verify_anchor : AnchorRecord → Table → Result Bool
  verify_anchor anchor table =
      let commits = commits_up_to anchor.stream_id anchor.version table in
      elim (last? commits) [
        | none ↦ ok false
        | some newest ↦
            if newest.version == anchor.version
            then (do
              root ← compute_merkle_root sha256 (map (λ r. r.entry_hash) commits)
              ok (root == anchor.merkle_root))
            else ok false
      ]
