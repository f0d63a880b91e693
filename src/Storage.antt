-- ===== src/Storage.antt =====
-- wisetraceloom/storage.py: the append-only commit log. The row types stand here, the operations
-- and their proofs in the modules below.
pub mod Append
pub mod Checkpoint
pub mod Reads
pub mod Commit
pub mod History
pub mod Queue
pub mod Routed
use wisetraceloom.Prelude.{
  ℕ, ◌≡◌, Option, none, some, List, [], ◌∷◌, Text, codes, join, decimal, length,
}
use wisetraceloom.Sql.{Sql}

-- A `datetime`, in microseconds since the epoch: SQLite gives back a naive one where an aware one,
-- in UTC, was written.
pub data Stamp : Type 0 where
  naive aware : ℕ → Stamp

-- What the storage layer takes from outside: the database engine, the digest, and the text forms
-- of payloads and times.
pub record Host : Type 1 where
  pub sql : Sql
  -- `hashlib.sha256(text.encode("utf-8")).hexdigest()`
  pub sha256 : Text → Text
  pub length-sha256 : (t : Text) → length (sha256 t) ≡ 64
  -- `datetime.isoformat`
  pub isoformat : Stamp → Text
  -- `dict[str, Any]` with `json.dumps(payload, sort_keys=True, default=str)` and `json.loads`
  pub Payload : Type 0
  pub dumps : Payload → Text
  pub loads : Text → Payload

pub record StorageCommit : Type 0 where
  pub stream_id : Text
  pub version : ℕ
  pub record_type : Text
  pub tenant_id : Option Text
  pub payload : Text
  pub committed_at : Stamp
  pub prev_hash : Option Text
  pub entry_hash : Text

pub StorageCommit-set : IsSet StorageCommit
StorageCommit-set = hlevel

module _ (host : Host) where
  open host use {sha256, isoformat}

  unfoldable pub iso_utc : Stamp → Text
  iso_utc (naive t) = isoformat (aware t)
  iso_utc (aware t) = isoformat (aware t)

-- `value or ""`
abbrev pub or_empty : Option Text → Text
or_empty none = []
or_empty (some t) = t

-- The text that an entry's hash is taken over.
unfoldable pub entry_material : Option Text → Text → ℕ → Text → Option Text → Text → Text → Text
entry_material prev_hash stream_id version record_type tenant_id committed_at_iso payload_json =
    join b'\n' (
      or_empty prev_hash
      ∷ stream_id
      ∷ decimal version
      ∷ record_type
      ∷ or_empty tenant_id
      ∷ committed_at_iso
      ∷ payload_json
      ∷ [])

unfoldable pub compute_entry_hash :
    (Text → Text) → Option Text → Text → ℕ → Text → Option Text → Text → Text → Text
compute_entry_hash sha256 prev_hash stream_id version record_type tenant_id committed_at_iso
      payload_json =
    sha256 (
      entry_material prev_hash stream_id version record_type tenant_id committed_at_iso
        payload_json)
