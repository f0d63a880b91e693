-- ===== src/Storage/Checkpoint.antt =====
-- wisetraceloom/checkpoint.py: full snapshots of a stream, one file each. A file that
-- `pq.write_table` wrote is kept as the rows that `pq.read_table` gives back.
pub mod Paths
use wisetraceloom.Prelude.{
  ℕ, zero, suc, Bool, false, ◌&&◌, ◌||◌, ◌==◌, if◌then◌else◌, Option, none, some, List, [], ◌∷◌,
  ◌++◌, map, Text, codes, text_Eq, option_Eq, nat_Eq, length, ltb, leb, nat_eq, decimal, join,
  last?, ◌%◌,
}
use wisetraceloom.Residency.{lookup, assign}
use wisetraceloom.Sql.{select_first}
use wisetraceloom.Storage.{Host, StorageCommit}
use wisetraceloom.Storage.Append.{Table}
use wisetraceloom.Audit.{commits_of}

-- One row of a Parquet file.
pub record CheckpointRow : Type 0 where
  pub stream_id : Text
  pub version : ℕ
  pub record_type : Text
  pub tenant_id : Option Text
  pub payload : Text
  pub committed_at : Text

pub record StorageCheckpoint : Type 0 where
  pub stream_id : Text
  pub version : ℕ
  pub file_path : Text
  pub row_count : ℕ

-- The files by path.
abbrev pub Files : Type 0
Files = List (Text × List CheckpointRow)

-- The interval is a count of commits; a negative one is read as zero is.
unfoldable pub should_checkpoint : ℕ → ℕ → ℕ → Bool
should_checkpoint latest_version last_checkpoint_version interval =
    if leb interval 0
    then false
    else ltb last_checkpoint_version latest_version && nat_eq (latest_version % interval) 0

-- `[A-Za-z0-9_-]`
unfoldable pub is_path_safe : ℕ → Bool
is_path_safe c =
    leb b'A' c && leb c b'Z'
    || leb b'a' c && leb c b'z'
    || leb b'0' c && leb c b'9'
    || nat_eq c b'_'
    || nat_eq c b'-'

-- `_STREAM_ID_SANITIZE_RE.sub("_", text)`
unfoldable pub sanitize : Text → Text
unfolding is_path_safe
sanitize [] = []
sanitize (c ∷ s) = (if is_path_safe c then c else b'_') ∷ sanitize s

-- `f"{version:020d}"`
unfoldable pub zero_padded : ℕ → Text → Text
zero_padded zero digits = digits
zero_padded (suc places) digits =
    if leb (suc places) (length digits) then digits else b'0' ∷ zero_padded places digits

-- The path, with the stem of the store's own file as `store_stem`.
unfoldable pub checkpoint_file_path : Text → ℕ → Text → Text → Text
unfolding sanitize zero_padded
checkpoint_file_path stream_id version checkpoint_dir store_stem = join b'/' (
    checkpoint_dir
    ∷ sanitize store_stem
    ∷ sanitize stream_id
    ∷ (zero_padded 20 (decimal version) ++ codes ".checkpoint.parquet")
    ∷ [])

-- One store, as far as checkpoints go, with the file system.
pub record Store : Type 0 where
  pub commits : Table
  pub checkpoints : List StorageCheckpoint
  pub files : Files

module _ (host : Host) where
  open host use {sql, isoformat}

  unfoldable pub as_row : StorageCommit → CheckpointRow
  as_row r = record {
    stream_id = r.stream_id;
    version = r.version;
    record_type = r.record_type;
    tenant_id = r.tenant_id;
    payload = r.payload;
    committed_at = isoformat r.committed_at;
  }

  -- The checkpoint for the newest version of the stream, an old one or a new one, and the store
  -- after it.
  unfoldable pub compact_checkpoint : Text → Text → Text → Store → Option StorageCheckpoint × Store
  unfolding checkpoint_file_path as_row
  compact_checkpoint checkpoint_dir store_stem s store =
      let rows = commits_of host s store.commits in
      elim (last? rows) [
        | none ↦ (none, store)
        | some newest ↦
            elim (select_first sql StorageCheckpoint
              (λ c. c.stream_id == s && c.version == newest.version) store.checkpoints) [
                | some existing ↦ (some existing, store)
                | none ↦
                    let path = checkpoint_file_path s newest.version checkpoint_dir store_stem in
                    let checkpoint : StorageCheckpoint = record {
                      stream_id = s;
                      version = newest.version;
                      file_path = path;
                      row_count = length rows;
                    } in
                    (
                      some checkpoint,
                      record store {
                        checkpoints = store.checkpoints ++ checkpoint ∷ [];
                        files = assign path (map as_row rows) store.files;
                      },
                    )
              ]
      ]

-- `pq.read_table(checkpoint.file_path).to_pylist()`; a file that is not there raises.
unfoldable pub load_checkpoint_rows : StorageCheckpoint → Files → Option (List CheckpointRow)
load_checkpoint_rows checkpoint files = lookup checkpoint.file_path files
