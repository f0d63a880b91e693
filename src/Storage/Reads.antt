-- ===== src/Storage/Reads.antt =====
-- wisetraceloom/storage.py: the reads of one store, which put a checkpoint and the commits behind it
-- together.
pub mod Reconcile
use wisetraceloom.Prelude.{
  ℕ, zero, suc, ◌+◌, ◌-◌, ◌≤◌, ◌<◌, ◌≡◌, ◌≢◌, ◌↔◌, ◌⊎◌, inl, inr, refl, sym, ap, ◌∙◌, Bool, true,
  false, not, ◌&&◌, ◌||◌, ◌==◌, Eq, if◌then◌else◌, Option, none, some, List, [], ◌∷◌, ◌++◌, map,
  Text, codes, text_eq, text_eq_iff, text_eq_refl, text_Eq, option_Eq, nat_Eq, option_eq_iff,
  filter_by, All, length, arith, ltb, leb, nat_eq, nat_eq_iff, Bool-cases, Option-cases, strip,
  has_char, decimal, join, last?,
}
use wisetraceloom.Results.{Error, Result, ok, err, value_error, ◌>>=◌}
use wisetraceloom.Storage.{Host, StorageCommit, Stamp, naive, aware}
use wisetraceloom.Storage.Append.{Table, in_stream}
use wisetraceloom.Storage.Checkpoint.{
  CheckpointRow, StorageCheckpoint, Store, as_row, load_checkpoint_rows,
}

-- `rows.sort(key=lambda row: row["version"])`, a stable sort.
unfoldable pub insert_row : CheckpointRow → List CheckpointRow → List CheckpointRow
insert_row r [] = r ∷ []
insert_row r (x ∷ rows) = if leb r.version x.version then r ∷ x ∷ rows else x ∷ insert_row r rows

unfoldable pub sort_rows : List CheckpointRow → List CheckpointRow
unfolding insert_row
sort_rows [] = []
sort_rows (r ∷ rows) = insert_row r (sort_rows rows)

-- `if tenant_id is not None: rows = [row for row in rows if row["tenant_id"] == tenant_id]`
unfoldable pub of_tenant : Option Text → List CheckpointRow → List CheckpointRow
of_tenant none rows = rows
of_tenant (some tenant) rows = filter_by (λ r. r.tenant_id == some tenant) rows

module _ (host : Host) where
  open host use {sql, loads, Payload}

  -- ORDER BY version DESC, the first row: the row with the largest version.
  unfoldable pub best_checkpoint : Text → ℕ → Store → Option StorageCheckpoint
  best_checkpoint s target store = last? (
      sql.order_by StorageCheckpoint (λ c. c.version)
        (filter_by (λ c. c.stream_id == s && leb c.version target) store.checkpoints))

  unfoldable pub tail_rows : Text → ℕ → ℕ → Store → List CheckpointRow
  tail_rows s base target store = map (as_row host) (
      sql.order_by StorageCommit (λ r. r.version)
        (filter_by (λ r. in_stream s r && (ltb base r.version && leb r.version target))
          store.commits))

  -- `none` stands for a checkpoint whose file is gone, which raises.
  unfoldable pub load_stream_state : Text → ℕ → Option Text → Store → Option (List CheckpointRow)
  load_stream_state s target tenant store = elim (best_checkpoint s target store) [
    | none ↦ some (of_tenant tenant (sort_rows (tail_rows s 0 target store)))
    | some c ↦ elim (load_checkpoint_rows c store.files) [
      | none ↦ none
      | some rows ↦ some (of_tenant tenant (sort_rows (rows ++ tail_rows s c.version target store)))
    ]
  ]

  unfoldable pub read_as_of_version : Text → ℕ → Option Text → Store → Option (List Payload)
  unfolding load_stream_state
  read_as_of_version s version tenant store = elim (load_stream_state s version tenant store) [
    | none ↦ none
    | some rows ↦ some (map (λ r. loads r.payload) rows)
  ]

  -- The time of a row, as the database compares it: both are in UTC.
  abbrev pub micros : Stamp → ℕ
  micros (naive t) = t
  micros (aware t) = t

  unfoldable pub read_as_of_timestamp : Text → Stamp → Option Text → Store → Option (List Payload)
  unfolding read_as_of_version
  read_as_of_timestamp s timestamp tenant store =
      elim (sql.max (
        map (λ r. r.version)
          (filter_by (λ r. in_stream s r && leb (micros r.committed_at) (micros timestamp))
            store.commits))) [
              | none ↦ some []
              | some version ↦ read_as_of_version s version tenant store
            ]

  unfoldable pub read_latest : Text → Option Text → Store → Option (List Payload)
  unfolding read_as_of_version
  read_latest s tenant store =
      elim (sql.max (map (λ r. r.version) (filter_by (in_stream s) store.commits))) [
        | none ↦ some []
        | some version ↦ read_as_of_version s version tenant store
      ]
