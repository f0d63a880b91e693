-- ===== src/Tests/Histories.antt =====
-- A store that two appends and a compaction lead to, and two streams that share a checkpoint file.
use wisetraceloom.Prelude.{
  ℕ, ◌≡◌, refl, none, some, [], ◌∷◌, map, Text, codes, text_eq, text_Eq, option_Eq, nat_Eq,
  filter_by,
}
use mathlib.Core.List.{append-nil}
use wisetraceloom.Storage.{StorageCommit, aware}
use wisetraceloom.Storage.Append.{append_loop}
use wisetraceloom.Storage.Append.Invariant.{Rely}
use wisetraceloom.Audit.{commits_of}
use wisetraceloom.Storage.History.Collision.{compact_checkpoint_overwrites}
use wisetraceloom.Storage.Checkpoint.{
  StorageCheckpoint, load_checkpoint_rows, as_row, is_path_safe, Store, compact_checkpoint,
  checkpoint_file_path, sanitize,
}
use wisetraceloom.Storage.Reads.{read_latest, read_as_of_version}
use wisetraceloom.Storage.History.{append, compact, Reach, here, next}
use wisetraceloom.Storage.History.Reads
use wisetraceloom.Storage.History.Reads.{
  empty_store, seen, take, read_latest-eq-seen, read_as_of_version-eq-take,
}
use wisetraceloom.Tests.Engine.{machine}
use wisetraceloom.Tests.Storing.{
  stream, event, alone, first_table, empty-IsChained, first_table-IsChained,
}

abbrev dir : Text
dir = codes "checkpoints"

abbrev stem : Text
stem = codes "traces"

abbrev once : Store
once = record empty_store { commits = first_table }

abbrev twice : Store
twice = record once {
  commits = (append_loop machine stream event none (codes "second") (alone 6 ∷ []) first_table).1;
}

abbrev compacted : Store
compacted = (compact_checkpoint machine dir stem stream twice).1

alone-Rely : Rely machine first_table (alone 6 ∷ [])
alone-Rely = (rw (append-nil first_table) first_table-IsChained, tt)

compacted-Reach : Reach machine dir stem empty_store compacted
compacted-Reach =
    next
      (next
        (next here (
          append empty_store stream event none (codes "first") (alone 5 ∷ [])
            (empty-IsChained, tt)))
        (append once stream event none (codes "second") (alone 6 ∷ []) alone-Rely))
      (compact twice stream tt)

read_latest-eq-seen_example :
    read_latest machine stream none compacted
    ≡ some (seen machine none (Reads.stream machine stream compacted))
read_latest-eq-seen_example =
    read_latest-eq-seen machine dir stem compacted stream none compacted-Reach

read_as_of_version-eq-take_example :
    read_as_of_version machine stream 1 none compacted
    ≡ some (seen machine none (take 1 (Reads.stream machine stream compacted)))
read_as_of_version-eq-take_example =
    read_as_of_version-eq-take machine dir stem compacted stream 1 none compacted-Reach

abbrev checkpointed : ℕ
checkpointed = 7

abbrev dotted : StorageCommit
dotted = record {
  stream_id = codes "a.x";
  version = 1;
  tenant_id = none;
  record_type = event;
  payload = codes "dotted";
  committed_at = aware 5;
  prev_hash = none;
  entry_hash = codes "h";
}

-- The checkpoint of the stream `a_x` at the same version.
abbrev underlined : StorageCheckpoint
underlined = record {
  stream_id = codes "a_x";
  version = 1;
  file_path = checkpoint_file_path (codes "a_x") 1 dir stem;
  row_count = 1;
}

abbrev shared : Store
shared = record { commits = dotted ∷ []; checkpoints = underlined ∷ []; files = [] }

compact_checkpoint_overwrites_example :
    load_checkpoint_rows underlined
      (compact_checkpoint machine dir stem (codes "a.x") shared).1.files
    ≡ some (map (as_row machine) (commits_of machine (codes "a.x") (dotted ∷ [])))
unfolding sanitize is_path_safe checkpoint_file_path filter_by text_eq
compact_checkpoint_overwrites_example =
    compact_checkpoint_overwrites machine dir stem (codes "a.x") shared underlined dotted refl refl
      refl refl
