-- ===== src/Storage/History/Collision.antt =====
-- Streams that the sanitized form does not tell apart share a checkpoint file.
use wisetraceloom.Prelude.{
  ◌≡◌, refl, ◌∙◌, ◌&&◌, ◌==◌, none, some, map, Text, text_eq_refl, text_Eq, option_Eq, nat_Eq,
  last?,
}
use wisetraceloom.Residency.{lookup-assign}
use wisetraceloom.Sql.{select_first}
use wisetraceloom.Storage.{Host, StorageCommit}
use wisetraceloom.Audit.{commits_of}
use wisetraceloom.Storage.Checkpoint.{
  StorageCheckpoint, Store, compact_checkpoint, checkpoint_file_path, load_checkpoint_rows,
  sanitize, as_row,
}

module _ (host : Host) (dir stem s : Text) (store : Store) where
  -- After a compaction of a stream, a checkpoint of another stream at the same version, whose
  -- sanitized id is the same, loads the rows of the compacted stream.
  pub compact_checkpoint_overwrites :
      (c : StorageCheckpoint) (newest : StorageCommit)
      → last? (commits_of host s store.commits) ≡ some newest
      → select_first host.sql StorageCheckpoint
          (λ k. k.stream_id == s && k.version == newest.version)
          store.checkpoints
        ≡ none
      → c.file_path ≡ checkpoint_file_path c.stream_id newest.version dir stem
      → sanitize c.stream_id ≡ sanitize s
      → load_checkpoint_rows c (compact_checkpoint host dir stem s store).1.files
        ≡ some (map (as_row host) (commits_of host s store.commits))
  unfolding compact_checkpoint checkpoint_file_path load_checkpoint_rows
  compact_checkpoint_overwrites c newest e f p same =
      let path = checkpoint_file_path s newest.version dir stem in
      let rows = map (as_row host) (commits_of host s store.commits) in
      let own : c.file_path ≡ path = p ∙ rw same refl in
      rw (e, f, compact_checkpoint)
        (lookup-assign path c.file_path rows store.files ∙ rw (own, text_eq_refl path) refl)
