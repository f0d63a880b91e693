-- ===== src/Storage/History/Compaction.antt =====
-- A compaction writes the snapshot that reads rely on, to a file of its own.
use wisetraceloom.Prelude.{
  All-append, ℕ, ◌≡◌, inl, inr, refl, sym, ap, ◌∙◌, false, ◌&&◌, ◌==◌, none, some, List, [], ◌∷◌,
  ◌++◌, map, Text, text_eq, text_eq_iff, text_eq_refl, text_Eq, option_Eq, nat_Eq, filter_by, All,
  length, arith, leb, Bool-cases, Option-cases, last?,
}
use mathlib.Core.List.{append-nil}
use wisetraceloom.Residency.{assign, lookup-assign}
use wisetraceloom.Sql.{select_first}
use wisetraceloom.Sql.Order.{select_first-none}
use wisetraceloom.Storage.{Host, StorageCommit}
use wisetraceloom.Storage.Append.{Table, in_stream}
use wisetraceloom.Storage.Append.Chain.{IsChained}
use wisetraceloom.Audit.{commits_of}
use wisetraceloom.Audit.Chain.{order_by-Chained}
use wisetraceloom.Audit.Anchors.{filter-prefix, last_version?}
use wisetraceloom.Storage.Checkpoint.{
  CheckpointRow, StorageCheckpoint, Store, compact_checkpoint, checkpoint_file_path, sanitize,
  as_row,
}
use wisetraceloom.Storage.Checkpoint.Paths.{checkpoint_file_path_inj}
use wisetraceloom.Storage.Reads.Reconcile.{snapshot}
use wisetraceloom.Storage.History.{IsGood, IsSound, IsApart}

module _ (host : Host) where
  -- The snapshot of a whole chained stream is the stream.
  snapshot-whole :
      (s : Text) (v : ℕ) (table : Table)
      → IsChained host table
      → v ≡ length (filter_by (in_stream s) table)
      → snapshot host s v table ≡ filter_by (in_stream s) table
  snapshot-whole s v table h e =
      let rows = filter_by (in_stream s) table in
      ap (filter_by (λ r. leb r.version v)) (sym (append-nil rows))
      ∙ filter-prefix host none 1 v rows [] (rw (append-nil rows) (h s)) (omega arith)

module _ (host : Host) (dir stem : Text) (s : Text) (store : Store)
    (h : IsSound host dir stem store) (apart : IsApart store s) where
  -- The path of a new checkpoint is that of no other.
  fresh_path :
      (v : ℕ) (checkpoints : List StorageCheckpoint)
      → All (λ c. (c.stream_id == s && c.version == v) ≡ false) checkpoints
      → All (IsGood host dir stem store) checkpoints
      → All (λ c. sanitize c.stream_id ≡ sanitize s → c.stream_id ≡ s) checkpoints
      → All (λ c. (checkpoint_file_path s v dir stem == c.file_path) ≡ false) checkpoints
  fresh_path v [] new good far = tt
  fresh_path v (c ∷ checkpoints) new good far = (
    elim (Bool-cases (text_eq (checkpoint_file_path s v dir stem) c.file_path)) [
      | inr f ↦ f
      | inl t ↦
          let (same, version) =
            checkpoint_file_path_inj c.stream_id s c.version v dir stem
              (sym good.0.0 ∙ sym ((text_eq_iff _ _).0 t)) in
          absurd (ground (arith, new.0, version, text_eq_iff c.stream_id s, far.0 same))
    ],
    fresh_path v checkpoints new.1 good.1 far.1,
  )

  -- Checkpoints at other paths are as good after a file was written.
  kept :
      (path : Text) (rows : List CheckpointRow) (more : List StorageCheckpoint)
      (checkpoints : List StorageCheckpoint)
      → All (λ c. (path == c.file_path) ≡ false) checkpoints
      → All (IsGood host dir stem store) checkpoints
      → All
          (IsGood host dir stem (record store {
            checkpoints = store.checkpoints ++ more;
            files = assign path rows store.files;
          }))
          checkpoints
  kept path rows more [] new good = tt
  kept path rows more (c ∷ checkpoints) new good = (
    (good.0.0, good.0.1, lookup-assign path c.file_path rows store.files ∙ rw new.0 good.0.2),
    kept path rows more checkpoints new.1 good.1,
  )

  new_checkpoint : ℕ → ℕ → StorageCheckpoint
  new_checkpoint v n = record {
    stream_id = s;
    version = v;
    file_path = checkpoint_file_path s v dir stem;
    row_count = n;
  }

  -- The store with a new checkpoint for a stream that ends at version `v`.
  written :
      (v n : ℕ) (rows : List StorageCommit)
      → v ≡ length (filter_by (in_stream s) store.commits)
      → rows ≡ filter_by (in_stream s) store.commits
      → All (λ c. (c.stream_id == s && c.version == v) ≡ false) store.checkpoints
      → IsSound host dir stem (record store {
        checkpoints = store.checkpoints ++ new_checkpoint v n ∷ [];
        files = assign (checkpoint_file_path s v dir stem) (map (as_row host) rows) store.files;
      })
  unfolding new_checkpoint
  written v n rows e same new =
      let path = checkpoint_file_path s v dir stem in
      record {
        chained = h.chained;
        good =
            All-append _ store.checkpoints (new_checkpoint v n ∷ [])
              (kept path (map (as_row host) rows) (new_checkpoint v n ∷ []) store.checkpoints
                (fresh_path v store.checkpoints new h.good apart) h.good)
              (
                (
                  refl,
                  omega arith,
                  lookup-assign path path (map (as_row host) rows) store.files
                      ∙ rw (text_eq_refl path) (
                          ap (λ l. some (map (as_row host) l))
                            (same ∙ sym (snapshot-whole host s v store.commits h.chained e))),
                ),
                tt,
              );
      }

  pub compact_checkpoint-IsSound :
      IsSound host dir stem (compact_checkpoint host dir stem s store).1
  unfolding compact_checkpoint new_checkpoint
  compact_checkpoint-IsSound =
      let rows = filter_by (in_stream s) store.commits in
      let whole : commits_of host s store.commits ≡ rows =
        order_by-Chained host none 1 rows (h.chained s) in
      elim (Option-cases (last? (commits_of host s store.commits))) [
        | inl n ↦ rw (n, compact_checkpoint) h
        | inr (newest, e) ↦
            elim (Option-cases (
              select_first host.sql StorageCheckpoint
                (λ c. c.stream_id == s && c.version == newest.version) store.checkpoints)) [
                  | inr (old, f) ↦ rw (e, f, compact_checkpoint) h
                  | inl f ↦
                      rw (e, f, compact_checkpoint)
                        (written newest.version (length (commits_of host s store.commits))
                          (commits_of host s store.commits)
                          (last_version? host newest rows (h.chained s) (ap last? (sym whole) ∙ e))
                          whole
                          (select_first-none host.sql StorageCheckpoint _ store.checkpoints f))
                ]
      ]
