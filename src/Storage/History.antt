-- ===== src/Storage/History.antt =====
-- One store over time: appends by the loop of `append_commit` and compactions, in any order, keep
-- what the reads rely on.
pub mod Collision
pub mod Compaction
pub mod Reads
use mathlib.Core.Path.{subst}
use native.Mathlib.Nat.{add-zero}
use mathlib.Core.Path.{subst}
use wisetraceloom.Prelude.{
  length-append, All-weaken, filter_by-append, ℕ, zero, suc, ◌+◌, ◌-◌, ◌≤◌, ◌<◌, ◌≡◌, ◌≢◌, ◌↔◌, ◌⊎◌,
  inl, inr, refl, sym, ap, ◌∙◌, Bool, true, false, not, ◌&&◌, ◌||◌, ◌==◌, Eq, if◌then◌else◌, Option,
  none, some, List, [], ◌∷◌, ◌++◌, map, Text, codes, text_eq, text_eq_iff, text_eq_refl, text_Eq,
  option_Eq, nat_Eq, option_eq_iff, filter_by, All, length, arith, ltb, leb, nat_eq, nat_eq_iff,
  Bool-cases, Option-cases, strip, has_char, decimal, join, last?, filter_by-append,
}
use mathlib.Core.List.{append_assoc, append-nil, Subset}
use wisetraceloom.Storage.{Host, StorageCommit}
use wisetraceloom.Storage.Append.{Attempt-cases, attempt, Table, Turn, append_loop, in_stream}
use wisetraceloom.Storage.Append.Chain.{Chained, IsChained, last_hash}
use wisetraceloom.Storage.Append.Invariant.{Rely, attempt_cases}
use wisetraceloom.Storage.Append.Outcome.{append_loop-IsChained}
use wisetraceloom.Storage.Checkpoint.{
  as_row, StorageCheckpoint, Store, compact_checkpoint, checkpoint_file_path, sanitize,
}
use wisetraceloom.Storage.Reads.Reconcile.{snapshot, IsSnapshot, filter-below}

module _ (host : Host) where
  -- The rows behind a prefix go on where the prefix ends.
  Chained-suffix :
      (prev : Option Text) (k : ℕ) (rows more : List StorageCommit)
      → Chained host prev k (rows ++ more)
      → Chained host (last_hash prev rows) (k + length rows) more
  Chained-suffix prev k [] more h = subst (λ n. Chained host prev n more) (omega arith) h
  Chained-suffix prev k (r ∷ rows) more h =
      subst (λ n. Chained host (last_hash (some r.entry_hash) rows) n more) (omega arith)
        (Chained-suffix (some r.entry_hash) (suc k) rows more h.3)

  -- New rows do not change what was up to a version that was there.
  snapshot-grown :
      (s : Text) (v : ℕ) (table more : Table)
      → IsChained host (table ++ more)
      → v ≤ length (filter_by (in_stream s) table)
      → snapshot host s v (table ++ more) ≡ snapshot host s v table
  snapshot-grown s v table more h le =
      let rows = filter_by (in_stream s) table in
      let more' = filter_by (in_stream s) more in
      let split : filter_by (in_stream s) (table ++ more) ≡ rows ++ more' =
        filter_by-append (in_stream s) table more in
      let later : Chained host (last_hash none rows) (1 + length rows) more' =
        Chained-suffix none 1 rows more' (subst (Chained host none 1) split (h s)) in
      ap (filter_by (λ r. leb r.version v)) split
      ∙ filter_by-append (λ r. leb r.version v) rows more'
      ∙ ap (λ l. filter_by (λ r. leb r.version v) rows ++ l)
          (filter-below host (last_hash none rows) (1 + length rows) v more' later (omega arith))
      ∙ append-nil _

  module _ (s record_type : Text) (tenant_id : Option Text) (payload_json : Text) where
    -- The loop only adds rows at the end.
    append_loop-grows :
        (turns : List Turn) (table : Table)
        → (more : Table) × ((append_loop host s record_type tenant_id payload_json turns table).1
            ≡ table ++ more)
    unfolding append_loop
    append_loop-grows [] table = ([], sym (append-nil table))
    append_loop-grows (turn ∷ turns) table =
        elim (Attempt-cases (attempt host s record_type tenant_id payload_json turn table)) [
          | inl (e, c) ↦ (turn.others, rw (c, append_loop) refl)
          | inr (inl c) ↦
              let (more, g) = append_loop-grows turns (table ++ turn.others) in
              (turn.others ++ more, rw (c, append_loop) (g ∙ append_assoc table turn.others more))
          | inr (inr (commit, c)) ↦ (
            turn.others ++ commit ∷ [],
            rw (c, append_loop) (append_assoc table turn.others (commit ∷ [])),
          )
        ]

-- What the reads rely on, and why it lasts: each checkpoint has its own path, and does not run ahead
-- of its stream.
abbrev pub IsGood : Host → Text → Text → Store → StorageCheckpoint → Type 0
IsGood host dir stem store c =
    (c.file_path ≡ checkpoint_file_path c.stream_id c.version dir stem)
    × (c.version ≤ length (filter_by (in_stream c.stream_id) store.commits))
    × IsSnapshot host store c

pub record IsSound (host : Host) (dir stem : Text) (store : Store) : Type 0 where
  pub chained : IsChained host store.commits
  pub good : All (IsGood host dir stem store) store.checkpoints

-- The sanitized form tells this stream from those that have checkpoints.
abbrev pub IsApart : Store → Text → Type 0
IsApart store s = All (λ c. sanitize c.stream_id ≡ sanitize s → c.stream_id ≡ s) store.checkpoints

-- What happens to a store, with one checkpoint directory throughout.
pub data Step (host : Host) (dir stem : Text) : Store → Store → Type 0 where
  append :
      (store : Store) (s record_type : Text) (tenant_id : Option Text) (payload_json : Text)
      (turns : List Turn)
      → Rely host store.commits turns
      → Step host dir stem store (record store {
        commits = (append_loop host s record_type tenant_id payload_json turns store.commits).1;
      })
  compact :
      (store : Store) (s : Text)
      → IsApart store s
      → Step host dir stem store (compact_checkpoint host dir stem s store).1

pub data Reach (host : Host) (dir stem : Text) (start : Store) : Store → Type 0 where
  here : Reach host dir stem start start
  next :
      {store later : Store}
      → Reach host dir stem start store
      → Step host dir stem store later
      → Reach host dir stem start later

module _ (host : Host) (dir stem : Text) where
  grown-IsGood :
      (store : Store) (more : Table)
      → IsChained host (store.commits ++ more)
      → All (IsGood host dir stem store) store.checkpoints
      → All
          (IsGood host dir stem (record store { commits = store.commits ++ more }))
          store.checkpoints
  grown-IsGood store more h good =
      All-weaken (IsGood host dir stem store) _
        (λ c g.
          let split : filter_by (in_stream c.stream_id) (store.commits ++ more)
              ≡ filter_by (in_stream c.stream_id) store.commits
                ++ filter_by (in_stream c.stream_id) more =
            filter_by-append (in_stream c.stream_id) store.commits more in
          (
            g.0,
            omega (
              arith,
              g.1,
              ap length split,
              length-append (filter_by (in_stream c.stream_id) store.commits)
                  (filter_by (in_stream c.stream_id) more),
            ),
            g.2
                ∙ ap (λ l. some (map (as_row host) l))
                    (sym (snapshot-grown host c.stream_id c.version store.commits more h g.1)),
          ))
        store.checkpoints good

  pub append-IsSound :
      (store : Store) (s record_type : Text) (tenant_id : Option Text) (payload_json : Text)
      (turns : List Turn)
      → IsSound host dir stem store
      → Rely host store.commits turns
      → IsSound host dir stem (record store {
        commits = (append_loop host s record_type tenant_id payload_json turns store.commits).1;
      })
  append-IsSound store s record_type tenant_id payload_json turns h rely =
      let (more, g) =
        append_loop-grows host s record_type tenant_id payload_json turns store.commits in
      let chained : IsChained host
          (append_loop host s record_type tenant_id payload_json turns store.commits).1 =
        append_loop-IsChained host s record_type tenant_id payload_json turns store.commits
          h.chained rely in
      record {
        chained = chained;
        good =
            subst
              (λ table.
                All (IsGood host dir stem (record store { commits = table })) store.checkpoints)
              (sym g) (grown-IsGood store more (subst (IsChained host) g chained) h.good);
      }
