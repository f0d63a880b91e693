-- ===== src/Storage/Append/Outcome.antt =====
-- What `append_commit` returns and leaves behind, whatever the other writers do.
use wisetraceloom.Storage.Append.Occ.{
  version_free, next_version-eq-length, prev_entry_hash-eq-last_hash,
}
use wisetraceloom.Prelude.{
  inl, inr, ℕ, ◌+◌, ◌≡◌, ◌⊎◌, refl, Option, none, List, [], ◌∷◌, ◌++◌, Text, filter_by,
  filter_by-append, length, arith, text_Eq, nat_Eq, text_eq, text_eq→eq, Bool-cases, ◌∙◌, ap, false,
}
use mathlib.Core.List.{append-nil}
use wisetraceloom.Results.{Result, ok, err, storage_conflict}
use wisetraceloom.Storage.{Host, StorageCommit, iso_utc}
use wisetraceloom.Storage.Append.{
  Table, in_stream, new_commit, Turn, append_loop, attempt, committed, taken, next_version,
}
use wisetraceloom.Storage.Append.Chain.{row_hash, IsChained, last_hash, Chained-append, Chained}
use wisetraceloom.Storage.Append.Invariant.{Rely, attempt_cases, commit_at}

module _ (host : Host) where
  -- A row that continues its own stream keeps every stream chained.
  IsChained-append :
      (table : Table) (r : StorageCommit)
      → IsChained host table
      → r.version ≡ 1 + length (filter_by (in_stream r.stream_id) table)
      → r.prev_hash ≡ last_hash none (filter_by (in_stream r.stream_id) table)
      → r.entry_hash ≡ row_hash host r
      → IsChained host (table ++ r ∷ [])
  unfolding filter_by
  IsChained-append table r h v p e s =
      rw (filter_by-append (in_stream s) table (r ∷ []))
        (elim (Bool-cases (text_eq r.stream_id s)) [
          | inl same ↦
              let e' : r.stream_id ≡ s = text_eq→eq r.stream_id s same in
              rw same (
                Chained-append host none 1 (filter_by (in_stream s) table) r (h s) (rw (← e') v)
                  (rw (← e') p) e)
          | inr other ↦ rw (other, append-nil) (h s)
        ])

  module _ (s record_type : Text) (tenant_id : Option Text) (payload_json : Text) where
    abbrev next_commit : ℕ → Table → StorageCommit
    next_commit now table =
        commit_at host s record_type tenant_id payload_json
          (length (filter_by (in_stream s) table) + 1)
          (last_hash none (filter_by (in_stream s) table)) now

    next_commit-IsChained :
        (now : ℕ) (table : Table)
        → IsChained host table
        → IsChained host (table ++ next_commit now table ∷ [])
    unfolding new_commit iso_utc
    next_commit-IsChained now table h =
        IsChained-append table (next_commit now table) h (omega arith) refl refl

    -- If the table is chained on every stream and the other writers keep it chained at each turn,
    -- then the table after the retry loop of append_commit is chained on every stream, however the
    -- loop ends.
    pub append_loop-IsChained :
        (turns : List Turn) (table : Table)
        → IsChained host table
        → Rely host table turns
        → IsChained host (append_loop host s record_type tenant_id payload_json turns table).1
    unfolding append_loop
    append_loop-IsChained [] table h rely = h
    append_loop-IsChained (turn ∷ turns) table h rely =
        elim (attempt_cases host s record_type tenant_id payload_json turn table (h s) (rely.0 s)) [
          | inl c ↦
              rw (c, append_loop) (append_loop-IsChained turns (table ++ turn.others) rely.0 rely.1)
          | inr (c, _, _) ↦
              rw (c, append_loop) (next_commit-IsChained turn.now (table ++ turn.others) rely.0)
        ]

    -- How the loop ends: out of retries, or with the next entry of the stream at the end of the table.
    abbrev pub Outcome : Result StorageCommit × Table → Type 0
    Outcome out =
        (out.0 ≡ err storage_conflict)
        ⊎ ((now : ℕ) × (before : Table) × (out
              ≡ (ok (next_commit now before), before ++ next_commit now before ∷ [])))

    -- On a chained table, under writers that keep it chained, the loop ends with the conflict
    -- error, or it returns the new last row of the table, which carries the next version and the
    -- last hash of its own stream.
    pub append_loop-Outcome :
        (turns : List Turn) (table : Table)
        → IsChained host table
        → Rely host table turns
        → Outcome (append_loop host s record_type tenant_id payload_json turns table)
    unfolding append_loop
    append_loop-Outcome [] table h rely = inl refl
    append_loop-Outcome (turn ∷ turns) table h rely =
        elim (attempt_cases host s record_type tenant_id payload_json turn table (h s) (rely.0 s)) [
          | inl c ↦
              rw (c, append_loop) (append_loop-Outcome turns (table ++ turn.others) rely.0 rely.1)
          | inr (c, _, _) ↦ rw (c, append_loop) (inr (turn.now, table ++ turn.others, refl))
        ]

    -- Nobody holds the lock, and no other writer adds to this stream.
    abbrev pub IsQuiet : Turn → Type 0
    IsQuiet turn = (turn.locked ≡ false) × (filter_by (in_stream s) turn.others ≡ [])

    abbrev pub SomeQuiet : List Turn → Type 0
    SomeQuiet [] = ⊥
    SomeQuiet (turn ∷ turns) = IsQuiet turn ⊎ SomeQuiet turns

    attempt_quiet :
        (turn : Turn) (table : Table)
        → Chained host none 1 (filter_by (in_stream s) table)
        → IsQuiet turn
        → attempt host s record_type tenant_id payload_json turn table
          ≡ committed (
              commit_at host s record_type tenant_id payload_json
                (next_version host s table)
                (last_hash none (filter_by (in_stream s) table))
                turn.now)
    unfolding attempt
    attempt_quiet turn table h q =
        let rows = filter_by (in_stream s) table in
        let split : filter_by (in_stream s) (table ++ turn.others) ≡ rows =
          filter_by-append (in_stream s) table turn.others
          ∙ ap (λ l. rows ++ l) q.1
          ∙ append-nil rows in
        let free : taken s (next_version host s table) (table ++ turn.others) ≡ false =
          version_free host s (next_version host s table) (table ++ turn.others) (rw split h)
            (rw (next_version-eq-length host s table h, split) (omega arith)) in
        ground (arith, prev_entry_hash-eq-last_hash host s table h, free, q.0)

    -- On a chained table, under writers that keep it chained, the loop returns a commit if at some
    -- turn among the retries nobody holds the lock and no other writer adds to the stream.
    pub append_loop_succeeds :
        (turns : List Turn) (table : Table)
        → IsChained host table
        → Rely host table turns
        → SomeQuiet turns
        → (commit : StorageCommit) × ((append_loop host s record_type tenant_id payload_json turns
              table).0
            ≡ ok commit)
    unfolding append_loop
    append_loop_succeeds [] table h rely q = absurd q
    append_loop_succeeds (turn ∷ turns) table h rely (inl q) =
        let commit =
          commit_at host s record_type tenant_id payload_json (next_version host s table)
            (last_hash none (filter_by (in_stream s) table)) turn.now in
        (commit, rw (attempt_quiet turn table (h s) q, append_loop) refl)
    append_loop_succeeds (turn ∷ turns) table h rely (inr q) =
        elim (attempt_cases host s record_type tenant_id payload_json turn table (h s) (rely.0 s)) [
          | inl c ↦
              let (commit, e) = append_loop_succeeds turns (table ++ turn.others) rely.0 rely.1 q in
              (commit, rw (c, append_loop) e)
          | inr (c, _, _) ↦ (next_commit turn.now (table ++ turn.others), rw (c, append_loop) refl)
        ]
