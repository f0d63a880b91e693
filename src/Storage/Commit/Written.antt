-- ===== src/Storage/Commit/Written.antt =====
-- `append_commit` of wisetraceloom/storage.py from the call to the row: what the database of the resolved
-- engine holds afterwards.
use wisetraceloom.Prelude.{
  ◌==◌, if◌then◌else◌, ◌+◌, ◌≡◌, ◌⊎◌, inl, inr, refl, sym, ap, ◌∙◌, Option, none, List, [], ◌∷◌,
  ◌++◌, Text, text_eq_refl, text_Eq, option_Eq, nat_Eq, filter_by, length,
}
use mathlib.Core.List.{append-nil, append_assoc}
use wisetraceloom.Masking.{Masked, returned, apply_masking}
use wisetraceloom.Results.{Result, ok, err, storage_conflict, Result-cases}
use wisetraceloom.Storage.{Host, StorageCommit, iso_utc}
use wisetraceloom.Storage.Append.{Table, Turn, append_loop, in_stream, new_commit}
use wisetraceloom.Storage.Append.Chain.{IsChained, last_hash, row_hash}
use wisetraceloom.Storage.Append.Invariant.{Rely, attempt_cases, commit_at}
use wisetraceloom.Storage.Commit.{World, engine_for, append_at, append_commit}
use wisetraceloom.Storage.Commit.Isolation.{append_commit_writes}

-- What the other writers add during the turns.
abbrev pub rivals : List Turn → Table
rivals [] = []
rivals (turn ∷ turns) = turn.others ++ rivals turns

module _ (host : Host) (s record_type : Text) (tenant_id : Option Text) (payload_json : Text) where
  -- The row of this call, next in its stream after the rows before it.
  abbrev pub IsNext : Table → StorageCommit → Type 0
  IsNext before commit =
      let rows = filter_by (in_stream s) before in
      (commit.stream_id ≡ s)
      × (commit.record_type ≡ record_type)
      × (commit.tenant_id ≡ tenant_id)
      × (commit.payload ≡ payload_json)
      × (commit.version ≡ length rows + 1)
      × (commit.prev_hash ≡ last_hash none rows)
      × (commit.entry_hash ≡ row_hash host commit)

  -- Either nothing is added to what was there and what the others added, or this row at the end,
  -- after what the turns up to its own added.
  abbrev pub Ends : List Turn → Table → Result StorageCommit → Table → Type 0
  Ends turns table result table' =
      ((result ≡ err storage_conflict) × (table' ≡ table ++ rivals turns))
      ⊎ ((commit : StorageCommit) × (more later : Table) × (result ≡ ok commit)
          × (rivals turns ≡ more ++ later)
          × (table' ≡ (table ++ more) ++ commit ∷ [])
          × IsNext (table ++ more) commit)

  append_loop-Ends :
      (turns : List Turn) (table : Table)
      → IsChained host table
      → Rely host table turns
      → Ends turns table
          (append_loop host s record_type tenant_id payload_json turns table).0
          (append_loop host s record_type tenant_id payload_json turns table).1
  unfolding append_loop new_commit iso_utc
  append_loop-Ends [] table h rely = inl (refl, sym (append-nil table))
  append_loop-Ends (turn ∷ turns) table h rely =
      elim (attempt_cases host s record_type tenant_id payload_json turn table (h s) (rely.0 s)) [
        | inl c ↦
            rw (c, append_loop)
              (elim (append_loop-Ends turns (table ++ turn.others) rely.0 rely.1) [
                | inl (e, t) ↦ inl (e, t ∙ append_assoc table turn.others (rivals turns))
                | inr (commit, more, later, e, r, t, n) ↦
                    let same = append_assoc table turn.others more in
                    inr (
                      commit,
                      turn.others ++ more,
                      later,
                      e,
                      ap (λ l. turn.others ++ l) r ∙ sym (append_assoc turn.others more later),
                      t ∙ ap (λ l. l ++ commit ∷ []) same,
                      rw (← same) n,
                    )
              ])
        | inr (c, _, _) ↦
            rw (c, append_loop)
              (inr (
                commit_at host s record_type tenant_id payload_json
                    (length (filter_by (in_stream s) (table ++ turn.others)) + 1)
                    (last_hash none (filter_by (in_stream s) (table ++ turn.others))) turn.now,
                turn.others,
                rivals turns,
                refl,
                refl,
                refl,
                (refl, refl, refl, refl, refl, refl, refl),
              ))
      ]

result-append_at :
    (host : Host) (s record_type payload_json : Text) (tenant_id : Option Text) (turns : List Turn)
    (w : World) (path : Text)
    → (append_at host s record_type payload_json tenant_id turns w path).0
      ≡ (append_loop host s record_type tenant_id payload_json turns (w.stores path)).0
unfolding append_at
result-append_at host s record_type payload_json tenant_id turns w path =
    elim (Result-cases
      (append_loop host s record_type tenant_id payload_json turns (w.stores path)).0) [
        | inl (commit, e) ↦ rw (e, append_at) refl
        | inr (x, e) ↦ rw (e, append_at) refl
      ]

module _ (host : Host) (callback : host.Payload → Masked host.Payload) (s record_type : Text)
    (payload : host.Payload) (tenant_id engine : Option Text) (turns : List Turn) (w : World) where
  abbrev after : Result StorageCommit × World
  after = append_commit host callback s record_type payload tenant_id engine turns w

  result-append_commit :
      (path : Text) (masked : host.Payload)
      → (engine_for host engine tenant_id w.residency).0 ≡ ok path
      → callback payload ≡ returned masked
      → after.0
        ≡ (append_loop host s record_type tenant_id (host.dumps masked) turns (w.stores path)).0
  unfolding append_commit apply_masking
  result-append_commit path masked e m =
      rw (e, append_commit)
        (rw (m, append_commit, apply_masking)
          (result-append_at host s record_type (host.dumps masked) tenant_id turns
            (record w { residency = (engine_for host engine tenant_id w.residency).1 }) path))

  -- Where the engine resolves to a path, the callback returns a masked payload, and the database
  -- at that path is chained and kept so by the other writers, append_commit ends in one of two
  -- ways: with the conflict error and what the other writers added to that database, or with a
  -- commit that stands last in it after what was there and what the other writers added until
  -- then, with this stream, record type and tenant, the masked payload as dumped, the next
  -- version, the hash of the stream's last row and its own hash; every other database holds what
  -- it held.
  pub append_commit-Ends :
      (path : Text) (masked : host.Payload)
      → (engine_for host engine tenant_id w.residency).0 ≡ ok path
      → callback payload ≡ returned masked
      → IsChained host (w.stores path)
      → Rely host (w.stores path) turns
      → Ends host s record_type tenant_id
          (host.dumps masked)
          turns
          (w.stores path)
          after.0
          (after.1.stores path)
        × ((other : Text)
            → after.1.stores other
              ≡ (if other == path then after.1.stores path else w.stores other))
  append_commit-Ends path masked e m h rely =
      let writes =
        append_commit_writes host callback s record_type payload tenant_id engine turns w path
          masked e m in
      let loop =
        append_loop host s record_type tenant_id (host.dumps masked) turns (w.stores path) in
      let here : after.1.stores path ≡ loop.1 = writes path ∙ rw (text_eq_refl path) refl in
      (
        rw (here, result-append_commit path masked e m)
            (append_loop-Ends host s record_type tenant_id (host.dumps masked) turns (w.stores path)
              h rely),
        (λ other. writes other ∙ rw here refl),
      )
