-- ===== src/Storage/Append.antt =====
-- wisetraceloom/storage.py: `_next_version`, `_prev_entry_hash` and the optimistic retry loop of
-- `append_commit`, on the table of one engine. What other writers and the clock do is a list of
-- turns, one for each attempt.
pub mod Chain
pub mod Occ
pub mod Invariant
pub mod Outcome
use wisetraceloom.Prelude.{
  or_zero, ℕ, ◌+◌, ◌-◌, Bool, true, false, ◌&&◌, ◌||◌, ◌==◌, if◌then◌else◌, Option, none, some,
  List, [], ◌∷◌, ◌++◌, map, Text, filter_by, text_Eq, nat_Eq, ◌≡◌, ◌⊎◌, inl, inr, refl,
}
use wisetraceloom.Results.{Error, Result, ok, err, storage_conflict, no_single_row}
use wisetraceloom.Sql.{select}
use wisetraceloom.Storage.{Host, Stamp, naive, aware, StorageCommit, iso_utc, compute_entry_hash}

abbrev pub Table : Type 0
Table = List StorageCommit

-- WHERE stream_id = s
abbrev pub in_stream : Text → StorageCommit → Bool
in_stream s r = r.stream_id == s

-- WHERE stream_id = s AND version = v
abbrev pub at_version : Text → ℕ → StorageCommit → Bool
at_version s v r = r.stream_id == s && r.version == v

-- `Result.one()`: exactly one row, or an exception.
abbrev pub one {ℓ} : {R : Type ℓ} → List R → Result R
one [] = err no_single_row
one (r ∷ []) = ok r
one (r ∷ s ∷ rows) = err no_single_row

-- Whether a row with these keys is there: what the constraint on (stream_id, version) refuses.
unfoldable pub taken : Text → ℕ → Table → Bool
taken s v [] = false
taken s v (r ∷ rows) = at_version s v r || taken s v rows

-- One attempt's environment: the clock, the rows that other writers commit after the attempt has
-- read and before it commits, and whether the commit meets a locked database.
pub record Turn : Type 0 where
  pub now : ℕ
  pub others : Table
  pub locked : Bool

-- How one attempt ends: an exception that is not caught, a conflict to retry after, or the new row.
pub data Attempt : Type 0 where
  failed : Error → Attempt
  conflict : Attempt
  committed : StorageCommit → Attempt

pub Attempt-cases :
    (a : Attempt)
    → ((e : Error) × (a ≡ failed e))
      ⊎ ((a ≡ conflict) ⊎ ((commit : StorageCommit) × (a ≡ committed commit)))
Attempt-cases (failed e) = inl (e, refl)
Attempt-cases conflict = inr (inl refl)
Attempt-cases (committed commit) = inr (inr (commit, refl))

module _ (host : Host) where
  open host use {sql, sha256}

  unfoldable pub next_version : Text → Table → ℕ
  next_version s table =
      or_zero (sql.max (map (λ r. r.version) (filter_by (in_stream s) table))) + 1

  unfoldable pub prev_entry_hash : Text → ℕ → Table → Result (Option Text)
  prev_entry_hash s version table =
      if version == 1
      then ok none
      else elim (one (select sql StorageCommit (at_version s (version - 1)) table)) [
        | ok r ↦ ok (some r.entry_hash)
        | err e ↦ err e
      ]

  -- The new row as the table keeps it: its hash is taken over the aware time, and it is read back
  -- with a naive one.
  unfoldable pub new_commit : Text → Text → Option Text → Text → ℕ → Option Text → ℕ → StorageCommit
  new_commit s record_type tenant_id payload_json version prev now = record {
    stream_id = s;
    version = version;
    record_type = record_type;
    tenant_id = tenant_id;
    payload = payload_json;
    committed_at = naive now;
    prev_hash = prev;
    entry_hash =
        compute_entry_hash sha256 prev s version record_type tenant_id (iso_utc host (aware now))
          payload_json;
  }

  module _ (s record_type : Text) (tenant_id : Option Text) (payload_json : Text) where
    -- One round of the loop: the reads, and a commit that the constraint or a lock may refuse.
    unfoldable pub attempt : Turn → Table → Attempt
    attempt turn table =
        let version = next_version s table in
        elim (prev_entry_hash s version table) [
          | err e ↦ failed e
          | ok prev ↦
              if turn.locked || taken s version (table ++ turn.others)
              then conflict
              else committed (new_commit s record_type tenant_id payload_json version prev turn.now)
        ]

    -- The loop over `range(max_retries)`, one turn for each attempt, and the table after it.
    unfoldable pub append_loop : List Turn → Table → Result StorageCommit × Table
    append_loop [] table = (err storage_conflict, table)
    append_loop (turn ∷ turns) table =
        let table' = table ++ turn.others in
        elim (attempt turn table) [
          | failed e ↦ (err e, table')
          | conflict ↦ append_loop turns table'
          | committed commit ↦ (ok commit, table' ++ commit ∷ [])
        ]
