-- ===== src/Storage/Append/Invariant.antt =====
-- `append_commit` under other writers: whatever they commit between its reads and its commit, the
-- constraint on (stream_id, version) keeps every stream chained.
use wisetraceloom.Prelude.{
  inl, inr, ℕ, ◌+◌, ◌≡◌, refl, ap, ◌∙◌, ◌⊎◌, false, ◌||◌, ◌==◌, Option, none, List, [], ◌∷◌, ◌++◌,
  Text, filter_by, filter_by-append, All, length, arith, text_Eq, nat_Eq, Bool-cases,
}
use mathlib.Core.List.{append-nil}
use wisetraceloom.Storage.{Host, StorageCommit}
use wisetraceloom.Storage.Append.{
  Table, in_stream, taken, next_version, new_commit, Turn, conflict, committed, attempt,
}
use wisetraceloom.Storage.Append.Chain.{Chained, IsChained, last_hash, Chained-next}
use wisetraceloom.Storage.Append.Occ.{
  not_taken, next_version-eq-length, prev_entry_hash-eq-last_hash,
}

-- The other writers keep the table chained at each turn.
abbrev pub Rely : Host → Table → List Turn → Type 0
Rely host table [] = Unit
Rely host table (turn ∷ turns) =
    IsChained host (table ++ turn.others) × Rely host (table ++ turn.others) turns

All-middle :
    (P : StorageCommit → Type 0) (xs : List StorageCommit) (y : StorageCommit)
    (ys : List StorageCommit)
    → All P (xs ++ y ∷ ys)
    → P y
All-middle P [] y ys h = h.0
All-middle P (x ∷ xs) y ys h = All-middle P xs y ys h.1

module _ (host : Host) where
  -- A version that is free behind `rows` says that nothing was added to them.
  none_added :
      (rows more : List StorageCommit)
      → Chained host none 1 (rows ++ more)
      → All (λ r. (r.version == length rows + 1) ≡ false) (rows ++ more)
      → more ≡ []
  none_added rows [] h f = refl
  none_added rows (r ∷ more) h f =
      let e : r.version ≡ 1 + length rows = Chained-next host none 1 rows r more h in
      let n : (r.version == length rows + 1) ≡ false =
        All-middle (λ x. (x.version == length rows + 1) ≡ false) rows r more f in
      absurd (ground arith)

  module _ (s record_type : Text) (tenant_id : Option Text) (payload_json : Text) where
    abbrev pub commit_at : ℕ → Option Text → ℕ → StorageCommit
    commit_at = new_commit host s record_type tenant_id payload_json

    -- An attempt on a chained table never fails, and what it commits continues its stream.
    pub attempt_cases :
        (turn : Turn) (table : Table)
        → Chained host none 1 (filter_by (in_stream s) table)
        → Chained host none 1 (filter_by (in_stream s) (table ++ turn.others))
        → (attempt host s record_type tenant_id payload_json turn table ≡ conflict)
          ⊎ ((attempt host s record_type tenant_id payload_json turn table
                ≡ committed (
                    commit_at
                      (length (filter_by (in_stream s) (table ++ turn.others)) + 1)
                      (last_hash none (filter_by (in_stream s) (table ++ turn.others)))
                      turn.now))
              × (turn.locked ≡ false)
              × (filter_by (in_stream s) turn.others ≡ []))
    unfolding attempt
    attempt_cases turn table h h' =
        let rows = filter_by (in_stream s) table in
        let v = next_version host s table in
        let e : v ≡ length rows + 1 = next_version-eq-length host s table h in
        elim (Bool-cases (turn.locked || taken s v (table ++ turn.others))) [
          | inl t ↦ inl (ground (arith, prev_entry_hash-eq-last_hash host s table h))
          | inr f ↦
              let free : taken s v (table ++ turn.others) ≡ false = ground arith in
              let split : filter_by (in_stream s) (table ++ turn.others)
                  ≡ rows ++ filter_by (in_stream s) turn.others =
                filter_by-append (in_stream s) table turn.others in
              let free' : All (λ r. (r.version == length rows + 1) ≡ false)
                  (rows ++ filter_by (in_stream s) turn.others) =
                rw (← split, ← e) (not_taken s v (table ++ turn.others) free) in
              let quiet : filter_by (in_stream s) turn.others ≡ [] =
                none_added rows (filter_by (in_stream s) turn.others) (rw split at (h')) free' in
              let same : filter_by (in_stream s) (table ++ turn.others) ≡ rows =
                split ∙ ap (λ l. rows ++ l) quiet ∙ append-nil rows in
              inr (
                ground (arith, prev_entry_hash-eq-last_hash host s table h, ap length same, same),
                ground arith,
                quiet,
              )
        ]
