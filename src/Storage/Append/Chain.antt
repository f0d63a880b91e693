-- ===== src/Storage/Append/Chain.antt =====
-- The invariant of the commit log: in each stream the versions are 1, 2, … without a gap, each
-- entry's hash is taken over its own fields, and its `prev_hash` is the entry hash before it.
use wisetraceloom.Prelude.{
  ℕ, suc, ◌+◌, ◌≤◌, ◌≡◌, Option, none, some, List, [], ◌∷◌, ◌++◌, Text, filter_by, All, length,
  arith, text_Eq, nat_Eq,
}
use wisetraceloom.Storage.{Host, StorageCommit, iso_utc, compute_entry_hash}
use wisetraceloom.Storage.Append.{Table, in_stream}

-- The hash that `verify_chain` recomputes for a row.
abbrev pub row_hash : Host → StorageCommit → Text
row_hash host r =
    compute_entry_hash host.sha256 r.prev_hash r.stream_id r.version r.record_type r.tenant_id
      (iso_utc host r.committed_at) r.payload

module _ (host : Host) where
  -- Rows with versions from `k` on that chain onto the hash `prev`.
  abbrev pub Chained : Option Text → ℕ → List StorageCommit → Type 0
  Chained prev k [] = Unit
  Chained prev k (r ∷ rows) =
      (r.version ≡ k)
      × (r.prev_hash ≡ prev)
      × (r.entry_hash ≡ row_hash host r)
      × Chained (some r.entry_hash) (suc k) rows

  -- Every stream of the table is chained from version 1.
  abbrev pub IsChained : Table → Type 0
  IsChained table = (s : Text) → Chained none 1 (filter_by (in_stream s) table)

-- The hash that the next entry chains onto.
abbrev pub last_hash : Option Text → List StorageCommit → Option Text
last_hash prev [] = prev
last_hash prev (r ∷ rows) = last_hash (some r.entry_hash) rows

module _ (host : Host) where
  -- One more row that continues the chain.
  pub Chained-append :
      (prev : Option Text) (k : ℕ) (rows : List StorageCommit) (r : StorageCommit)
      → Chained host prev k rows
      → r.version ≡ k + length rows
      → r.prev_hash ≡ last_hash prev rows
      → r.entry_hash ≡ row_hash host r
      → Chained host prev k (rows ++ r ∷ [])
  Chained-append prev k [] r h v p e = (omega arith, p, e, tt)
  Chained-append prev k (x ∷ rows) r h v p e =
      (h.0, h.1, h.2, Chained-append (some x.entry_hash) (suc k) rows r h.3 (omega arith) p e)

  -- The rows before a point of the chain are chained.
  pub Chained-prefix :
      (prev : Option Text) (k : ℕ) (rows more : List StorageCommit)
      → Chained host prev k (rows ++ more)
      → Chained host prev k rows
  Chained-prefix prev k [] more h = tt
  Chained-prefix prev k (x ∷ rows) more h =
      (h.0, h.1, h.2, Chained-prefix (some x.entry_hash) (suc k) rows more h.3)

  -- The row that follows `rows` in a chain has the next version.
  pub Chained-next :
      (prev : Option Text) (k : ℕ) (rows : List StorageCommit) (r : StorageCommit)
      (more : List StorageCommit)
      → Chained host prev k (rows ++ r ∷ more)
      → r.version ≡ k + length rows
  Chained-next prev k [] r more h = omega arith
  Chained-next prev k (x ∷ rows) r more h =
      omega (arith, Chained-next (some x.entry_hash) (suc k) rows r more h.3)

  -- Versions in a chain stay below its end.
  pub Chained-bounds :
      (prev : Option Text) (k : ℕ) (rows : List StorageCommit)
      → Chained host prev k rows
      → All (λ r. (k ≤ r.version) × (r.version + 1 ≤ k + length rows)) rows
  Chained-bounds prev k [] h = tt
  Chained-bounds prev k (x ∷ rows) h =
      ((omega arith, omega arith), widen rows (Chained-bounds (some x.entry_hash) (suc k) rows h.3))
    where
      widen :
          (l : List StorageCommit)
          → All (λ r. (suc k ≤ r.version) × (r.version + 1 ≤ suc k + length rows)) l
          → All (λ r. (k ≤ r.version) × (r.version + 1 ≤ k + suc (length rows))) l
      widen [] g = tt
      widen (y ∷ l) g = ((omega arith, omega arith), widen l g.1)
