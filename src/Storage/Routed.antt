-- ===== src/Storage/Routed.antt =====
-- The reads of wisetraceloom/storage.py with the engine that each of them resolves. Residency decides it
-- for a tenant; without one it is the default store.
pub mod Tagged
pub mod Untagged
use wisetraceloom.Prelude.{
  ℕ, zero, suc, ◌+◌, ◌-◌, ◌≤◌, ◌<◌, ◌≡◌, ◌≢◌, ◌↔◌, ◌⊎◌, inl, inr, refl, sym, ap, ◌∙◌, Bool, true,
  false, not, ◌&&◌, ◌||◌, ◌==◌, Eq, if◌then◌else◌, Option, none, some, List, [], ◌∷◌, ◌++◌, map,
  Text, codes, text_eq, text_eq_iff, text_eq_refl, text_Eq, option_Eq, nat_Eq, option_eq_iff,
  filter_by, All, length, arith, ltb, leb, nat_eq, nat_eq_iff, Bool-cases, Option-cases, strip,
  has_char, decimal, join, last?,
}
use wisetraceloom.Results.{Result, ok, err, ◌>>=◌}
use wisetraceloom.Residency.{Residency, resolve_engine}
use wisetraceloom.Storage.{Host, Stamp}
use wisetraceloom.Storage.Append.{in_stream}
use wisetraceloom.Storage.Checkpoint.{Store, Files}
use wisetraceloom.Storage.Commit.{World}
use wisetraceloom.Storage.Reads
use wisetraceloom.Storage.Reads.{micros}

-- The store in one database file, with the Parquet files of the machine.
abbrev pub store_at : Text → Files → World → Store
store_at path files w = record {
  commits = w.stores path;
  checkpoints = w.checkpoints path;
  files = files;
}

module _ (host : Host) where
  open host use {sql, Payload}

  -- `resolve_engine(tenant_id) if tenant_id is not None else get_engine()`
  unfoldable pub read_engine : Option Text → Residency → Result Text × Residency
  read_engine none r = (ok r.config.db_path, r)
  read_engine (some tenant) r = resolve_engine sql (some tenant) r

  unfoldable pub routed_read_as_of_version :
      Text → ℕ → Option Text → Files → World → Result (Option (List Payload)) × World
  routed_read_as_of_version s version tenant files w =
      let (resolved, residency) = read_engine tenant w.residency in
      (
        resolved >>= λ path.
            ok (Reads.read_as_of_version host s version tenant (store_at path files w)),
        record w { residency = residency },
      )

  -- The engine is resolved for the version, and again by the read that this calls.
  abbrev pub read_at :
      Text
      → (Store → Option ℕ)
      → Option Text
      → Files
      → World
      → Result (Option (List Payload)) × World
  read_at s version_of tenant files w =
      let (resolved, residency) = read_engine tenant w.residency in
      let w' = record w { residency = residency } in
      elim resolved [
        | err e ↦ (err e, w')
        | ok path ↦ elim (version_of (store_at path files w)) [
          | none ↦ (ok (some []), w')
          | some version ↦ routed_read_as_of_version s version tenant files w'
        ]
      ]

  unfoldable pub routed_read_as_of_timestamp :
      Text → Stamp → Option Text → Files → World → Result (Option (List Payload)) × World
  routed_read_as_of_timestamp s timestamp tenant files w =
      read_at s
        (λ store. sql.max (
          map (λ r. r.version)
            (filter_by
              (λ r. in_stream s r && leb (micros host r.committed_at) (micros host timestamp))
              store.commits)))
        tenant files w

  unfoldable pub routed_read_latest :
      Text → Option Text → Files → World → Result (Option (List Payload)) × World
  routed_read_latest s tenant files w =
      read_at s (λ store. sql.max (map (λ r. r.version) (filter_by (in_stream s) store.commits)))
        tenant files w
