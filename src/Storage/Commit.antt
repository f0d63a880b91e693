-- ===== src/Storage/Commit.antt =====
-- `append_commit` of wisetraceloom/storage.py as a whole, with `_maybe_checkpoint`: the engine is
-- resolved, the payload is masked, and the loop runs on the resolved database alone.
pub mod Isolation
pub mod Written
use wisetraceloom.Prelude.{
  or_zero, ℕ, zero, suc, ◌+◌, ◌-◌, ◌≤◌, ◌<◌, ◌≡◌, ◌≢◌, ◌↔◌, ◌⊎◌, inl, inr, refl, sym, ap, ◌∙◌, Bool,
  true, false, not, ◌&&◌, ◌||◌, ◌==◌, Eq, if◌then◌else◌, Option, none, some, List, [], ◌∷◌, ◌++◌,
  map, Text, codes, text_eq, text_eq_iff, text_eq_refl, text_Eq, option_Eq, nat_Eq, option_eq_iff,
  filter_by, All, length, arith, ltb, leb, nat_eq, nat_eq_iff, Bool-cases, Option-cases, strip,
  has_char, decimal, join, last?,
}
use mathlib.Core.List.{List}
use wisetraceloom.Masking.{Masked, apply_masking}
use wisetraceloom.Results.{Error, Result, ok, err}
use wisetraceloom.Config.Cache.{Process}
use wisetraceloom.Config.Tables.{StorageConfig, Dated, get_storage_config}
use wisetraceloom.Residency.{Residency, resolve_engine}
use wisetraceloom.Sql.{Sql}
use wisetraceloom.Storage.{Host, StorageCommit}
use wisetraceloom.Storage.Append.{Table, Turn, append_loop}
use wisetraceloom.Storage.Checkpoint.{StorageCheckpoint, should_checkpoint}

-- A compaction that a background thread is to make.
pub record Job : Type 0 where
  pub stream_id : Text
  pub db_path : Text

-- The databases by path, and what storage.py and residency.py keep in the process.
pub record World : Type 0 where
  pub residency : Residency
  pub config : Process (Dated StorageConfig) StorageConfig
  pub stores : Text → Table
  pub checkpoints : Text → List StorageCheckpoint
  pub last_checkpoints : List ((Text × Text) × ℕ)
  pub jobs : List Job

-- `_last_checkpoint_version_cache.get((engine url, stream id))`
unfoldable pub last_checkpoint : Text → Text → List ((Text × Text) × ℕ) → Option ℕ
last_checkpoint path s [] = none
last_checkpoint path s (((p, t), v) ∷ cache) =
    if p == path && t == s then some v else last_checkpoint path s cache

module _ (host : Host) where
  open host use {sql, dumps, Payload}

  unfoldable pub load_last_checkpoint_version : Text → List StorageCheckpoint → ℕ
  load_last_checkpoint_version s checkpoints =
      or_zero (sql.max (map (λ c. c.version) (filter_by (λ c. c.stream_id == s) checkpoints)))

  -- The known version, or the one that is loaded, and the cache that then knows it.
  unfoldable pub known_checkpoint : Text → Text → World → ℕ × List ((Text × Text) × ℕ)
  unfolding load_last_checkpoint_version
  known_checkpoint s path w = elim (last_checkpoint path s w.last_checkpoints) [
    | some v ↦ (v, w.last_checkpoints)
    | none ↦
        let v = load_last_checkpoint_version s (w.checkpoints path) in
        (v, ((path, s), v) ∷ w.last_checkpoints)
  ]

  unfoldable pub maybe_checkpoint : Text → ℕ → Text → World → World
  unfolding known_checkpoint
  maybe_checkpoint s latest_version path w =
      let (settings, config) = get_storage_config sql none w.config in
      let (last, cache) = known_checkpoint s path w in
      record w {
        config = config;
        last_checkpoints = cache;
        jobs =
            if should_checkpoint latest_version last settings.checkpoint_interval_commits
            then w.jobs ++ record { stream_id = s; db_path = path } ∷ []
            else w.jobs;
      }

  -- `engine or resolve_engine(tenant_id)`
  unfoldable pub engine_for : Option Text → Option Text → Residency → Result Text × Residency
  engine_for (some path) tenant_id r = (ok path, r)
  engine_for none tenant_id r = resolve_engine sql tenant_id r

  -- The loop on one database, with the table written back and the checkpoint check on success.
  unfoldable pub append_at :
      Text → Text → Text → Option Text → List Turn → World → Text → Result StorageCommit × World
  append_at s record_type payload_json tenant_id turns w path =
      let (result, table) =
        append_loop host s record_type tenant_id payload_json turns (w.stores path) in
      let w' = record w { stores = λ p. if p == path then table else w.stores p } in
      elim result [
        | err e ↦ (err e, w')
        | ok commit ↦ (ok commit, maybe_checkpoint s commit.version path w')
      ]

  unfoldable pub append_commit :
      (Payload → Masked Payload)
      → Text
      → Text
      → Payload
      → Option Text
      → Option Text
      → List Turn
      → World
      → Result StorageCommit × World
  unfolding append_at
  append_commit callback s record_type payload tenant_id engine turns w =
      let (resolved, residency) = engine_for engine tenant_id w.residency in
      let w' = record w { residency = residency } in
      elim resolved [
        | err e ↦ (err e, w')
        | ok path ↦ elim (apply_masking callback payload) [
          | err e ↦ (err e, w')
          | ok masked ↦ append_at s record_type (dumps masked) tenant_id turns w' path
        ]
      ]
