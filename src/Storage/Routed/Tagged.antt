-- ===== src/Storage/Routed/Tagged.antt =====
-- A tenant's reads of wisetraceloom/storage.py: the store that its appends go to.
use wisetraceloom.Prelude.{
  ◌≡◌, inl, inr, refl, sym, ap, ◌∙◌, Option, none, some, List, ◌∷◌, map, Text, text_eq_refl,
  text_Eq, option_Eq, nat_Eq, option_eq_iff, filter_by, arith, Option-cases,
}
use mathlib.Core.Option
use wisetraceloom.Results.{Result, ok, err, unrouted_region}
use wisetraceloom.Residency.{
  Residency, RegionConfig, lookup, load_region_config, get_region_config, resolve_region,
  resolve_engine,
}
use wisetraceloom.Config.{Rows}
use wisetraceloom.Config.Cache.{Process, cached, get_cached}
use wisetraceloom.Storage.{Host}
use wisetraceloom.Storage.Append.{in_stream}
use wisetraceloom.Storage.Checkpoint.{Files}
use wisetraceloom.Storage.Commit.{World}
use wisetraceloom.Storage.Reads
use wisetraceloom.Storage.Routed.{
  read_at, read_engine, routed_read_latest, routed_read_as_of_version, store_at,
}

module _ {V C : Type 0} (load : Rows (Option Text) V → Option Text → C) where
  get_cached-hit :
      (tenant : Option Text) (process : Process V C) (c : C)
      → cached process.db_path tenant process.cache ≡ some c
      → get_cached load tenant process ≡ (c, process)
  unfolding get_cached
  get_cached-hit tenant process c e = rw (e, get_cached) refl

  get_cached-miss :
      (tenant : Option Text) (process : Process V C)
      → cached process.db_path tenant process.cache ≡ none
      → let c = load (process.stores process.db_path) tenant in
        get_cached load tenant process
        ≡ (c, record process { cache = ((process.db_path, tenant), c) ∷ process.cache })
  unfolding get_cached
  get_cached-miss tenant process e = rw (e, get_cached) refl

  -- A second read returns what the first one did.
  get_cached-again :
      (tenant : Option Text) (process : Process V C)
      → get_cached load tenant (get_cached load tenant process).1 ≡ get_cached load tenant process
  unfolding cached
  get_cached-again tenant process =
      let second = λ (x : C × Process V C). get_cached load tenant x.1 in
      elim (Option-cases (cached process.db_path tenant process.cache)) [
        | inr (c, e) ↦ ap second (get_cached-hit tenant process c e)
        | inl e ↦
            let c = load (process.stores process.db_path) tenant in
            let kept : Process V C = record process {
              cache = ((process.db_path, tenant), c) ∷ process.cache;
            } in
            let miss = get_cached-miss tenant process e in
            ap second miss
            ∙ get_cached-hit tenant kept c
                (ground (arith, text_eq_refl process.db_path, option_eq_iff tenant tenant))
            ∙ sym miss
      ]

module _ (host : Host) where
  open host use {sql, Payload}

  -- The engine, from what the cached read gives.
  abbrev routed :
      Option RegionConfig × Process RegionConfig (Option RegionConfig)
      → List (Text × Text)
      → Result Text × Residency
  routed (found, config) paths =
      let r' : Residency = record { config = config; region_db_paths = paths } in
      elim (Option.map (λ d. d.settings) found) [
        | none ↦ (ok config.db_path, r')
        | some label ↦ elim (lookup label paths) [
          | none ↦ (err unrouted_region, r')
          | some path ↦ (ok path, r')
        ]
      ]

  routed-state :
      (found : Option RegionConfig) (config : Process RegionConfig (Option RegionConfig))
      (paths : List (Text × Text))
      → (routed (found, config) paths).1 ≡ record { config = config; region_db_paths = paths }
  routed-state none config paths = refl
  routed-state (some d) config paths = elim (Option-cases (lookup d.settings paths)) [
    | inl n ↦ rw (n, routed) refl
    | inr (path, n) ↦ rw (n, routed) refl
  ]

  resolve_engine-again :
      (tenant : Option Text) (r : Residency)
      → resolve_engine sql tenant (resolve_engine sql tenant r).1 ≡ resolve_engine sql tenant r
  unfolding resolve_engine resolve_region get_region_config
  resolve_engine-again tenant r =
      let load = load_region_config sql in
      let (found, config) = get_cached load tenant r.config in
      ap (resolve_engine sql tenant) (routed-state found config r.region_db_paths)
      ∙ ap (λ g. routed g r.region_db_paths) (get_cached-again load tenant r.config)

  -- Where the engine of a tenant resolves to a path, the latest read of a stream for the tenant,
  -- which resolves the engine twice, is the latest read of the store at that path.
  pub routed_read_latest-eq :
      (s tenant path : Text) (files : Files) (w : World)
      → (resolve_engine sql (some tenant) w.residency).0 ≡ ok path
      → (routed_read_latest host s (some tenant) files w).0
        ≡ ok (Reads.read_latest host s (some tenant) (store_at path files w))
  unfolding routed_read_latest routed_read_as_of_version read_engine Reads.read_latest
  routed_read_latest-eq s tenant path files w e =
      let again : (resolve_engine sql (some tenant)
            (resolve_engine sql (some tenant) w.residency).1).0
          ≡ ok path =
        ap (λ x. x.0) (resolve_engine-again (some tenant) w.residency) ∙ e in
      let newest = sql.max (map (λ r. r.version) (filter_by (in_stream s) (w.stores path))) in
      elim (Option-cases newest) [
        | inl n ↦ rw (routed_read_latest, read_at, read_engine, e, Reads.read_latest, n) refl
        | inr (v, n) ↦
            rw
              (
                routed_read_latest, read_at, read_engine, e, Reads.read_latest, n,
                routed_read_as_of_version, read_engine, again,
              )
              refl
      ]
