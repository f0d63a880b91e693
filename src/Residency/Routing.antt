-- ===== src/Residency/Routing.antt =====
-- Where a tenant's data goes, from the configured regions and the registered paths alone.
use mathlib.Core.Path.{subst}
use wisetraceloom.Prelude.{
  ℕ, ◌≡◌, refl, sym, ap, ◌∙◌, Option, none, some, List, Text, text_eq_refl, text_Eq, option_Eq,
  nat_Eq, arith,
}
use wisetraceloom.Results.{Result, ok, err, unrouted_region}
use wisetraceloom.Sql.{Sql}
use wisetraceloom.Config.{Row, upsert}
use wisetraceloom.Config.Rows.{value_at, IsUnique}
use wisetraceloom.Config.Layers.{layered, resolve-layered}
use wisetraceloom.Config.Upserts.{value_at-upsert, upsert-IsUnique}
use wisetraceloom.Config.Cache.{get_cached, set_cached}
use wisetraceloom.Config.Coherence.{IsCoherent, read_coherent, IsCoherent-empty, db_path-get_cached}
use wisetraceloom.Residency.{
  Residency, RegionConfig, lookup, load_region_config, resolve_engine, set_region_config, Text,
  Option,
}

pub RegionRow-set : IsSet (Row (Option Text) RegionConfig)
RegionRow-set = hlevel

-- The rule: no region, the default file; a region, its registered file or a refusal.
abbrev pub route : Option RegionConfig → List (Text × Text) → Text → Result Text
route none paths default = ok default
route (some d) paths default = elim (lookup d.settings paths) [
  | none ↦ err unrouted_region
  | some path ↦ ok path
]

module _ (sql : Sql) where
  resolve_engine-eq :
      (tenant : Option Text) (r : Residency) (found : Option RegionConfig)
      → (get_cached (load_region_config sql) tenant r.config).0 ≡ found
      → (resolve_engine sql tenant r).0 ≡ route found r.region_db_paths r.config.db_path
  unfolding resolve_engine
  resolve_engine-eq tenant r none e =
      ground (arith, e, db_path-get_cached (load_region_config sql) tenant r.config)
  resolve_engine-eq tenant r (some d) e = ground (arith, e)

  -- With a coherent cache and unique rows, resolve_engine follows the routing rule over the table:
  -- no region gives the default file, a region its registered file or the unrouted-region error.
  pub resolve_engine-eq-route :
      (tenant : Option Text) (r : Residency)
      → IsCoherent sql (load_region_config sql) r.config
      → IsUnique (r.config.stores r.config.db_path)
      → (resolve_engine sql tenant r).0
        ≡ route
            (layered tenant (λ k. value_at k (r.config.stores r.config.db_path)))
            r.region_db_paths
            r.config.db_path
  unfolding load_region_config
  resolve_engine-eq-route tenant r h u = resolve_engine-eq tenant r _ (
      read_coherent sql (load_region_config sql) r.config tenant h
      ∙ resolve-layered sql RegionRow-set tenant (r.config.stores r.config.db_path) u)

  -- On a table with unique rows, after a region was set for a tenant the tenant's engine is the
  -- file registered for that region, or the unrouted-region error where none is registered,
  -- whatever the cache held.
  pub resolve_engine-set_region_config :
      (tenant region : Text) (now : ℕ) (r : Residency)
      → IsUnique (r.config.stores r.config.db_path)
      → (resolve_engine sql (some tenant) (set_region_config sql (some tenant) region now r)).0
        ≡ elim (lookup region r.region_db_paths) [
          | none ↦ err unrouted_region
          | some path ↦ ok path
        ]
  unfolding set_region_config set_cached
  resolve_engine-set_region_config tenant region now r u =
      let dated : RegionConfig = record { settings = region; updated_at = now } in
      let r' = set_region_config sql (some tenant) region now r in
      let table = r.config.stores r.config.db_path in
      let stored : r'.config.stores r'.config.db_path ≡ upsert sql (some tenant) dated table =
        ground (arith, text_eq_refl r.config.db_path) in
      let u' : IsUnique (r'.config.stores r'.config.db_path) =
        subst IsUnique (sym stored)
          (upsert-IsUnique sql RegionRow-set (some tenant) dated table u) in
      let own : value_at (some tenant) (r'.config.stores r'.config.db_path) ≡ some dated =
        ap (value_at (some tenant)) stored
        ∙ value_at-upsert sql RegionRow-set (some tenant) (some tenant) dated table u
        ∙ ground (arith, text_eq_refl tenant) in
      resolve_engine-eq-route (some tenant) r'
        (IsCoherent-empty sql (load_region_config sql) r'.config refl) u'
      ∙ ground (arith, own)
