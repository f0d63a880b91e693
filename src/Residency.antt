-- ===== src/Residency.antt =====
-- wisetraceloom/residency.py: which database file a tenant's stream data is written to.
pub mod Routing
use wisetraceloom.Prelude.{
  ℕ, zero, suc, ◌+◌, ◌-◌, ◌≤◌, ◌<◌, ◌≡◌, ◌≢◌, ◌↔◌, ◌⊎◌, inl, inr, refl, sym, ap, ◌∙◌, Bool, true,
  false, not, ◌&&◌, ◌||◌, ◌==◌, Eq, if◌then◌else◌, Option, none, some, List, [], ◌∷◌, ◌++◌, map,
  Text, codes, text_eq, text_eq_iff, text_eq_refl, text_Eq, option_Eq, nat_Eq, option_eq_iff,
  filter_by, All, length, arith, ltb, leb, nat_eq, nat_eq_iff, Bool-cases, Option-cases, strip,
  has_char, decimal, join, last?,
}
use mathlib.Core.Option.{Option, none, some}
use mathlib.Core.Option
use wisetraceloom.Results.{Result, ok, err, unrouted_region}
use wisetraceloom.Sql.{Sql}
use wisetraceloom.Config.{Rows, resolve}
use wisetraceloom.Config.Cache.{Process, get_cached, set_cached}
use wisetraceloom.Config.Tables.{Dated, ConfigTable}

-- A dictionary with text keys, as an association list.
module _ {V : Type 0} where
  -- `d.get(k)`
  unfoldable pub lookup : Text → List (Text × V) → Option V
  lookup k [] = none
  lookup k ((j, v) ∷ d) = if j == k then some v else lookup k d

  -- `d[k] = v`
  unfoldable pub assign : Text → V → List (Text × V) → List (Text × V)
  assign k v [] = (k, v) ∷ []
  assign k v ((j, w) ∷ d) = if j == k then (j, v) ∷ d else (j, w) ∷ assign k v d

  pub lookup-assign :
      (k j : Text) (v : V) (d : List (Text × V))
      → lookup j (assign k v d) ≡ (if k == j then some v else lookup j d)
  unfolding lookup assign
  lookup-assign k j v [] = refl
  lookup-assign k j v ((i, w) ∷ d) =
      ground (arith, text_eq_iff k j, text_eq_iff i k, text_eq_iff i j, lookup-assign k j v d)

-- The region column of RegionConfig with `updated_at`.
abbrev pub RegionConfig : Type 0
RegionConfig = Dated Text

-- The module's state: the RegionConfig table with its cache, and the registered database paths.
pub record Residency : Type 0 where
  pub config : Process RegionConfig (Option RegionConfig)
  pub region_db_paths : List (Text × Text)

module _ (sql : Sql) where
  unfoldable pub load_region_config : ConfigTable Text → Option Text → Option RegionConfig
  load_region_config table tenant = resolve sql tenant table

  unfoldable pub get_region_config : Option Text → Residency → Option RegionConfig × Residency
  get_region_config tenant r =
      let (found, config) = get_cached load_region_config tenant r.config in
      (found, record r { config = config })

  unfoldable pub set_region_config : Option Text → Text → ℕ → Residency → Residency
  set_region_config tenant region now r = record r {
    config = set_cached sql tenant (record { settings = region; updated_at = now }) r.config;
  }

  unfoldable pub resolve_region : Option Text → Residency → Option Text × Residency
  unfolding get_region_config
  resolve_region tenant r =
      let (found, r') = get_region_config tenant r in (Option.map (λ d. d.settings) found, r')

  -- An engine is named by the path of its database file.
  unfoldable pub resolve_engine : Option Text → Residency → Result Text × Residency
  unfolding resolve_region
  resolve_engine tenant r =
      let (region, r') = resolve_region tenant r in
      elim region [
        | none ↦ (ok r'.config.db_path, r')
        | some label ↦ elim (lookup label r'.region_db_paths) [
          | none ↦ (err unrouted_region, r')
          | some db_path ↦ (ok db_path, r')
        ]
      ]

unfoldable pub register_region : Text → Text → Residency → Residency
register_region region db_path r = record r {
  region_db_paths = assign region db_path r.region_db_paths;
}
