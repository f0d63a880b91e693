-- ===== src/Config/Cache.antt =====
-- The in-process caches of storage.py, residency.py and otel_export.py: a configuration value is
-- kept under the database path and the tenant, and every write clears the whole cache.
use wisetraceloom.Prelude.{
  ◌&&◌, ◌==◌, Option, none, some, List, [], ◌∷◌, Text, text_Eq, option_Eq, if◌then◌else◌,
}
use wisetraceloom.Sql.{Sql}
use wisetraceloom.Config.{Rows, upsert}

-- What a process keeps for one configuration domain: the database path in force, the table in each
-- database file, and the cache.
pub record Process (V C : Type 0) : Type 0 where
  pub db_path : Text
  pub stores : Text → Rows (Option Text) V
  pub cache : List ((Text × Option Text) × C)

module _ {C : Type 0} where
  -- `cache.get(key)`
  unfoldable pub cached : Text → Option Text → List ((Text × Option Text) × C) → Option C
  cached path tenant [] = none
  cached path tenant (((p, t), c) ∷ cache) =
      if p == path && t == tenant then some c else cached path tenant cache

module _ {V C : Type 0} where
  -- `set_db_path`, with the default path put in for None.
  unfoldable pub set_db_path : Text → Process V C → Process V C
  set_db_path path process = record process { db_path = path }

  -- A cached read: the kept value, or what `load` gives, which is then kept.
  unfoldable pub get_cached :
      (Rows (Option Text) V → Option Text → C) → Option Text → Process V C → C × Process V C
  get_cached load tenant process = elim (cached process.db_path tenant process.cache) [
    | some c ↦ (c, process)
    | none ↦
        let c = load (process.stores process.db_path) tenant in
        (c, record process { cache = ((process.db_path, tenant), c) ∷ process.cache })
  ]

  -- A write: the row in the current database, and an empty cache.
  unfoldable pub set_cached : Sql → Option Text → V → Process V C → Process V C
  set_cached sql tenant v process = record process {
    stores = λ path.
        if path == process.db_path
        then upsert sql tenant v (process.stores path)
        else process.stores path;
    cache = [];
  }
