-- ===== src/Tests/Configuring.antt =====
-- The configuration tables, the regions, and the appends and reads that depend on them.
use wisetraceloom.Prelude.{
  ◌≡◌, ◌≢◌, refl, ◌==◌, if◌then◌else◌, Option, none, some, List, [], ◌∷◌, map, Text, codes, text_eq,
  text_Eq, option_Eq, nat_Eq,
}
use wisetraceloom.Results.{Result, ok, err, unrouted_region}
use wisetraceloom.Tests.Engine.{engine, machine}
use wisetraceloom.Tests.Storing.{stream, event, race, first_table, empty-IsChained, race-Rely}
use wisetraceloom.Config.{Row, Rows, resolve}
use wisetraceloom.Config.Rows.{value_at, IsUnique}
use wisetraceloom.Config.Layers.{layered}
use wisetraceloom.Config.Cache.{Process, get_cached}
use wisetraceloom.Config.Coherence.{
  read, write, move, Request, serve_all, get_cached-eq-load, IsCoherent-empty,
}
use wisetraceloom.Residency.{
  Residency, RegionConfig, resolve_engine, set_region_config, load_region_config, lookup,
}
use wisetraceloom.Residency.Routing.{
  route, resolve_engine-eq-route, resolve_engine-set_region_config,
}
use wisetraceloom.Storage.Commit.Written.{Ends, append_commit-Ends}
use wisetraceloom.Masking.{returned, raised}
use wisetraceloom.Storage.{StorageCommit}
use wisetraceloom.Storage.Checkpoint.{StorageCheckpoint, Store, as_row}
use wisetraceloom.Storage.Reads.Reconcile.{snapshot}
use wisetraceloom.Storage.Commit.{World, append_commit, engine_for}
use wisetraceloom.Storage.Commit.Isolation.{append_commit_fail_closed}

-- A row for one tenant and one for none.
abbrev settings : Rows (Option Text) Text
settings =
    record { id = 1; key = some (codes "acme"); value = codes "eu" }
    ∷ record { id = 2; key = none; value = codes "us" }
    ∷ []

settings-IsUnique : IsUnique settings
settings-IsUnique = (((λ e. cc e, λ e. cc e), tt), (tt, tt))

row-set : IsSet (Row (Option Text) Text)
row-set = hlevel

abbrev region_of : Rows (Option Text) Text → Option Text → Option Text
region_of table tenant = resolve engine tenant table

abbrev process : Process Text (Option Text)
process = record { db_path = codes "a.db"; stores = λ path. settings; cache = [] }

abbrev requests : List (Request engine region_of)
requests =
    read (some (codes "acme"))
    ∷ write (some (codes "acme")) (codes "us")
    ∷ move (codes "b.db")
    ∷ read (some (codes "acme"))
    ∷ []

get_cached-eq-load_example :
    (get_cached region_of (some (codes "acme")) (serve_all engine region_of requests process)).0
    ≡ region_of
        ((serve_all engine region_of requests process).stores
          (serve_all engine region_of requests process).db_path)
        (some (codes "acme"))
get_cached-eq-load_example =
    get_cached-eq-load engine region_of requests process (some (codes "acme")) refl

abbrev regions : Rows (Option Text) RegionConfig
regions =
    record {
      id = 1;
      key = some (codes "acme");
      value = record { settings = codes "eu"; updated_at = 3 };
    }
    ∷ []

abbrev residency : Residency
residency = record {
  config = record { db_path = codes "a.db"; stores = λ path. regions; cache = [] };
  region_db_paths = (codes "eu", codes "eu.db") ∷ [];
}

resolve_engine-eq-route_example :
    (resolve_engine engine (some (codes "acme")) residency).0
    ≡ route
        (layered (some (codes "acme")) (λ k. value_at k regions))
        ((codes "eu", codes "eu.db") ∷ [])
        (codes "a.db")
resolve_engine-eq-route_example =
    resolve_engine-eq-route engine (some (codes "acme")) residency
      (IsCoherent-empty engine (load_region_config engine) residency.config refl) (tt, tt)

resolve_engine-set_region_config_example :
    (resolve_engine engine
      (some (codes "acme"))
      (set_region_config engine (some (codes "acme")) (codes "ap") 9 residency)).0
    ≡ err unrouted_region
unfolding lookup text_eq
resolve_engine-set_region_config_example =
    resolve_engine-set_region_config engine (codes "acme") (codes "ap") 9 residency (tt, tt)

abbrev checkpoint : StorageCheckpoint
checkpoint = record { stream_id = stream; version = 1; file_path = codes "one"; row_count = 1 }

abbrev store : Store
store = record {
  commits = first_table;
  checkpoints = checkpoint ∷ [];
  files = (codes "one", map (as_row machine) (snapshot machine stream 1 first_table)) ∷ [];
}

abbrev pub world : World
world = record {
  residency = residency;
  config = record { db_path = codes "a.db"; stores = λ path. []; cache = [] };
  stores = λ path. first_table;
  checkpoints = λ path. [];
  last_checkpoints = [];
  jobs = [];
}

-- Databases with no rows.
abbrev empty_world : World
empty_world = record world { stores = λ path. [] }

abbrev written : Result StorageCommit × World
written =
    append_commit machine (λ p. returned (codes "masked")) stream event (codes "secret") none
      (some (codes "c.db")) race empty_world

append_commit-Ends_example :
    Ends machine stream event none
      (codes "masked")
      race
      []
      written.0
      (written.1.stores (codes "c.db"))
    × ((other : Text)
        → written.1.stores other
          ≡ (if other == codes "c.db" then written.1.stores (codes "c.db") else []))
unfolding engine_for
append_commit-Ends_example =
    append_commit-Ends machine (λ p. returned (codes "masked")) stream event (codes "secret") none
      (some (codes "c.db")) race empty_world (codes "c.db") (codes "masked") refl refl
      empty-IsChained race-Rely

append_commit_fail_closed_example :
    ((append_commit machine
        (λ p. raised)
        stream
        event
        (codes "secret")
        none
        none
        race
        world).1.stores
      ≡ world.stores)
    × ((commit : StorageCommit)
        → (append_commit machine (λ p. raised) stream event (codes "secret") none none race world).0
          ≢ ok commit)
append_commit_fail_closed_example =
    append_commit_fail_closed machine (λ p. raised) stream event (codes "secret") none none race
      world (λ masked e. cc e)
