-- ===== src/Tests/Routing.antt =====
-- The reads of a tenant with a region, and an untagged append under a global region.
use wisetraceloom.Prelude.{
  ◌≡◌, ◌≢◌, refl, Option, none, some, [], ◌∷◌, Text, codes, text_eq, text_Eq, option_Eq, nat_Eq,
  filter_by,
}
use wisetraceloom.Results.{ok}
use wisetraceloom.Masking.{returned}
use wisetraceloom.Residency.{
  Residency, resolve_engine, resolve_region, get_region_config, load_region_config, lookup,
}
use wisetraceloom.Config.{find, resolve}
use wisetraceloom.Config.Cache.{cached, get_cached}
use wisetraceloom.Storage.Commit.{World, append_commit}
use wisetraceloom.Storage.Reads
use wisetraceloom.Storage.Routed.{routed_read_latest, store_at}
use wisetraceloom.Storage.Routed.Tagged.{routed_read_latest-eq}
use wisetraceloom.Storage.Routed.Untagged.{routed_read_latest-append_commit}
use wisetraceloom.Tests.Engine.{machine, engine}
use wisetraceloom.Tests.Storing.{stream, event, alone}
use wisetraceloom.Tests.Configuring.{world}

-- Everyone's region, or acme's, is the one whose file is eu.db.
abbrev region_for : Option Text → Residency
region_for tenant = record {
  config = record {
    db_path = codes "a.db";
    stores = λ path.
        record { id = 1; key = tenant; value = record { settings = codes "eu"; updated_at = 3 } }
        ∷ [];
    cache = [];
  };
  region_db_paths = (codes "eu", codes "eu.db") ∷ [];
}

abbrev routed_world : Option Text → World
routed_world tenant = record world { residency = region_for tenant }

acme_routed :
    (resolve_engine engine (some (codes "acme")) (region_for (some (codes "acme")))).0
    ≡ ok (codes "eu.db")
unfolding resolve_engine resolve_region get_region_config get_cached cached load_region_config
    resolve find filter_by lookup text_eq
acme_routed = refl

all_routed : (resolve_engine engine none (region_for none)).0 ≡ ok (codes "eu.db")
unfolding resolve_engine resolve_region get_region_config get_cached cached load_region_config
    resolve find filter_by lookup text_eq
all_routed = refl

routed_read_latest-eq_example :
    (routed_read_latest machine stream
      (some (codes "acme"))
      []
      (routed_world (some (codes "acme")))).0
    ≡ ok (
        Reads.read_latest machine stream
          (some (codes "acme"))
          (store_at (codes "eu.db") [] (routed_world (some (codes "acme")))))
routed_read_latest-eq_example =
    routed_read_latest-eq machine stream (codes "acme") (codes "eu.db") []
      (routed_world (some (codes "acme"))) acme_routed

default_elsewhere : codes "a.db" ≢ codes "eu.db"
default_elsewhere e = cc

routed_read_latest-append_commit_example :
    (routed_read_latest machine stream none []
      (append_commit machine
        (λ p. returned p)
        stream
        event
        (codes "lost")
        none
        none
        (alone 5 ∷ [])
        (routed_world none)).1).0
    ≡ (routed_read_latest machine stream none [] (routed_world none)).0
routed_read_latest-append_commit_example =
    routed_read_latest-append_commit machine (λ p. returned p) stream event (codes "lost")
      (codes "lost") (alone 5 ∷ []) (routed_world none) (codes "eu.db") stream [] all_routed
      default_elsewhere refl
