-- ===== src/Tests/Gating.antt =====
-- Tenants, roles and isolated streams at concrete inputs.
use wisetraceloom.Prelude.{
  ◌≢◌, pair_Eq, ◌≡◌, ◌↔◌, inl, refl, none, some, [], ◌∷◌, Text, codes, text_eq, text_Eq, option_Eq,
  nat_Eq, filter_by, strip, has_char, join, lstrip, rstrip, is_space,
}
use wisetraceloom.Tests.Engine.{engine, machine}
use wisetraceloom.Results.{ok, err, access_denied}
use wisetraceloom.Config.{Row}
use wisetraceloom.Tenancy.{
  Tenancy, Membership, MembershipKey, isolated_stream_id, grant_role, tenant_wide,
  default_namespace, validate_name, grant_checks, is_role, namespace_or,
}
use wisetraceloom.Tenancy.Streams.{isolated_stream_id_inj, namespace_of}
use wisetraceloom.Tenancy.Roles.{assert_viewer_access, query_latest}
use wisetraceloom.Tenancy.Access.{IsValid, query_latest_denied}
use wisetraceloom.Tenancy.Members.{IsMember, asked_namespace, assert_viewer_access-iff-IsMember}
use wisetraceloom.Tenancy.Grants.{grant_role-assert_viewer_access}

abbrev acme : Text
acme = codes "acme"

abbrev ann : Text
ann = codes "ann"

abbrev membership : Row MembershipKey Membership
membership = record {
  id = 1;
  key = ((ann, acme), tenant_wide);
  value = record { role = codes "viewer"; updated_at = 2 };
}

abbrev tenancy : Tenancy
tenancy = record {
  tenants = record { tenant_id = acme; display_name = none; created_at = 1 } ∷ [];
  namespaces = record { tenant_id = acme; name = default_namespace; created_at = 1 } ∷ [];
  memberships = membership ∷ [];
}

tenancy-IsValid : IsValid tenancy
unfolding is_role text_eq
tenancy-IsValid = ((tt, tt), (refl, tt))

abbrev plain : Text → Text
plain t = t

isolated_stream_id_inj_example :
    (strip (codes "spans") ≡ strip (codes "spans"))
    × (strip (codes " acme") ≡ strip acme)
    × (namespace_of none ≡ namespace_of (some default_namespace))
unfolding isolated_stream_id validate_name namespace_or strip lstrip rstrip is_space has_char
    text_eq join
isolated_stream_id_inj_example =
    isolated_stream_id_inj (codes "spans") (codes " acme") (codes "spans") acme none
      (some default_namespace) (codes "spans:acme:default") refl refl

assert_viewer_access-iff-IsMember_example :
    (assert_viewer_access engine ann acme none tenancy ≡ ok tt) ↔ (
      (strip ann ≢ [])
      × (strip acme ≢ [])
      × (asked_namespace none ≢ [])
      × IsMember (strip ann) (strip acme) (asked_namespace none) tenancy.memberships)
assert_viewer_access-iff-IsMember_example =
    assert_viewer_access-iff-IsMember engine ann acme none tenancy tenancy-IsValid.1

query_latest_denied_example :
    query_latest machine
      (codes "bob")
      acme
      none
      (codes "spans")
      tenancy
      (record {
        config = record { db_path = codes "a.db"; stores = λ path. []; cache = [] };
        region_db_paths = [];
      })
      (λ path. record { commits = []; checkpoints = []; files = [] })
    ≡ err access_denied
unfolding strip lstrip rstrip is_space text_eq
query_latest_denied_example =
    query_latest_denied machine (codes "bob") acme none (codes "spans") tenancy
      (record {
        config = record { db_path = codes "a.db"; stores = λ path. []; cache = [] };
        region_db_paths = [];
      })
      (λ path. record { commits = []; checkpoints = []; files = [] }) tenancy-IsValid.1 refl

grant_role-assert_viewer_access_example :
    assert_viewer_access engine
      (codes "bob")
      acme
      (some default_namespace)
      (grant_role engine plain (codes "bob") acme (codes "admin") none 5 tenancy).1
    ≡ ok tt
unfolding grant_role grant_checks validate_name namespace_or is_role strip lstrip rstrip is_space
    has_char text_eq filter_by
grant_role-assert_viewer_access_example =
    grant_role-assert_viewer_access engine plain (codes "bob") acme (codes "admin") none
      (some default_namespace) 5 tenancy tenancy-IsValid refl (inl refl) (λ e. cc e)

abbrev own : MembershipKey
own = ((strip ann, strip acme), tenant_wide)

abbrev stored : MembershipKey
stored = ((ann, acme), tenant_wide)
