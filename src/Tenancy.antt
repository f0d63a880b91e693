-- ===== src/Tenancy.antt =====
-- wisetraceloom/tenancy.py: tenants, their namespaces and streams, and the roles that gate a read.
pub mod Streams
pub mod Roles
pub mod Access
pub mod Members
pub mod Grants
pub mod Revocations
use wisetraceloom.Prelude.{
  pair_Eq, ℕ, zero, suc, ◌+◌, ◌-◌, ◌≤◌, ◌<◌, ◌≡◌, ◌≢◌, ◌↔◌, ◌⊎◌, inl, inr, refl, sym, ap, ◌∙◌, Bool,
  true, false, not, ◌&&◌, ◌||◌, ◌==◌, Eq, if◌then◌else◌, Option, none, some, List, [], ◌∷◌, ◌++◌,
  map, Text, codes, text_eq, text_eq_iff, text_eq_refl, text_Eq, option_Eq, nat_Eq, option_eq_iff,
  filter_by, All, length, arith, ltb, leb, nat_eq, nat_eq_iff, Bool-cases, Option-cases, strip,
  has_char, decimal, join, last?,
}
use mathlib.Core.List.{head?, List}
use wisetraceloom.Results.{
  Result, ok, err, guard, Error, tenancy_error, access_denied, value_error, ◌>>=◌, ◌>>◌,
}
use wisetraceloom.Sql.{Sql, select, select_first}
use wisetraceloom.Config.{Row, Rows, upsert}
use wisetraceloom.Residency.{Residency, resolve_engine}
use wisetraceloom.Storage.{Host}
use wisetraceloom.Storage.Checkpoint.{Store}
use wisetraceloom.Storage.Reads.{read_latest}

pub record Tenant : Type 0 where
  pub tenant_id : Text
  pub display_name : Option Text
  pub created_at : ℕ

pub record Namespace : Type 0 where
  pub tenant_id : Text
  pub name : Text
  pub created_at : ℕ

-- The columns of a membership beside principal, tenant and namespace, which are its key.
pub record Membership : Type 0 where
  pub role : Text
  pub updated_at : ℕ

abbrev pub MembershipKey : Type 0
MembershipKey = (Text × Text) × Text

pub record Tenancy : Type 0 where
  pub tenants : List Tenant
  pub namespaces : List Namespace
  pub memberships : Rows MembershipKey Membership

abbrev pub default_namespace : Text
default_namespace = codes "default"

abbrev pub tenant_wide : Text
tenant_wide = codes "*"

-- `_validate_name`
unfoldable pub validate_name : Text → Result Text
validate_name value =
    let name = strip value in
    if name == []
    then err tenancy_error
    else if has_char b':' name || name == tenant_wide
    then err tenancy_error
    else ok name

-- `default if namespace is None else _validate_name(namespace)`
unfoldable pub namespace_or : Text → Option Text → Result Text
unfolding validate_name
namespace_or default none = ok default
namespace_or default (some namespace) = validate_name namespace

unfoldable pub isolated_stream_id : Text → Text → Option Text → Result Text
unfolding namespace_or
isolated_stream_id base tenant_id namespace = do
  tenant ← validate_name tenant_id
  ns ← namespace_or default_namespace namespace
  guard (not (strip base == [])) tenancy_error
  ok (join b':' (strip base ∷ tenant ∷ ns ∷ []))

-- `ROLES`, each with its rank from `_ROLE_RANK`, and 0 for any other text.
unfoldable pub role_rank : Text → ℕ
role_rank role =
    if role == codes "viewer"
    then 1
    else if role == codes "admin"
    then 2
    else if role == codes "owner"
    then 3
    else 0

unfoldable pub is_role : Text → Bool
is_role role = role == codes "owner" || (role == codes "admin" || role == codes "viewer")

-- `max(roles, key=rank)`: the first of the roles with the highest rank.
unfoldable pub top_role : List Text → Option Text
unfolding role_rank
top_role [] = none
top_role (role ∷ roles) = elim (top_role roles) [
  | none ↦ some role
  | some best ↦ if ltb (role_rank role) (role_rank best) then some best else some role
]

module _ (sql : Sql) where
  abbrev pub find_tenant : Text → Tenancy → Option Tenant
  find_tenant tenant t = select_first sql Tenant (λ r. r.tenant_id == tenant) t.tenants

  abbrev pub find_namespace : Text → Text → Tenancy → Option Namespace
  find_namespace tenant name t =
      select_first sql Namespace (λ r. r.tenant_id == tenant && r.name == name) t.namespaces

  -- A row that has to be there, and one that must not.
  abbrev pub known : {A : Type 0} → Option A → Result (Unit {0})
  known none = err tenancy_error
  known (some a) = ok tt

  abbrev pub fresh : {A : Type 0} → Option A → Result (Unit {0})
  fresh none = ok tt
  fresh (some a) = err tenancy_error

  -- The namespace of a grant: a named one must be there.
  abbrev pub known_namespace : Text → Text → Tenancy → Result (Unit {0})
  known_namespace tenant ns t =
      if ns == tenant_wide then ok tt else known (find_namespace tenant ns t)

  -- What `grant_role` checks, and the key and role that it then writes. `lower` is `str.lower`.
  unfoldable pub grant_checks :
      (Text → Text) → Text → Text → Text → Option Text → Tenancy → Result (MembershipKey × Text)
  unfolding namespace_or
  grant_checks lower principal_id tenant_id role namespace t = do
    principal ← validate_name principal_id
    tenant ← validate_name tenant_id
    guard (is_role (lower (strip role))) tenancy_error
    ns ← namespace_or tenant_wide namespace
    known (find_tenant tenant t)
    known_namespace tenant ns t
    ok (((principal, tenant), ns), lower (strip role))

  unfoldable pub grant_role :
      (Text → Text) → Text → Text → Text → Option Text → ℕ → Tenancy → Result (Unit {0}) × Tenancy
  unfolding grant_checks
  grant_role lower principal_id tenant_id role namespace now t =
      elim (grant_checks lower principal_id tenant_id role namespace t) [
        | err e ↦ (err e, t)
        | ok (key, role) ↦ (
          ok tt,
          record t {
            memberships = upsert sql key (record { role = role; updated_at = now }) t.memberships;
          },
        )
      ]

  -- The tenant with its default namespace, and the owner's membership if an owner is given: a
  -- refused grant raises after the tenant was committed.
  unfoldable pub create_tenant :
      (Text → Text) → Text → Option Text → Option Text → ℕ → Tenancy → Result Tenant × Tenancy
  unfolding grant_role validate_name
  create_tenant lower tenant_id display_name owner now t =
      let checked : Result Text = do
        tenant ← validate_name tenant_id
        fresh (find_tenant tenant t)
        ok tenant
      in elim checked [
        | err e ↦ (err e, t)
        | ok tenant ↦
            let row : Tenant = record {
              tenant_id = tenant;
              display_name = display_name;
              created_at = now;
            } in
            let t' = record t {
              tenants = t.tenants ++ row ∷ [];
              namespaces =
                  t.namespaces
                  ++ record { tenant_id = tenant; name = default_namespace; created_at = now } ∷ [];
            } in
            elim owner [
              | none ↦ (ok row, t')
              | some principal ↦
                  let (granted, t'') =
                    grant_role lower principal tenant (codes "owner") none now t' in
                  (granted >> ok row, t'')
            ]
      ]

  unfoldable pub create_namespace : Text → Text → ℕ → Tenancy → Result Namespace × Tenancy
  unfolding validate_name
  create_namespace tenant_id name now t =
      let checked : Result (Text × Text) = do
        tenant ← validate_name tenant_id
        ns ← validate_name name
        known (find_tenant tenant t)
        fresh (find_namespace tenant ns t)
        ok (tenant, ns)
      in elim checked [
        | err e ↦ (err e, t)
        | ok (tenant, ns) ↦
            let row : Namespace = record { tenant_id = tenant; name = ns; created_at = now } in
            (ok row, record t { namespaces = t.namespaces ++ row ∷ [] })
      ]

  unfoldable pub list_namespaces : Text → Tenancy → Result (List Namespace)
  unfolding validate_name
  list_namespaces tenant_id t = do
    tenant ← validate_name tenant_id
    ok (select sql Namespace (λ r. r.tenant_id == tenant) t.namespaces)
