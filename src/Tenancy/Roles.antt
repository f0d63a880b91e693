-- ===== src/Tenancy/Roles.antt =====
-- wisetraceloom/tenancy.py: revoking and resolving roles, and the read that they gate.
use wisetraceloom.Prelude.{
  pair_Eq, ℕ, Bool, false, not, ◌&&◌, ◌||◌, ◌==◌, if◌then◌else◌, Option, none, some, List, [], map,
  Text, text_Eq, option_Eq, nat_Eq, filter_by, strip,
}
use mathlib.Core.Option
use mathlib.Core.List.{List}
use wisetraceloom.Results.{Result, ok, guard, access_denied, ◌>>=◌, ◌>>◌}
use wisetraceloom.Sql.{Sql, select}
use wisetraceloom.Config.{Row, Rows, find}
use wisetraceloom.Residency.{Residency, resolve_engine}
use wisetraceloom.Storage.{Host}
use wisetraceloom.Storage.Checkpoint.{Store}
use wisetraceloom.Storage.Reads.{read_latest}
use wisetraceloom.Tenancy.{
  Tenancy, Membership, MembershipKey, default_namespace, tenant_wide, top_role, is_role,
  isolated_stream_id,
}

-- `namespace.strip()`, or the default for None.
abbrev pub stripped_or : Text → Option Text → Text
stripped_or default none = default
stripped_or default (some namespace) = strip namespace

-- `not principal_id or not tenant_id or not ns`
abbrev pub some_empty : Text → Text → Text → Bool
some_empty principal tenant ns = principal == [] || (tenant == [] || ns == [])

-- `session.delete(row)`
unfoldable pub delete_row : {K V : Type 0} → ℕ → Rows K V → Rows K V
delete_row i table = filter_by (λ r. not (r.id == i)) table

module _ (sql : Sql) where
  unfoldable pub revoke_role : Text → Text → Option Text → Tenancy → Tenancy
  unfolding delete_row
  revoke_role principal_id tenant_id namespace t =
      let principal = strip principal_id in
      let tenant = strip tenant_id in
      let ns = stripped_or tenant_wide namespace in
      if some_empty principal tenant ns
      then t
      else elim (find sql ((principal, tenant), ns) t.memberships) [
        | none ↦ t
        | some row ↦ record t { memberships = delete_row row.id t.memberships }
      ]

  -- WHERE principal_id = … AND tenant_id = … AND namespace IN (ns, '*')
  abbrev pub covers : Text → Text → Text → Row MembershipKey Membership → Bool
  covers principal tenant ns r =
      r.key.0.0 == principal && (r.key.0.1 == tenant && (r.key.1 == ns || r.key.1 == tenant_wide))

  unfoldable pub resolve_role : Text → Text → Option Text → Tenancy → Option Text
  resolve_role principal_id tenant_id namespace t =
      let principal = strip principal_id in
      let tenant = strip tenant_id in
      let ns = stripped_or default_namespace namespace in
      if some_empty principal tenant ns
      then none
      else top_role (
          map (λ r. r.value.role)
            (select sql (Row MembershipKey Membership) (covers principal tenant ns) t.memberships))

  -- `role not in VIEW_ROLES`
  abbrev pub may_view : Option Text → Bool
  may_view none = false
  may_view (some role) = is_role role

  unfoldable pub assert_viewer_access : Text → Text → Option Text → Tenancy → Result (Unit {0})
  unfolding resolve_role
  assert_viewer_access principal_id tenant_id namespace t =
      guard (may_view (resolve_role principal_id tenant_id namespace t)) access_denied

module _ (host : Host) where
  open host use {sql, Payload}

  -- The latest rows of the store that `resolve_engine` names for the tenant. The stream is a
  -- stripped tenant's, the tenant that rows are filtered by is the argument as it came.
  unfoldable pub query_latest :
      Text
      → Text
      → Option Text
      → Text
      → Tenancy
      → Residency
      → (Text → Store)
      → Result (Option (List Payload))
  query_latest principal_id tenant_id namespace stream_base t residency store_of = do
    let ns = Option.get_or namespace default_namespace
    assert_viewer_access sql principal_id tenant_id (some ns) t
    stream ← isolated_stream_id stream_base tenant_id (some ns)
    path ← (resolve_engine sql (some tenant_id) residency).0
    ok (read_latest host stream (some tenant_id) (store_of path))
