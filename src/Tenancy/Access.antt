-- ===== src/Tenancy/Access.antt =====
-- The gate: who may view is who has a membership that covers the namespace.
use mathlib.Core.Path.{subst}
use wisetraceloom.Prelude.{
  pair_Eq, ◌≡◌, ◌≢◌, ◌↔◌, inl, inr, refl, sym, ap, ◌∙◌, Bool, true, false, ◌||◌, Eq, Option, none,
  some, List, [], ◌∷◌, map, Text, text_Eq, option_Eq, nat_Eq, filter_by, All, arith, ltb,
  Bool-cases, Option-cases, strip, ◌⊎◌,
}
use mathlib.Core.List.{Perm}
use mathlib.Core.List.Perm
use wisetraceloom.Results.{err, access_denied, ok}
use wisetraceloom.Sql.{Sql}
use wisetraceloom.Sql.Order.{All-perm}
use wisetraceloom.Config.{Row, Rows}
use wisetraceloom.Config.Rows.{IsUnique, value_at}
use wisetraceloom.Tenancy.{
  Tenancy, Membership, MembershipKey, top_role, is_role, default_namespace, role_rank,
}
use mathlib.Core.Option
use wisetraceloom.Storage.{Host}
use wisetraceloom.Storage.Checkpoint.{Store}
use wisetraceloom.Residency.{Residency}
use wisetraceloom.Tenancy.Roles.{
  query_latest, may_view, assert_viewer_access, resolve_role, covers, some_empty, stripped_or,
}

Bool-set : IsSet Bool
Bool-set = hlevel

pub MembershipRow-set : IsSet (Row MembershipKey Membership)
MembershipRow-set = hlevel

-- Whether some row passes a test.
abbrev pub any_row {ℓ} : {R : Type ℓ} → (R → Bool) → List R → Bool
any_row p [] = false
any_row p (r ∷ rows) = p r || any_row p rows

any_row-filter_by :
    {R : Type 0} (p : R → Bool) (rows : List R) → (any_row p rows ≡ true) ↔ (filter_by p rows ≢ [])
unfolding filter_by
any_row-filter_by p [] = (λ h. cc h, λ n. absurd (n refl))
any_row-filter_by p (r ∷ rows) = elim (Bool-cases (p r)) [
  | inl t ↦ rw t ((λ h e. cc e), λ n. refl)
  | inr f ↦ rw f (any_row-filter_by p rows)
]

-- The row under a key passes every test that the key decides.
pub any_row-value_at :
    {K V : Type 0} ⦃e : Eq K⦄ (k : K) (p : Row K V → Bool) (table : Rows K V) (v : V)
    → ((r : Row K V) → r.key ≡ k → p r ≡ true)
    → value_at k table ≡ some v
    → any_row p table ≡ true
any_row-value_at k p [] v h q = cc q
any_row-value_at ⦃e⦄ k p (r ∷ table) v h q = elim (Bool-cases (e.beq r.key k)) [
  | inl t ↦ ground (arith, h r ((e.beq_iff r.key k).0 t))
  | inr f ↦ ground (arith, any_row-value_at k p table v h (ground (arith, f, q)))
]

top_role-none : (roles : List Text) → top_role roles ≡ none → roles ≡ []
unfolding top_role
top_role-none [] e = refl
top_role-none (role ∷ roles) e = elim (Option-cases (top_role roles)) [
  | inl n ↦ absurd (ground (arith, n, e))
  | inr (best, b) ↦ absurd (ground (arith, b, e))
]

top_role-is_role :
    (roles : List Text) (role : Text)
    → All (λ r. is_role r ≡ true) roles
    → top_role roles ≡ some role
    → is_role role ≡ true
unfolding top_role
top_role-is_role [] role h e = cc e
top_role-is_role (r ∷ roles) role h e = elim (Option-cases (top_role roles)) [
  | inl n ↦ let same : r ≡ role = ground (arith, n, e) in ap is_role (sym same) ∙ h.0
  | inr (best, b) ↦ elim (Bool-cases (ltb (role_rank r) (role_rank best))) [
    | inl t ↦
        let same : best ≡ role = ground (arith, b, e, t) in
        ap is_role (sym same) ∙ top_role-is_role roles best h.1 b
    | inr f ↦ let same : r ≡ role = ground (arith, b, e, f) in ap is_role (sym same) ∙ h.0
  ]
]

-- Every stored role is one of the three.
abbrev pub HasRoles : Rows MembershipKey Membership → Type 0
HasRoles table = All (λ r. is_role r.value.role ≡ true) table

-- One row for a principal, tenant and namespace, and no unknown role.
abbrev pub IsValid : Tenancy → Type 0
IsValid t = IsUnique t.memberships × HasRoles t.memberships

roles-All :
    (rows : List (Row MembershipKey Membership))
    → HasRoles rows
    → All (λ r. is_role r ≡ true) (map (λ r. r.value.role) rows)
roles-All [] h = tt
roles-All (r ∷ rows) h = (h.0, roles-All rows h.1)

filter-HasRoles :
    (p : Row MembershipKey Membership → Bool) (rows : Rows MembershipKey Membership)
    → HasRoles rows
    → HasRoles (filter_by p rows)
unfolding filter_by
filter-HasRoles p [] h = tt
filter-HasRoles p (r ∷ rows) h = elim (Bool-cases (p r)) [
  | inl t ↦ rw t (h.0, filter-HasRoles p rows h.1)
  | inr f ↦ rw f (filter-HasRoles p rows h.1)
]

map-nil :
    (rows : List (Row MembershipKey Membership)) → map (λ r. r.value.role) rows ≡ [] → rows ≡ []
map-nil [] e = refl
map-nil (r ∷ rows) e = cc e

module _ (sql : Sql) where
  gate :
      (rows : Rows MembershipKey Membership)
      → HasRoles rows
      → (may_view sql
            (top_role (map (λ r. r.value.role) (sql.arrange (Row MembershipKey Membership) rows)))
          ≡ true)
        ↔ (rows ≢ [])
  unfolding top_role
  gate rows h =
      let R = Row MembershipKey Membership in
      let l = sql.arrange R rows in
      let held : HasRoles l =
        All-perm (λ r. is_role r.value.role ≡ true) (λ r. Bool-set _ _) rows l
          (sql.arrange_perm R rows) h in
      elim (Option-cases (top_role (map (λ r. r.value.role) l))) [
        | inl n ↦
            let empty : l ≡ [] = map-nil l (top_role-none (map (λ r. r.value.role) l) n) in
            let none_there : [] ≡ rows =
              Perm.nil-eq (subst (λ z. Perm z rows) empty (sql.arrange_perm R rows)) in
            (λ e. cc (e, ap (may_view sql) n), λ m. absurd (m (sym none_there)))
        | inr (role, b) ↦ (
          λ e none_there.
              let empty : l ≡ [] =
                Perm.eq-nil (subst (λ z. Perm l z) none_there (sql.arrange_perm R rows)) in
              absurd (cc (b, empty)),
          λ m.
              ap (may_view sql) b
              ∙ top_role-is_role (map (λ r. r.value.role) l) role (roles-All l held) b,
        )
      ]

  assert_cases :
      (principal_id tenant_id : Text) (namespace : Option Text) (t : Tenancy)
      → (assert_viewer_access sql principal_id tenant_id namespace t ≡ ok tt)
        ⊎ (assert_viewer_access sql principal_id tenant_id namespace t ≡ err access_denied)
  unfolding assert_viewer_access
  assert_cases principal_id tenant_id namespace t =
      elim (Bool-cases (may_view sql (resolve_role sql principal_id tenant_id namespace t))) [
        | inl o ↦ inl (rw o refl)
        | inr c ↦ inr (rw c refl)
      ]

  -- The gate by the filter of its query.
  pub assert_viewer_access-iff-any_row :
      (principal_id tenant_id : Text) (namespace : Option Text) (t : Tenancy)
      → HasRoles t.memberships
      → (assert_viewer_access sql principal_id tenant_id namespace t ≡ ok tt) ↔ (
          (some_empty
              (strip principal_id)
              (strip tenant_id)
              (stripped_or default_namespace namespace)
            ≡ false)
          × (any_row
                (covers sql
                  (strip principal_id)
                  (strip tenant_id)
                  (stripped_or default_namespace namespace))
                t.memberships
              ≡ true))
  unfolding assert_viewer_access resolve_role
  assert_viewer_access-iff-any_row principal_id tenant_id namespace t h =
      let ns = stripped_or default_namespace namespace in
      let p = covers sql (strip principal_id) (strip tenant_id) ns in
      let (opened, opens) = gate (filter_by p t.memberships) (filter-HasRoles p t.memberships h) in
      let (some_there, there) = any_row-filter_by p t.memberships in
      elim (Bool-cases (some_empty (strip principal_id) (strip tenant_id) ns)) [
        | inl e ↦ ((λ o. absurd (ground (arith, e, o))), (λ q. absurd (cc (q.0, e))))
        | inr f ↦ (
          (λ o. (f, there (opened (ground (arith, f, o))))),
          (λ q. ground (arith, f, opens (some_there q.1))),
        )
      ]

module _ (host : Host) where
  -- On rows with known roles, a query of a principal with no membership that covers the namespace
  -- ends with the access error, whatever the stores hold.
  pub query_latest_denied :
      (principal_id tenant_id : Text) (namespace : Option Text) (stream_base : Text) (t : Tenancy)
      (residency : Residency) (store_of : Text → Store)
      → HasRoles t.memberships
      → any_row
          (covers host.sql
            (strip principal_id)
            (strip tenant_id)
            (strip (Option.get_or namespace default_namespace)))
          t.memberships
        ≡ false
      → query_latest host principal_id tenant_id namespace stream_base t residency store_of
        ≡ err access_denied
  unfolding query_latest
  query_latest_denied principal_id tenant_id namespace stream_base t residency store_of h n =
      let ns = Option.get_or namespace default_namespace in
      let gate = assert_viewer_access-iff-any_row host.sql principal_id tenant_id (some ns) t h in
      elim (assert_cases host.sql principal_id tenant_id (some ns) t) [
        | inl o ↦ absurd (cc ((gate.0 o).1, n))
        | inr e ↦ rw (e, query_latest) refl
      ]
