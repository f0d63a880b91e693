-- ===== src/Tenancy/Grants.antt =====
-- Grants: the table stays valid, and what access follows.
use wisetraceloom.Prelude.{
  refl, pair_Eq, All-append, ℕ, ◌≡◌, ◌≢◌, inl, inr, ap, ◌∙◌, true, Option, none, some, [], ◌∷◌,
  Text, text_Eq, option_Eq, nat_Eq, nat_eq, Bool-cases, Option-cases, strip, ◌⊎◌, sym, arith,
  text_eq_iff, beq_refl,
}
use wisetraceloom.Results.{ok, Result-cases, tenancy_error, guard, bind-ok, guard-ok}
use wisetraceloom.Tenancy.Streams.{validate_name-ok}
use wisetraceloom.Sql.{Sql}
use wisetraceloom.Config.{Row, Rows, find, upsert, write_back}
use wisetraceloom.Config.Upserts.{upsert-IsUnique, value_at-upsert}
use wisetraceloom.Tenancy.{
  known, known_namespace, find_tenant, Tenancy, Membership, MembershipKey, grant_role, grant_checks,
  validate_name, namespace_or, is_role, tenant_wide, default_namespace,
}
use wisetraceloom.Tenancy.Roles.{stripped_or, covers, assert_viewer_access}
use wisetraceloom.Tenancy.Access.{
  IsValid, HasRoles, MembershipRow-set, any_row, assert_viewer_access-iff-any_row, any_row-value_at,
}

write_back-HasRoles :
    (i : ℕ) (v : Membership) (rows : Rows MembershipKey Membership)
    → is_role v.role ≡ true
    → HasRoles rows
    → HasRoles (write_back i v rows)
unfolding write_back
write_back-HasRoles i v [] k h = tt
write_back-HasRoles i v (r ∷ rows) k h = elim (Bool-cases (nat_eq r.id i)) [
  | inl t ↦ rw t (k, write_back-HasRoles i v rows k h.1)
  | inr f ↦ rw f (h.0, write_back-HasRoles i v rows k h.1)
]

stripped :
    (default : Text) (namespace : Option Text) (name : Text)
    → namespace_or default namespace ≡ ok name
    → name ≡ stripped_or default namespace
unfolding namespace_or
stripped default none name e = cc e
stripped default (some namespace) name e = (validate_name-ok namespace name e).0

module _ (sql : Sql) where
  upsert-HasRoles :
      (key : MembershipKey) (v : Membership) (rows : Rows MembershipKey Membership)
      → is_role v.role ≡ true
      → HasRoles rows
      → HasRoles (upsert sql key v rows)
  unfolding upsert
  upsert-HasRoles key v rows k h = elim (Option-cases (find sql key rows)) [
    | inl n ↦ rw (n, upsert) (All-append (λ r. is_role r.value.role ≡ true) rows _ h (k, tt))
    | inr (r, s) ↦ rw (s, upsert) (write_back-HasRoles r.id v rows k h)
  ]

  -- What a grant that is not refused has checked.
  grant_checks-ok :
      (lower : Text → Text) (principal_id tenant_id role : Text) (namespace : Option Text)
      (t : Tenancy) (out : MembershipKey × Text)
      → grant_checks sql lower principal_id tenant_id role namespace t ≡ ok out
      → (is_role out.1 ≡ true)
        × (out.0.0 ≡ (strip principal_id, strip tenant_id))
        × (out.0.1 ≡ stripped_or tenant_wide namespace)
        × (strip principal_id ≢ [])
        × (strip tenant_id ≢ [])
  unfolding grant_checks
  grant_checks-ok lower principal_id tenant_id role namespace t out e =
      let (principal, ep, e1) = bind-ok (validate_name principal_id) _ out e in
      let (tenant, et, e2) = bind-ok (validate_name tenant_id) _ out e1 in
      let (u, eg, e3) = bind-ok (guard (is_role (lower (strip role))) tenancy_error) _ out e2 in
      let (ns, en, e4) = bind-ok (namespace_or tenant_wide namespace) _ out e3 in
      let (_, _, e5) = bind-ok (known sql (find_tenant sql tenant t)) _ out e4 in
      let (_, _, e6) = bind-ok (known_namespace sql tenant ns t) _ out e5 in
      let made : out ≡ (((principal, tenant), ns), lower (strip role)) = cc e6 in
      let (sp, _, np) = validate_name-ok principal_id principal ep in
      let (st, _, nt) = validate_name-ok tenant_id tenant et in
      (
        ap (λ o. is_role o.1) made ∙ guard-ok _ tenancy_error u eg,
        ap (λ o. o.0.0) made ∙ cc (sp, st),
        ap (λ o. o.0.1) made ∙ stripped tenant_wide namespace ns en,
        np,
        nt,
      )

  covers-key :
      (r : Row MembershipKey Membership) (principal_id tenant_id : Text)
      (namespace viewed : Option Text) (key : MembershipKey)
      → r.key ≡ key
      → key.0 ≡ (strip principal_id, strip tenant_id)
      → key.1 ≡ stripped_or tenant_wide namespace
      → (namespace ≡ none)
        ⊎ (stripped_or default_namespace viewed ≡ stripped_or tenant_wide namespace)
      → covers sql (strip principal_id) (strip tenant_id) (stripped_or default_namespace viewed) r
        ≡ true
  covers-key r principal_id tenant_id namespace viewed key k same ns s =
      let p : r.key.0.0 ≡ strip principal_id = ap (λ z. z.0.0) k ∙ ap (λ z. z.0) same in
      let q : r.key.0.1 ≡ strip tenant_id = ap (λ z. z.0.1) k ∙ ap (λ z. z.1) same in
      let n : r.key.1 ≡ stripped_or tenant_wide namespace = ap (λ z. z.1) k ∙ ns in
      let fits : (r.key.1 ≡ stripped_or default_namespace viewed) ⊎ (r.key.1 ≡ tenant_wide) =
        elim s [
          | inl none_named ↦ inr (n ∙ ap (stripped_or tenant_wide) none_named)
          | inr e ↦ inl (n ∙ sym e)
        ] in
      ground (
        arith,
        (text_eq_iff r.key.0.0 (strip principal_id)).1 p,
        (text_eq_iff r.key.0.1 (strip tenant_id)).1 q,
        text_eq_iff r.key.1 (stripped_or default_namespace viewed),
        text_eq_iff r.key.1 tenant_wide,
        fits,
      )

  -- A grant, refused or not, keeps one row for a principal, tenant and namespace, and known roles
  -- only.
  pub grant_role-IsValid :
      (lower : Text → Text) (principal_id tenant_id role : Text) (namespace : Option Text) (now : ℕ)
      (t : Tenancy)
      → IsValid t
      → IsValid (grant_role sql lower principal_id tenant_id role namespace now t).1
  unfolding grant_role
  grant_role-IsValid lower principal_id tenant_id role namespace now t h =
      elim (Result-cases (grant_checks sql lower principal_id tenant_id role namespace t)) [
        | inr (x, e) ↦ rw (e, grant_role) h
        | inl (out, e) ↦
            let (valid, _, _, _, _) =
              grant_checks-ok lower principal_id tenant_id role namespace t out e in
            rw (e, grant_role)
              (
                upsert-IsUnique sql MembershipRow-set out.0 _ t.memberships h.0,
                upsert-HasRoles out.0 _ t.memberships valid h.1,
              )
      ]

  granted_row :
      (lower : Text → Text) (principal_id tenant_id role : Text) (namespace viewed : Option Text)
      (now : ℕ) (t : Tenancy)
      → IsValid t
      → (grant_role sql lower principal_id tenant_id role namespace now t).0 ≡ ok tt
      → (namespace ≡ none)
        ⊎ (stripped_or default_namespace viewed ≡ stripped_or tenant_wide namespace)
      → ((strip principal_id ≢ []) × (strip tenant_id ≢ []))
        × (any_row
              (covers sql
                (strip principal_id)
                (strip tenant_id)
                (stripped_or default_namespace viewed))
              (grant_role sql lower principal_id tenant_id role namespace now t).1.memberships
            ≡ true)
  unfolding grant_role
  granted_row lower principal_id tenant_id role namespace viewed now t h g s =
      elim (Result-cases (grant_checks sql lower principal_id tenant_id role namespace t)) [
        | inr (x, e) ↦ absurd (ground (arith, e, g))
        | inl (out, e) ↦
            let (_, same, ns, p, q) =
              grant_checks-ok lower principal_id tenant_id role namespace t out e in
            let v : Membership = record { role = out.1; updated_at = now } in
            (
              (p, q),
              rw (e, grant_role)
                  (any_row-value_at out.0 _ (upsert sql out.0 v t.memberships) v
                    (λ r k. covers-key r principal_id tenant_id namespace viewed out.0 k same ns s)
                    (value_at-upsert sql MembershipRow-set out.0 out.0 v t.memberships h.0
                      ∙ rw (beq_refl out.0) refl)),
            )
      ]

  -- On a valid table, after a grant that is not refused the gate opens for the principal on the
  -- granted namespace, or on every namespace where none was named, as long as the namespace is not
  -- empty.
  pub grant_role-assert_viewer_access :
      (lower : Text → Text) (principal_id tenant_id role : Text) (namespace viewed : Option Text)
      (now : ℕ) (t : Tenancy)
      → IsValid t
      → (grant_role sql lower principal_id tenant_id role namespace now t).0 ≡ ok tt
      → (namespace ≡ none)
        ⊎ (stripped_or default_namespace viewed ≡ stripped_or tenant_wide namespace)
      → stripped_or default_namespace viewed ≢ []
      → assert_viewer_access sql principal_id tenant_id viewed
          (grant_role sql lower principal_id tenant_id role namespace now t).1
        ≡ ok tt
  grant_role-assert_viewer_access lower principal_id tenant_id role namespace viewed now t h g s n =
      let t' = (grant_role sql lower principal_id tenant_id role namespace now t).1 in
      let valid : IsValid t' =
        grant_role-IsValid lower principal_id tenant_id role namespace now t h in
      let (filled, found) =
        granted_row lower principal_id tenant_id role namespace viewed now t h g s in
      (assert_viewer_access-iff-any_row sql principal_id tenant_id viewed t' valid.1).1 (
        ground (
          arith,
          filled.0,
          filled.1,
          n,
          text_eq_iff (strip principal_id) [],
          text_eq_iff (strip tenant_id) [],
          text_eq_iff (stripped_or default_namespace viewed) [],
        ),
        found,
      )
