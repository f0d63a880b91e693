-- ===== src/Tenancy/Members.antt =====
-- Who may view, told by the rows alone: the gate of wisetraceloom/tenancy.py asks for a membership
-- of this principal on this tenant.
use wisetraceloom.Prelude.{
  ◌≡◌, ◌≢◌, ◌↔◌, ◌⊎◌, inl, inr, refl, ap, ◌∙◌, Bool, true, false, ◌&&◌, ◌||◌, Option, none, some,
  [], ◌∷◌, Text, codes, text_eq, text_eq_iff, text_Eq, option_Eq, nat_Eq, arith, Bool-cases, strip,
}
use wisetraceloom.Results.{ok}
use wisetraceloom.Sql.{Sql}
use wisetraceloom.Config.{Row, Rows}
use wisetraceloom.Tenancy.{Tenancy, Membership, MembershipKey, default_namespace}
use wisetraceloom.Tenancy.Roles.{assert_viewer_access, covers, some_empty, stripped_or}
use wisetraceloom.Tenancy.Access.{HasRoles, any_row, assert_viewer_access-iff-any_row}

-- The namespace that is asked for.
abbrev pub asked_namespace : Option Text → Text
asked_namespace none = codes "default"
asked_namespace (some namespace) = strip namespace

stripped_or-asked_namespace :
    (namespace : Option Text) → stripped_or default_namespace namespace ≡ asked_namespace namespace
stripped_or-asked_namespace none = refl
stripped_or-asked_namespace (some namespace) = refl

-- A row of the principal on the tenant, for the namespace or for all of them.
pub data IsMember (principal tenant ns : Text) : Rows MembershipKey Membership → Type 0 where
  here :
      {rows : Rows MembershipKey Membership} (r : Row MembershipKey Membership) (place : Text)
      → r.key ≡ ((principal, tenant), place)
      → (place ≡ ns) ⊎ (place ≡ codes "*")
      → IsMember principal tenant ns (r ∷ rows)
  there :
      {rows : Rows MembershipKey Membership} (r : Row MembershipKey Membership)
      → IsMember principal tenant ns rows
      → IsMember principal tenant ns (r ∷ rows)

not_nil : (s : Text) → (text_eq s [] ≡ false) ↔ (s ≢ [])
not_nil s = elim (Bool-cases (text_eq s [])) [
  | inl t ↦ (λ f. absurd (cc (t, f)), λ n. absurd (n ((text_eq_iff s []).0 t)))
  | inr f ↦ (λ g e. absurd (cc (f, (text_eq_iff s []).1 e)), λ n. f)
]

some_empty_iff : (p q n : Text) → (some_empty p q n ≡ false) ↔ ((p ≢ []) × (q ≢ []) × (n ≢ []))
some_empty_iff p q n = (
  (λ e. (
    (not_nil p).0 (ground (arith, e)),
    (not_nil q).0 (ground (arith, e)),
    (not_nil n).0 (ground (arith, e)),
  )),
  (λ h. ground (arith, (not_nil p).1 h.0, (not_nil q).1 h.1, (not_nil n).1 h.2)),
)

both : (a b : Bool) → ((a && b) ≡ true) ↔ ((a ≡ true) × (b ≡ true))
both true b = ((λ e. (refl, e)), (λ h. h.1))
both false b = ((λ e. cc e), (λ h. cc (h.0)))

either : (a b : Bool) → ((a || b) ≡ true) ↔ ((a ≡ true) ⊎ (b ≡ true))
either true b = ((λ e. inl refl), (λ h. refl))
either false b = ((λ e. inr e), (λ h. elim h [ inl a ↦ cc a | inr q ↦ q ]))

module _ (sql : Sql) (principal tenant ns : Text) where
  covers_iff :
      (r : Row MembershipKey Membership)
      → (covers sql principal tenant ns r ≡ true) ↔ (
          (r.key.0.0 ≡ principal) × (r.key.0.1 ≡ tenant) × ((r.key.1 ≡ ns) ⊎ (r.key.1 ≡ codes "*")))
  covers_iff r =
      let p = text_eq r.key.0.0 principal in
      let q = text_eq r.key.0.1 tenant in
      let n = text_eq r.key.1 ns in
      let w = text_eq r.key.1 (codes "*") in
      (
        (λ e.
            let (a, rest) = (both p (q && (n || w))).0 e in
            let (b, place) = (both q (n || w)).0 rest in
            (
              (text_eq_iff r.key.0.0 principal).0 a,
              (text_eq_iff r.key.0.1 tenant).0 b,
              elim ((either n w).0 place) [
                | inl c ↦ inl ((text_eq_iff r.key.1 ns).0 c)
                | inr c ↦ inr ((text_eq_iff r.key.1 (codes "*")).0 c)
              ],
            )),
        (λ h.
            let place : (n || w) ≡ true = (either n w).1 (elim h.2 [
              | inl c ↦ inl ((text_eq_iff r.key.1 ns).1 c)
              | inr c ↦ inr ((text_eq_iff r.key.1 (codes "*")).1 c)
            ]) in
            (both p (q && (n || w))).1 (
              (text_eq_iff r.key.0.0 principal).1 h.0,
              (both q (n || w)).1 ((text_eq_iff r.key.0.1 tenant).1 h.1, place),
            )),
      )

  member :
      (rows : Rows MembershipKey Membership)
      → any_row (covers sql principal tenant ns) rows ≡ true
      → IsMember principal tenant ns rows
  member [] e = cc e
  member (r ∷ rows) e =
      elim ((either (covers sql principal tenant ns r)
          (any_row (covers sql principal tenant ns) rows)).0
        e) [
          | inl c ↦
              let (p, q, n) = (covers_iff r).0 c in
              here r r.key.1
                (ap (λ k. (k, r.key.1)) (ap (λ a. (a, r.key.0.1)) p ∙ ap (λ b. (principal, b)) q)) n
          | inr o ↦ there r (member rows o)
        ]

  covered :
      (rows : Rows MembershipKey Membership)
      → IsMember principal tenant ns rows
      → any_row (covers sql principal tenant ns) rows ≡ true
  covered [] m = elim m [ ]
  covered (r ∷ rows) (here r' place k n) =
      (either (covers sql principal tenant ns r) (any_row (covers sql principal tenant ns) rows)).1
        (inl ((covers_iff r).1 (rw k (refl, refl, n))))
  covered (r ∷ rows) (there r' m) =
      (either (covers sql principal tenant ns r) (any_row (covers sql principal tenant ns) rows)).1
        (inr (covered rows m))

module _ (sql : Sql) where
  -- On rows with known roles, the access gate opens exactly where no name is empty once stripped
  -- and some row of the memberships has this principal, this tenant, and this namespace or "*"; a
  -- namespace that is not given is "default".
  pub assert_viewer_access-iff-IsMember :
      (principal_id tenant_id : Text) (namespace : Option Text) (t : Tenancy)
      → HasRoles t.memberships
      → (assert_viewer_access sql principal_id tenant_id namespace t ≡ ok tt) ↔ (
          (strip principal_id ≢ [])
          × (strip tenant_id ≢ [])
          × (asked_namespace namespace ≢ [])
          × IsMember
              (strip principal_id)
              (strip tenant_id)
              (asked_namespace namespace)
              t.memberships)
  assert_viewer_access-iff-IsMember principal_id tenant_id namespace t h =
      let (opened, opens) =
        assert_viewer_access-iff-any_row sql principal_id tenant_id namespace t h in
      let same = stripped_or-asked_namespace namespace in
      let p = strip principal_id in
      let q = strip tenant_id in
      let n = stripped_or default_namespace namespace in
      let names = some_empty_iff p q n in
      rw (← same) (
        (λ o.
            let (named, found) = opened o in
            let (a, b, c) = names.0 named in (a, b, c, member sql p q n t.memberships found)),
        (λ r. opens (names.1 (r.0, r.1, r.2), covered sql p q n t.memberships r.3)),
      )
