-- ===== src/Tenancy/Revocations.antt =====
-- What a revocation takes away, and that it takes nothing else.
use mathlib.Core.Path.{subst}
use wisetraceloom.Prelude.{
  pair_Eq, pair_eq_iff, ℕ, ◌≡◌, ◌≢◌, inl, inr, refl, sym, ap, ◌∙◌, Bool, true, false, ◌==◌, Eq,
  if◌then◌else◌, Option, none, [], ◌∷◌, Text, text_Eq, option_Eq, nat_Eq, filter_by, All, arith,
  Bool-cases, strip, All-weaken, All-filter_by, nat_eq, Option-cases,
}
use wisetraceloom.Sql.{Sql}
use wisetraceloom.Config.{Row, Rows, find}
use wisetraceloom.Config.Rows.{IsUnique, value_at, find_cases}
use wisetraceloom.Tenancy.{is_role, Tenancy, Membership, MembershipKey, tenant_wide}
use wisetraceloom.Tenancy.Roles.{revoke_role, delete_row, some_empty, stripped_or}
use wisetraceloom.Tenancy.Access.{IsValid, MembershipRow-set}

module _ {K V : Type 0} ⦃e : Eq K⦄ where
  value_at-none :
      (k : K) (table : Rows K V) → filter_by (λ s. s.key == k) table ≡ [] → value_at k table ≡ none
  unfolding filter_by
  value_at-none k [] f = refl
  value_at-none k (s ∷ table) f = ground (arith, f, value_at-none k table)

  delete_absent :
      (r : Row K V) (i : ℕ) (table : Rows K V)
      → r.id ≡ i
      → All (λ s. (r.key ≢ s.key) × (r.id ≢ s.id)) table
      → delete_row i table ≡ table
  unfolding delete_row filter_by
  delete_absent r i [] h u = refl
  delete_absent r i (s ∷ table) h u =
      let other : s.id ≢ i = λ p. u.0.1 (h ∙ sym p) in ground (arith, delete_absent r i table h u.1)

  apart-filter_by :
      (r : Row K V) (p : Row K V → Bool) (table : Rows K V)
      → All (λ s. (r.key ≢ s.key) × (r.id ≢ s.id)) table
      → All (λ s. (r.key ≢ s.key) × (r.id ≢ s.id)) (filter_by p table)
  apart-filter_by r p table u =
      All-weaken (λ s. (p s ≡ true) × ((r.key ≢ s.key) × (r.id ≢ s.id)))
        (λ s. (r.key ≢ s.key) × (r.id ≢ s.id)) (λ s h. h.1) (filter_by p table)
        (All-filter_by (λ s. (r.key ≢ s.key) × (r.id ≢ s.id)) p table u)

  value_at-delete_row :
      (k k' : K) (r : Row K V) (table : Rows K V)
      → IsUnique table
      → filter_by (λ s. s.key == k) table ≡ r ∷ []
      → value_at k' (delete_row r.id table) ≡ (if k == k' then none else value_at k' table)
  unfolding delete_row filter_by
  value_at-delete_row k k' r [] u f = cc
  value_at-delete_row k k' r (s ∷ table) u f = elim (Bool-cases (e.beq s.key k)) [
    | inl t ↦
        let same : s ≡ r = ground arith in
        let rest : filter_by (λ x. x.key == k) table ≡ [] = ground arith in
        let keys : s.key ≡ k = (e.beq_iff s.key k).0 t in
        ground (
          arith,
          delete_absent s r.id table (ap (λ x. x.id) same) u.0,
          ap (λ x. x.id) same,
          ap (λ x. e.beq x k') keys,
          value_at-none k table rest,
          e.beq_iff k k',
        )
    | inr o ↦
        let rest : filter_by (λ x. x.key == k) table ≡ r ∷ [] = ground arith in
        let apart : s.id ≢ r.id =
          (subst (All (λ x. (s.key ≢ x.key) × (s.id ≢ x.id))) rest
            (apart-filter_by s (λ x. x.key == k) table u.0)).0.1 in
        ground (
          arith,
          value_at-delete_row k k' r table u.1 rest,
          e.beq_iff s.key k,
          e.beq_iff s.key k',
          e.beq_iff k k',
        )
  ]

module _ (sql : Sql) where
  delete-All :
      (P : Row MembershipKey Membership → Type 0) (i : ℕ) (rows : Rows MembershipKey Membership)
      → All P rows
      → All P (delete_row i rows)
  unfolding delete_row filter_by
  delete-All P i [] h = tt
  delete-All P i (r ∷ rows) h = elim (Bool-cases (nat_eq r.id i)) [
    | inl t ↦ rw t (delete-All P i rows h.1)
    | inr f ↦ rw f (h.0, delete-All P i rows h.1)
  ]

  delete-IsUnique :
      (i : ℕ) (rows : Rows MembershipKey Membership) → IsUnique rows → IsUnique (delete_row i rows)
  unfolding delete_row filter_by
  delete-IsUnique i [] u = tt
  delete-IsUnique i (r ∷ rows) u = elim (Bool-cases (nat_eq r.id i)) [
    | inl t ↦ rw t (delete-IsUnique i rows u.1)
    | inr f ↦
        rw f
          (delete-All (λ s. (r.key ≢ s.key) × (r.id ≢ s.id)) i rows u.0, delete-IsUnique i rows u.1)
  ]

  -- A revocation keeps one row for a principal, tenant and namespace, and known roles only.
  pub revoke_role-IsValid :
      (principal_id tenant_id : Text) (namespace : Option Text) (t : Tenancy)
      → IsValid t
      → IsValid (revoke_role sql principal_id tenant_id namespace t)
  unfolding revoke_role
  revoke_role-IsValid principal_id tenant_id namespace t h =
      let ns = stripped_or tenant_wide namespace in
      let key : MembershipKey = ((strip principal_id, strip tenant_id), ns) in
      elim (Bool-cases (some_empty (strip principal_id) (strip tenant_id) ns)) [
        | inl e ↦ rw e h
        | inr f ↦ elim (Option-cases (find sql key t.memberships)) [
          | inl n ↦ rw (f, n) h
          | inr (r, s) ↦
              rw (f, s)
                (
                  delete-IsUnique r.id t.memberships h.0,
                  delete-All (λ x. is_role x.value.role ≡ true) r.id t.memberships h.1,
                )
        ]
      ]

  -- On rows with unique keys, a revocation with no empty name removes the membership that it names
  -- and leaves every other.
  pub value_at-revoke_role :
      (principal_id tenant_id : Text) (namespace : Option Text) (t : Tenancy) (key : MembershipKey)
      → IsUnique t.memberships
      → some_empty (strip principal_id) (strip tenant_id) (stripped_or tenant_wide namespace)
        ≡ false
      → value_at key (revoke_role sql principal_id tenant_id namespace t).memberships ≡ (
          if ((strip principal_id, strip tenant_id), stripped_or tenant_wide namespace) == key
          then none
          else value_at key t.memberships)
  unfolding revoke_role
  value_at-revoke_role principal_id tenant_id namespace t key u f =
      let own : MembershipKey =
        ((strip principal_id, strip tenant_id), stripped_or tenant_wide namespace) in
      elim (find_cases sql MembershipRow-set own t.memberships u) [
        | inl (n, _, v) ↦ rw (f, n) (unchanged own key t.memberships v)
        | inr (r, s, g, _) ↦ rw (f, s) (value_at-delete_row own key r t.memberships u g)
      ]
    where
      unchanged :
          (own key : MembershipKey) (rows : Rows MembershipKey Membership)
          → value_at own rows ≡ none
          → value_at key rows ≡ (if own == key then none else value_at key rows)
      unchanged own key rows v = elim (Bool-cases (own == key)) [
        | inl t ↦ rw t (ap (λ k. value_at k rows) (sym ((pair_eq_iff own key).0 t)) ∙ v)
        | inr f ↦ rw f refl
      ]
