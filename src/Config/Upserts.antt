-- ===== src/Config/Upserts.antt =====
-- An upsert keeps the keys unique, and afterwards its key has the new value and every other the old.
use wisetraceloom.Prelude.{
  or_zero, Eq, All, ℕ, inl, filter_by, ◌≡◌, none, ◌∷◌, ◌+◌, ◌≢◌, ◌==◌, inr, ◌≤◌, [], Bool-cases,
  ◌++◌, nat_eq, All-append, map, arith, List, if◌then◌else◌, Option-cases, some, All-weaken, refl,
}
use wisetraceloom.Sql.{Sql}
use wisetraceloom.Config.{
  Row, Rows, next_id, write_back, upsert, Eq, All, filter_by, ℕ, ◌∷◌, none, [], map, List, some,
}
use wisetraceloom.Config.Rows.{value_at, IsUnique, find_cases, value_at-write_back}

pub below_max : (sql : Sql) (l : List ℕ) → All (λ n. n + 1 ≤ or_zero (sql.max l) + 1) l
below_max sql [] = tt
below_max sql (x ∷ xs) = elim (Option-cases (sql.max (x ∷ xs))) [
  | inl e ↦ absurd (sql.max_cons x xs e)
  | inr (m, e) ↦
      All-weaken (λ n. n ≤ m) (λ n. n + 1 ≤ or_zero (sql.max (x ∷ xs)) + 1)
        (λ n b. rw e (omega arith)) (x ∷ xs) (sql.max_bounds (x ∷ xs) m e)
]

module _ {K V : Type 0} ⦃e : Eq K⦄ where
  Apart-write_back :
      (i : ℕ) (v : V) (k : K) (j : ℕ) (table : Rows K V)
      → All (λ s. (k ≢ s.key) × (j ≢ s.id)) table
      → All (λ s. (k ≢ s.key) × (j ≢ s.id)) (write_back i v table)
  unfolding write_back
  Apart-write_back i v k j [] h = tt
  Apart-write_back i v k j (r ∷ table) h = elim (Bool-cases (nat_eq r.id i)) [
    | inl t ↦ rw t (h.0, Apart-write_back i v k j table h.1)
    | inr f ↦ rw f (h.0, Apart-write_back i v k j table h.1)
  ]

  write_back-IsUnique :
      (i : ℕ) (v : V) (table : Rows K V) → IsUnique table → IsUnique (write_back i v table)
  unfolding write_back
  write_back-IsUnique i v [] u = tt
  write_back-IsUnique i v (r ∷ table) u = elim (Bool-cases (nat_eq r.id i)) [
    | inl t ↦ rw t (Apart-write_back i v r.key r.id table u.0, write_back-IsUnique i v table u.1)
    | inr f ↦ rw f (Apart-write_back i v r.key r.id table u.0, write_back-IsUnique i v table u.1)
  ]

  pub absent→apart :
      (k : K) (j : ℕ) (table : Rows K V)
      → filter_by (λ s. s.key == k) table ≡ []
      → All (λ n. n + 1 ≤ j) (map (λ r. r.id) table)
      → All (λ s. (s.key ≢ k) × (s.id ≢ j)) table
  unfolding filter_by
  absent→apart k j [] f b = tt
  absent→apart k j (r ∷ table) f b = (
    ((λ p. ground (arith, e.beq_iff r.key k)), (λ p. omega arith)),
    absent→apart k j table (ground arith) b.1,
  )

  pub IsUnique-append :
      (table : Rows K V) (r : Row K V)
      → IsUnique table
      → All (λ s. (s.key ≢ r.key) × (s.id ≢ r.id)) table
      → IsUnique (table ++ r ∷ [])
  IsUnique-append [] r u a = (tt, tt)
  IsUnique-append (s ∷ table) r u a = (
    All-append (λ x. (s.key ≢ x.key) × (s.id ≢ x.id)) table (r ∷ []) u.0 (a.0, tt),
    IsUnique-append table r u.1 a.1,
  )

  pub value_at-append :
      (k' : K) (table : Rows K V) (r : Row K V)
      → value_at r.key table ≡ none
      → value_at k' (table ++ r ∷ []) ≡ (if r.key == k' then some r.value else value_at k' table)
  value_at-append k' [] r a = refl
  value_at-append k' (s ∷ table) r a = ground (
    arith,
    value_at-append k' table r,
    e.beq_iff s.key k',
    e.beq_iff r.key k',
    e.beq_iff s.key r.key,
  )

  module _ (sql : Sql) (set : IsSet (Row K V)) where
    pub below_next_id :
        (table : Rows K V) → All (λ n. n + 1 ≤ next_id sql table) (map (λ r. r.id) table)
    unfolding next_id
    below_next_id table = below_max sql (map (λ r. r.id) table)

    -- A table in which no two rows share a key or a primary key is such a table after an upsert.
    pub upsert-IsUnique :
        (k : K) (v : V) (table : Rows K V) → IsUnique table → IsUnique (upsert sql k v table)
    unfolding upsert
    upsert-IsUnique k v table u = elim (find_cases sql set k table u) [
      | inl (n, f, _) ↦
          rw (n, upsert)
            (IsUnique-append table _ u
              (absent→apart k (next_id sql table) table f (below_next_id table)))
      | inr (r, s, _, _) ↦ rw (s, upsert) (write_back-IsUnique r.id v table u)
    ]

    -- On a table with unique rows, an upsert gives its key the new value and leaves the value of
    -- every other key.
    pub value_at-upsert :
        (k k' : K) (v : V) (table : Rows K V)
        → IsUnique table
        → value_at k' (upsert sql k v table) ≡ (if k == k' then some v else value_at k' table)
    unfolding upsert
    value_at-upsert k k' v table u = elim (find_cases sql set k table u) [
      | inl (n, f, a) ↦ rw (n, upsert) (value_at-append k' table _ a)
      | inr (r, s, f, _) ↦ rw (s, upsert) (value_at-write_back k k' v r table u f)
    ]
