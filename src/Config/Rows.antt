-- ===== src/Config/Rows.antt =====
-- Upserts on a configuration table: one row for a key, and what is read back.

use wisetraceloom.Sql.Order.{perm_one}
use mathlib.Core.List.Perm
use mathlib.Core.List.{head?, Perm}
use mathlib.Core.Path.{subst, sym}
use wisetraceloom.Sql.{Sql}
use wisetraceloom.Prelude.{
  ◌≡◌, ◌≢◌, ◌⊎◌, refl, ◌==◌, Eq, if◌then◌else◌, Option, none, some, [], ◌∷◌, filter_by, All, arith,
  inl, Bool-cases, inr, Bool, ℕ, ap, ◌∙◌, sym,
}
use wisetraceloom.Config.{Row, Rows, Sql, Bool, write_back, ℕ, find}

module _ {K V : Type 0} ⦃e : Eq K⦄ where
  -- The value under a key, by going through the rows: what a table with unique keys means.
  abbrev pub value_at : K → Rows K V → Option V
  value_at k [] = none
  value_at k (r ∷ table) = if r.key == k then some r.value else value_at k table

  -- No two rows share a key or a primary key.
  abbrev pub IsUnique : Rows K V → Type 0
  IsUnique [] = Unit
  IsUnique (r ∷ table) = All (λ s. (r.key ≢ s.key) × (r.id ≢ s.id)) table × IsUnique table

  filter-other :
      (r : Row K V) (k : K) (table : Rows K V)
      → r.key ≡ k
      → All (λ s. (r.key ≢ s.key) × (r.id ≢ s.id)) table
      → filter_by (λ s. s.key == k) table ≡ []
  unfolding filter_by
  filter-other r k [] h u = refl
  filter-other r k (s ∷ table) h u =
      ground (arith, e.beq_iff s.key k, u.0.0, filter-other r k table h u.1)

  -- The rows under a key are none or one.
  pub filter_unique :
      (k : K) (table : Rows K V)
      → IsUnique table
      → ((filter_by (λ s. s.key == k) table ≡ []) × (value_at k table ≡ none))
        ⊎ ((r : Row K V) × (filter_by (λ s. s.key == k) table ≡ r ∷ [])
            × (r.key ≡ k)
            × (value_at k table ≡ some r.value))
  unfolding filter_by
  filter_unique k [] u = inl (refl, refl)
  filter_unique k (r ∷ table) u = elim (Bool-cases (e.beq r.key k)) [
    | inl t ↦
        let same : r.key ≡ k = (e.beq_iff r.key k).0 t in
        inr (r, ground (arith, filter-other r k table same u.0), same, rw t)
    | inr f ↦ elim (filter_unique k table u.1) [
      | inl (p, q) ↦ inl (ground arith, ground arith)
      | inr (s, p, q, v) ↦ inr (s, ground arith, q, ground arith)
    ]
  ]

  -- `find` reads what the rows say, whatever order the engine selects in.
  module _ (sql : Sql) (set : IsSet (Row K V)) where
    find-arrange :
        (rows : Rows K V) (r : Row K V)
        → rows ≡ r ∷ []
        → head? (sql.arrange (Row K V) rows) ≡ some r
    find-arrange rows r e = rw (
        perm_one set _ r
          (subst (λ l. Perm (sql.arrange (Row K V) rows) l) e (sql.arrange_perm (Row K V) rows)))

    find-none : (rows : Rows K V) → rows ≡ [] → head? (sql.arrange (Row K V) rows) ≡ none
    find-none rows e = rw (
        Perm.eq-nil
          (subst (λ l. Perm (sql.arrange (Row K V) rows) l) e (sql.arrange_perm (Row K V) rows)))

    pub find_cases :
        (k : K) (table : Rows K V)
        → IsUnique table
        → ((find sql k table ≡ none)
            × (filter_by (λ s. s.key == k) table ≡ [])
            × (value_at k table ≡ none))
          ⊎ ((r : Row K V) × (find sql k table ≡ some r)
              × (filter_by (λ s. s.key == k) table ≡ r ∷ [])
              × (value_at k table ≡ some r.value))
    unfolding find
    find_cases k table u = elim (filter_unique k table u) [
      | inl (p, q) ↦ inl (find-none _ p, p, q)
      | inr (r, p, _, q) ↦ inr (r, find-arrange _ r p, p, q)
    ]

  write_back_absent :
      (i : ℕ) (v : V) (r : Row K V) (table : Rows K V)
      → r.id ≡ i
      → All (λ s. (r.key ≢ s.key) × (r.id ≢ s.id)) table
      → write_back i v table ≡ table
  unfolding write_back
  write_back_absent i v r [] h u = refl
  write_back_absent i v r (s ∷ table) h u =
      let other : s.id ≢ i = λ p. u.0.1 (h ∙ sym p) in
      ground (arith, write_back_absent i v r table h u.1)

  All-filter_by :
      (P : Row K V → Type 0) (p : Row K V → Bool) (table : Rows K V)
      → All P table
      → All P (filter_by p table)
  unfolding filter_by
  All-filter_by P p [] h = tt
  All-filter_by P p (r ∷ table) h = elim (Bool-cases (p r)) [
    | inl t ↦ rw t (h.0, All-filter_by P p table h.1)
    | inr f ↦ rw f (All-filter_by P p table h.1)
  ]

  pub value_at-write_back :
      (k k' : K) (v : V) (r : Row K V) (table : Rows K V)
      → IsUnique table
      → filter_by (λ s. s.key == k) table ≡ r ∷ []
      → value_at k' (write_back r.id v table) ≡ (if k == k' then some v else value_at k' table)
  unfolding write_back filter_by
  value_at-write_back k k' v r [] u f = cc
  value_at-write_back k k' v r (s ∷ table) u f = elim (Bool-cases (e.beq s.key k)) [
    | inl t ↦
        let same : s ≡ r = ground arith in
        let ids : s.id ≡ r.id = ap (λ x. x.id) same in
        let keys : s.key ≡ k = (e.beq_iff s.key k).0 t in
        ground (arith, write_back_absent r.id v s table ids u.0, ap (λ x. e.beq x k') keys)
    | inr o ↦
        let rest : filter_by (λ x. x.key == k) table ≡ r ∷ [] = ground arith in
        let apart : s.id ≢ r.id =
          (subst (All (λ x. (s.key ≢ x.key) × (s.id ≢ x.id))) rest (
            All-filter_by (λ x. (s.key ≢ x.key) × (s.id ≢ x.id)) (λ x. x.key == k) table
              u.0)).0.1 in
        ground (
          arith,
          value_at-write_back k k' v r table u.1 rest,
          e.beq_iff s.key k,
          e.beq_iff s.key k',
          e.beq_iff k k',
        )
  ]
