-- ===== src/Storage/Append/Occ.antt =====
-- What one attempt of `append_commit` computes on a chained table: the next version is the length
-- of the stream plus one, and the hash to chain onto is found.
use mathlib.Core.List.{Memᴰ, Perm}
use mathlib.Core.Path.{subst}
use mathlib.Core.List.Memᴰ
use wisetraceloom.Prelude.{
  or_zero, inl, inr, ℕ, suc, ◌+◌, ◌-◌, ◌≤◌, ◌≡◌, refl, ap, ◌∙◌, false, ◌==◌, Option, none, some,
  List, [], ◌∷◌, map, Text, filter_by, All, length, arith, text_Eq, nat_Eq, Option-cases, ◌||◌,
  Bool,
}
use wisetraceloom.Results.{ok}
use wisetraceloom.Sql.Order.{perm_one}
use wisetraceloom.Storage.{Host, StorageCommit, StorageCommit-set}
use wisetraceloom.Storage.Append.{
  Table, in_stream, at_version, taken, one, next_version, prev_entry_hash,
}
use wisetraceloom.Storage.Append.Chain.{Chained, last_hash}

filter-at_version :
    (s : Text) (v : ℕ) (table : Table)
    → filter_by (at_version s v) table
      ≡ filter_by (λ r. r.version == v) (filter_by (in_stream s) table)
unfolding filter_by
filter-at_version s v [] = refl
filter-at_version s v (r ∷ table) = ground (arith, filter-at_version s v table)

pub not_taken :
    (s : Text) (v : ℕ) (table : Table)
    → taken s v table ≡ false
    → All (λ r. (r.version == v) ≡ false) (filter_by (in_stream s) table)
unfolding taken filter_by
not_taken s v [] h = tt
not_taken s v (r ∷ table) h = ground (arith, not_taken s v table)

module _ (host : Host) where
  le_version :
      (prev : Option Text) (k m : ℕ) (r : StorageCommit) (rows : List StorageCommit)
      → Chained host prev k (r ∷ rows)
      → All (λ n. n ≤ m) (map (λ r. r.version) (r ∷ rows))
      → k + length rows ≤ m
  le_version prev k m r [] h b = omega arith
  le_version prev k m r (x ∷ rows) h b =
      omega (arith, le_version (some r.entry_hash) (suc k) m x rows h.3 b.1)

  version_le :
      (prev : Option Text) (k m : ℕ) (rows : List StorageCommit)
      → Chained host prev k rows
      → Memᴰ m (map (λ r. r.version) rows)
      → m + 1 ≤ k + length rows
  version_le prev k m [] h n = absurd (Memᴰ.not-nil n)
  version_le prev k m (r ∷ rows) h n = elim (Memᴰ.cases_cons n) [
    | inl e ↦ omega arith
    | inr t ↦ omega (arith, version_le (some r.entry_hash) (suc k) m rows h.3 t)
  ]

  pub max_version :
      (rows : List StorageCommit)
      → Chained host none 1 rows
      → or_zero (host.sql.max (map (λ r. r.version) rows)) ≡ length rows
  max_version [] h = rw host.sql.max_nil
  max_version (r ∷ rows) h = elim (Option-cases (host.sql.max (map (λ r. r.version) (r ∷ rows)))) [
    | inl e ↦ absurd (host.sql.max_cons _ _ e)
    | inr (m, e) ↦ rw e (
        omega (
          arith,
          le_version none 1 m r rows h (host.sql.max_bounds _ m e),
          version_le none 1 m (r ∷ rows) h (host.sql.max_mem _ m e),
        ))
  ]

  pub next_version-eq-length :
      (s : Text) (table : Table)
      → Chained host none 1 (filter_by (in_stream s) table)
      → next_version host s table ≡ length (filter_by (in_stream s) table) + 1
  unfolding next_version
  next_version-eq-length s table h = ap (λ n. n + 1) (max_version _ h)

  last_row :
      (prev : Option Text) (k v : ℕ) (r : StorageCommit) (rows : List StorageCommit)
      → Chained host prev k (r ∷ rows)
      → v ≡ k + length rows
      → (y : StorageCommit) × (filter_by (λ x. x.version == v) (r ∷ rows) ≡ y ∷ [])
        × (some y.entry_hash ≡ last_hash prev (r ∷ rows))
  unfolding filter_by
  last_row prev k v r [] h e = (r, ground arith, refl)
  last_row prev k v r (x ∷ rows) h e =
      let (y, f, g) = last_row (some r.entry_hash) (suc k) v x rows h.3 (omega arith) in
      (y, ground (arith, f), g)

  one-arrange :
      (rows : List StorageCommit) (y : StorageCommit)
      → rows ≡ y ∷ []
      → one (host.sql.arrange StorageCommit rows) ≡ ok y
  one-arrange rows y e = rw (
      perm_one StorageCommit-set _ y (
        subst (λ l. Perm (host.sql.arrange StorageCommit rows) l) e
          (host.sql.arrange_perm StorageCommit rows)))

  pub prev_entry_hash-eq-last_hash :
      (s : Text) (table : Table)
      → Chained host none 1 (filter_by (in_stream s) table)
      → prev_entry_hash host s (next_version host s table) table
        ≡ ok (last_hash none (filter_by (in_stream s) table))
  unfolding prev_entry_hash
  prev_entry_hash-eq-last_hash s table h =
      rw (next_version-eq-length s table h) (go (filter_by (in_stream s) table) refl)
    where
      go :
          (rows : List StorageCommit)
          → filter_by (in_stream s) table ≡ rows
          → prev_entry_hash host s (length rows + 1) table ≡ ok (last_hash none rows)
      go [] e = refl
      go (r ∷ rows) e =
          let v : ℕ = suc (length rows) + 1 - 1 in
          let (y, f, g) = last_row none 1 v r rows (rw e at (h)) (omega arith) in
          let found : filter_by (at_version s v) table ≡ y ∷ [] =
            filter-at_version s v table ∙ ap (filter_by (λ x. x.version == v)) e ∙ f in
          ground (arith, one-arrange (filter_by (at_version s v) table) y found, g)

abbrev has_version : ℕ → List StorageCommit → Bool
has_version v [] = false
has_version v (r ∷ rows) = r.version == v || has_version v rows

taken-has_version :
    (s : Text) (v : ℕ) (table : Table)
    → taken s v table ≡ has_version v (filter_by (in_stream s) table)
unfolding taken filter_by
taken-has_version s v [] = refl
taken-has_version s v (r ∷ table) = ground (arith, taken-has_version s v table)

module _ (host : Host) where
  has_version_end :
      (prev : Option Text) (k v : ℕ) (rows : List StorageCommit)
      → Chained host prev k rows
      → k + length rows ≤ v
      → has_version v rows ≡ false
  has_version_end prev k v [] h e = refl
  has_version_end prev k v (r ∷ rows) h e =
      ground (arith, has_version_end (some r.entry_hash) (suc k) v rows h.3 (omega arith))

  -- No row of a chained stream has a version behind its end.
  pub version_free :
      (s : Text) (v : ℕ) (table : Table)
      → Chained host none 1 (filter_by (in_stream s) table)
      → 1 + length (filter_by (in_stream s) table) ≤ v
      → taken s v table ≡ false
  version_free s v table h e =
      taken-has_version s v table ∙ has_version_end none 1 v (filter_by (in_stream s) table) h e
