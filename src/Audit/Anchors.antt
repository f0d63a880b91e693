-- ===== src/Audit/Anchors.antt =====
-- Anchoring: a record made from a chained stream keeps verifying while the log grows.
use wisetraceloom.Results.{Result-cases}
use wisetraceloom.Audit.Chain.{order_by-Chained}
use wisetraceloom.Audit.{
  commits_of, anchor_commits, commits_up_to, verify_anchor, AnchorRecord, ok, true,
  compute_merkle_root, map,
}
use wisetraceloom.Prelude.{
  ℕ, suc, ◌+◌, ◌≡◌, ◌<◌, refl, ◌&&◌, leb, Option, some, List, [], ◌∷◌, ◌++◌, Text, filter_by,
  length, arith, last?, none, ap, filter_by-append, sym, true, Option-cases, ◌∙◌, inl, inr, map,
  text_eq_refl,
}
use wisetraceloom.Storage.{Host, StorageCommit}
use wisetraceloom.Storage.Append.{Table, in_stream}
use wisetraceloom.Storage.Append.Chain.{Chained, IsChained}

filter-up_to :
    (s : Text) (v : ℕ) (table : Table)
    → filter_by (λ r. in_stream s r && leb r.version v) table
      ≡ filter_by (λ r. leb r.version v) (filter_by (in_stream s) table)
unfolding filter_by
filter-up_to s v [] = refl
filter-up_to s v (r ∷ table) = ground (arith, filter-up_to s v table)

module _ (host : Host) where
  -- The versions up to the end of a prefix of a chain are that prefix.
  pub filter-prefix :
      (prev : Option Text) (k v : ℕ) (rows more : List StorageCommit)
      → Chained host prev k (rows ++ more)
      → v + 1 ≡ k + length rows
      → filter_by (λ r. leb r.version v) (rows ++ more) ≡ rows
  unfolding filter_by
  filter-prefix prev k v [] [] h e = refl
  filter-prefix prev k v [] (r ∷ more) h e =
      ground (arith, filter-behind (some r.entry_hash) (suc k) v more h.3)
    where
      filter-behind :
          (prev : Option Text) (k v : ℕ) (more : List StorageCommit)
          → Chained host prev k more
          → v < k
          → filter_by (λ r. leb r.version v) more ≡ []
      filter-behind prev k v [] h e = refl
      filter-behind prev k v (r ∷ more) h e =
          ground (arith, filter-behind (some r.entry_hash) (suc k) v more h.3 (omega arith))
  filter-prefix prev k v (r ∷ rows) more h e =
      ground (arith, filter-prefix (some r.entry_hash) (suc k) v rows more h.3 (omega arith))

  last_version_one : (k : ℕ) (r y : StorageCommit) → r.version ≡ k → r ≡ y → y.version ≡ k
  last_version_one k r y h e = rw (← e) h

  last_version :
      (prev : Option Text) (k : ℕ) (r y : StorageCommit) (rows : List StorageCommit)
      → Chained host prev k (r ∷ rows)
      → last? (r ∷ rows) ≡ some y
      → y.version ≡ k + length rows
  last_version prev k r y [] h e = omega (arith, last_version_one k r y h.0 (cc e))
  last_version prev k r y (x ∷ rows) h e =
      omega (arith, last_version (some r.entry_hash) (suc k) x y rows h.3 e)

  pub last_version? :
      (y : StorageCommit) (rows : List StorageCommit)
      → Chained host none 1 rows
      → last? rows ≡ some y
      → y.version ≡ length rows
  last_version? y [] h e = cc e
  last_version? y (r ∷ rows) h e = omega (arith, last_version none 1 r y rows h e)

  module _ (s : Text) (table more : Table) (h : IsChained host table)
      (h' : IsChained host (table ++ more)) where
    commits-anchored :
        (y : StorageCommit)
        → last? (commits_of host s table) ≡ some y
        → commits_up_to host s y.version (table ++ more) ≡ commits_of host s table
    commits-anchored y e =
        let rows = filter_by (in_stream s) table in
        let more' = filter_by (in_stream s) more in
        let kept : commits_of host s table ≡ rows = order_by-Chained host none 1 rows (h s) in
        let split : filter_by (in_stream s) (table ++ more) ≡ rows ++ more' =
          filter_by-append (in_stream s) table more in
        let v : y.version ≡ length rows = last_version? y rows (h s) (ap last? (sym kept) ∙ e) in
        let found : filter_by (λ r. in_stream s r && leb r.version y.version) (table ++ more)
            ≡ rows =
          filter-up_to s y.version (table ++ more)
          ∙ ap (filter_by (λ r. leb r.version y.version)) split
          ∙ filter-prefix none 1 y.version rows more' (rw split at (h' s)) (omega arith) in
        ap (host.sql.order_by StorageCommit (λ r. r.version)) found

    -- An anchor that anchor_commits makes of a stream of a chained table verifies on that table
    -- with any rows appended that keep it chained.
    pub verify_anchor-anchor_commits :
        (sink : Text → Text → Text) (anchor : AnchorRecord)
        → anchor_commits host sink s table ≡ ok anchor
        → verify_anchor host anchor (table ++ more) ≡ ok true
    unfolding anchor_commits verify_anchor
    verify_anchor-anchor_commits sink anchor e =
        elim (Option-cases (last? (commits_of host s table))) [
          | inl n ↦ ground arith
          | inr (y, l) ↦
              elim (Result-cases (
                compute_merkle_root host.sha256
                  (map (λ r. r.entry_hash) (commits_of host s table)))) [
                    | inr (x, r) ↦ ground arith
                    | inl (root, r) ↦ ground (arith, commits-anchored y l, text_eq_refl root)
                  ]
        ]
