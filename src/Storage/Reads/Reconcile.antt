-- ===== src/Storage/Reads/Reconcile.antt =====
-- Reads do not depend on checkpoints: a snapshot and the commits behind it are the commits.
use wisetraceloom.Prelude.{
  ℕ, suc, ◌≤◌, ◌<◌, ◌≡◌, inl, inr, refl, sym, ap, ◌∙◌, Bool, true, ◌&&◌, ◌==◌, Option, none, some,
  List, [], ◌∷◌, ◌++◌, map, Text, text_eq_iff, text_Eq, option_Eq, nat_Eq, filter_by, All, arith,
  ltb, leb, Bool-cases, Option-cases, last?, All-filter_by, All-weaken,
}
use mathlib.Core.HLevel.{×_prop}
use mathlib.Core.List.{map-append}
use mathlib.Core.Path.{subst}
use wisetraceloom.Sql.{IsRising}
use wisetraceloom.Sql.Order.{All-perm, rising_unique}
use wisetraceloom.Storage.{Host, StorageCommit, StorageCommit-set}
use wisetraceloom.Storage.Append.{Table, in_stream}
use wisetraceloom.Storage.Append.Chain.{Chained, IsChained}
use wisetraceloom.Audit.Chain.{Chained-IsRising}
use wisetraceloom.Residency.{lookup}
use wisetraceloom.Storage.Checkpoint.{
  CheckpointRow, StorageCheckpoint, Store, as_row, load_checkpoint_rows,
}
use wisetraceloom.Storage.Reads.{
  insert_row, sort_rows, of_tenant, best_checkpoint, tail_rows, load_stream_state,
}

filter-and :
    (p q : StorageCommit → Bool) (table : Table)
    → filter_by (λ r. p r && q r) table ≡ filter_by q (filter_by p table)
unfolding filter_by
filter-and p q [] = refl
filter-and p q (r ∷ table) = ground (arith, filter-and p q table)

filter-IsRising :
    (p : StorageCommit → Bool) (rows : List StorageCommit)
    → IsRising (λ r. r.version) rows
    → IsRising (λ r. r.version) (filter_by p rows)
unfolding filter_by
filter-IsRising p [] h = tt
filter-IsRising p (r ∷ rows) h = elim (Bool-cases (p r)) [
  | inl t ↦ rw t (
    All-weaken (λ x. (p x ≡ true) × (r.version < x.version)) (λ x. r.version < x.version)
        (λ x y. y.1) (filter_by p rows) (All-filter_by (λ x. r.version < x.version) p rows h.0),
    filter-IsRising p rows h.1,
  )
  | inr f ↦ rw f (filter-IsRising p rows h.1)
]

module _ (host : Host) where
  -- Nothing of a chain stands below its first version.
  pub filter-below :
      (prev : Option Text) (k b : ℕ) (rows : List StorageCommit)
      → Chained host prev k rows
      → b < k
      → filter_by (λ r. leb r.version b) rows ≡ []
  unfolding filter_by
  filter-below prev k b [] h e = refl
  filter-below prev k b (r ∷ rows) h e =
      ground (arith, filter-below (some r.entry_hash) (suc k) b rows h.3 (omega arith))

  filter-split :
      (prev : Option Text) (k b v : ℕ) (rows : List StorageCommit)
      → Chained host prev k rows
      → b ≤ v
      → filter_by (λ r. leb r.version b) rows
          ++ filter_by (λ r. ltb b r.version && leb r.version v) rows
        ≡ filter_by (λ r. leb r.version v) rows
  unfolding filter_by
  filter-split prev k b v [] h e = refl
  filter-split prev k b v (r ∷ rows) h e = elim (Bool-cases (leb r.version b)) [
    | inl t ↦ ground (arith, filter-split (some r.entry_hash) (suc k) b v rows h.3 e)
    | inr f ↦
        let low : filter_by (λ x. leb x.version b) rows ≡ [] =
          filter-below (some r.entry_hash) (suc k) b rows h.3 (ground arith) in
        let ih = filter-split (some r.entry_hash) (suc k) b v rows h.3 e in
        let same : filter_by (λ x. ltb b x.version && leb x.version v) rows
            ≡ filter_by (λ x. leb x.version v) rows =
          ap (λ l. l ++ filter_by (λ x. ltb b x.version && leb x.version v) rows) (sym low) ∙ ih in
        ground (arith, same, low)
  ]

  insert_row-least :
      (r : StorageCommit) (rows : List StorageCommit)
      → All (λ x. r.version < x.version) rows
      → insert_row (as_row host r) (map (as_row host) rows) ≡ as_row host r ∷ map (as_row host) rows
  unfolding insert_row as_row
  insert_row-least r [] h = refl
  insert_row-least r (x ∷ rows) h = ground arith

  sort_rows-rising :
      (rows : List StorageCommit)
      → IsRising (λ r. r.version) rows
      → sort_rows (map (as_row host) rows) ≡ map (as_row host) rows
  unfolding sort_rows
  sort_rows-rising [] h = refl
  sort_rows-rising (r ∷ rows) h =
      ap (insert_row (as_row host r)) (sort_rows-rising rows h.1) ∙ insert_row-least r rows h.0

  abbrev pub snapshot : Text → ℕ → Table → List StorageCommit
  snapshot s v table = filter_by (λ r. leb r.version v) (filter_by (in_stream s) table)

  -- Each checkpoint's file holds the commits of its stream up to its version.
  abbrev pub IsSnapshot : Store → StorageCheckpoint → Type 0
  IsSnapshot store c =
      lookup c.file_path store.files
      ≡ some (map (as_row host) (snapshot c.stream_id c.version store.commits))

last?-All : {A : Type 0} (P : A → Type 0) (xs : List A) (y : A) → All P xs → last? xs ≡ some y → P y
last?-All P [] y h e = cc e
last?-All P (x ∷ []) y h e = let same : x ≡ y = cc e in subst P same h.0
last?-All P (x ∷ x' ∷ xs) y h e = last?-All P (x' ∷ xs) y h.1 e

Bool-set : IsSet Bool
Bool-set = hlevel

CheckpointRows-set : IsSet (Option (List CheckpointRow))
CheckpointRows-set = hlevel

module _ (host : Host) where
  -- The checkpoint that a read starts from is one of the stream, not behind the target.
  best_checkpoint-range :
      (s : Text) (target : ℕ) (store : Store) (c : StorageCheckpoint)
      → All (IsSnapshot host store) store.checkpoints
      → best_checkpoint host s target store ≡ some c
      → ((c.stream_id == s && leb c.version target) ≡ true) × IsSnapshot host store c
  unfolding best_checkpoint
  best_checkpoint-range s target store c h e =
      let p = λ (x : StorageCheckpoint). x.stream_id == s && leb x.version target in
      let P = λ (x : StorageCheckpoint). (p x ≡ true) × IsSnapshot host store x in
      last?-All P _ c
        (All-perm P (λ x. ×_prop (Bool-set _ _) (CheckpointRows-set _ _))
          (filter_by p store.checkpoints) _
          (host.sql.order_by_perm StorageCheckpoint (λ x. x.version)
            (filter_by p store.checkpoints))
          (All-filter_by (IsSnapshot host store) p store.checkpoints h))
        e

  tail_rows-eq :
      (s : Text) (b v : ℕ) (store : Store)
      → IsChained host store.commits
      → tail_rows host s b v store
        ≡ map (as_row host) (
            filter_by
              (λ r. ltb b r.version && leb r.version v)
              (filter_by (in_stream s) store.commits))
  unfolding tail_rows
  tail_rows-eq s b v store h =
      let rows = filter_by (in_stream s) store.commits in
      let q = λ (r : StorageCommit). ltb b r.version && leb r.version v in
      ap (λ l. map (as_row host) (host.sql.order_by StorageCommit (λ r. r.version) l))
        (filter-and (in_stream s) q store.commits)
      ∙ ap (map (as_row host)) (
          rising_unique StorageCommit-set (λ r. r.version) _ (filter_by q rows)
            (host.sql.order_by_sorted StorageCommit (λ r. r.version) (filter_by q rows))
            (filter-IsRising q rows (Chained-IsRising host none 1 rows (h s)))
            (host.sql.order_by_perm StorageCommit (λ r. r.version) (filter_by q rows)))

  -- A snapshot up to `b` and the tail behind it sort to the commits up to `v`.
  joined :
      (s : Text) (b v : ℕ) (store : Store)
      → IsChained host store.commits
      → b ≤ v
      → sort_rows
          (map (as_row host) (snapshot host s b store.commits) ++ tail_rows host s b v store)
        ≡ map (as_row host) (snapshot host s v store.commits)
  joined s b v store h le =
      let rows = filter_by (in_stream s) store.commits in
      ap (λ l. sort_rows (map (as_row host) (snapshot host s b store.commits) ++ l))
        (tail_rows-eq s b v store h)
      ∙ ap sort_rows (
          sym (map-append (as_row host) _ _)
          ∙ ap (map (as_row host)) (filter-split host none 1 b v rows (h s) le))
      ∙ sort_rows-rising host (snapshot host s v store.commits)
          (filter-IsRising (λ r. leb r.version v) rows (Chained-IsRising host none 1 rows (h s)))

  -- On a chained table, where each checkpoint's file holds the commits of its stream up to its
  -- version, a read of a stream as of a version gives the stream's commits up to that version, for
  -- the tenant that is asked for, whichever checkpoints there are.
  pub load_stream_state-eq-commits :
      (s : Text) (v : ℕ) (tenant : Option Text) (store : Store)
      → IsChained host store.commits
      → All (IsSnapshot host store) store.checkpoints
      → load_stream_state host s v tenant store
        ≡ some (of_tenant tenant (map (as_row host) (snapshot host s v store.commits)))
  unfolding load_stream_state load_checkpoint_rows
  load_stream_state-eq-commits s v tenant store h k =
      elim (Option-cases (best_checkpoint host s v store)) [
        | inl n ↦
            let low : map (as_row host) (snapshot host s 0 store.commits) ≡ [] =
              ap (map (as_row host)) (filter-below host none 1 0 _ (h s) (omega arith)) in
            let whole : sort_rows (tail_rows host s 0 v store)
                ≡ map (as_row host) (snapshot host s v store.commits) =
              ap (λ l. sort_rows (l ++ tail_rows host s 0 v store)) (sym low)
              ∙ joined s 0 v store h (omega arith) in
            rw (n, load_stream_state) (ap (λ l. some (of_tenant tenant l)) whole)
        | inr (c, e) ↦
            let (t, held) = best_checkpoint-range s v store c k e in
            let same : c.stream_id ≡ s = (text_eq_iff c.stream_id s).0 (ground arith) in
            let low : c.version ≤ v = ground arith in
            let loaded : lookup c.file_path store.files
                ≡ some (map (as_row host) (snapshot host s c.version store.commits)) =
              held
              ∙ ap (λ z. some (map (as_row host) (snapshot host z c.version store.commits))) same in
            rw (e, load_stream_state)
              (rw (loaded, load_stream_state)
                (ap (λ l. some (of_tenant tenant l)) (joined s c.version v store h low)))
      ]
