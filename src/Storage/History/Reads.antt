-- ===== src/Storage/History/Reads.antt =====
-- Every store that appends and compactions lead to is read as its log alone: the checkpoints are not
-- seen.
use wisetraceloom.Prelude.{
  or_zero, All-weaken, ℕ, zero, suc, ◌+◌, ◌≤◌, ◌≡◌, inl, inr, refl, sym, ap, ◌∙◌, Bool, true, ◌==◌,
  Option, none, some, List, [], ◌∷◌, map, Text, text_Eq, option_Eq, nat_Eq, filter_by, All, length,
  arith, leb, Bool-cases, Option-cases,
}
use mathlib.Core.List.{List}
use wisetraceloom.Storage.{Host, StorageCommit}
use wisetraceloom.Storage.Append.{in_stream}
use wisetraceloom.Storage.Append.Chain.{Chained}
use wisetraceloom.Storage.Append.Occ.{max_version}
use wisetraceloom.Storage.Checkpoint.{StorageCheckpoint, Store, as_row}
use wisetraceloom.Storage.Reads.{read_as_of_version, read_latest, of_tenant}
use wisetraceloom.Storage.Reads.Reconcile.{
  snapshot, IsSnapshot, load_stream_state-eq-commits, filter-below,
}
use wisetraceloom.Storage.History.{
  IsGood, IsSound, Step, append, compact, Reach, here, next, append-IsSound,
}
use wisetraceloom.Storage.History.Compaction.{compact_checkpoint-IsSound}

-- A store with nothing in it.
abbrev pub empty_store : Store
empty_store = record { commits = []; checkpoints = []; files = [] }

module _ (host : Host) (dir stem : Text) where
  Step-IsSound :
      {store later : Store}
      → Step host dir stem store later
      → IsSound host dir stem store
      → IsSound host dir stem later
  Step-IsSound (append store s record_type tenant_id payload_json turns rely) h =
      append-IsSound host dir stem store s record_type tenant_id payload_json turns h rely
  Step-IsSound (compact store s apart) h = compact_checkpoint-IsSound host dir stem s store h apart

  Reach-IsSound :
      {store later : Store}
      → Reach host dir stem store later
      → IsSound host dir stem store
      → IsSound host dir stem later
  Reach-IsSound here h = h
  Reach-IsSound (next r step) h = Step-IsSound step (Reach-IsSound r h)

  empty-IsSound : IsSound host dir stem empty_store
  unfolding filter_by
  empty-IsSound = record { chained = λ s. tt; good = tt }

module _ {A : Type 0} where
  -- The first entries.
  abbrev pub take : ℕ → List A → List A
  take zero xs = []
  take (suc n) [] = []
  take (suc n) (x ∷ xs) = x ∷ take n xs

  pub take-whole : (n : ℕ) (xs : List A) → length xs ≤ n → take n xs ≡ xs
  take-whole zero [] h = refl
  take-whole zero (x ∷ xs) h = absurd (omega arith)
  take-whole (suc n) [] h = refl
  take-whole (suc n) (x ∷ xs) h = ap (λ l. x ∷ l) (take-whole n xs (omega arith))

module _ (host : Host) where
  open host use {loads, Payload}

  filter-take :
      (prev : Option Text) (k n v : ℕ) (rows : List StorageCommit)
      → Chained host prev k rows
      → v + 1 ≡ k + n
      → filter_by (λ r. leb r.version v) rows ≡ take n rows
  unfolding filter_by
  filter-take prev k zero v rows h e = filter-below host prev k v rows h (omega arith)
  filter-take prev k (suc n) v [] h e = refl
  filter-take prev k (suc n) v (r ∷ rows) h e =
      ground (arith, filter-take (some r.entry_hash) (suc k) n v rows h.3 (omega arith))

  -- The stream's rows, and what a tenant's reader is to see of rows.
  abbrev pub stream : Text → Store → List StorageCommit
  stream s store = filter_by (in_stream s) store.commits

  abbrev pub is_of : Option Text → StorageCommit → Bool
  is_of none r = true
  is_of (some tenant) r = r.tenant_id == some tenant

  abbrev pub seen : Option Text → List StorageCommit → List Payload
  seen tenant rows = map (λ r. loads r.payload) (filter_by (is_of tenant) rows)

  seen-of_tenant :
      (tenant : Option Text) (rows : List StorageCommit)
      → map (λ r. loads r.payload) (of_tenant tenant (map (as_row host) rows)) ≡ seen tenant rows
  unfolding of_tenant filter_by as_row
  seen-of_tenant none [] = refl
  seen-of_tenant none (r ∷ rows) = ap (λ l. loads r.payload ∷ l) (seen-of_tenant none rows)
  seen-of_tenant (some t) [] = refl
  seen-of_tenant (some t) (r ∷ rows) = elim (Bool-cases (r.tenant_id == some t)) [
    | inl e ↦ rw e (ap (λ l. loads r.payload ∷ l) (seen-of_tenant (some t) rows))
    | inr f ↦ rw f (seen-of_tenant (some t) rows)
  ]

  All-snapshots :
      (dir stem : Text) (store : Store) (checkpoints : List StorageCheckpoint)
      → All (IsGood host dir stem store) checkpoints
      → All (IsSnapshot host store) checkpoints
  All-snapshots dir stem store checkpoints good =
      All-weaken (IsGood host dir stem store) (IsSnapshot host store) (λ c g. g.2) checkpoints good

  read_version :
      (dir stem s : Text) (v : ℕ) (tenant : Option Text) (store : Store)
      → IsSound host dir stem store
      → read_as_of_version host s v tenant store ≡ some (seen tenant (take v (stream s store)))
  unfolding read_as_of_version
  read_version dir stem s v tenant store h =
      let state =
        load_stream_state-eq-commits host s v tenant store h.chained
          (All-snapshots dir stem store store.checkpoints h.good) in
      rw (state, read_as_of_version)
        (ap some (
          seen-of_tenant tenant (snapshot host s v store.commits)
          ∙ ap (seen tenant) (filter-take none 1 v v (stream s store) (h.chained s) (omega arith))))

  no_max : (l : List ℕ) → host.sql.max l ≡ none → l ≡ []
  no_max [] e = refl
  no_max (n ∷ l) e = absurd (host.sql.max_cons n l e)

  map-nil : (rows : List StorageCommit) → map (λ r. r.version) rows ≡ [] → rows ≡ []
  map-nil [] e = refl
  map-nil (r ∷ rows) e = cc e

  read_whole :
      (dir stem s : Text) (tenant : Option Text) (store : Store)
      → IsSound host dir stem store
      → read_latest host s tenant store ≡ some (seen tenant (stream s store))
  unfolding read_latest filter_by
  read_whole dir stem s tenant store h =
      let rows = stream s store in
      elim (Option-cases (host.sql.max (map (λ r. r.version) rows))) [
        | inl n ↦
            let none_there : rows ≡ [] = map-nil rows (no_max _ n) in
            rw (n, read_latest) (ap (λ l. some (seen tenant l)) (sym none_there))
        | inr (v, e) ↦
            let last : v ≡ length rows = ap or_zero (sym e) ∙ max_version host rows (h.chained s) in
            rw (e, read_latest)
              (read_version dir stem s v tenant store h
                ∙ ap (λ l. some (seen tenant l)) (take-whole v rows (omega arith)))
      ]

module _ (host : Host) (dir stem : Text) where
  -- In every store that appends by the retry loop and compactions lead to from an empty one, with
  -- one checkpoint directory and compactions only of streams whose sanitized ids tell them from
  -- the streams that have checkpoints, the latest read of a stream gives the payloads of all its
  -- commits in order, those of the tenant where one is asked for: the checkpoints are not seen.
  pub read_latest-eq-seen :
      (store : Store) (s : Text) (tenant : Option Text)
      → Reach host dir stem empty_store store
      → read_latest host s tenant store ≡ some (seen host tenant (stream host s store))
  read_latest-eq-seen store s tenant r =
      read_whole host dir stem s tenant store
        (Reach-IsSound host dir stem r (empty-IsSound host dir stem))

  -- In every store that appends by the retry loop and compactions lead to from an empty one, with
  -- one checkpoint directory and compactions only of streams whose sanitized ids tell them from
  -- the streams that have checkpoints, a read as of a version gives the payloads of the stream's
  -- first so many commits in order, those of the tenant where one is asked for.
  pub read_as_of_version-eq-take :
      (store : Store) (s : Text) (v : ℕ) (tenant : Option Text)
      → Reach host dir stem empty_store store
      → read_as_of_version host s v tenant store
        ≡ some (seen host tenant (take v (stream host s store)))
  read_as_of_version-eq-take store s v tenant r =
      read_version host dir stem s v tenant store
        (Reach-IsSound host dir stem r (empty-IsSound host dir stem))
