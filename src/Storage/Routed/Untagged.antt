-- ===== src/Storage/Routed/Untagged.antt =====
-- Untagged rows of wisetraceloom/storage.py: where they are appended, and where they are read.
use wisetraceloom.Prelude.{
  ℕ, ◌≡◌, ◌≢◌, inl, inr, refl, sym, ap, ◌∙◌, false, Option, none, some, List, [], map, Text,
  text_eq, text_eq_iff, text_Eq, option_Eq, nat_Eq, filter_by, arith, Bool-cases, Option-cases,
}
use mathlib.Core.Path.{ap₂}
use wisetraceloom.Residency.{Residency}
use wisetraceloom.Results.{Result, ok, Result-cases}
use wisetraceloom.Masking.{Masked, returned, apply_masking}
use wisetraceloom.Residency.{load_region_config, resolve_engine}
use wisetraceloom.Config.Coherence.{db_path-get_cached}
use wisetraceloom.Storage.{Host}
use wisetraceloom.Storage.Append.{Turn, append_loop, in_stream}
use wisetraceloom.Storage.Checkpoint.{Files, Store}
use wisetraceloom.Storage.Commit.{World, append_commit, append_at, maybe_checkpoint, engine_for}
use wisetraceloom.Storage.Commit.Isolation.{append_commit_writes}
use wisetraceloom.Storage.Reads
use wisetraceloom.Storage.Routed.{
  read_engine, routed_read_latest, routed_read_as_of_version, store_at,
}

module _ (host : Host) where
  open host use {sql, dumps, Payload}

  abbrev newest : Text → Store → Option ℕ
  newest s store = sql.max (map (λ r. r.version) (filter_by (in_stream s) store.commits))

  -- The latest of one store.
  abbrev latest : Text → Store → Result (Option (List Payload))
  latest s store = elim (newest s store) [
    | none ↦ ok (some [])
    | some v ↦ ok (Reads.read_as_of_version host s v none store)
  ]

  abbrev default_store : Files → World → Store
  default_store files w = store_at w.residency.config.db_path files w

  untagged_latest :
      (s : Text) (files : Files) (w : World)
      → (routed_read_latest host s none files w).0 ≡ latest s (default_store files w)
  unfolding routed_read_latest routed_read_as_of_version read_engine
  untagged_latest s files w = elim (Option-cases (newest s (default_store files w))) [
    | inl n ↦ rw (n, routed_read_latest, latest) refl
    | inr (v, n) ↦ rw (n, routed_read_latest, latest) refl
  ]

  db_path-resolve_engine :
      (tenant : Option Text) (r : Residency)
      → (resolve_engine sql tenant r).1.config.db_path ≡ r.config.db_path
  unfolding resolve_engine
  db_path-resolve_engine tenant r =
      ground (arith, db_path-get_cached (load_region_config sql) tenant r.config)

  append_at-keeps :
      (s record_type payload_json : Text) (tenant_id : Option Text) (turns : List Turn) (w : World)
      (path : Text)
      → let after = (append_at host s record_type payload_json tenant_id turns w path).1 in
        (after.residency ≡ w.residency) × (after.checkpoints ≡ w.checkpoints)
  unfolding append_at maybe_checkpoint
  append_at-keeps s record_type payload_json tenant_id turns w path =
      elim (Result-cases
        (append_loop host s record_type tenant_id payload_json turns (w.stores path)).0) [
          | inl (commit, e) ↦ rw (e, append_at) (refl, refl)
          | inr (x, e) ↦ rw (e, append_at) (refl, refl)
        ]

  append_commit-keeps :
      (callback : Payload → Masked Payload) (s record_type : Text) (payload masked : Payload)
      → (turns : List Turn) (w : World) (path : Text)
      → (resolve_engine sql none w.residency).0 ≡ ok path
      → callback payload ≡ returned masked
      → let after = (append_commit host callback s record_type payload none none turns w).1 in
        (after.residency ≡ (resolve_engine sql none w.residency).1)
        × (after.checkpoints ≡ w.checkpoints)
  unfolding append_commit apply_masking engine_for
  append_commit-keeps callback s record_type payload masked turns w path e m =
      rw (append_commit, engine_for, e, apply_masking, m)
        (append_at-keeps s record_type (dumps masked) none turns
          (record w { residency = (resolve_engine sql none w.residency).1 }) path)

  -- Where the global region routes to another file than the default one and the callback masks the
  -- payload, no untagged latest read of any stream changes by an untagged append.
  pub routed_read_latest-append_commit :
      (callback : Payload → Masked Payload) (s record_type : Text) (payload masked : Payload)
      → (turns : List Turn) (w : World) (path other : Text) (files : Files)
      → (resolve_engine sql none w.residency).0 ≡ ok path
      → w.residency.config.db_path ≢ path
      → callback payload ≡ returned masked
      → (routed_read_latest host other none files
          (append_commit host callback s record_type payload none none turns w).1).0
        ≡ (routed_read_latest host other none files w).0
  unfolding engine_for
  routed_read_latest-append_commit callback s record_type payload masked turns w path other files e
        differ m =
      let after = (append_commit host callback s record_type payload none none turns w).1 in
      let default = w.residency.config.db_path in
      let kept = append_commit-keeps callback s record_type payload masked turns w path e m in
      let at : after.residency.config.db_path ≡ default =
        ap (λ r. r.config.db_path) kept.0 ∙ db_path-resolve_engine none w.residency in
      let unwritten : text_eq default path ≡ false = elim (Bool-cases (text_eq default path)) [
        | inl t ↦ absurd (differ ((text_eq_iff default path).0 t))
        | inr t ↦ t
      ] in
      let rows : after.stores default ≡ w.stores default =
        append_commit_writes host callback s record_type payload none none turns w path masked e m
          default
        ∙ rw unwritten refl in
      let same : default_store files after ≡ default_store files w =
        ap (λ p. store_at p files after) at
        ∙ ap₂
            (λ commits checkpoints. record {
              commits = commits;
              checkpoints = checkpoints;
              files = files;
            })
            rows (ap (λ c. c default) kept.1) in
      untagged_latest other files after
      ∙ ap (latest other) same
      ∙ sym (untagged_latest other files w)
