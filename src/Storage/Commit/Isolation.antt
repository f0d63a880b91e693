-- ===== src/Storage/Commit/Isolation.antt =====
-- Where `append_commit` writes, and that it writes nothing where the engine or the mask refuses.
use wisetraceloom.Prelude.{
  ℕ, ◌≡◌, ◌≢◌, inl, inr, refl, ◌==◌, if◌then◌else◌, Option, List, Text, text_Eq, option_Eq, nat_Eq,
  arith,
}
use wisetraceloom.Masking.{Masked, apply_masking, returned}
use wisetraceloom.Results.{Error, Result, ok, err, masking_error, Result-cases}
use wisetraceloom.Storage.{Host, StorageCommit}
use wisetraceloom.Storage.Append.{Turn, append_loop}
use wisetraceloom.Storage.Commit.{World, engine_for, append_at, append_commit, maybe_checkpoint}

not_ok {ℓ} : {A : Type ℓ} (x : Error) (a : A) → ◌≢◌ {A = Result A} (err x) (ok a)
not_ok x a e = cc

unmasked {ℓ} :
    {P : Type ℓ} (callback : P → Masked P) (payload : P)
    → ((masked : P) → callback payload ≢ returned masked)
    → apply_masking callback payload ≡ err masking_error
unfolding apply_masking
unmasked callback payload n = grind arith

module _ (host : Host) where
  open host use {Payload, dumps}

  stores-maybe_checkpoint :
      (s : Text) (v : ℕ) (path : Text) (w : World)
      → (maybe_checkpoint host s v path w).stores ≡ w.stores
  unfolding maybe_checkpoint
  stores-maybe_checkpoint s v path w = refl

  pub stores-append_at :
      (s record_type payload_json : Text) (tenant_id : Option Text) (turns : List Turn) (w : World)
      (path other : Text)
      → (append_at host s record_type payload_json tenant_id turns w path).1.stores other ≡ (
          if other == path
          then (append_loop host s record_type tenant_id payload_json turns (w.stores path)).1
          else w.stores other)
  unfolding append_at maybe_checkpoint
  stores-append_at s record_type payload_json tenant_id turns w path other =
      elim (Result-cases
        (append_loop host s record_type tenant_id payload_json turns (w.stores path)).0) [
          | inl (commit, e) ↦ rw (e, append_at) refl
          | inr (x, e) ↦ rw (e, append_at) refl
        ]

  module _ (callback : Payload → Masked Payload) (s record_type : Text) (payload : Payload)
      (tenant_id engine : Option Text) (turns : List Turn) (w : World) where
    abbrev after : Result StorageCommit × World
    after = append_commit host callback s record_type payload tenant_id engine turns w

    abbrev engine_of : Result Text
    engine_of = (engine_for host engine tenant_id w.residency).0

    -- Where the engine resolves to a path and the callback returns a masked payload, append_commit
    -- leaves in the database at that path the outcome of the loop over the masked payload, and in
    -- every other database what it held.
    pub append_commit_writes :
        (path : Text) (masked : Payload)
        → engine_of ≡ ok path
        → callback payload ≡ returned masked
        → (other : Text)
        → after.1.stores other ≡ (
            if other == path
            then (append_loop host s record_type tenant_id (dumps masked) turns (w.stores path)).1
            else w.stores other)
    unfolding append_commit apply_masking
    append_commit_writes path masked e m other =
        rw (e, append_commit)
          (rw (m, append_commit, apply_masking)
            (stores-append_at s record_type (dumps masked) tenant_id turns
              (record w { residency = (engine_for host engine tenant_id w.residency).1 }) path
              other))

    pub refused :
        (path : Text) (x : Error)
        → engine_of ≡ ok path
        → apply_masking callback payload ≡ err x
        → (after.1.stores ≡ w.stores) × ((commit : StorageCommit) → after.0 ≢ ok commit)
    unfolding append_commit
    refused path x e m = rw (e, append_commit) (rw (m, append_commit) (refl, not_ok x))

    -- Where the callback returns no dict for the payload, append_commit returns no commit and
    -- every database holds what it held.
    pub append_commit_fail_closed :
        ((masked : Payload) → callback payload ≢ returned masked)
        → (after.1.stores ≡ w.stores) × ((commit : StorageCommit) → after.0 ≢ ok commit)
    unfolding append_commit
    append_commit_fail_closed n = elim (Result-cases engine_of) [
      | inl (path, e) ↦ refused path masking_error e (unmasked callback payload n)
      | inr (x, e) ↦ rw (e, append_commit) (refl, not_ok x)
    ]
