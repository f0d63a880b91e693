-- ===== src/Storage/Queue.antt =====
-- The write queue of wisetraceloom/storage.py: `enqueue_append`, which resolves the engine at once, and
-- the background thread that appends.
pub mod Order
use wisetraceloom.Prelude.{
  ℕ, zero, suc, ◌+◌, ◌-◌, ◌≤◌, ◌<◌, ◌≡◌, ◌≢◌, ◌↔◌, ◌⊎◌, inl, inr, refl, sym, ap, ◌∙◌, Bool, true,
  false, not, ◌&&◌, ◌||◌, ◌==◌, Eq, if◌then◌else◌, Option, none, some, List, [], ◌∷◌, ◌++◌, map,
  Text, codes, text_eq, text_eq_iff, text_eq_refl, text_Eq, option_Eq, nat_Eq, option_eq_iff,
  filter_by, All, length, arith, ltb, leb, nat_eq, nat_eq_iff, Bool-cases, Option-cases, strip,
  has_char, decimal, join, last?,
}
use wisetraceloom.Results.{Result, ok, err}
use wisetraceloom.Masking.{Masked}
use wisetraceloom.Residency.{resolve_engine}
use wisetraceloom.Storage.{Host}
use wisetraceloom.Storage.Append.{Turn}
use wisetraceloom.Storage.Commit.{World, append_commit}

-- An entry of the queue.
pub record Write (P : Type 0) : Type 0 where
  pub stream_id : Text
  pub record_type : Text
  pub payload : P
  pub tenant_id : Option Text
  pub engine : Text

-- The queue, the entry that the thread has taken and not yet marked as done, and the databases.
pub record Writer (P : Type 0) : Type 0 where
  pub queue : List (Write P)
  pub taken : Option (Write P)
  pub world : World

abbrev pub max_queued : ℕ
max_queued = 10000

module _ (host : Host) where
  open host use {sql, Payload}

  -- A full queue drops the write; the log event is left out.
  unfoldable pub enqueue_append :
      Text → Text → Payload → Option Text → Writer Payload → Result (Unit {0}) × Writer Payload
  enqueue_append s record_type payload tenant_id w =
      let (resolved, residency) = resolve_engine sql tenant_id w.world.residency in
      let w' : Writer Payload = record w { world = record w.world { residency = residency } } in
      elim resolved [
        | err e ↦ (err e, w')
        | ok path ↦
            if ltb (length w.queue) max_queued
            then (
              ok tt,
              record w' {
                queue =
                    w.queue
                    ++ record {
                      stream_id = s;
                      record_type = record_type;
                      payload = payload;
                      tenant_id = tenant_id;
                      engine = path;
                    }
                      ∷ [];
              },
            )
            else (ok tt, w')
      ]

  -- `_write_queue.get()` of the loop, which waits where nothing is queued.
  unfoldable pub take_write : Writer Payload → Writer Payload
  take_write w = elim w.taken [
    | some write ↦ w
    | none ↦ elim w.queue [
      | [] ↦ w
      | write ∷ queue ↦ record w { queue = queue; taken = some write }
    ]
  ]

  -- The rest of the loop's body. An exception of the append is swallowed.
  unfoldable pub finish_write :
      (Payload → Masked Payload) → List Turn → Writer Payload → Writer Payload
  finish_write callback turns w = elim w.taken [
    | none ↦ w
    | some write ↦ record w {
      taken = none;
      world =
          (append_commit host callback write.stream_id write.record_type write.payload
            write.tenant_id (some write.engine) turns w.world).1;
    }
  ]

-- Whether `wait_for_pending_writes` returns: nothing is queued, and nothing is under way.
unfoldable pub is_drained : {P : Type 0} → Writer P → Bool
is_drained w = elim w.taken [
  | some write ↦ false
  | none ↦ elim w.queue [ [] ↦ true | write ∷ queue ↦ false ]
]
