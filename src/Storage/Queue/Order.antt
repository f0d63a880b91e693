-- ===== src/Storage/Queue/Order.antt =====
-- What becomes of enqueued writes, under any interleaving of the callers, the thread and changes of the
-- routing.
use wisetraceloom.Prelude.{
  ◌+◌, length-append, map-append, length-append, ◌+◌, ◌≤◌, ◌≡◌, inl, inr, refl, sym, ap, ◌∙◌, true,
  ◌==◌, if◌then◌else◌, Option, none, some, List, [], ◌∷◌, ◌++◌, map, Text, text_Eq, option_Eq,
  nat_Eq, length, arith, ltb, Bool-cases,
}
use mathlib.Core.Path.{fun_ext}
use mathlib.Core.List.{append_assoc, append-nil}
use mathlib.Core.Path.{fun_ext}
use mathlib.Core.List.{append_assoc, append-nil}
use wisetraceloom.Results.{ok, err, Result-cases}
use wisetraceloom.Masking.{Masked, apply_masking}
use wisetraceloom.Residency.{Residency, resolve_engine}
use wisetraceloom.Storage.{Host}
use wisetraceloom.Storage.Append.{Table, Turn, append_loop}
use wisetraceloom.Storage.Commit.{World, append_commit, engine_for}
use wisetraceloom.Storage.Commit.Isolation.{stores-append_at}
use wisetraceloom.Storage.Queue.{
  Write, Writer, max_queued, enqueue_append, take_write, finish_write, is_drained,
}

module _ (host : Host) where
  open host use {sql, Payload, dumps}

  -- What happens, one at a time: a caller, the thread's two halves, and a change of the routing.
  pub data Event : Type 0 where
    enqueue : (s record_type : Text) (payload : Payload) (tenant_id : Option Text) → Event
    take : Event
    finish : (turns : List Turn) → Event
    route : (change : Residency → Residency) → Event

  module _ (callback : Payload → Masked Payload) where
    abbrev pub step : Event → Writer Payload → Writer Payload
    step (enqueue s record_type payload tenant_id) w =
        (enqueue_append host s record_type payload tenant_id w).1
    step take w = take_write host w
    step (finish turns) w = finish_write host callback turns w
    step (route change) w = record w {
      world = record w.world { residency = change w.world.residency };
    }

    abbrev pub run : List Event → Writer Payload → Writer Payload
    run [] w = w
    run (e ∷ events) w = run events (step e w)

    -- The write that a caller asks for, with the engine of that moment, unless the queue is full.
    abbrev accepts : Event → Writer Payload → List (Write Payload)
    accepts (enqueue s record_type payload tenant_id) w =
        elim (resolve_engine sql tenant_id w.world.residency).0 [
          | err e ↦ []
          | ok path ↦
              if ltb (length w.queue) max_queued
              then record {
                stream_id = s;
                record_type = record_type;
                payload = payload;
                tenant_id = tenant_id;
                engine = path;
              }
                ∷ []
              else []
        ]
    accepts take w = []
    accepts (finish turns) w = []
    accepts (route change) w = []

    abbrev one_of : {A : Type 0} → Option A → List A
    one_of none = []
    one_of (some a) = a ∷ []

    -- The write that the thread is done with, and how its append went.
    abbrev writes : Event → Writer Payload → List (Write Payload × List Turn)
    writes (finish turns) w = map (λ write. (write, turns)) (one_of w.taken)
    writes (enqueue s record_type payload tenant_id) w = []
    writes take w = []
    writes (route change) w = []

    abbrev pub accepted : List Event → Writer Payload → List (Write Payload)
    accepted [] w = []
    accepted (e ∷ events) w = accepts e w ++ accepted events (step e w)

    abbrev pub written : List Event → Writer Payload → List (Write Payload × List Turn)
    written [] w = []
    written (e ∷ events) w = writes e w ++ written events (step e w)

    -- What is accepted and not yet written.
    abbrev pub pending : Writer Payload → List (Write Payload)
    pending w = one_of w.taken ++ w.queue

    -- A masked write is an append to the database at its engine, and another write is nothing.
    abbrev append_write : Write Payload × List Turn → (Text → Table) → Text → Table
    append_write (write, turns) stores = elim (apply_masking callback write.payload) [
      | err e ↦ stores
      | ok masked ↦ λ path.
          if path == write.engine
          then (append_loop host write.stream_id write.record_type write.tenant_id (dumps masked)
              turns (stores write.engine)).1
          else stores path
    ]

    abbrev pub append_all : List (Write Payload × List Turn) → (Text → Table) → Text → Table
    append_all [] stores = stores
    append_all (x ∷ xs) stores = append_all xs (append_write x stores)

    stores-append_commit :
        (write : Write Payload) (turns : List Turn) (world : World)
        → (append_commit host callback write.stream_id write.record_type write.payload
            write.tenant_id
            (some write.engine)
            turns
            world).1.stores
          ≡ append_write (write, turns) world.stores
    unfolding append_commit engine_for
    stores-append_commit write turns world =
        elim (Result-cases (apply_masking callback write.payload)) [
          | inr (x, e) ↦ rw (e, append_commit, append_write) refl
          | inl (masked, e) ↦
              rw (e, append_commit, append_write)
                (fun_ext (
                  stores-append_at host write.stream_id write.record_type (dumps masked)
                    write.tenant_id turns world write.engine))
        ]

    -- What one event keeps: the stores follow the writes, nothing is lost or reordered, and the
    -- queue stays within its bound.
    abbrev Kept : Event → Writer Payload → Type 0
    Kept e w =
        ((step e w).world.stores ≡ append_all (writes e w) w.world.stores)
        × (map (λ x. x.0) (writes e w) ++ pending (step e w) ≡ pending w ++ accepts e w)
        × (length w.queue ≤ max_queued → length (step e w).queue ≤ max_queued)

    room_for :
        (queue : List (Write Payload)) (write : Write Payload)
        → ltb (length queue) max_queued ≡ true
        → length (queue ++ write ∷ []) ≤ max_queued
    room_for queue write room =
        let n : length (queue ++ write ∷ []) ≡ length queue + 1 =
          length-append queue (write ∷ []) in
        rw n (ground (arith, room))

    enqueue-Kept :
        (s record_type : Text) (payload : Payload) (tenant_id : Option Text) (w : Writer Payload)
        → Kept (enqueue s record_type payload tenant_id) w
    unfolding enqueue_append
    enqueue-Kept s record_type payload tenant_id w =
        elim (Result-cases (resolve_engine sql tenant_id w.world.residency).0) [
          | inr (x, e) ↦
              rw (Kept, step, accepts, enqueue_append, e)
                (refl, sym (append-nil (pending w)), λ h. h)
          | inl (path, e) ↦ elim (Bool-cases (ltb (length w.queue) max_queued)) [
            | inr full ↦
                rw (Kept, step, accepts, enqueue_append, e, full)
                  (refl, sym (append-nil (pending w)), λ h. h)
            | inl room ↦
                rw (Kept, step, accepts, enqueue_append, e, room)
                  (
                    refl,
                    sym (append_assoc (one_of w.taken) w.queue _),
                    λ h. room_for w.queue _ room,
                  )
          ]
        ]

    take-Kept :
        (queue : List (Write Payload)) (taken : Option (Write Payload)) (world : World)
        → Kept take (record { queue = queue; taken = taken; world = world })
    unfolding take_write
    take-Kept queue (some write) world = (refl, sym (append-nil (write ∷ queue)), λ h. h)
    take-Kept [] none world = (refl, refl, λ h. h)
    take-Kept (write ∷ queue) none world =
        (refl, sym (append-nil (write ∷ queue)), λ h. omega (arith, h))

    finish-Kept :
        (turns : List Turn) (queue : List (Write Payload)) (taken : Option (Write Payload))
        (world : World)
        → Kept (finish turns) (record { queue = queue; taken = taken; world = world })
    unfolding finish_write
    finish-Kept turns queue none world = (refl, sym (append-nil queue), λ h. h)
    finish-Kept turns queue (some write) world =
        (stores-append_commit write turns world, sym (append-nil (write ∷ queue)), λ h. h)

    step-Kept : (e : Event) (w : Writer Payload) → Kept e w
    step-Kept (enqueue s record_type payload tenant_id) w =
        enqueue-Kept s record_type payload tenant_id w
    step-Kept take w = take-Kept w.queue w.taken w.world
    step-Kept (finish turns) w = finish-Kept turns w.queue w.taken w.world
    step-Kept (route change) w = (refl, sym (append-nil (pending w)), λ h. h)

    append_all-append :
        (xs ys : List (Write Payload × List Turn)) (stores : Text → Table)
        → append_all (xs ++ ys) stores ≡ append_all ys (append_all xs stores)
    append_all-append [] ys stores = refl
    append_all-append (x ∷ xs) ys stores = append_all-append xs ys (append_write x stores)

    drained-pending :
        (queue : List (Write Payload)) (taken : Option (Write Payload)) (world : World)
        → let w : Writer Payload = record { queue = queue; taken = taken; world = world } in
          is_drained w ≡ true → pending w ≡ []
    unfolding is_drained
    drained-pending queue (some write) world d = cc d
    drained-pending [] none world d = refl
    drained-pending (write ∷ queue) none world d = cc d

    -- Under any sequence of enqueues, steps of the writer thread and changes of the routing: the
    -- writes that were done, then the one under way and the queue, are the ones from before and
    -- the accepted ones, in order; every database holds what the masked appends of the done writes
    -- leave, each to the engine that was resolved when it was enqueued; a queue within its bound
    -- stays within it; and once the wait for pending writes returns, none is left.
    pub run-append_all :
        (events : List Event) (w : Writer Payload)
        → (map (λ x. x.0) (written events w) ++ pending (run events w)
            ≡ pending w ++ accepted events w)
          × ((run events w).world.stores ≡ append_all (written events w) w.world.stores)
          × (length w.queue ≤ max_queued → length (run events w).queue ≤ max_queued)
          × (is_drained (run events w) ≡ true → pending (run events w) ≡ [])
    run-append_all [] w =
        (sym (append-nil (pending w)), refl, λ h. h, drained-pending w.queue w.taken w.world)
    run-append_all (e ∷ events) w =
        let (stores, order, bound) = step-Kept e w in
        let (order', stores', bound', drained) = run-append_all events (step e w) in
        (
          ap (λ l. l ++ pending (run events (step e w)))
                (map-append (λ x. x.0) (writes e w) (written events (step e w)))
              ∙ append_assoc (map (λ x. x.0) (writes e w)) _ _
              ∙ ap (λ l. map (λ x. x.0) (writes e w) ++ l) order'
              ∙ sym (append_assoc (map (λ x. x.0) (writes e w)) (pending (step e w)) _)
              ∙ ap (λ l. l ++ accepted events (step e w)) order
              ∙ append_assoc (pending w) (accepts e w) _,
          stores'
              ∙ ap (append_all (written events (step e w))) stores
              ∙ sym (append_all-append (writes e w) (written events (step e w)) w.world.stores),
          λ h. bound' (bound h),
          drained,
        )
