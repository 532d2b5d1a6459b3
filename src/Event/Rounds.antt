-- ===== src/Event/Rounds.antt =====
-- What the dispatcher of kernel/event/event.c does in one turn after another, and how handlers come
-- and go.
use xhopin.Base.{
  if◌then◌else◌, ℕ, ◌≡◌, ◌≢◌, ◌∙◌, refl, ◌<◌, false, leb, ◌==◌, List, [], ◌∷◌, ◌++◌, length, none,
  some, ok, wild, ◌>>=◌, success, arith, ap,
}
use xhopin.Kernel.{Kernel, Allocator, EventEntry, HandlerEntry}
use xhopin.Store.{load, drop, load-some, load-drop_self, put_self}
use xhopin.Event.{
  event_register, event_unregister, event_trigger, dispatcher_turn, remove_entry, calls_of,
  event_count, max_handlers,
}

module _ (A : Allocator) where
  open A use {Mem, alloc, free}

  -- A turn takes the oldest event, calls its handlers in the order of registration, and frees it.
  pub dispatcher_turn-queue :
      (entry p : ℕ) (e : EventEntry) (k : Kernel Mem)
      → k.queue_head ≡ p
      → p ≢ 0
      → k.entries p ≡ some e
      → dispatcher_turn A entry k
        ≡ ok (
          calls_of e.type e.payload (k.handlers e.type),
          p,
          record k {
            mem = free p k.mem;
            entries = drop k.entries p;
            queue_head = e.next;
            queue_tail = if e.next == 0 then 0 else k.queue_tail;
          },
        )
  unfolding dispatcher_turn
  dispatcher_turn-queue entry p e k q ne live =
      let nz : (p == 0) ≡ false = ground arith in
      let loaded : load k.entries p ≡ ok e = load-some k.entries p e ne live in
      rw (q, nz, loaded, nz, loaded)

  -- An event that is triggered on an empty queue becomes the head and the tail, if there is memory for
  -- it.
  event_trigger-empty :
      (event payload : ℕ) (k : Kernel Mem)
      → event < event_count
      → (alloc 12 k.mem).0 ≢ 0
      → k.queue_tail ≡ 0
      → let k' = event_trigger A event payload k in
        (k'.queue_head ≡ (alloc 12 k.mem).0)
        × (k'.entries (alloc 12 k.mem).0
            ≡ some (record { type = event; payload = payload; next = 0 }))
        × (k'.handlers ≡ k.handlers)
  unfolding event_trigger
  event_trigger-empty event payload k lt ne empty =
      let in_range : leb event_count event ≡ false = ground arith in
      let nz : ((alloc 12 k.mem).0 == 0) ≡ false = ground arith in
      rw (in_range, nz, empty) (refl, put_self k.entries (alloc 12 k.mem).0 _, refl)

  -- A known event that is triggered on an empty queue, with memory for it, is what the next turn of
  -- the dispatcher handles: every handler of the event is called with the payload, and the queue is
  -- empty again.
  dispatcher_turn-event_trigger :
      (entry event payload : ℕ) (k : Kernel Mem)
      → event < event_count
      → (alloc 12 k.mem).0 ≢ 0
      → k.queue_tail ≡ 0
      → (g : Kernel Mem) × (dispatcher_turn A entry (event_trigger A event payload k)
          ≡ ok (calls_of event payload (k.handlers event), (alloc 12 k.mem).0, g))
        × (g.queue_head ≡ 0)
        × (g.queue_tail ≡ 0)
  dispatcher_turn-event_trigger entry event payload k lt ne empty =
      let k' = event_trigger A event payload k in
      let p = (alloc 12 k.mem).0 in
      let e : EventEntry = record { type = event; payload = payload; next = 0 } in
      let (head, stored, same) = event_trigger-empty event payload k lt ne empty in
      let g : Kernel Mem = record k' {
        mem = free p k'.mem;
        entries = drop k'.entries p;
        queue_head = 0;
        queue_tail = 0;
      } in
      (
        g,
        dispatcher_turn-queue entry p e k' head ne stored
            ∙ ap (λ h. ok (calls_of event payload (h event), p, g)) same,
        refl,
        refl,
      )

  dispatcher_turn-freed :
      (p : ℕ) (g : Kernel Mem)
      → g.queue_head ≡ 0
      → p ≢ 0
      → load g.entries p ≡ wild
      → dispatcher_turn A p g ≡ wild
  unfolding dispatcher_turn
  dispatcher_turn-freed p g q ne gone = let nz : (p == 0) ≡ false = ground arith in rw (q, nz, gone)

  -- When the queue holds one live entry, the turn after the one that handles it reads the entry
  -- that was just freed.
  pub dispatcher_turn-stale :
      (entry p : ℕ) (e : EventEntry) (k : Kernel Mem)
      → k.queue_head ≡ p
      → p ≢ 0
      → k.entries p ≡ some e
      → e.next ≡ 0
      → (dispatcher_turn A entry k >>= λ (calls, entry', k'). dispatcher_turn A entry' k') ≡ wild
  dispatcher_turn-stale entry p e k q ne live last =
      rw (dispatcher_turn-queue entry p e k q ne live)
        (dispatcher_turn-freed p _ last ne (load-drop_self k.entries p))

-- The handler that was registered last is found again behind those that differ from it.
remove_entry-append :
    (h : HandlerEntry) (hs : List HandlerEntry)
    → remove_entry h hs ≡ none
    → remove_entry h (hs ++ (h ∷ [])) ≡ some hs
unfolding remove_entry
remove_entry-append h [] e = ground arith
remove_entry-append h (x ∷ xs) e = ground (arith, remove_entry-append h xs)

-- Registering a handler that is not NULL and not registered yet for a known event, with room for
-- it, and then unregistering it succeeds and leaves the handlers of the event as they were.
pub event_unregister-event_register :
    {Mem : Type 0} (event : ℕ) (h : HandlerEntry) (k : Kernel Mem)
    → event < event_count
    → h.handler ≢ 0
    → length (k.handlers event) < max_handlers
    → remove_entry h (k.handlers event) ≡ none
    → let (r, k') = event_register event h k in
      let (r', k'') = event_unregister event h k' in
      (r ≡ success) × (r' ≡ success) × (k''.handlers event ≡ k.handlers event)
unfolding event_register event_unregister
event_unregister-event_register event h k lt ne room new =
    ground (arith, remove_entry-append h (k.handlers event))
