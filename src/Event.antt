-- ===== src/Event.antt =====
-- Events: kernel/event/event.c and event.h.
-- `handlers[event]` is the list of its first `handler_count[event]` entries. The handlers are
-- functions that this file does not know: a turn of the dispatcher returns the calls it makes. The queue
-- is linked through the entries' `next`, from `queue_head` to `queue_tail`.
pub mod Rounds
pub mod Links
pub mod Queue
pub mod Fifo
use mathlib.Core.List.{map}
use xhopin.Base.{
  ℕ, zero, suc, ◌+◌, Bool, true, false, ◌&&◌, ◌||◌, leb, ltb, ◌==◌, if◌then◌else◌, List, [], ◌∷◌,
  ◌++◌, length, Option, none, some, Run, ok, wild, ◌>>=◌, Rc, success, failure,
}
use xhopin.Kernel.{Kernel, Allocator, EventEntry, HandlerEntry}
use xhopin.Store.{Store, load, put, drop}

-- `event_type_t`
abbrev pub event_device_added : ℕ
event_device_added = 0

abbrev pub event_device_removed : ℕ
event_device_removed = 1

abbrev pub event_task_terminated : ℕ
event_task_terminated = 2

abbrev pub event_count : ℕ
event_count = 3

abbrev pub max_handlers : ℕ
max_handlers = 8

abbrev pub sizeof_event_entry : ℕ
sizeof_event_entry = 12

-- One entry of the table is replaced.
abbrev pub set_handlers : (ℕ → List HandlerEntry) → ℕ → List HandlerEntry → ℕ → List HandlerEntry
set_handlers table event hs e = if e == event then hs else table e

abbrev pub same_entry : HandlerEntry → HandlerEntry → Bool
same_entry a b = a.handler == b.handler && a.ctx == b.ctx

-- The first entry that matches is taken out, and those behind it move up.
unfoldable pub remove_entry : HandlerEntry → List HandlerEntry → Option (List HandlerEntry)
remove_entry h [] = none
remove_entry h (x ∷ xs) =
    let rest = remove_entry h xs in
    if same_entry x h then some xs else elim rest [ none ↦ none | some ys ↦ some (x ∷ ys) ]

-- A call of a handler, with its arguments.
pub record Call : Type 0 where
  pub handler : ℕ
  pub type : ℕ
  pub payload : ℕ
  pub ctx : ℕ

abbrev pub calls_of : ℕ → ℕ → List HandlerEntry → List Call
calls_of type payload hs =
    map (λ h. record { handler = h.handler; type = type; payload = payload; ctx = h.ctx }) hs

-- `q->next = p`. Only a live entry is in the store, so that a write to any other is lost; the queue's
-- tail is live, or NULL, as Fifo shows.
unfoldable pub link : ℕ → ℕ → Store EventEntry → Store EventEntry
link q p entries a =
    if a == q
    then elim (entries a) [ none ↦ none | some e ↦ some (record e { next = p }) ]
    else entries a

module _ {Mem : Type 0} where
  unfoldable pub event_register : ℕ → HandlerEntry → Kernel Mem → Rc × Kernel Mem
  event_register event h k =
      if leb event_count event || h.handler == 0
      then (failure, k)
      else if leb max_handlers (length (k.handlers event))
      then (failure, k)
      else (
        success,
        record k { handlers = set_handlers k.handlers event (k.handlers event ++ (h ∷ [])) },
      )

  unfoldable pub event_unregister : ℕ → HandlerEntry → Kernel Mem → Rc × Kernel Mem
  unfolding remove_entry
  event_unregister event h k =
      if leb event_count event then (failure, k) else elim (remove_entry h (k.handlers event)) [
        | none ↦ (failure, k)
        | some hs ↦ (success, record k { handlers = set_handlers k.handlers event hs })
      ]

module _ (A : Allocator) where
  open A use {Mem, alloc, free}

  unfoldable pub event_trigger : ℕ → ℕ → Kernel Mem → Kernel Mem
  unfolding link
  event_trigger event payload k =
      if leb event_count event
      then k
      else let (p, m) = alloc sizeof_event_entry k.mem in
        if p == 0 then record k { mem = m } else record k {
          mem = m;
          entries =
              let made = put k.entries p (record { type = event; payload = payload; next = 0 }) in
              if k.queue_tail == 0 then made else link k.queue_tail p made;
          queue_head = if k.queue_tail == 0 then p else k.queue_head;
          queue_tail = p;
        }

  -- The critical section: the head of the queue goes to `entry`, which keeps its value if there is
  -- none.
  unfoldable pub next_entry : ℕ → Kernel Mem → Run (ℕ × Kernel Mem)
  next_entry entry k = if k.queue_head == 0 then ok (entry, k) else do
    e ← load k.entries k.queue_head
    ok (
      k.queue_head,
      record k { queue_head = e.next; queue_tail = if e.next == 0 then 0 else k.queue_tail },
    )

  -- One turn of the dispatcher's `while (1)`. `entry` is its variable, NULL at first.
  unfoldable pub dispatcher_turn : ℕ → Kernel Mem → Run (List Call × ℕ × Kernel Mem)
  unfolding next_entry
  dispatcher_turn entry k = do
    (p, k') ← next_entry entry k
    if p == 0 then ok ([], p, k') else (do
      e ← load k'.entries p
      ok (
        calls_of e.type e.payload (k'.handlers e.type),
        p,
        record k' { mem = free p k'.mem; entries = drop k'.entries p },
      ))
