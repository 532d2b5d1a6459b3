-- ===== src/Event/Fifo.antt =====
-- The events of kernel/event/event.c are handled in the order in which they were triggered: its linked
-- queue refines a queue of events.
use xhopin.Base.{ℕ, ◌≡◌, ◌≢◌, ◌<◌, ◌≤◌, ◌⊎◌, List, [], ◌∷◌, ◌++◌, none, ok}
use xhopin.Kernel.{Kernel, Allocator, HandlerEntry}
use xhopin.Event.{Call, calls_of, event_count, event_trigger, dispatcher_turn}
use xhopin.Event.Links.{Event}
use xhopin.Event.Queue.{address_for}

-- The calls for a list of events.
abbrev pub calls_for : (ℕ → List HandlerEntry) → List Event → List Call
calls_for table [] = []
calls_for table (e ∷ es) = calls_of e.type e.payload (table e.type) ++ calls_for table es

module _ (A : Allocator) where
  open A use {Mem}

  -- A history: the events that were taken, the calls that were made, and the last state. An event is
  -- not taken if it is unknown or if there is no memory for it; the memory for it is not that of a live
  -- entry. The dispatcher turns while the queue is not empty.
  pub data History : Kernel Mem → List Event → List Call → Kernel Mem → Type 0 where
    end : {k : Kernel Mem} → History k [] [] k
    taken :
        {k k' : Kernel Mem} {es : List Event} {cs : List Call} (e : Event)
        → e.type < event_count
        → address_for A k ≢ 0
        → k.entries (address_for A k) ≡ none
        → History (event_trigger A e.type e.payload k) es cs k'
        → History k (e ∷ es) cs k'
    refused :
        {k k' : Kernel Mem} {es : List Event} {cs : List Call} (event payload : ℕ)
        → (event_count ≤ event) ⊎ (address_for A k ≡ 0)
        → History (event_trigger A event payload k) es cs k'
        → History k es cs k'
    turned :
        {k k1 k' : Kernel Mem} {es : List Event} {cs cs' : List Call} (entry p : ℕ)
        → k.queue_head ≢ 0
        → dispatcher_turn A entry k ≡ ok (cs, p, k1)
        → History k1 es cs' k'
        → History k es (cs ++ cs') k'
