-- ===== src/Event/Queue.antt =====
-- The linked queue of kernel/event/event.c as a queue of events: what event_trigger and a turn of the
-- dispatcher do with it.
use xhopin.Base.{
  ℕ, ◌≡◌, ◌≢◌, ◌<◌, ◌≤◌, refl, sym, ap, ◌∙◌, true, false, leb, ◌==◌, ◌⊎◌, inl, inr, List, [], ◌∷◌,
  ◌++◌, none, arith, if◌then◌else◌, subst, Total, Post, if_lem,
}
use xhopin.Kernel.{Kernel, Allocator, EventEntry, HandlerEntry}
use xhopin.Store.{Store, put, put_self}
use xhopin.Event.Rounds.{dispatcher_turn-queue}
use xhopin.Event.{
  link, Call, calls_of, event_count, sizeof_event_entry, event_trigger, dispatcher_turn,
}
use xhopin.Event.Links.{
  Event, first, last, entry_of, Holds, Holds-drop, last-snoc, Holds-snoc, Holds-none, last_nz,
}

module _ (A : Allocator) where
  open A use {Mem, alloc}

  abbrev pub address_for : Kernel Mem → ℕ
  address_for k = (alloc sizeof_event_entry k.mem).0

  -- The links from `queue_head` on lead through entries that hold the events, `queue_tail` is the last
  -- of them, and the table of handlers is the one given.
  pub record Represents (table : ℕ → List HandlerEntry) (es : List Event) (k : Kernel Mem)
      : Type 0 where
    pub addresses : List ℕ
    pub holds : Holds k.entries addresses es
    pub head : k.queue_head ≡ first addresses
    pub tail : k.queue_tail ≡ last addresses
    pub handlers : k.handlers ≡ table

  -- What `event_trigger` does on an empty queue and behind a tail.
  event_trigger-first :
      (k : Kernel Mem) (e : Event)
      → e.type < event_count
      → address_for k ≢ 0
      → k.queue_tail ≡ 0
      → event_trigger A e.type e.payload k ≡ record k {
        mem = (alloc sizeof_event_entry k.mem).1;
        entries = put k.entries (address_for k) (entry_of e 0);
        queue_head = address_for k;
        queue_tail = address_for k;
      }
  unfolding event_trigger
  event_trigger-first k e known nz empty =
      let in_range : leb event_count e.type ≡ false = ground arith in
      let there : (address_for k == 0) ≡ false = ground arith in rw (in_range, there, empty) refl

  event_trigger-behind :
      (k : Kernel Mem) (e : Event)
      → e.type < event_count
      → address_for k ≢ 0
      → k.queue_tail ≢ 0
      → event_trigger A e.type e.payload k ≡ record k {
        mem = (alloc sizeof_event_entry k.mem).1;
        entries = link k.queue_tail (address_for k) (put k.entries (address_for k) (entry_of e 0));
        queue_tail = address_for k;
      }
  unfolding event_trigger
  event_trigger-behind k e known nz busy =
      let in_range : leb event_count e.type ≡ false = ground arith in
      let there : (address_for k == 0) ≡ false = ground arith in
      let some_tail : (k.queue_tail == 0) ≡ false = ground arith in
      rw (in_range, there, some_tail) refl

  pub event_trigger-on :
      (table : ℕ → List HandlerEntry) (ps : List ℕ) (es : List Event) (k : Kernel Mem) (e : Event)
      → e.type < event_count
      → address_for k ≢ 0
      → k.entries (address_for k) ≡ none
      → Holds k.entries ps es
      → k.queue_head ≡ first ps
      → k.queue_tail ≡ last ps
      → k.handlers ≡ table
      → Represents table (es ++ (e ∷ [])) (event_trigger A e.type e.payload k)
  event_trigger-on table [] (x ∷ es) k e known nz fresh h head tail t = absurd h
  event_trigger-on table [] [] k e known nz fresh h head tail t =
      let p = address_for k in
      rw (event_trigger-first k e known nz tail) (record {
        addresses = p ∷ [];
        holds = (nz, put_self k.entries p (entry_of e 0), tt, tt);
        head = refl;
        tail = refl;
        handlers = t;
      })
  event_trigger-on table (q ∷ ps) es k e known nz fresh h head tail t =
      let p = address_for k in
      let other = Holds-none k.entries p (q ∷ ps) es fresh h in
      let busy : k.queue_tail ≢ 0 = λ z. last_nz k.entries q ps es h (sym tail ∙ z) in
      rw (event_trigger-behind k e known nz busy) (record {
        addresses = q ∷ (ps ++ (p ∷ []));
        holds =
            subst
              (λ a.
                Holds (link a p (put k.entries p (entry_of e 0))) (q ∷ (ps ++ (p ∷ [])))
                  (es ++ (e ∷ [])))
              (sym tail) (Holds-snoc k.entries p e q ps es nz other h);
        head = head;
        tail = sym (last-snoc (q ∷ ps) p);
        handlers = t;
      })

  pub event_trigger-refused :
      (table : ℕ → List HandlerEntry) (es : List Event) (k : Kernel Mem) (event payload : ℕ)
      → (event_count ≤ event) ⊎ (address_for k ≡ 0)
      → Represents table es k
      → Represents table es (event_trigger A event payload k)
  unfolding event_trigger
  event_trigger-refused table es k event payload (inl unknown) h =
      let out : leb event_count event ≡ true = ground arith in rw out h
  event_trigger-refused table es k event payload (inr none_left) h =
      if_lem (Represents table es) (leb event_count event) k _ (λ _. h)
        λ _.
          let full : (address_for k == 0) ≡ true = ground arith in
          rw full (record {
            addresses = h.addresses;
            holds = h.holds;
            head = h.head;
            tail = h.tail;
            handlers = h.handlers;
          })

  -- What a turn does with the oldest event.
  abbrev pub Handled : (ℕ → List HandlerEntry) → List Event → List Call × ℕ × Kernel Mem → Type 0
  Handled table es (cs, p, k) =
      (e : Event) × (rest : List Event) × (es ≡ e ∷ rest)
      × (cs ≡ calls_of e.type e.payload (table e.type))
      × Represents table rest k

  -- The tail after the head was taken.
  tail_left :
      (s : Store EventEntry) (p : ℕ) (ps : List ℕ) (es : List Event) (tail : ℕ)
      → Holds s ps es
      → tail ≡ last (p ∷ ps)
      → (if first ps == 0 then 0 else tail) ≡ last ps
  tail_left s p [] es tail h e = refl
  tail_left s p (q ∷ ps) [] tail h e = absurd h
  tail_left s p (q ∷ ps) (x ∷ es) tail (nz, _, _, _) e =
      let more : (q == 0) ≡ false = ground arith in rw more e

  pub dispatcher_turn-Handled :
      (table : ℕ → List HandlerEntry) (ps : List ℕ) (es : List Event) (k : Kernel Mem) (entry : ℕ)
      → k.queue_head ≢ 0
      → Holds k.entries ps es
      → k.queue_head ≡ first ps
      → k.queue_tail ≡ last ps
      → k.handlers ≡ table
      → Post (Handled table es) (dispatcher_turn A entry k)
  dispatcher_turn-Handled table [] es k entry some_left h head tail t = absurd (some_left head)
  dispatcher_turn-Handled table (p ∷ ps) [] k entry some_left h head tail t = absurd h
  dispatcher_turn-Handled table (p ∷ ps) (e ∷ es) k entry some_left (nz, at, apart, rest) head tail
        t =
      rw (dispatcher_turn-queue A entry p (entry_of e (first ps)) k head nz at) (
        e,
        es,
        refl,
        ap (λ h. calls_of e.type e.payload (h e.type)) t,
        record {
          addresses = ps;
          holds = Holds-drop k.entries p ps es apart rest;
          head = refl;
          tail = tail_left k.entries p ps es k.queue_tail rest tail;
          handlers = t;
        },
      )

  -- The dispatcher has an outcome while events are left.
  pub Represents-turns :
      (table : ℕ → List HandlerEntry) (ps : List ℕ) (es : List Event) (k : Kernel Mem) (entry : ℕ)
      → Holds k.entries ps es
      → k.queue_head ≡ first ps
      → (es ≡ []) ⊎ Total (dispatcher_turn A entry k)
  Represents-turns table [] [] k entry h head = inl refl
  Represents-turns table [] (e ∷ es) k entry h head = absurd h
  Represents-turns table (p ∷ ps) [] k entry h head = absurd h
  Represents-turns table (p ∷ ps) (e ∷ es) k entry (nz, at, _, _) head =
      inr (rw (dispatcher_turn-queue A entry p (entry_of e (first ps)) k head nz at) tt)
