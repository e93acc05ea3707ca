-- ===== src/Events/Bus/Delivery.antt =====
-- What the streams of the event bus hold.
use mathlib.Core.List.{append-nil, append_assoc}
use agentic_gpu_platform.Shared.{
  Bool, Bool-cases, List, Option, Option-cases, [], ap, arith, drop, false, get, get-put,
  if◌then◌else◌, inl, inr, length, length-append, none, put, refl, some, suc, sym, true, zero, ℕ,
  ◌++◌, ◌+◌, ◌<◌, ◌==◌, ◌or◌, ◌∙◌, ◌∷◌, ◌≡◌, ◌≤◌,
}
use agentic_gpu_platform.Events.{DomainEvent, is_terminal_for_run, run_id_of}
use agentic_gpu_platform.Events.Bus.{
  EventBus, Stream, is_full, offer, offer_all, offer_item, publish_one, put_item, unsubscribe,
}

-- The queue is no longer than the backlog.
abbrev pub IsBounded : (backlog : ℕ) → Stream → Type 0
IsBounded backlog s = length s.queue ≤ backlog

length-push :
    (backlog : ℕ) (entry : Option DomainEvent) (q : List (Option DomainEvent))
    → 0 < backlog
    → length q ≤ backlog
    → length ((if is_full backlog q then drop 1 q else q) ++ entry ∷ []) ≤ backlog
unfolding is_full
length-push backlog entry [] h k = ground arith
length-push backlog entry (x ∷ q) h k =
    ground (arith, length-append q (entry ∷ []), length-append (x ∷ q) (entry ∷ []))

put_item-IsBounded :
    (backlog : ℕ) (entry : Option DomainEvent) (s : Stream)
    → 0 < backlog
    → IsBounded backlog s
    → IsBounded backlog (put_item backlog entry s)
unfolding put_item
put_item-IsBounded backlog entry s h k = length-push backlog entry s.queue h k

-- An offer keeps the queue within the backlog.
pub offer_item-IsBounded :
    (backlog : ℕ) (event : DomainEvent) (s : Stream)
    → 0 < backlog
    → IsBounded backlog s
    → IsBounded backlog (offer_item backlog event s)
unfolding offer_item
offer_item-IsBounded backlog event s h k =
    let one = put_item-IsBounded backlog (some event) s h k in
    let last : Stream = record (put_item backlog (some event) s) { closed = true } in
    ground (arith, one, put_item-IsBounded backlog none last h one)

put_item-room :
    (backlog : ℕ) (entry : Option DomainEvent) (s : Stream)
    → length s.queue < backlog
    → put_item backlog entry s ≡ record s { queue = s.queue ++ entry ∷ [] }
unfolding put_item is_full
put_item-room backlog entry s h = ground arith

unfoldable pub offer_items : (backlog : ℕ) → List DomainEvent → Stream → Stream
offer_items backlog [] s = s
offer_items backlog (event ∷ rest) s = offer_items backlog rest (offer_item backlog event s)

-- The events up to the first that ends the run, that one included, and then the end of the stream.
unfoldable pub until_end : List DomainEvent → List (Option DomainEvent)
until_end [] = []
until_end (event ∷ rest) =
    let more = until_end rest in
    some event ∷ (if is_terminal_for_run event.body then none ∷ [] else more)

abbrev ends : DomainEvent → Bool
ends event = is_terminal_for_run event.body

offer_item-closed :
    (backlog : ℕ) (event : DomainEvent) (s : Stream)
    → s.closed ≡ true
    → offer_item backlog event s ≡ s
unfolding offer_item
offer_item-closed backlog event s h = ground arith

-- A closed stream takes nothing.
pub offer_items-closed :
    (backlog : ℕ) (events : List DomainEvent) (s : Stream)
    → s.closed ≡ true
    → offer_items backlog events s ≡ s
unfolding offer_items
offer_items-closed backlog [] s h = refl
offer_items-closed backlog (event ∷ rest) s h =
    ap (offer_items backlog rest) (offer_item-closed backlog event s h)
    ∙ offer_items-closed backlog rest s h

offer_item-last :
    (backlog : ℕ) (event : DomainEvent) (s : Stream)
    → s.closed ≡ false
    → is_terminal_for_run event.body ≡ true
    → length s.queue + 2 ≤ backlog
    → offer_item backlog event s
      ≡ record s { queue = (s.queue ++ some event ∷ []) ++ none ∷ []; closed = true }
unfolding offer_item
offer_item-last backlog event s h e k =
    let q1 = s.queue ++ some event ∷ [] in
    let s1 : Stream = record s { queue = q1; closed = true } in
    let one = put_item-room backlog (some event) s (omega arith) in
    let two =
      put_item-room backlog none s1 (omega (arith, length-append s.queue (some event ∷ []))) in
    ground (arith, one, two)

offer_item-goes :
    (backlog : ℕ) (event : DomainEvent) (s : Stream)
    → s.closed ≡ false
    → is_terminal_for_run event.body ≡ false
    → length s.queue + 1 ≤ backlog
    → offer_item backlog event s ≡ record s { queue = s.queue ++ some event ∷ [] }
unfolding offer_item
offer_item-goes backlog event s h e k =
    ground (arith, put_item-room backlog (some event) s (omega arith))

offer_items-open :
    (backlog : ℕ) (events : List DomainEvent) (s : Stream)
    → s.closed ≡ false
    → length s.queue + length (until_end events) ≤ backlog
    → (offer_items backlog events s).queue ≡ s.queue ++ until_end events
unfolding offer_items until_end
offer_items-open backlog [] s h k = sym (append-nil s.queue)
offer_items-open backlog (event ∷ rest) s h k = elim (Bool-cases (is_terminal_for_run event.body)) [
  | inl e ↦
      let room : length s.queue + 2 ≤ backlog = ground arith in
      let done : Stream = record s {
        queue = (s.queue ++ some event ∷ []) ++ none ∷ [];
        closed = true;
      } in
      rw
        (
          offer_items,
          offer_item-last backlog event s h e room,
          offer_items-closed backlog rest done refl,
          e,
        )
        (append_assoc s.queue (some event ∷ []) (none ∷ []))
  | inr e ↦
      let room : length s.queue + 1 + length (until_end rest) ≤ backlog = ground arith in
      let more : Stream = record s { queue = s.queue ++ some event ∷ [] } in
      let fits : length more.queue + length (until_end rest) ≤ backlog =
        omega (arith, room, length-append s.queue (some event ∷ [])) in
      rw (offer_items, offer_item-goes backlog event s h e (omega (arith, room)), e)
        (offer_items-open backlog rest more h fits
          ∙ append_assoc s.queue (some event ∷ []) (until_end rest))
]

-- A new stream that is offered events, with room in its backlog, holds exactly those up to the
-- first that ends the run, that one included, and then the end of the stream.
pub offer_items-new :
    (backlog run_id : ℕ) (events : List DomainEvent)
    → length (until_end events) ≤ backlog
    → (offer_items backlog events (record { run_id = run_id; queue = []; closed = false })).queue
      ≡ until_end events
offer_items-new backlog run_id events h =
    let new : Stream = record { run_id = run_id; queue = []; closed = false } in
    offer_items-open backlog events new refl (omega (arith, h))

-- How often a stream stands in a list.
unfoldable pub occurrences : ℕ → List ℕ → ℕ
occurrences n [] = 0
occurrences n (m ∷ ms) = let rest = occurrences n ms in if m == n then suc rest else rest

abbrev pub offered? : (backlog : ℕ) → DomainEvent → Option Stream → Option Stream
offered? backlog event none = none
offered? backlog event (some s) = some (offer_item backlog event s)

unsubscribe-rest :
    (bus : EventBus) (stream run_id : ℕ)
    → ((unsubscribe bus stream run_id).streams ≡ bus.streams)
      × ((unsubscribe bus stream run_id).backlog ≡ bus.backlog)
unfolding unsubscribe
unsubscribe-rest bus stream run_id = ground arith

get-offer :
    (bus : EventBus) (m n : ℕ) (event : DomainEvent)
    → get n (offer bus m event).streams
      ≡ (if m == n then offered? bus.backlog event (get n bus.streams) else get n bus.streams)
unfolding offer
get-offer bus m n event = elim (Option-cases (get m bus.streams)) [
  | inl e ↦ ground (arith, e)
  | inr (s, e) ↦
      let kept : EventBus = record bus {
        streams = put m (offer_item bus.backlog event s) bus.streams;
      } in
      ground (
        arith,
        e,
        (unsubscribe-rest kept m s.run_id).0,
        get-put m n (offer_item bus.backlog event s) bus.streams,
      )
]

offer-backlog :
    (bus : EventBus) (m : ℕ) (event : DomainEvent) → (offer bus m event).backlog ≡ bus.backlog
unfolding offer unsubscribe
offer-backlog bus m event = ground arith

again : (backlog : ℕ) → DomainEvent → ℕ → Option Stream → Option Stream
again backlog event zero o = o
again backlog event (suc k) o = again backlog event k (offered? backlog event o)

get-offer_all :
    (bus : EventBus) (ms : List ℕ) (n : ℕ) (event : DomainEvent)
    → get n (offer_all bus ms event).streams
      ≡ again bus.backlog event (occurrences n ms) (get n bus.streams)
unfolding offer_all again occurrences offer
get-offer_all bus [] n event = refl
get-offer_all bus (m ∷ ms) n event =
    let rest = get-offer_all (offer bus m event) ms n event in
    elim (Bool-cases (m == n)) [
      | inl e ↦ rw e (rw (offer-backlog bus m event, get-offer bus m n event, e) at rest)
      | inr e ↦ rw e (rw (offer-backlog bus m event, get-offer bus m n event, e) at rest)
    ]

again-once :
    (backlog : ℕ) (event : DomainEvent) (k : ℕ) (o : Option Stream)
    → k ≤ 1
    → again backlog event k o ≡ (if k == 1 then offered? backlog event o else o)
unfolding again
again-once backlog event zero o h = ground arith
again-once backlog event (suc zero) o h = ground arith
again-once backlog event (suc (suc k)) o h = absurd (omega arith)

-- An event of a run is offered once to a stream that subscribed to the run once, and to no stream
-- that did not.
pub get-publish_one :
    (bus : EventBus) (n run_id : ℕ) (event : DomainEvent)
    → run_id_of event.body ≡ some run_id
    → occurrences n (get run_id bus.subscribers or []) ≤ 1
    → get n (publish_one bus event).streams ≡ (
        if occurrences n (get run_id bus.subscribers or []) == 1
        then offered? bus.backlog event (get n bus.streams)
        else get n bus.streams)
unfolding publish_one
get-publish_one bus n run_id event h k =
    rw (publish_one, h)
      (get-offer_all bus (get run_id bus.subscribers or []) n event
        ∙ again-once bus.backlog event _ (get n bus.streams) k)

-- An event without a run, such as one of a worker, reaches no stream.
pub publish_one-none :
    (bus : EventBus) (event : DomainEvent)
    → run_id_of event.body ≡ none
    → publish_one bus event ≡ bus
unfolding publish_one
publish_one-none bus event h = rw (publish_one, h) refl
