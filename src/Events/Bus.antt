-- ===== src/Events/Bus.antt =====
-- src/infrastructure/queue/in_memory.py, `InMemoryEventBus` and `InMemoryRunEventStream`. The streams
-- are objects that the bus and the subscribers share: a stream is a number, and the state holds what
-- every stream is. The entry `none` of a queue is the end of the stream.
pub mod Delivery
use agentic_gpu_platform.Shared.{
  Bool, List, Map, Option, [], drop, false, get, if◌then◌else◌, is_empty, leb, length, ltb, none,
  not, pop, put, some, true, ℕ, ◌&&◌, ◌++◌, ◌==◌, ◌or◌, ◌∷◌,
}
use agentic_gpu_platform.Events.{DomainEvent, is_terminal_for_run, run_id_of}

pub record Stream : Type 0 where
  pub run_id : ℕ
  pub queue : List (Option DomainEvent)
  pub closed : Bool

pub record EventBus : Type 0 where
  pub backlog : ℕ
  pub subscribers : Map (List ℕ)
  pub streams : Map Stream

-- `asyncio.Queue.full`: a queue of size 0 is never full.
unfoldable pub is_full : (backlog : ℕ) → List (Option DomainEvent) → Bool
is_full backlog queue = ltb 0 backlog && leb backlog (length queue)

-- `_put`: a full queue loses its oldest entry.
unfoldable pub put_item : (backlog : ℕ) → Option DomainEvent → Stream → Stream
put_item backlog entry s = record s {
  queue = (if is_full backlog s.queue then drop 1 s.queue else s.queue) ++ entry ∷ [];
}

-- `streams.remove(stream)`
unfoldable pub remove : ℕ → List ℕ → List ℕ
remove n [] = []
remove n (m ∷ ms) = let rest = remove n ms in if m == n then ms else m ∷ rest

-- `_unsubscribe`
unfoldable pub unsubscribe : EventBus → (stream run_id : ℕ) → EventBus
unfolding remove
unsubscribe bus stream run_id = elim (get run_id bus.subscribers) [
  | none ↦ bus
  | some streams ↦
      let left = remove stream streams in
      record bus {
        subscribers =
            if is_empty left then pop run_id bus.subscribers else put run_id left bus.subscribers;
      }
]

-- What `offer` makes of the stream itself.
unfoldable pub offer_item : (backlog : ℕ) → DomainEvent → Stream → Stream
offer_item backlog event s =
    if s.closed
    then s
    else if is_terminal_for_run event.body
    then put_item backlog none (record (put_item backlog (some event) s) { closed = true })
    else put_item backlog (some event) s

-- `offer`
unfoldable pub offer : EventBus → (stream : ℕ) → DomainEvent → EventBus
offer bus stream event = elim (get stream bus.streams) [
  | none ↦ bus
  | some s ↦
      let kept = record bus { streams = put stream (offer_item bus.backlog event s) bus.streams } in
      if not s.closed && is_terminal_for_run event.body
      then unsubscribe kept stream s.run_id
      else kept
]

unfoldable pub offer_all : EventBus → List ℕ → DomainEvent → EventBus
offer_all bus [] event = bus
offer_all bus (stream ∷ rest) event = offer_all (offer bus stream event) rest event

-- The loop of `publish` for one event, over a copy of the run's subscribers.
unfoldable pub publish_one : EventBus → DomainEvent → EventBus
publish_one bus event = elim (run_id_of event.body) [
  | none ↦ bus
  | some run_id ↦ offer_all bus (get run_id bus.subscribers or []) event
]

unfoldable pub publish : EventBus → List DomainEvent → EventBus
publish bus [] = bus
publish bus (event ∷ rest) = publish (publish_one bus event) rest

-- `subscribe`: a stream with a number that no other has.
unfoldable pub subscribe : EventBus → (stream run_id : ℕ) → EventBus
subscribe bus stream run_id =
    let s : Stream = record { run_id = run_id; queue = []; closed = false } in
    record bus {
      subscribers = put run_id ((get run_id bus.subscribers or []) ++ stream ∷ []) bus.subscribers;
      streams = put stream s bus.streams;
    }

-- `__anext__`, where the queue has an entry; `none` stops the iteration.
unfoldable pub next_item : Stream → Option (Stream × Option DomainEvent)
next_item s = elim s.queue [ [] ↦ none | entry ∷ rest ↦ some (record s { queue = rest }, entry) ]

-- `aclose`
unfoldable pub aclose : EventBus → (stream : ℕ) → EventBus
unfolding unsubscribe put_item
aclose bus stream = elim (get stream bus.streams) [
  | none ↦ bus
  | some s ↦
      let left = unsubscribe bus stream s.run_id in
      record left {
        streams = put stream (put_item bus.backlog none (record s { closed = true })) left.streams;
      }
]
