-- ===== src/Commands/Broker.antt =====
-- seasonalweather/api/commands.py: `EventBroker`, which keeps a bounded queue for each subscriber.
pub mod Queues
use seasonal_weather.Prelude.{
  ℕ, Option, zero, suc, ◌+◌, ◌-◌, ◌≤◌, ◌≡◌, refl, arith, Bool, true, false, not, List, [], ◌∷◌,
  ◌++◌, map, keep, if◌then◌else◌, leb, ltb, ◌==◌, length, drop, All, Text,
}

-- the detail is the actor, the result or the error, of the events that have one
pub record Event : Type 0 where
  pub event_type : Text
  pub command_id : Text
  pub command_type : Text
  pub request_id : Text
  pub detail : Option Text
  pub emitted_at : Text

-- the queues by the number of the subscription
-- the detail is the actor, the result or the error, of the events that have one
pub record EventBroker : Type 0 where
  pub subscribers : List (ℕ × List Event)
  pub next_number : ℕ

pub new_broker : EventBroker
new_broker = record { subscribers = []; next_number = 0 }

-- `maxsize`
abbrev pub max_queue : ℕ
max_queue = 200

pub subscribe : EventBroker → ℕ × EventBroker
subscribe b = (
  b.next_number,
  record {
    subscribers = b.subscribers ++ (b.next_number, []) ∷ [];
    next_number = suc b.next_number;
  },
)

pub unsubscribe : ℕ → EventBroker → EventBroker
unsubscribe n b = record b { subscribers = keep (λ q. not (q.0 == n)) b.subscribers }

-- `put_nowait`; where the queue is full, the oldest event makes room
pub put_event : Event → List Event → List Event
put_event item [] = item ∷ []
put_event item (oldest ∷ rest) =
    if ltb (suc (length rest)) max_queue then (oldest ∷ rest) ++ item ∷ [] else rest ++ item ∷ []

pub deliver : Event → List (ℕ × List Event) → List (ℕ × List Event)
deliver item [] = []
deliver item ((n, queue) ∷ subscribers) = (n, put_event item queue) ∷ deliver item subscribers

pub publish : Event → EventBroker → EventBroker
publish item b = record b { subscribers = deliver item b.subscribers }

pub publish_all : List Event → EventBroker → EventBroker
publish_all [] b = b
publish_all (item ∷ items) b = publish_all items (publish item b)
