-- ===== src/Commands/Broker/Queues.antt =====
-- What a subscriber finds in its queue.
use mathlib.Core.List.{append-nil}
use seasonal_weather.Prelude.{
  ℕ, suc, ◌-◌, ◌≤◌, ◌≡◌, refl, sym, ◌∙◌, ap, arith, List, [], ◌∷◌, ◌++◌, map, ltb, length,
  length-append, drop, All, inl, inr, Bool-cases,
}
use seasonal_weather.Commands.Broker.{Event, EventBroker, put_event, deliver, publish, publish_all}

-- the last 200 of a list
abbrev pub newest : List Event → List Event
newest items = drop (length items - 200) items

abbrev pub IsBounded : ℕ × List Event → Type 0
IsBounded subscriber = length subscriber.1 ≤ 200

length-put_event :
    (item : Event) (queue : List Event) → length queue ≤ 200 → length (put_event item queue) ≤ 200
unfolding put_event
length-put_event item [] h = omega arith
length-put_event item (oldest ∷ rest) h = ground (arith, length-append rest (item ∷ []))

append_step :
    (queue items : List Event) (item : Event)
    → (queue ++ item ∷ []) ++ items ≡ queue ++ item ∷ items
append_step [] items item = refl
append_step (x ∷ queue) items item = ap (λ l. x ∷ l) (append_step queue items item)

-- a full queue
newest_step :
    (oldest item : Event) (rest items : List Event)
    → suc (length rest) ≡ 200
    → newest (oldest ∷ (rest ++ item ∷ items)) ≡ newest (rest ++ item ∷ items)
newest_step oldest item rest items full =
    ap (λ n. drop n (oldest ∷ (rest ++ item ∷ items)))
      {x = suc (length (rest ++ item ∷ items)) - 200}
      {y = suc (length (rest ++ item ∷ items) - 200)}
      (omega (arith, length-append rest (item ∷ items)))

newest-put_event :
    (item : Event) (queue items : List Event)
    → length queue ≤ 200
    → newest (put_event item queue ++ items) ≡ newest (queue ++ item ∷ items)
unfolding put_event
newest-put_event item [] items h = refl
newest-put_event item (oldest ∷ rest) items h = elim (Bool-cases (ltb (suc (length rest)) 200)) [
  | inl room ↦ rw (room, put_event) (ap newest (append_step (oldest ∷ rest) items item))
  | inr full ↦
      rw (full, put_event)
        (ap newest (append_step rest items item)
          ∙ sym (newest_step oldest item rest items (ground (arith, full))))
]

-- each queue with what a run of events leaves in it
abbrev pub filled : List Event → List (ℕ × List Event) → List (ℕ × List Event)
filled items subscribers = map (λ (s : ℕ × List Event). (s.0, newest (s.1 ++ items))) subscribers

All-deliver :
    (item : Event) (subscribers : List (ℕ × List Event))
    → All IsBounded subscribers
    → All IsBounded (deliver item subscribers)
unfolding deliver
All-deliver item [] h = h
All-deliver item ((n, queue) ∷ subscribers) (b, h) =
    (length-put_event item queue b, All-deliver item subscribers h)

filled-deliver :
    (item : Event) (items : List Event) (subscribers : List (ℕ × List Event))
    → All IsBounded subscribers
    → filled items (deliver item subscribers) ≡ filled (item ∷ items) subscribers
unfolding deliver
filled-deliver item items [] h = refl
filled-deliver item items ((n, queue) ∷ subscribers) (b, h) =
    rw (newest-put_event item queue items b, filled-deliver item items subscribers h) refl

newest_short : (queue : List Event) → length queue ≤ 200 → queue ≡ newest queue
newest_short queue b = ap (λ n. drop n queue) {x = 0} {y = length queue - 200} (omega arith)

filled_none :
    (subscribers : List (ℕ × List Event))
    → All IsBounded subscribers
    → subscribers ≡ filled [] subscribers
filled_none [] h = refl
filled_none ((n, queue) ∷ subscribers) (b, h) =
    rw (append-nil queue, ← newest_short queue b)
      (ap (λ (l : List (ℕ × List Event)). (n, queue) ∷ l) (filled_none subscribers h))

-- After any number of events, the queue of every subscriber holds the newest 200 of what it had and the events
-- since, in their order: a full queue loses its oldest event and never the one that is published.
pub publish_all-newest :
    (items : List Event) (b : EventBroker)
    → All IsBounded b.subscribers
    → (publish_all items b).subscribers ≡ filled items b.subscribers
unfolding publish_all publish
publish_all-newest [] b h = filled_none b.subscribers h
publish_all-newest (item ∷ items) b h =
    publish_all-newest items (publish item b) (All-deliver item b.subscribers h)
    ∙ filled-deliver item items b.subscribers h
