-- ===== src/Support/Events/Delivery.antt =====
-- Which subscribers of events.go receive an event.
use mailview.Prelude.{
  ◌≤◌, ◌≡◌, refl, ap, true, List, [], ◌∷◌, ◌++◌, map, if◌then◌else◌, all, length, length-append,
  arith, Bool-cases, inl, inr, All,
}
use mailview.Support.Events.{Event, Subscriber, capacity, has_room, send, publish}

-- The subscribers before the first full queue, and the others.
unfoldable pub reached : List Subscriber → List Subscriber
reached [] = []
reached (s ∷ subs) = let rest = reached subs in if has_room s then s ∷ rest else []

unfoldable pub unreached : List Subscriber → List Subscriber
unreached [] = []
unreached (s ∷ subs) = let rest = unreached subs in if has_room s then rest else s ∷ subs

abbrev pub IsBounded : Subscriber → Type 0
IsBounded s = length s.queue ≤ capacity

publish_ok : (e : Event) (subs : List Subscriber) → (publish e subs).0 ≡ all has_room subs
unfolding publish all
publish_ok e [] = refl
publish_ok e (s ∷ subs) = ground (arith, publish_ok e subs)

publish_queues :
    (e : Event) (subs : List Subscriber)
    → (publish e subs).1 ≡ map (send e) (reached subs) ++ unreached subs
unfolding publish reached unreached
publish_queues e [] = refl
publish_queues e (s ∷ subs) = elim (Bool-cases (has_room s)) [
  | inl r ↦ rw r (ap (λ z. send e s ∷ z) (publish_queues e subs))
  | inr r ↦ rw r refl
]

-- An event reaches the subscribers before the first one with a full queue, in the order of the walk,
-- and none from there on; it is published without an error exactly when no queue is full.
pub publish_lem :
    (e : Event) (subs : List Subscriber)
    → (publish e subs).1 ≡ map (send e) (reached subs) ++ unreached subs
      × ((publish e subs).0 ≡ all has_room subs)
publish_lem e subs = (publish_queues e subs, publish_ok e subs)

send-IsBounded : (e : Event) (s : Subscriber) → has_room s ≡ true → IsBounded (send e s)
send-IsBounded e s h = ground (arith, length-append s.queue (e ∷ []))

-- No queue grows past its capacity, whether or not the event was published to all.
pub publish-IsBounded :
    (e : Event) (subs : List Subscriber) → All IsBounded subs → All IsBounded (publish e subs).1
unfolding publish
publish-IsBounded e [] h = tt
publish-IsBounded e (s ∷ subs) h = elim (Bool-cases (has_room s)) [
  | inl r ↦ rw r (send-IsBounded e s r, publish-IsBounded e subs h.1)
  | inr r ↦ rw r h
]
