-- ===== src/Support/Events.antt =====
-- internal/events/events.go: the event hub. A channel is the queue of what was sent and not yet read;
-- the order in which Go walks the map of subscribers is the order of the list.
pub mod Delivery
use mailview.Prelude.{
  ℕ, Bool, true, false, not, List, [], ◌∷◌, ◌++◌, ltb, if◌then◌else◌, Bytes, any, filter, length,
  str_eq, codes, contains,
}

-- `Event`, without the data of other packages
pub record Event : Type 0 where
  pub id : Bytes
  pub type : Bytes
  pub message : Bytes

pub record Subscriber : Type 0 where
  pub id : Bytes
  pub queue : List Event

abbrev pub capacity : ℕ
capacity = 100

abbrev pub has_room : Subscriber → Bool
has_room s = ltb (length s.queue) capacity

abbrev pub send : Event → Subscriber → Subscriber
send e s = record s { queue = s.queue ++ e ∷ [] }

abbrev pub is_id : Bytes → Subscriber → Bool
is_id id s = str_eq s.id id

-- `Subscribe`: a second subscription with an id keeps the first one's channel.
unfoldable pub subscribe : Bytes → List Subscriber → List Subscriber
unfolding any
subscribe id subs =
    if any (is_id id) subs then subs else subs ++ record { id = id; queue = [] } ∷ []

-- `Unsubscribe`
unfoldable pub unsubscribe : Bytes → List Subscriber → List Subscriber
unsubscribe id subs = filter (λ s. not (is_id id s)) subs

-- `Publish`: whether it ended without an error, and the queues.
unfoldable pub publish : Event → List Subscriber → Bool × List Subscriber
publish e [] = (true, [])
publish e (s ∷ subs) =
    let rest = publish e subs in
    if has_room s then (rest.0, send e s ∷ rest.1) else (false, s ∷ subs)

-- `Write` of the error log's mirror: its result is not the hub's.
unfoldable pub write_error : Bytes → List Subscriber → List Subscriber
unfolding publish
write_error b subs =
    let published = publish (record { id = []; type = codes "error"; message = b }) subs in
    if contains b (codes "error") then published.1 else subs
