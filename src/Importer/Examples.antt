-- ===== src/Importer/Examples.antt =====
-- Sessions of an import, and what a failed statement leaves.
use mailview.Prelude.{
  ◌≡◌, refl, true, false, List, [], ◌∷◌, map, Bytes, codes, any, str_eq, to_lower,
}
use mailview.Importer.Table.{
  Mode, SubscriptionStatus, Options, SubReq, Subscriber, Subscription, Tables, exec_row,
  upsert_subscriber, upsert, upsert_subscriptions, upsert_subscription,
}
use mailview.Importer.Session.{finished, failed, Answers, Progress, fresh, start, batch_loop}
use mailview.Importer.Session.Batches.{queued, IsCounted, start-counts}
use mailview.Importer.Session.Whole.{IsWell, IsComplete, start-finished}

abbrev well : Answers
well = record { begun = true; drawn = true; inserted = true; committed = true }

abbrev refused : Answers
refused = record well { inserted = false }

abbrev lost : Answers
lost = record well { committed = false }

abbrev opts : Options
opts = record {
  mode = Mode.subscribe;
  sub_status = SubscriptionStatus.unconfirmed;
  list_ids = 4 ∷ [];
  overwrite_user_info = true;
  overwrite_sub_status = false;
}

abbrev ask : Bytes → Bytes → SubReq
ask email name = record { email = email; name = name; attribs = [] }

-- One subscriber, who is blocklisted.
abbrev before : Tables
before = record {
  subscribers =
      record { email = codes "Ann@x.org"; name = codes "A"; attribs = []; is_blocklisted = true }
      ∷ [];
  subscriptions = [];
}

-- The same subscriber again, and a new one twice.
abbrev healthy : List (SubReq × Answers)
healthy =
    (ask (codes "ann@x.org") (codes "Ann"), well)
    ∷ ((ask (codes "bob@x.org") (codes "Bob"), well)
        ∷ ((ask (codes "bob@x.org") (codes "Rob"), well) ∷ []))

-- In batches of two the commit of the second batch fails.
abbrev queue : List (SubReq × Answers)
queue =
    (ask (codes "b@x.org") (codes "B"), well)
    ∷ ((ask (codes "c@x.org") (codes "C"), well)
        ∷ ((ask (codes "d@x.org") (codes "D"), well)
            ∷ ((ask (codes "e@x.org") (codes "E"), lost)
                ∷ ((ask (codes "f@x.org") (codes "F"), well) ∷ []))))

abbrev after : Progress
after = start opts 2 healthy true (fresh before)

-- Three rows are counted, and two subscribers stored, the first with its new name.
names : map (λ (s : Subscriber). s.name) after.stored.subscribers ≡ codes "Ann" ∷ (codes "Rob" ∷ [])
unfolding start batch_loop exec_row upsert_subscriber upsert str_eq to_lower
names = refl

three : after.imported ≡ 3
unfolding start batch_loop
three = refl

-- Who is blocklisted is not subscribed.
statuses :
    map (λ (s : Subscription). s.status) after.stored.subscriptions
    ≡ SubscriptionStatus.unsubscribed ∷ (SubscriptionStatus.unconfirmed ∷ [])
unfolding start batch_loop exec_row upsert_subscriber upsert upsert_subscriptions
    upsert_subscription str_eq to_lower any
statuses = refl

abbrev left : Progress
left = start opts 2 queue true (fresh before)

three_left : left.imported ≡ 3
unfolding start batch_loop
three_left = refl

-- The status does not tell of the batch that was lost.
lost_unnoticed : left.status ≡ finished
unfolding start batch_loop
lost_unnoticed = refl

-- A statement that fails within a batch ends the session as failed, without the batch.
broken :
    (start opts 2
      ((ask (codes "b@x.org") [], well) ∷ ((ask (codes "c@x.org") [], refused) ∷ []))
      true
      (fresh before)).status
    ≡ failed
unfolding start batch_loop
broken = refl

-- On the first row of a batch it ends the session as finished.
broken_unnoticed :
    (start opts 2
      ((ask (codes "b@x.org") [], refused) ∷ ((ask (codes "c@x.org") [], well) ∷ []))
      true
      (fresh before)).status
    ≡ finished
unfolding start batch_loop
broken_unnoticed = refl

start-counts_example : IsCounted opts before (queued queue) left
start-counts_example = start-counts opts 2 queue true before

all_well : IsWell well
all_well = record { opens = refl; draws = refl; inserts = refl; commits = refl }

start-finished_example : IsComplete opts before (queued healthy) after
start-finished_example = start-finished opts 2 healthy before (all_well, (all_well, (all_well, tt)))
