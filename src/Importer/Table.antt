-- ===== src/Importer/Table.antt =====
-- The statements of the bulk import (queries/subscribers.sql) on the subscribers and subscriptions of
-- the connection's tenant. A subscriber is known by the lowered e-mail, the key of the table; the ids
-- of the lists are distinct.
use mailview.Prelude.{
  ℕ, Bool, true, false, ◌&&◌, List, [], ◌∷◌, ◌==◌, if◌then◌else◌, Bytes, str_eq, to_lower, any,
  update,
}

pub data Mode : Type 0 where
  subscribe blocklist : Mode

pub data SubscriptionStatus : Type 0 where
  unconfirmed confirmed unsubscribed : SubscriptionStatus

pub record Options : Type 0 where
  pub mode : Mode
  pub sub_status : SubscriptionStatus
  pub list_ids : List ℕ
  pub overwrite_user_info : Bool
  pub overwrite_sub_status : Bool

-- A row of the queue.
pub record SubReq : Type 0 where
  pub email : Bytes
  pub name : Bytes
  pub attribs : Bytes

pub record Subscriber : Type 0 where
  pub email : Bytes
  pub name : Bytes
  pub attribs : Bytes
  pub is_blocklisted : Bool

-- subscriber_lists
pub record Subscription : Type 0 where
  pub email : Bytes
  pub list : ℕ
  pub status : SubscriptionStatus

pub record Tables : Type 0 where
  pub subscribers : List Subscriber
  pub subscriptions : List Subscription

abbrev pub same_email : Bytes → Bytes → Bool
same_email a b = str_eq (to_lower a) (to_lower b)

abbrev pub has_email : Bytes → Subscriber → Bool
has_email email s = same_email s.email email

-- INSERT … ON CONFLICT (tenant_id, lower(email)) DO UPDATE, with the row that it inserts, and what it
-- does to a row that is there
unfoldable pub upsert : Subscriber → (Subscriber → Subscriber) → List Subscriber → List Subscriber
upsert new change [] = new ∷ []
upsert new change (s ∷ ss) =
    if has_email new.email s then change s ∷ ss else s ∷ upsert new change ss

abbrev pub set_info : Bool → SubReq → Subscriber → Subscriber
set_info overwrite r s = if overwrite then record s { name = r.name; attribs = r.attribs } else s

abbrev pub as_row : Bool → SubReq → Subscriber
as_row is_blocklisted r = record {
  email = r.email;
  name = r.name;
  attribs = r.attribs;
  is_blocklisted = is_blocklisted;
}

-- One list of `subs`
unfoldable pub upsert_subscription : Bool → Subscription → List Subscription → List Subscription
upsert_subscription overwrite new [] = new ∷ []
upsert_subscription overwrite new (s ∷ ss) =
    if same_email s.email new.email && s.list == new.list
    then (if overwrite then record s { status = new.status } else s) ∷ ss
    else s ∷ upsert_subscription overwrite new ss

unfoldable pub upsert_subscriptions :
    Bool → Bytes → SubscriptionStatus → List ℕ → List Subscription → List Subscription
unfolding upsert_subscription
upsert_subscriptions overwrite email status [] ss = ss
upsert_subscriptions overwrite email status (l ∷ ls) ss =
    upsert_subscriptions overwrite email status ls
      (upsert_subscription overwrite (record { email = email; list = l; status = status }) ss)

abbrev pub is_blocked : Subscriber → Bool
is_blocked s = s.is_blocklisted

-- Is the row with the e-mail blocklisted?
abbrev pub blocked_in : Bytes → List Subscriber → Bool
blocked_in email ss = any (λ s. has_email email s && is_blocked s) ss

-- upsert-subscriber
unfoldable pub upsert_subscriber : Options → SubReq → Tables → Tables
unfolding upsert upsert_subscriptions
upsert_subscriber o r db =
    let rows = upsert (as_row false r) (set_info o.overwrite_user_info r) db.subscribers in
    record {
      subscribers = rows;
      subscriptions =
          upsert_subscriptions o.overwrite_sub_status r.email
            (if blocked_in r.email rows then SubscriptionStatus.unsubscribed else o.sub_status)
            o.list_ids db.subscriptions;
    }

-- upsert-blocklist-subscriber
unfoldable pub upsert_blocklist_subscriber : SubReq → Tables → Tables
unfolding upsert
upsert_blocklist_subscriber r db = record {
  subscribers = upsert (as_row true r) (λ s. record s { is_blocklisted = true }) db.subscribers;
  subscriptions =
      update (λ s. same_email s.email r.email)
        (λ s. record s { status = SubscriptionStatus.unsubscribed }) db.subscriptions;
}

abbrev by_mode : Mode → Options → SubReq → Tables → Tables
by_mode Mode.subscribe o r db = upsert_subscriber o r db
by_mode Mode.blocklist o r db = upsert_blocklist_subscriber r db

-- `stmt.Exec`
unfoldable pub exec_row : Options → SubReq → Tables → Tables
unfolding upsert_subscriber upsert_blocklist_subscriber
exec_row o r db = by_mode o.mode o r db
