-- ===== src/Contacts/Tables.antt =====
-- The tables behind internal/mailview/dataplane/contacts.go (schema.sql, with the columns and keys
-- that migrations.go adds for tenants), and the statements that contacts.go makes.
use mailview.Prelude.{
  ℕ, Bool, not, ◌&&◌, List, [], ◌∷◌, ◌++◌, ◌==◌, if◌then◌else◌, Bytes, any, filter, update, str_eq,
  to_lower,
}

pub record ListRow : Type 0 where
  pub id : ℕ
  pub tenant : ℕ
  pub name : Bytes
  pub description : Bytes

pub data SubscriberStatus : Type 0 where
  enabled disabled blocklisted : SubscriberStatus

pub record Subscriber : Type 0 where
  pub id : ℕ
  pub tenant : ℕ
  pub email : Bytes
  pub name : Bytes
  pub status : SubscriberStatus

pub data LinkStatus : Type 0 where
  unconfirmed confirmed unsubscribed : LinkStatus

-- subscriber_lists
pub record Link : Type 0 where
  pub tenant : ℕ
  pub subscriber : ℕ
  pub list : ℕ
  pub status : LinkStatus

pub record ContactDb : Type 0 where
  pub lists : List ListRow
  pub subscribers : List Subscriber
  pub links : List Link

-- `id = ANY($2)`
abbrev pub among : List ℕ → ℕ → Bool
among ids id = any (λ i. i == id) ids

abbrev pub list_among : ℕ → List ℕ → ListRow → Bool
list_among t ids r = r.tenant == t && among ids r.id

abbrev pub subscriber_among : ℕ → List ℕ → Subscriber → Bool
subscriber_among t ids r = r.tenant == t && among ids r.id

-- The links that the foreign keys on (tenant_id, list_id) and (tenant_id, subscriber_id) take along.
abbrev pub link_of_lists : ℕ → List ℕ → Link → Bool
link_of_lists t ids l = l.tenant == t && among ids l.list

abbrev pub link_of_subscribers : ℕ → List ℕ → Link → Bool
link_of_subscribers t ids l = l.tenant == t && among ids l.subscriber

-- `DELETE FROM lists WHERE tenant_id=$1 AND id = ANY($2)`
abbrev pub remove_lists : ℕ → List ℕ → ContactDb → ContactDb
remove_lists t ids db = record db {
  lists = filter (λ r. not (list_among t ids r)) db.lists;
  links = filter (λ l. not (link_of_lists t ids l)) db.links;
}

-- `DELETE FROM subscribers WHERE tenant_id=$1 AND id = ANY($2)`
abbrev pub remove_subscribers : ℕ → List ℕ → ContactDb → ContactDb
remove_subscribers t ids db = record db {
  subscribers = filter (λ r. not (subscriber_among t ids r)) db.subscribers;
  links = filter (λ l. not (link_of_subscribers t ids l)) db.links;
}

-- `UPDATE subscribers SET … WHERE tenant_id=$1 AND id = ANY($2)`
abbrev pub change_subscribers : ℕ → List ℕ → (Subscriber → Subscriber) → ContactDb → ContactDb
change_subscribers t ids f db = record db {
  subscribers = update (subscriber_among t ids) f db.subscribers;
}

-- mv_subscribers_tenant_email_idx, on the rows other than `id`
abbrev pub email_taken : ℕ → ℕ → Bytes → Subscriber → Bool
email_taken t id email r =
    r.tenant == t && not (r.id == id) && str_eq (to_lower r.email) (to_lower email)

-- A link of one subscriber to one list. By the foreign key it has the subscriber's tenant.
abbrev pub is_link : ℕ → ℕ → ℕ → Link → Bool
is_link t s l x = x.tenant == t && x.subscriber == s && x.list == l

abbrev pub with_status : LinkStatus → Link → Link
with_status status l = record l { status = status }

-- `INSERT … ON CONFLICT (subscriber_id,list_id) DO UPDATE SET status=EXCLUDED.status`
abbrev pub upsert : ℕ → LinkStatus → ℕ → ℕ → List Link → List Link
upsert t status s l links =
    if any (is_link t s l) links
    then update (is_link t s l) (with_status status) links
    else links ++ (record { tenant = t; subscriber = s; list = l; status = status } ∷ [])

-- The rows of the cross join, for one subscriber and then for all.
unfoldable pub link_lists : ℕ → LinkStatus → ℕ → List ListRow → List Link → List Link
link_lists t status s [] links = links
link_lists t status s (l ∷ ls) links = link_lists t status s ls (upsert t status s l.id links)

unfoldable pub link_all : ℕ → LinkStatus → List Subscriber → List ListRow → List Link → List Link
link_all t status [] ls links = links
link_all t status (s ∷ ss) ls links = link_all t status ss ls (link_lists t status s.id ls links)
