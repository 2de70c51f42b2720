-- ===== src/Contacts/Service.antt =====
-- internal/mailview/dataplane/contacts.go: the operations on lists and subscribers of the request's
-- tenant. New ids are arguments; the errors that the source only words are `not_found`.
use mailview.Prelude.{
  ℕ, Bool, not, ◌&&◌, ◌||◌, Option, none, some, List, [], ◌∷◌, ◌++◌, ◌==◌, ltb, leb, if◌then◌else◌,
  Bytes, codes, any, all, filter, find, update, length, str_eq, is_empty, to_lower, trim_space,
  contains, Tx, invalid, not_found, no_rows, external_failure, ◌>>=◌, ◌>>◌, exec, gets, guard, pure,
  raise, some_or,
}
use mailview.Tenancy.{Context, with_tenant}
use mailview.Contacts.Tables.{
  ListRow, Subscriber, enabled, blocklisted, Link, LinkStatus, unconfirmed, confirmed, unsubscribed,
  ContactDb, list_among, subscriber_among, remove_lists, remove_subscribers, change_subscribers,
  email_taken, is_link, with_status, link_all, among,
}

pub record ListInput : Type 0 where
  pub name : Bytes
  pub description : Bytes

pub record SubscriberInput : Type 0 where
  pub email : Bytes
  pub name : Bytes
  pub list_ids : List ℕ

abbrev pub email_of : SubscriberInput → Bytes
email_of input = to_lower (trim_space input.email)

abbrev pub valid_subscriber : SubscriberInput → Bool
valid_subscriber input =
    contains (email_of input) (codes "@") && not (is_empty (trim_space input.name))

-- `validIDs`
abbrev pub valid_ids : List ℕ → Bool
valid_ids ids = ltb 0 (length ids) && all (λ id. leb 1 id) ids

-- The number of a tenant's rows with one of the ids, by which `RowsAffected` is compared.
abbrev pub count_lists : ℕ → List ℕ → ContactDb → ℕ
count_lists t ids db = length (filter (list_among t ids) db.lists)

abbrev pub count_subscribers : ℕ → List ℕ → ContactDb → ℕ
count_subscribers t ids db = length (filter (subscriber_among t ids) db.subscribers)

abbrev pub new_list : ℕ → ℕ → ListInput → ListRow
new_list id t input = record {
  id = id;
  tenant = t;
  name = trim_space input.name;
  description = trim_space input.description;
}

abbrev pub new_subscriber : ℕ → ℕ → SubscriberInput → Subscriber
new_subscriber id t input = record {
  id = id;
  tenant = t;
  email = email_of input;
  name = trim_space input.name;
  status = enabled;
}

unfoldable pub create_list_body : ℕ → ListInput → Context → Tx ContactDb ListRow
create_list_body id input ctx = do
  exec (λ (db : ContactDb). record db { lists = db.lists ++ new_list id ctx.tenant input ∷ [] })
  pure (new_list id ctx.tenant input)

-- `CreateList`
unfoldable pub create_list : ℕ → ListInput → Option Context → Tx ContactDb ListRow
create_list id input scope = do
  guard (not (is_empty (trim_space input.name)) && leb (length (trim_space input.name)) 160) invalid
  with_tenant scope (create_list_body id input)

-- `ListLists` and `ListSubscribers`
unfoldable pub list_lists : Option Context → Tx ContactDb (List ListRow)
list_lists scope =
    with_tenant scope λ ctx. gets (λ db. filter (λ r. r.tenant == ctx.tenant) db.lists)

unfoldable pub list_subscribers : Option Context → Tx ContactDb (List Subscriber)
list_subscribers scope =
    with_tenant scope λ ctx. gets (λ db. filter (λ r. r.tenant == ctx.tenant) db.subscribers)

abbrev pub new_link : ℕ → ℕ → ℕ → Link
new_link t s l = record { tenant = t; subscriber = s; list = l; status = confirmed }

-- One round of the loop over `ListIDs`.
unfoldable pub join_list : ℕ → ℕ → ℕ → Tx ContactDb Unit
join_list t s id = do
  guard (leb 1 id) invalid
  found ← gets (λ (db : ContactDb). any (list_among t (id ∷ [])) db.lists)
  guard found not_found
  old ← gets (λ (db : ContactDb). any (is_link t s id) db.links)
  guard (not old) external_failure
  exec (λ (db : ContactDb). record db { links = db.links ++ new_link t s id ∷ [] })

unfoldable pub join_lists : ℕ → ℕ → List ℕ → Tx ContactDb Unit
join_lists t s [] = pure tt
join_lists t s (id ∷ ids) = join_list t s id >> join_lists t s ids

unfoldable pub create_subscriber_body : ℕ → SubscriberInput → Context → Tx ContactDb Subscriber
create_subscriber_body id input ctx = do
  taken ← gets (λ (db : ContactDb). any (email_taken ctx.tenant id (email_of input)) db.subscribers)
  guard (not taken) external_failure
  exec (λ (db : ContactDb). record db {
    subscribers = db.subscribers ++ new_subscriber id ctx.tenant input ∷ [];
  })
  join_lists ctx.tenant id input.list_ids
  pure (new_subscriber id ctx.tenant input)

-- `CreateSubscriber`
unfoldable pub create_subscriber : ℕ → SubscriberInput → Option Context → Tx ContactDb Subscriber
create_subscriber id input scope = do
  guard (valid_subscriber input) invalid
  with_tenant scope (create_subscriber_body id input)

-- `GetList` and `GetSubscriber`
unfoldable pub get_list : ℕ → Option Context → Tx ContactDb ListRow
get_list id scope = with_tenant scope λ ctx. do
  row ← gets (λ (db : ContactDb). find (list_among ctx.tenant (id ∷ [])) db.lists)
  some_or row no_rows

unfoldable pub get_subscriber : ℕ → Option Context → Tx ContactDb Subscriber
get_subscriber id scope = with_tenant scope λ ctx. do
  row ← gets (λ (db : ContactDb). find (subscriber_among ctx.tenant (id ∷ [])) db.subscribers)
  some_or row no_rows

abbrev pub renamed : ListInput → ListRow → ListRow
renamed input r = record r {
  name = trim_space input.name;
  description = trim_space input.description;
}

unfoldable pub update_list_body : ℕ → ListInput → Context → Tx ContactDb ListRow
update_list_body id input ctx = do
  exec (λ (db : ContactDb). record db {
    lists = update (list_among ctx.tenant (id ∷ [])) (renamed input) db.lists;
  })
  row ← gets (λ (db : ContactDb). find (list_among ctx.tenant (id ∷ [])) db.lists)
  some_or row no_rows

-- `UpdateList`
unfoldable pub update_list : ℕ → ListInput → Option Context → Tx ContactDb ListRow
update_list id input scope = do
  guard (leb 1 id && not (is_empty (trim_space input.name))) invalid
  with_tenant scope (update_list_body id input)

abbrev pub edited : SubscriberInput → Subscriber → Subscriber
edited input r = record r { email = email_of input; name = trim_space input.name }

unfoldable pub update_subscriber_body : ℕ → SubscriberInput → Context → Tx ContactDb Subscriber
update_subscriber_body id input ctx = do
  taken ← gets (λ (db : ContactDb). any (email_taken ctx.tenant id (email_of input)) db.subscribers)
  found ← gets (λ (db : ContactDb). any (subscriber_among ctx.tenant (id ∷ [])) db.subscribers)
  guard (not (found && taken)) external_failure
  exec (change_subscribers ctx.tenant (id ∷ []) (edited input))
  row ← gets (λ (db : ContactDb). find (subscriber_among ctx.tenant (id ∷ [])) db.subscribers)
  some_or row no_rows

-- `UpdateSubscriber`
unfoldable pub update_subscriber : ℕ → SubscriberInput → Option Context → Tx ContactDb Subscriber
update_subscriber id input scope = do
  guard (leb 1 id && valid_subscriber input) invalid
  with_tenant scope (update_subscriber_body id input)

unfoldable pub delete_lists_body : List ℕ → Context → Tx ContactDb Unit
delete_lists_body ids ctx = do
  n ← gets (count_lists ctx.tenant ids)
  exec (remove_lists ctx.tenant ids)
  guard (n == length ids) not_found

-- `DeleteList`, for ids that are one, and `DeleteLists`
unfoldable pub delete_list : ℕ → Option Context → Tx ContactDb Unit
delete_list id scope = with_tenant scope (delete_lists_body (id ∷ []))

unfoldable pub delete_lists : List ℕ → Option Context → Tx ContactDb Unit
delete_lists ids scope = do guard (valid_ids ids) invalid; with_tenant scope (delete_lists_body ids)

unfoldable pub delete_subscribers_body : List ℕ → Context → Tx ContactDb Unit
delete_subscribers_body ids ctx = do
  n ← gets (count_subscribers ctx.tenant ids)
  exec (remove_subscribers ctx.tenant ids)
  guard (n == length ids) not_found

-- `DeleteSubscriber` and `DeleteSubscribers`
unfoldable pub delete_subscriber : ℕ → Option Context → Tx ContactDb Unit
delete_subscriber id scope = with_tenant scope (delete_subscribers_body (id ∷ []))

unfoldable pub delete_subscribers : List ℕ → Option Context → Tx ContactDb Unit
delete_subscribers ids scope = do
  guard (valid_ids ids) invalid
  with_tenant scope (delete_subscribers_body ids)

abbrev pub blocked : Subscriber → Subscriber
blocked r = record r { status = blocklisted }

unfoldable pub blocklist_body : List ℕ → Context → Tx ContactDb Unit
blocklist_body ids ctx = do
  n ← gets (count_subscribers ctx.tenant ids)
  exec (change_subscribers ctx.tenant ids blocked)
  guard (n == length ids) not_found

-- `BlocklistSubscribers`
unfoldable pub blocklist_subscribers : List ℕ → Option Context → Tx ContactDb Unit
blocklist_subscribers ids scope = do
  guard (valid_ids ids) invalid
  with_tenant scope (blocklist_body ids)

-- The texts of `action`; any other is invalid.
pub data Action : Type 0 where
  add remove unsubscribe other : Action

abbrev pub chosen : ℕ → List ℕ → List ℕ → Link → Bool
chosen t ss ls l = l.tenant == t && among ss l.subscriber && among ls l.list

abbrev pub joined : ℕ → LinkStatus → List ℕ → List ℕ → ContactDb → ContactDb
joined t status ss ls db = record db {
  links =
      link_all t status (filter (subscriber_among t ss) db.subscribers)
        (filter (list_among t ls) db.lists) db.links;
}

abbrev pub act : Action → ℕ → LinkStatus → List ℕ → List ℕ → Tx ContactDb Unit
act add t status ss ls = exec (joined t status ss ls)
act remove t status ss ls =
    exec (λ (db : ContactDb). record db { links = filter (λ l. not (chosen t ss ls l)) db.links })
act unsubscribe t status ss ls = exec (λ (db : ContactDb). record db {
  links = update (chosen t ss ls) (with_status unsubscribed) db.links;
})
act other t status ss ls = raise invalid

unfoldable pub manage_body : List ℕ → List ℕ → Action → LinkStatus → Context → Tx ContactDb Unit
manage_body ss ls action status ctx = do
  n ← gets (count_subscribers ctx.tenant ss)
  guard (n == length ss) not_found
  m ← gets (count_lists ctx.tenant ls)
  guard (m == length ls) not_found
  act action ctx.tenant status ss ls

-- The status that is asked for, `confirmed` when it is empty.
abbrev pub status_of : Bytes → Option LinkStatus
status_of s =
    if is_empty s || str_eq s (codes "confirmed")
    then some confirmed
    else if str_eq s (codes "unconfirmed")
    then some unconfirmed
    else if str_eq s (codes "unsubscribed")
    then some unsubscribed
    else none

-- `ManageSubscriberLists`
unfoldable pub manage_subscriber_lists :
    List ℕ → List ℕ → Action → Bytes → Option Context → Tx ContactDb Unit
manage_subscriber_lists ss ls action status scope = do
  guard (valid_ids ss && valid_ids ls) invalid
  wanted ← some_or (status_of status) invalid
  with_tenant scope (manage_body ss ls action wanted)
