-- ===== src/Contacts/Linked.antt =====
-- Every subscription in the tables of contacts.go is one of a subscriber to a list of the same tenant.
use mailview.Prelude.{
  ℕ, ◌≡◌, refl, ap, ◌∙◌, Bool, true, false, not, ◌&&◌, Option, List, [], ◌∷◌, ◌++◌, ◌==◌, any,
  filter, update, arith, All, All-concat, All-update_each, any-update, any-filter_kept,
  any-concat_kept, any-mem, Memᴰ, Bool-cases, inl, inr,
}
use mailview.Tenancy.{Context}
use mailview.Contacts.Tables.{
  ListRow, Subscriber, Link, LinkStatus, ContactDb, list_among, subscriber_among, link_of_lists,
  link_of_subscribers, is_link, with_status, link_all, link_lists, upsert, among,
}
use mailview.Contacts.Service.{chosen, renamed, edited, blocked, new_link}
use mailview.Contacts.Requests.{
  Statement, add_list, change_list, drop_lists, add_subscriber, change_subscriber, block,
  drop_subscribers, link, join, unlink, set_status, Statements, stay, next, Request, serve,
  serve-Statements, serve_all,
}

abbrev pub is_list : ℕ → ℕ → ListRow → Bool
is_list t id r = r.tenant == t && r.id == id

abbrev pub is_subscriber : ℕ → ℕ → Subscriber → Bool
is_subscriber t id r = r.tenant == t && r.id == id

-- The list and the subscriber of a link stand in the tables, with the link's tenant.
abbrev pub Joins : List ListRow → List Subscriber → Link → Type 0
Joins lists subscribers l =
    (any (is_list l.tenant l.list) lists ≡ true)
    × (any (is_subscriber l.tenant l.subscriber) subscribers ≡ true)

abbrev pub IsLinked : ContactDb → Type 0
IsLinked db = All (Joins db.lists db.subscribers) db.links

-- Where the rows that links need are kept, so are the links.
All-Joins_map :
    (ls ls' : List ListRow) (ss ss' : List Subscriber)
    → ((t id : ℕ) → any (is_list t id) ls ≡ true → any (is_list t id) ls' ≡ true)
    → ((t id : ℕ) → any (is_subscriber t id) ss ≡ true → any (is_subscriber t id) ss' ≡ true)
    → (links : List Link) → All (Joins ls ss) links
    → All (Joins ls' ss') links
All-Joins_map ls ls' ss ss' f g [] h = tt
All-Joins_map ls ls' ss ss' f g (l ∷ links) h = (
  (f l.tenant l.list h.0.0, g l.tenant l.subscriber h.0.1),
  All-Joins_map ls ls' ss ss' f g links h.1,
)

All-filter_each :
    {P Q : Link → Type 0} (p : Link → Bool)
    → ((l : Link) → p l ≡ true → P l → Q l)
    → (links : List Link) → All P links
    → All Q (filter p links)
All-filter_each p keep [] h = tt
All-filter_each p keep (l ∷ links) h = elim (Bool-cases (p l)) [
  | inl e ↦ rw e (keep l e h.0, All-filter_each p keep links h.1)
  | inr e ↦ rw e (All-filter_each p keep links h.1)
]

among_one :
    (t id a b : ℕ) → (a == t && any (λ i. i == b) (id ∷ [])) ≡ true → (a == t && b == id) ≡ true
unfolding any
among_one t id a b h = ground arith

-- A row with the tenant and the id is not deleted unless those of the link are.
still_listed :
    (t : ℕ) (ids : List ℕ) (ls : List ListRow) (x id : ℕ)
    → (x == t && among ids id) ≡ false
    → any (is_list x id) ls ≡ true
    → any (is_list x id) (filter (λ r. not (list_among t ids r)) ls) ≡ true
still_listed t ids ls x id apart h =
    any-filter_kept (is_list x id) (λ r. not (list_among t ids r)) (λ y e. kept y e) ls h
  where
    kept : (y : ListRow) → is_list x id y ≡ true → not (list_among t ids y) ≡ true
    kept y e =
        let same_tenant : y.tenant ≡ x = ground arith in
        let same_id : y.id ≡ id = ground arith in rw (same_tenant, same_id) (ap not apart)

still_subscribed :
    (t : ℕ) (ids : List ℕ) (ss : List Subscriber) (x id : ℕ)
    → (x == t && among ids id) ≡ false
    → any (is_subscriber x id) ss ≡ true
    → any (is_subscriber x id) (filter (λ r. not (subscriber_among t ids r)) ss) ≡ true
still_subscribed t ids ss x id apart h =
    any-filter_kept (is_subscriber x id) (λ r. not (subscriber_among t ids r)) (λ y e. kept y e) ss
      h
  where
    kept : (y : Subscriber) → is_subscriber x id y ≡ true → not (subscriber_among t ids y) ≡ true
    kept y e =
        let same_tenant : y.tenant ≡ x = ground arith in
        let same_id : y.id ≡ id = ground arith in rw (same_tenant, same_id) (ap not apart)

-- The rows of the cross join stand in their tables.
lists_stand :
    (t : ℕ) (ids : List ℕ) (rows xs : List ListRow)
    → ((y : ListRow) → Memᴰ y xs → Memᴰ y rows)
    → All (λ l. any (is_list t l.id) rows ≡ true) (filter (list_among t ids) xs)
lists_stand t ids rows [] sub = tt
lists_stand t ids rows (y ∷ xs) sub =
    let rest = lists_stand t ids rows xs (λ z m. sub z (Memᴰ.tail m)) in
    elim (Bool-cases (list_among t ids y)) [
      | inl e ↦ rw e (any-mem (is_list t y.id) rows (sub y (Memᴰ.head refl)) (ground arith), rest)
      | inr e ↦ rw e rest
    ]

subscribers_stand :
    (t : ℕ) (ids : List ℕ) (rows xs : List Subscriber)
    → ((y : Subscriber) → Memᴰ y xs → Memᴰ y rows)
    → All (λ s. any (is_subscriber t s.id) rows ≡ true) (filter (subscriber_among t ids) xs)
subscribers_stand t ids rows [] sub = tt
subscribers_stand t ids rows (y ∷ xs) sub =
    let rest = subscribers_stand t ids rows xs (λ z m. sub z (Memᴰ.tail m)) in
    elim (Bool-cases (subscriber_among t ids y)) [
      | inl e ↦
          rw e (any-mem (is_subscriber t y.id) rows (sub y (Memᴰ.head refl)) (ground arith), rest)
      | inr e ↦ rw e rest
    ]

module _ (t : ℕ) (lists : List ListRow) (subscribers : List Subscriber) where
  abbrev Kept : List Link → Type 0
  Kept links = All (Joins lists subscribers) links

  upsert-Joins :
      (status : LinkStatus) (s l : ℕ) (links : List Link)
      → any (is_list t l) lists ≡ true
      → any (is_subscriber t s) subscribers ≡ true
      → Kept links
      → Kept (upsert t status s l links)
  upsert-Joins status s l links f g h = elim (Bool-cases (any (is_link t s l) links)) [
    | inl e ↦ rw e (
        All-update_each (Joins lists subscribers) (is_link t s l) (with_status status) (λ x _ j. j)
          links h)
    | inr e ↦ rw e (
        All-concat (Joins lists subscribers) links
          (record { tenant = t; subscriber = s; list = l; status = status }) h (f, g))
  ]

  link_lists-Joins :
      (status : LinkStatus) (s : ℕ) (ls : List ListRow) (links : List Link)
      → All (λ l. any (is_list t l.id) lists ≡ true) ls
      → any (is_subscriber t s) subscribers ≡ true
      → Kept links
      → Kept (link_lists t status s ls links)
  unfolding link_lists
  link_lists-Joins status s [] links f g h = h
  link_lists-Joins status s (l ∷ ls) links f g h =
      link_lists-Joins status s ls (upsert t status s l.id links) f.1 g
        (upsert-Joins status s l.id links f.0 g h)

  link_all-Joins :
      (status : LinkStatus) (ss : List Subscriber) (ls : List ListRow) (links : List Link)
      → All (λ l. any (is_list t l.id) lists ≡ true) ls
      → All (λ s. any (is_subscriber t s.id) subscribers ≡ true) ss
      → Kept links
      → Kept (link_all t status ss ls links)
  unfolding link_all
  link_all-Joins status [] ls links f g h = h
  link_all-Joins status (s ∷ ss) ls links f g h =
      link_all-Joins status ss ls (link_lists t status s.id ls links) f g.1
        (link_lists-Joins status s.id ls links f g.0 h)

module _ (t : ℕ) where
  one_list :
      (id : ℕ) (rows : List ListRow)
      → any (list_among t (id ∷ [])) rows ≡ true
      → any (is_list t id) rows ≡ true
  unfolding any
  one_list id [] h = cc
  one_list id (r ∷ rows) h = ground (arith, one_list id rows)

  one_subscriber :
      (id : ℕ) (rows : List Subscriber)
      → any (subscriber_among t (id ∷ [])) rows ≡ true
      → any (is_subscriber t id) rows ≡ true
  unfolding any
  one_subscriber id [] h = cc
  one_subscriber id (r ∷ rows) h = ground (arith, one_subscriber id rows)

Statement-IsLinked : {t : ℕ} {db db' : ContactDb} → Statement t db db' → IsLinked db → IsLinked db'
Statement-IsLinked {db = db} (add_list r own e) v = rw e (
    All-Joins_map db.lists (db.lists ++ r ∷ []) db.subscribers db.subscribers
      (λ x id h. any-concat_kept (is_list x id) db.lists r h) (λ x id h. h) db.links v)
Statement-IsLinked {t} {db} (change_list ids input e) v = rw e (
    All-Joins_map db.lists (update (list_among t ids) (renamed input) db.lists) db.subscribers
      db.subscribers
      (λ x id h.
        any-update (list_among t ids) (renamed input) (is_list x id) db.lists (λ y. refl) ∙ h)
      (λ x id h. h) db.links v)
Statement-IsLinked {t} {db} (drop_lists ids e) v = rw e (
    All-filter_each (λ l. not (link_of_lists t ids l))
      (λ l kept j. (still_listed t ids db.lists l.tenant l.list (ground arith) j.0, j.1)) db.links
      v)
Statement-IsLinked {db = db} (add_subscriber r own e) v = rw e (
    All-Joins_map db.lists db.lists db.subscribers (db.subscribers ++ r ∷ []) (λ x id h. h)
      (λ x id h. any-concat_kept (is_subscriber x id) db.subscribers r h) db.links v)
Statement-IsLinked {t} {db} (change_subscriber ids input e) v = rw e (
    All-Joins_map db.lists db.lists db.subscribers
      (update (subscriber_among t ids) (edited input) db.subscribers) (λ x id h. h)
      (λ x id h.
        any-update (subscriber_among t ids) (edited input) (is_subscriber x id) db.subscribers
          (λ y. refl)
        ∙ h)
      db.links v)
Statement-IsLinked {t} {db} (block ids e) v = rw e (
    All-Joins_map db.lists db.lists db.subscribers
      (update (subscriber_among t ids) blocked db.subscribers) (λ x id h. h)
      (λ x id h.
        any-update (subscriber_among t ids) blocked (is_subscriber x id) db.subscribers (λ y. refl)
        ∙ h)
      db.links v)
Statement-IsLinked {t} {db} (drop_subscribers ids e) v = rw e (
    All-filter_each (λ l. not (link_of_subscribers t ids l))
      (λ l kept j.
        (j.0, still_subscribed t ids db.subscribers l.tenant l.subscriber (ground arith) j.1))
      db.links v)
Statement-IsLinked {t} {db} (link s l f g e) v = rw e (
    All-concat (Joins db.lists db.subscribers) db.links (new_link t s l) v
      (one_list t l db.lists f, one_subscriber t s db.subscribers g))
Statement-IsLinked {t} {db} (join status ss ls e) v = rw e (
    link_all-Joins t db.lists db.subscribers status (filter (subscriber_among t ss) db.subscribers)
      (filter (list_among t ls) db.lists) db.links (lists_stand t ls db.lists db.lists (λ y m. m))
      (subscribers_stand t ss db.subscribers db.subscribers (λ y m. m)) v)
Statement-IsLinked {t} {db} (unlink ss ls e) v =
    rw e (All-filter_each (λ l. not (chosen t ss ls l)) (λ l _ j. j) db.links v)
Statement-IsLinked {t} {db} (set_status ss ls e) v = rw e (
    All-update_each (Joins db.lists db.subscribers) (chosen t ss ls)
      (with_status LinkStatus.unsubscribed) (λ l _ j. j) db.links v)

Statements-IsLinked :
    {t : ℕ} {db db' : ContactDb} → Statements t db db' → IsLinked db → IsLinked db'
Statements-IsLinked stay v = v
Statements-IsLinked (next r s) v = Statement-IsLinked s (Statements-IsLinked r v)

-- However requests of all tenants follow on one another, and whether each succeeds or fails, every
-- subscription stays one of a subscriber to a list that both stand in the tables and have its tenant.
pub serve_all-IsLinked :
    (qs : List (Request × Option Context)) (db : ContactDb)
    → IsLinked db
    → IsLinked (serve_all qs db)
unfolding serve_all
serve_all-IsLinked [] db v = v
serve_all-IsLinked ((q, scope) ∷ qs) db v =
    serve_all-IsLinked qs (serve q scope db) (Statements-IsLinked (serve-Statements q scope db) v)
