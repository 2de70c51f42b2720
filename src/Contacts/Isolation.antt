-- ===== src/Contacts/Isolation.antt =====
-- No request of contacts.go touches the rows of another tenant.
use mailview.Prelude.{
  ℕ, ◌≡◌, ◌≢◌, refl, ◌∙◌, Bool, true, false, not, ◌&&◌, Option, List, [], ◌∷◌, ◌==◌, any, filter,
  arith, All, Bool-cases, inl, inr, filter-concat_other, filter-update_other, filter-filter_other,
}
use mailview.Tenancy.{Context}
use mailview.Contacts.Tables.{
  ListRow, Subscriber, Link, LinkStatus, ContactDb, list_among, subscriber_among, link_of_lists,
  link_of_subscribers, is_link, with_status, link_all, link_lists, upsert,
}
use mailview.Contacts.Service.{chosen, renamed, edited, blocked, new_link}
use mailview.Contacts.Requests.{
  Statement, add_list, change_list, drop_lists, add_subscriber, change_subscriber, block,
  drop_subscribers, link, join, unlink, set_status, Statements, stay, next, Request, serve,
  tenant_of, serve-Statements, serve_all,
}

abbrev pub lists_of : ℕ → ContactDb → List ListRow
lists_of b db = filter (λ r. r.tenant == b) db.lists

abbrev pub subscribers_of : ℕ → ContactDb → List Subscriber
subscribers_of b db = filter (λ r. r.tenant == b) db.subscribers

abbrev pub links_of : ℕ → ContactDb → List Link
links_of b db = filter (λ l. l.tenant == b) db.links

abbrev pub SameRows : ℕ → ContactDb → ContactDb → Type 0
SameRows b db db' =
    (lists_of b db' ≡ lists_of b db)
    × (subscribers_of b db' ≡ subscribers_of b db)
    × (links_of b db' ≡ links_of b db)

module _ (t b : ℕ) (apart : t ≢ b) where
  other_tenant : (n : ℕ) → n ≡ t → (n == b) ≡ false
  other_tenant n e = ground arith

  upsert-links :
      (status : LinkStatus) (s l : ℕ) (links : List Link)
      → filter (λ x. x.tenant == b) (upsert t status s l links) ≡ filter (λ x. x.tenant == b) links
  upsert-links status s l links = elim (Bool-cases (any (is_link t s l) links)) [
    | inl e ↦ rw e (
        filter-update_other (λ x. x.tenant == b) (is_link t s l) (with_status status)
          (λ y h.
            let own : y.tenant ≡ t = ground arith in
            (other_tenant y.tenant own, other_tenant y.tenant own))
          links)
    | inr e ↦ rw e (
        filter-concat_other (λ x. x.tenant == b) links
          (record { tenant = t; subscriber = s; list = l; status = status }) (other_tenant t refl))
  ]

  link_lists-links :
      (status : LinkStatus) (s : ℕ) (ls : List ListRow) (links : List Link)
      → filter (λ x. x.tenant == b) (link_lists t status s ls links)
        ≡ filter (λ x. x.tenant == b) links
  unfolding link_lists
  link_lists-links status s [] links = refl
  link_lists-links status s (l ∷ ls) links =
      link_lists-links status s ls (upsert t status s l.id links) ∙ upsert-links status s l.id links

  link_all-links :
      (status : LinkStatus) (ss : List Subscriber) (ls : List ListRow) (links : List Link)
      → filter (λ x. x.tenant == b) (link_all t status ss ls links)
        ≡ filter (λ x. x.tenant == b) links
  unfolding link_all
  link_all-links status [] ls links = refl
  link_all-links status (s ∷ ss) ls links =
      link_all-links status ss ls (link_lists t status s.id ls links)
      ∙ link_lists-links status s.id ls links

  kept_by : (n : ℕ) (other : Bool) → not (n == t && other) ≡ false → (n == b) ≡ false
  kept_by n other h = ground arith

  hit_by : (n : ℕ) (other : Bool) → (n == t && other) ≡ true → (n == b) ≡ false
  hit_by n other h = ground arith

  Statement-SameRows : {db db' : ContactDb} → Statement t db db' → SameRows b db db'
  Statement-SameRows {db} (add_list r own e) =
      rw e (
        filter-concat_other (λ x. x.tenant == b) db.lists r (other_tenant r.tenant own),
        refl,
        refl,
      )
  Statement-SameRows {db} (change_list ids input e) = rw e (
    filter-update_other (λ x. x.tenant == b) (list_among t ids) (renamed input)
        (λ y h. (hit_by y.tenant _ h, hit_by y.tenant _ h)) db.lists,
    refl,
    refl,
  )
  Statement-SameRows {db} (drop_lists ids e) = rw e (
    filter-filter_other (λ x. x.tenant == b) (λ r. not (list_among t ids r))
        (λ y h. kept_by y.tenant _ h) db.lists,
    refl,
    filter-filter_other (λ x. x.tenant == b) (λ l. not (link_of_lists t ids l))
        (λ y h. kept_by y.tenant _ h) db.links,
  )
  Statement-SameRows {db} (add_subscriber r own e) = rw e (
    refl,
    filter-concat_other (λ x. x.tenant == b) db.subscribers r (other_tenant r.tenant own),
    refl,
  )
  Statement-SameRows {db} (change_subscriber ids input e) = rw e (
    refl,
    filter-update_other (λ x. x.tenant == b) (subscriber_among t ids) (edited input)
        (λ y h. (hit_by y.tenant _ h, hit_by y.tenant _ h)) db.subscribers,
    refl,
  )
  Statement-SameRows {db} (block ids e) = rw e (
    refl,
    filter-update_other (λ x. x.tenant == b) (subscriber_among t ids) blocked
        (λ y h. (hit_by y.tenant _ h, hit_by y.tenant _ h)) db.subscribers,
    refl,
  )
  Statement-SameRows {db} (drop_subscribers ids e) = rw e (
    refl,
    filter-filter_other (λ x. x.tenant == b) (λ r. not (subscriber_among t ids r))
        (λ y h. kept_by y.tenant _ h) db.subscribers,
    filter-filter_other (λ x. x.tenant == b) (λ l. not (link_of_subscribers t ids l))
        (λ y h. kept_by y.tenant _ h) db.links,
  )
  Statement-SameRows {db} (link s l f g e) = rw e (
    refl,
    refl,
    filter-concat_other (λ x. x.tenant == b) db.links (new_link t s l) (other_tenant t refl),
  )
  Statement-SameRows {db} (join status ss ls e) = rw e (
    refl,
    refl,
    link_all-links status (filter (subscriber_among t ss) db.subscribers)
        (filter (list_among t ls) db.lists) db.links,
  )
  Statement-SameRows {db} (unlink ss ls e) = rw e (
    refl,
    refl,
    filter-filter_other (λ x. x.tenant == b) (λ l. not (chosen t ss ls l))
        (λ y h. kept_by y.tenant _ (chosen_not y ss ls h)) db.links,
  )
    where
      chosen_not :
          (y : Link) (us vs : List ℕ)
          → not (chosen t us vs y) ≡ false
          → not (y.tenant == t && true) ≡ false
      chosen_not y us vs h = ground arith
  Statement-SameRows {db} (set_status ss ls e) = rw e (
    refl,
    refl,
    filter-update_other (λ x. x.tenant == b) (chosen t ss ls) (with_status LinkStatus.unsubscribed)
        (λ y h. let own : (y.tenant == b) ≡ false = ground arith in (own, own)) db.links,
  )

Statements-SameRows :
    {t : ℕ} (b : ℕ) {db db' : ContactDb} → t ≢ b → Statements t db db' → SameRows b db db'
Statements-SameRows b apart stay = (refl, refl, refl)
Statements-SameRows {t} b apart (next r s) =
    let (x, y, z) = Statements-SameRows b apart r in
    let (u, v, w) = Statement-SameRows t b apart s in (u ∙ x, v ∙ y, w ∙ z)

abbrev pub IsNotOf : ℕ → Request × Option Context → Type 0
IsNotOf b q = tenant_of q.1 ≢ b

-- However many requests other tenants make, and whether each succeeds or fails, the lists, the
-- subscribers and the subscriptions of a tenant stay as they were, in their order.
pub serve_all-SameRows :
    (b : ℕ) (qs : List (Request × Option Context)) (db : ContactDb)
    → All (IsNotOf b) qs
    → SameRows b db (serve_all qs db)
unfolding serve_all
serve_all-SameRows b [] db h = (refl, refl, refl)
serve_all-SameRows b ((q, scope) ∷ qs) db h =
    let (x, y, z) = Statements-SameRows b h.0 (serve-Statements q scope db) in
    let (u, v, w) = serve_all-SameRows b qs (serve q scope db) h.1 in (u ∙ x, v ∙ y, w ∙ z)
