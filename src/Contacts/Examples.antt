-- ===== src/Contacts/Examples.antt =====
-- Two tenants with a list each; the first adds a subscriber, fails to use the other's list, and
-- deletes its own.
use mailview.Prelude.{
  ℕ, ◌≡◌, ◌≢◌, arith, refl, Option, some, List, [], ◌∷◌, codes, any, str_eq, length, to_lower,
  trim_left, trim_right,
}
use mailview.Tenancy.{Context}
use mailview.Contacts.Tables.{ContactDb}
use mailview.Contacts.Service.{
  SubscriberInput, create_subscriber, create_subscriber_body, join_lists, join_list, delete_list,
  delete_lists_body,
}
use mailview.Contacts.Requests.{Request, create_subscriber_of, delete_list_of, serve, serve_all}
use mailview.Contacts.Isolation.{SameRows, serve_all-SameRows}
use mailview.Contacts.Linked.{IsLinked, serve_all-IsLinked}

abbrev first : Option Context
first = some (record { tenant = 1; user = 5 })

abbrev start : ContactDb
start = record {
  lists =
      record { id = 10; tenant = 1; name = codes "News"; description = [] }
      ∷ (record { id = 20; tenant = 2; name = codes "Other"; description = [] } ∷ []);
  subscribers = [];
  links = [];
}

abbrev ann : List ℕ → SubscriberInput
ann lists = record { email = codes " Ann@x.org"; name = codes "Ann"; list_ids = lists }

abbrev requests : List (Request × Option Context)
requests =
    (create_subscriber_of 7 (ann (20 ∷ [])), first)
    ∷ ((create_subscriber_of 8 (ann (10 ∷ [])), first) ∷ [])

-- The first request is undone as a whole.
one_link : length (serve_all requests start).links ≡ 1
unfolding serve_all serve create_subscriber create_subscriber_body join_lists join_list any str_eq
    to_lower trim_left trim_right
one_link = refl

one_subscriber : length (serve_all requests start).subscribers ≡ 1
unfolding serve_all serve create_subscriber create_subscriber_body join_lists join_list any str_eq
    to_lower trim_left trim_right
one_subscriber = refl

abbrev then_deleted : List (Request × Option Context)
then_deleted = (create_subscriber_of 8 (ann (10 ∷ [])), first) ∷ ((delete_list_of 10, first) ∷ [])

no_link : length (serve_all then_deleted start).links ≡ 0
unfolding serve_all serve create_subscriber create_subscriber_body join_lists join_list delete_list
    delete_lists_body any str_eq to_lower trim_left trim_right
no_link = refl

one_two : ◌≢◌ {A = ℕ} 1 2
one_two = omega arith

serve_all-SameRows_example : SameRows 2 start (serve_all then_deleted start)
serve_all-SameRows_example = serve_all-SameRows 2 then_deleted start (one_two, (one_two, tt))

serve_all-IsLinked_example : IsLinked (serve_all then_deleted start)
serve_all-IsLinked_example = serve_all-IsLinked then_deleted start tt
