-- ===== src/Contacts/Requests.antt =====
-- The requests of contacts.go, each as the statements of its tenant that it makes.
use mathlib.Core.Option.{Option, some}
use mailview.Prelude.{
  ℕ, ◌≡◌, refl, Bool, true, false, not, ◌&&◌, List, [], ◌∷◌, ◌++◌, ◌==◌, Bytes, any, any-mem,
  mem-append_right, Memᴰ, filter, update, length, Tx, ok, err, Result, invalid, not_found, no_rows,
  external_failure, find, arith, in_tx_keeps, guard_state, guard_keeps, some_or_state, continue,
  guard, some_or, pure, inl, inr, Bool-cases, Option-cases, none, is_empty, leb, trim_space,
}
use mailview.Tenancy.{Context, from_context, with_tenant}
use mailview.Contacts.Tables.{
  ListRow, Subscriber, LinkStatus, ContactDb, list_among, subscriber_among, remove_lists,
  remove_subscribers, change_subscribers, is_link, with_status, email_taken,
}
use mailview.Contacts.Service.{
  ListInput, SubscriberInput, Action, add, remove, unsubscribe, other, create_list_body,
  create_list, join_list, join_lists, create_subscriber_body, create_subscriber, update_list_body,
  update_list, update_subscriber_body, update_subscriber, delete_lists_body, delete_list,
  delete_lists, delete_subscribers_body, delete_subscriber, delete_subscribers, blocklist_body,
  blocklist_subscribers, act, chosen, joined, manage_body, manage_subscriber_lists, new_list,
  new_subscriber, new_link, count_lists, count_subscribers, status_of, valid_ids, valid_subscriber,
  renamed, edited, blocked, email_of,
}

-- What one statement of tenant `t` does to the tables.
pub data Statement (t : ℕ) (db db' : ContactDb) : Type 0 where
  add_list :
      (r : ListRow)
      → r.tenant ≡ t
      → db' ≡ record db { lists = db.lists ++ r ∷ [] }
      → Statement t db db'
  change_list :
      (ids : List ℕ) (input : ListInput)
      → db' ≡ record db { lists = update (list_among t ids) (renamed input) db.lists }
      → Statement t db db'
  drop_lists : (ids : List ℕ) → db' ≡ remove_lists t ids db → Statement t db db'
  add_subscriber :
      (r : Subscriber)
      → r.tenant ≡ t
      → db' ≡ record db { subscribers = db.subscribers ++ r ∷ [] }
      → Statement t db db'
  change_subscriber :
      (ids : List ℕ) (input : SubscriberInput)
      → db' ≡ change_subscribers t ids (edited input) db
      → Statement t db db'
  block : (ids : List ℕ) → db' ≡ change_subscribers t ids blocked db → Statement t db db'
  drop_subscribers : (ids : List ℕ) → db' ≡ remove_subscribers t ids db → Statement t db db'
  link :
      (s l : ℕ)
      → any (list_among t (l ∷ [])) db.lists ≡ true
      → any (subscriber_among t (s ∷ [])) db.subscribers ≡ true
      → db' ≡ record db { links = db.links ++ new_link t s l ∷ [] }
      → Statement t db db'
  join :
      (status : LinkStatus) (ss ls : List ℕ) → db' ≡ joined t status ss ls db → Statement t db db'
  unlink :
      (ss ls : List ℕ)
      → db' ≡ record db { links = filter (λ l. not (chosen t ss ls l)) db.links }
      → Statement t db db'
  set_status :
      (ss ls : List ℕ)
      → db' ≡ record db {
        links = update (chosen t ss ls) (with_status LinkStatus.unsubscribed) db.links;
      }
      → Statement t db db'

pub data Statements (t : ℕ) (db : ContactDb) : ContactDb → Type 0 where
  stay : Statements t db db
  next : {u v : ContactDb} → Statements t db u → Statement t u v → Statements t db v

-- A request that writes; the reads change nothing.
pub data Request : Type 0 where
  create_list_of : ℕ → ListInput → Request
  create_subscriber_of : ℕ → SubscriberInput → Request
  update_list_of : ℕ → ListInput → Request
  update_subscriber_of : ℕ → SubscriberInput → Request
  delete_list_of : ℕ → Request
  delete_lists_of : List ℕ → Request
  delete_subscriber_of : ℕ → Request
  delete_subscribers_of : List ℕ → Request
  blocklist_of : List ℕ → Request
  manage_of : List ℕ → List ℕ → Action → Bytes → Request

unfoldable pub serve : Request → Option Context → ContactDb → ContactDb
serve (create_list_of id input) ctx db = (create_list id input ctx db).1
serve (create_subscriber_of id input) ctx db = (create_subscriber id input ctx db).1
serve (update_list_of id input) ctx db = (update_list id input ctx db).1
serve (update_subscriber_of id input) ctx db = (update_subscriber id input ctx db).1
serve (delete_list_of id) ctx db = (delete_list id ctx db).1
serve (delete_lists_of ids) ctx db = (delete_lists ids ctx db).1
serve (delete_subscriber_of id) ctx db = (delete_subscriber id ctx db).1
serve (delete_subscribers_of ids) ctx db = (delete_subscribers ids ctx db).1
serve (blocklist_of ids) ctx db = (blocklist_subscribers ids ctx db).1
serve (manage_of ss ls action status) ctx db =
    (manage_subscriber_lists ss ls action status ctx db).1

-- The tenant of a request, 0 where it has none.
abbrev pub tenant_of : Option Context → ℕ
tenant_of scope = elim (from_context scope) [ none ↦ 0 | some c ↦ c.tenant ]

is_itself : (t id : ℕ) → (t == t && any (λ i. i == id) (id ∷ [])) ≡ true
unfolding any
is_itself t id = ground arith

module _ (t : ℕ) (db : ContactDb) where
  -- What a body makes of a database that statements of the tenant led to.
  abbrev Made : ContactDb → Type 0
  Made u = Statements t db u

  -- A transaction of a request makes its tenant's statements, or none.
  scoped :
      {A : Type 0} (scope : Option Context) (body : Context → Tx ContactDb A)
      → tenant_of scope ≡ t
      → ((ctx : Context) → ctx.tenant ≡ t → Made (body ctx db).1)
      → Made (with_tenant scope body db).1
  scoped {A} scope body e made = elim (Option-cases (from_context scope)) [
    | inl q ↦ rw q stay
    | inr found ↦
        let (ctx, q) = found in
        let same_tenant : ctx.tenant ≡ t = rw (tenant_of, q) at e in
        rw q (in_tx_keeps Made (body ctx) db stay (made ctx same_tenant))
  ]

  one : {u : ContactDb} → Statement t db u → Made u
  one s = next stay s

  deleted_lists :
      (ids : List ℕ) (ctx : Context) → ctx.tenant ≡ t → Made (delete_lists_body ids ctx db).1
  unfolding delete_lists_body
  deleted_lists ids ctx e =
      rw
        (guard_state (count_lists ctx.tenant ids db == length ids) not_found
          (remove_lists ctx.tenant ids db))
        (rw e (one (drop_lists ids refl)))

  deleted_subscribers :
      (ids : List ℕ) (ctx : Context) → ctx.tenant ≡ t → Made (delete_subscribers_body ids ctx db).1
  unfolding delete_subscribers_body
  deleted_subscribers ids ctx e =
      rw
        (guard_state (count_subscribers ctx.tenant ids db == length ids) not_found
          (remove_subscribers ctx.tenant ids db))
        (rw e (one (drop_subscribers ids refl)))

  blocklisted_all :
      (ids : List ℕ) (ctx : Context) → ctx.tenant ≡ t → Made (blocklist_body ids ctx db).1
  unfolding blocklist_body
  blocklisted_all ids ctx e =
      rw
        (guard_state (count_subscribers ctx.tenant ids db == length ids) not_found
          (change_subscribers ctx.tenant ids blocked db))
        (rw e (one (block ids refl)))

  updated_list :
      (id : ℕ) (input : ListInput) (ctx : Context)
      → ctx.tenant ≡ t
      → Made (update_list_body id input ctx db).1
  unfolding update_list_body
  updated_list id input ctx e =
      let after : ContactDb = record db {
        lists = update (list_among ctx.tenant (id ∷ [])) (renamed input) db.lists;
      } in
      rw (some_or_state (find (list_among ctx.tenant (id ∷ [])) after.lists) no_rows after)
        (rw e (one (change_list (id ∷ []) input refl)))

  updated_subscriber :
      (id : ℕ) (input : SubscriberInput) (ctx : Context)
      → ctx.tenant ≡ t
      → Made (update_subscriber_body id input ctx db).1
  unfolding update_subscriber_body
  updated_subscriber id input ctx e =
      let after : ContactDb = change_subscribers ctx.tenant (id ∷ []) (edited input) db in
      guard_keeps Made
        (not (
          any (subscriber_among ctx.tenant (id ∷ [])) db.subscribers
          && any (email_taken ctx.tenant id (email_of input)) db.subscribers))
        external_failure _ stay
        (rw
          (some_or_state (find (subscriber_among ctx.tenant (id ∷ [])) after.subscribers) no_rows
            after)
          (rw e (one (change_subscriber (id ∷ []) input refl))))

  created_list :
      (id : ℕ) (input : ListInput) (ctx : Context)
      → ctx.tenant ≡ t
      → Made (create_list_body id input ctx db).1
  unfolding create_list_body
  created_list id input ctx e = one (add_list (new_list id ctx.tenant input) e refl)

  acted :
      (action : Action) (status : LinkStatus) (ss ls : List ℕ)
      → Made (act action t status ss ls db).1
  acted add status ss ls = one (join status ss ls refl)
  acted remove status ss ls = one (unlink ss ls refl)
  acted unsubscribe status ss ls = one (set_status ss ls refl)
  acted other status ss ls = stay

  managed :
      (ss ls : List ℕ) (action : Action) (status : LinkStatus) (ctx : Context)
      → ctx.tenant ≡ t
      → Made (manage_body ss ls action status ctx db).1
  unfolding manage_body
  managed ss ls action status ctx e =
      guard_keeps Made (count_subscribers ctx.tenant ss db == length ss) not_found _ stay (
        guard_keeps Made (count_lists ctx.tenant ls db == length ls) not_found _ stay
          (rw e (acted action status ss ls)))

  -- The loop over the lists of a new subscriber, from a database in which it stands.
  joined_lists :
      (s : ℕ) (ids : List ℕ) (u : ContactDb)
      → Made u
      → any (subscriber_among t (s ∷ [])) u.subscribers ≡ true
      → Made (join_lists t s ids u).1
  unfolding join_lists join_list
  joined_lists s [] u made here = made
  joined_lists s (id ∷ ids) u made here = elim (Bool-cases (leb 1 id)) [
    | inr e ↦ rw e made
    | inl e ↦ elim (Bool-cases (any (list_among t (id ∷ [])) u.lists)) [
      | inr f ↦ rw (e, f) made
      | inl f ↦ elim (Bool-cases (any (is_link t s id) u.links)) [
        | inl g ↦ rw (e, f, g) made
        | inr g ↦
            rw (e, f, g)
              (joined_lists s ids (record u { links = u.links ++ new_link t s id ∷ [] })
                (next made (link s id f here refl)) here)
      ]
    ]
  ]

  created_subscriber :
      (id : ℕ) (input : SubscriberInput) (ctx : Context)
      → ctx.tenant ≡ t
      → Made (create_subscriber_body id input ctx db).1
  unfolding create_subscriber_body
  created_subscriber id input ctx e =
      guard_keeps Made (not (any (email_taken ctx.tenant id (email_of input)) db.subscribers))
        external_failure _ stay
        (then_pure (join_lists ctx.tenant id input.list_ids after) (
          rw e (
            joined_lists id input.list_ids
              (record db { subscribers = db.subscribers ++ new_subscriber id t input ∷ [] })
              (one (add_subscriber (new_subscriber id t input) refl refl))
              (stands db.subscribers))))
    where
      after : ContactDb
      after = record db { subscribers = db.subscribers ++ new_subscriber id ctx.tenant input ∷ [] }

      then_pure :
          (r : Result (Unit {0}) × ContactDb)
          → Made r.1
          → Made (continue {B = Subscriber} r (λ _. pure (new_subscriber id ctx.tenant input))).1
      then_pure (ok a, s) made = made
      then_pure (err x, s) made = made

      stands :
          (rows : List Subscriber)
          → any (subscriber_among t (id ∷ [])) (rows ++ new_subscriber id t input ∷ []) ≡ true
      stands rows =
          any-mem (subscriber_among t (id ∷ [])) (rows ++ new_subscriber id t input ∷ [])
            (mem-append_right rows (new_subscriber id t input ∷ []) (Memᴰ.head refl))
            (is_itself t id)

-- A request that is checked before its transaction.
guarded :
    {A : Type 0} (db : ContactDb) (scope : Option Context) (test : Bool)
    (body : Context → Tx ContactDb A)
    → ((ctx : Context)
        → ctx.tenant ≡ tenant_of scope
        → Statements (tenant_of scope) db (body ctx db).1)
    → Statements
        (tenant_of scope)
        db
        (continue (guard test invalid db) (λ (_ : Unit {0}). with_tenant scope body)).1
guarded db scope true body made = scoped (tenant_of scope) db scope body refl made
guarded db scope false body made = stay

guarded_option :
    (db : ContactDb) (scope : Option Context) (test : Bool) (o : Option LinkStatus)
    (body : LinkStatus → Context → Tx ContactDb Unit)
    → ((status : LinkStatus) (ctx : Context)
        → ctx.tenant ≡ tenant_of scope
        → Statements (tenant_of scope) db (body status ctx db).1)
    → Statements
        (tenant_of scope)
        db
        (continue {B = Unit {0}} (guard test invalid db) (λ (_ : Unit {0}) s.
          continue {B = Unit {0}} (some_or o invalid s) (λ w. with_tenant scope (body w)))).1
guarded_option db scope true (some w) body made =
    scoped (tenant_of scope) db scope (body w) refl (made w)
guarded_option db scope true none body made = stay
guarded_option db scope false o body made = stay

-- Every request makes statements of its own tenant, whatever it answers.
pub serve-Statements :
    (q : Request) (scope : Option Context) (db : ContactDb)
    → Statements (tenant_of scope) db (serve q scope db)
unfolding serve create_list create_subscriber update_list update_subscriber delete_list delete_lists
    delete_subscriber delete_subscribers blocklist_subscribers manage_subscriber_lists
serve-Statements (create_list_of id input) scope db =
    guarded db scope
      (not (is_empty (trim_space input.name)) && leb (length (trim_space input.name)) 160)
      (create_list_body id input) (created_list (tenant_of scope) db id input)
serve-Statements (create_subscriber_of id input) scope db =
    guarded db scope (valid_subscriber input) (create_subscriber_body id input)
      (created_subscriber (tenant_of scope) db id input)
serve-Statements (update_list_of id input) scope db =
    guarded db scope (leb 1 id && not (is_empty (trim_space input.name)))
      (update_list_body id input) (updated_list (tenant_of scope) db id input)
serve-Statements (update_subscriber_of id input) scope db =
    guarded db scope (leb 1 id && valid_subscriber input) (update_subscriber_body id input)
      (updated_subscriber (tenant_of scope) db id input)
serve-Statements (delete_list_of id) scope db =
    scoped (tenant_of scope) db scope (delete_lists_body (id ∷ [])) refl
      (deleted_lists (tenant_of scope) db (id ∷ []))
serve-Statements (delete_lists_of ids) scope db =
    guarded db scope (valid_ids ids) (delete_lists_body ids)
      (deleted_lists (tenant_of scope) db ids)
serve-Statements (delete_subscriber_of id) scope db =
    scoped (tenant_of scope) db scope (delete_subscribers_body (id ∷ [])) refl
      (deleted_subscribers (tenant_of scope) db (id ∷ []))
serve-Statements (delete_subscribers_of ids) scope db =
    guarded db scope (valid_ids ids) (delete_subscribers_body ids)
      (deleted_subscribers (tenant_of scope) db ids)
serve-Statements (blocklist_of ids) scope db =
    guarded db scope (valid_ids ids) (blocklist_body ids) (blocklisted_all (tenant_of scope) db ids)
serve-Statements (manage_of ss ls action status) scope db =
    guarded_option db scope (valid_ids ss && valid_ids ls) (status_of status)
      (manage_body ss ls action) (managed (tenant_of scope) db ss ls action)

-- Requests one after the other, each in a scope of its own.
unfoldable pub serve_all : List (Request × Option Context) → ContactDb → ContactDb
serve_all [] db = db
serve_all ((q, scope) ∷ qs) db = serve_all qs (serve q scope db)
