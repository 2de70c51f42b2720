-- ===== src/Control/Workflow/Repeats.antt =====
-- Requests of campaign_workflow.go that are sent again, however much later, with their idempotency key.
use mailview.Prelude.{
  ℕ, ◌≡◌, refl, sym, ap, subst, ◌∙◌, not, ◌&&◌, if◌then◌else◌, Option, some, List, [], ◌∷◌, any,
  find, find-concat, find-update, leb, Bytes, trim_space, ok, Bool-cases, Option-cases, inl, inr,
  guard_ok, guard_keeps, some_or_state, not_found,
}
use mailview.Tenancy.{Context, from_context, with_tenant_ok, with_tenant_keeps}
use mailview.Control.Db.{Actor}
use mailview.Control.Workflow.{
  State, WorkflowDb, CampaignWorkflow, WorkflowEvent, TransitionInput, advance, is_row, is_event,
  is_campaign, fresh, ensure, select_workflow, valid_key, transition_campaign,
  get_campaign_workflow, sync_legacy_campaign_state,
}
use mailview.Control.Workflow.Outcome.{Moved, event, first_use-Moved}
use mailview.Control.Workflow.Retries.{transition_Done, known_key, replay_ok, transition_retry}
use mailview.Control.Workflow.History.{
  Request, transition, read, handle, serve, Result-cases, transition_error,
}

-- The first event with the key, and some row of the campaign.
record IsKnown (t c : ℕ) (key : Bytes) (prior : WorkflowEvent) (db : WorkflowDb) : Type 0 where
  found : find (is_event t key) db.events ≡ some prior
  row : (w : CampaignWorkflow) × (select_workflow t c db ≡ some w)

ensure-IsKnown :
    (t c : ℕ) (key : Bytes) (prior : WorkflowEvent) (t' c' : ℕ) (db : WorkflowDb)
    → IsKnown t c key prior db
    → IsKnown t c key prior (ensure t' c' db)
unfolding ensure
ensure-IsKnown t c key prior t' c' db k =
    elim (Bool-cases
      (any (is_campaign t' c') db.campaigns && not (any (is_row t' c') db.workflows))) [
        | inl e ↦ rw e (record {
          found = k.found;
          row = (k.row.0, find-concat (is_row t c) db.workflows (fresh t' c' ∷ []) k.row.1);
        })
        | inr e ↦ rw e k
      ]

Moved-IsKnown :
    {ctx : Context} {c : ℕ} {to : Option State} {reason key : Bytes} {at : Option ℕ} {actor : Actor}
    {now : ℕ} {db : WorkflowDb} {out : CampaignWorkflow} {db' : WorkflowDb} (t d : ℕ) (old : Bytes)
    (prior : WorkflowEvent)
    → Moved ctx c to reason key at actor now db out db'
    → IsKnown t d old prior db
    → IsKnown t d old prior db'
unfolding advance sync_legacy_campaign_state
Moved-IsKnown {ctx} {c} {to} {reason} {key} {at} {actor} {now} {db} t d old prior m k =
    let before = ensure-IsKnown t d old prior ctx.tenant c db k in
    let kept = ensure ctx.tenant c db in
    subst (IsKnown t d old prior) (sym m.rows) (record {
      found =
          find-concat (is_event t old) kept.events
            (event ctx c m.before m.target reason key actor ∷ []) before.found;
      row = (
        if is_row ctx.tenant c before.row.0
            then advance m.target actor.user at now before.row.0
            else before.row.0,
        find-update (is_row ctx.tenant c) (is_row t d) (advance m.target actor.user at now)
            (λ y. refl) kept.workflows before.row.1,
      );
    })

transition-IsKnown :
    (t d : ℕ) (old : Bytes) (prior : WorkflowEvent) (scope : Option Context) (c : ℕ)
    (input : TransitionInput) (actor : Actor) (now : ℕ) (db : WorkflowDb) {out : CampaignWorkflow}
    {db' : WorkflowDb}
    → transition_campaign scope c input actor now db ≡ (ok out, db')
    → IsKnown t d old prior db
    → IsKnown t d old prior db'
unfolding transition_campaign
transition-IsKnown t d old prior scope c input actor now db {out} {db'} h k =
    let (valid, h1) = guard_ok (valid_key c (trim_space input.key)) _ _ h in
    let (ctx, bound, h2) = with_tenant_ok scope _ h1 in
    elim (Option-cases (find (is_event ctx.tenant (trim_space input.key)) db.events)) [
      | inl free ↦
          Moved-IsKnown t d old prior
            (first_use-Moved ctx c (trim_space input.reason) (trim_space input.key)
              input.scheduled_at actor now _ db (rw free at h2))
            k
      | inr hit ↦
          let (first, found) = hit in
          subst (IsKnown t d old prior) (replay_ok ctx c first db (rw found at h2)).2 k
    ]

get-IsKnown :
    (t d : ℕ) (old : Bytes) (prior : WorkflowEvent) (scope : Option Context) (c : ℕ)
    (db : WorkflowDb)
    → IsKnown t d old prior db
    → IsKnown t d old prior (get_campaign_workflow scope c db).1
unfolding get_campaign_workflow
get-IsKnown t d old prior scope c db k = elim (Bool-cases (leb 1 c)) [
  | inl valid ↦ rw valid (
      with_tenant_keeps (IsKnown t d old prior) scope _ db k λ ctx.
        guard_keeps (IsKnown t d old prior) (any (is_campaign ctx.tenant c) db.campaigns) not_found
          _ k
          (rw (some_or_state (select_workflow ctx.tenant c (ensure ctx.tenant c db)) not_found _)
            (ensure-IsKnown t d old prior ctx.tenant c db k)))
  | inr bad ↦ rw bad k
]

handle-IsKnown :
    (t d : ℕ) (old : Bytes) (prior : WorkflowEvent) (r : Request) (db : WorkflowDb)
    → IsKnown t d old prior db
    → IsKnown t d old prior (handle r db)
unfolding handle
handle-IsKnown t d old prior (transition scope c input actor now) db k =
    elim (Result-cases (transition_campaign scope c input actor now db)) [
      | inl (out, e) ↦ transition-IsKnown t d old prior scope c input actor now db e k
      | inr (e, q) ↦ rw (transition_error scope c input actor now db q) k
    ]
handle-IsKnown t d old prior (read scope c) db k = get-IsKnown t d old prior scope c db k

serve-IsKnown :
    (t d : ℕ) (old : Bytes) (prior : WorkflowEvent) (rs : List Request) (db : WorkflowDb)
    → IsKnown t d old prior db
    → IsKnown t d old prior (serve rs db)
unfolding serve
serve-IsKnown t d old prior [] db k = k
serve-IsKnown t d old prior (r ∷ rs) db k =
    serve-IsKnown t d old prior rs (handle r db) (handle-IsKnown t d old prior r db k)

-- What a repeated request has for an answer: the campaign's row as it stands, and nothing changes.
pub record Repeated (scope : Option Context) (c : ℕ) (again : TransitionInput) (other : Actor)
    (later : ℕ) (db : WorkflowDb) : Type 0 where
  pub ctx : Context
  pub bound : from_context scope ≡ some ctx
  pub current : CampaignWorkflow
  pub row : select_workflow ctx.tenant c db ≡ some current
  pub answer : transition_campaign scope c again other later db ≡ (ok current, db)

-- After a request that ended well, and after whatever requests came since, a request of the same
-- scope for the same campaign with the same idempotency key is answered with the campaign's row as it
-- then stands, whatever else it asks for and whoever sends it, and it changes nothing: no second
-- event, no audit row. Where no other request came between, that row is the reply of the first one.
pub transition-Repeated :
    (scope : Option Context) (c : ℕ) (input again : TransitionInput) (actor other : Actor)
    (now later : ℕ) (db : WorkflowDb) {out : CampaignWorkflow} {db' : WorkflowDb}
    (rs : List Request)
    → trim_space again.key ≡ trim_space input.key
    → transition_campaign scope c input actor now db ≡ (ok out, db')
    → Repeated scope c again other later (serve rs db')
      × (transition_campaign scope c again other later db' ≡ (ok out, db'))
transition-Repeated scope c input again actor other now later db {out} {db'} rs same_key h =
    let d = transition_Done scope c input actor now db h in
    let known =
      serve-IsKnown d.ctx.tenant c (trim_space input.key) d.prior rs db'
        (record { found = d.found; row = (out, d.row) }) in
    (
      record {
        ctx = d.ctx;
        bound = d.bound;
        current = known.row.0;
        row = known.row.1;
        answer =
            known_key scope d.ctx c again other later (serve rs db') d.prior known.row.0 d.bound
              (ap (valid_key c) same_key ∙ d.valid)
              (ap (λ k. find (is_event d.ctx.tenant k) (serve rs db').events) same_key
                ∙ known.found)
              d.same known.row.1;
      },
      transition_retry scope c input again actor other now later db same_key h,
    )
