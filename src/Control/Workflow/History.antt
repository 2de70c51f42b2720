-- ===== src/Control/Workflow/History.antt =====
-- Sequences of requests against the workflow of campaign_workflow.go, and what one request does.
use mailview.Prelude.{
  guard_keeps, any, ℕ, ◌+◌, ◌≡◌, ◌⊎◌, refl, sym, ap, subst, ◌∙◌, true, Option, none, some, List, [],
  ◌∷◌, ◌++◌, leb, any, find, trim_space, to_lower, Result, ok, err, arith, Bool-cases, inl, inr,
  Error, guard_ok, some_or_state, not_found,
}
use mailview.Tenancy.{Context, from_context, with_tenant_atomic, with_tenant_keeps, with_tenant_at}
use mailview.Control.Db.{Actor}
use mailview.Control.Workflow.{
  WorkflowDb, CampaignWorkflow, TransitionInput, campaign_transitions, advance, is_event,
  is_campaign, ensure, select_workflow, valid_key, state_of, transition_campaign,
  get_campaign_workflow,
}
use mailview.Control.Workflow.Outcome.{Moved, event, first_use-Moved}
use mailview.Control.Workflow.Retries.{select-after_move}
use mailview.Control.Workflow.Approval.{IsSound, ensure-IsSound, transition_campaign-IsSound}

-- A request that ends in an error has changed nothing.
pub transition_error :
    (scope : Option Context) (c : ℕ) (input : TransitionInput) (actor : Actor) (now : ℕ)
    (db : WorkflowDb) {e : Error}
    → (transition_campaign scope c input actor now db).0 ≡ err e
    → (transition_campaign scope c input actor now db).1 ≡ db
unfolding transition_campaign
transition_error scope c input actor now db h =
    elim (Bool-cases (valid_key c (trim_space input.key))) [
      | inl valid ↦ rw valid (with_tenant_atomic scope _ db (rw valid at h))
      | inr bad ↦ rw bad
    ]

-- What a client may send.
pub data Request : Type 0 where
  transition : Option Context → ℕ → TransitionInput → Actor → ℕ → Request
  read : Option Context → ℕ → Request

unfoldable pub handle : Request → WorkflowDb → WorkflowDb
handle (transition scope c input actor now) db = (transition_campaign scope c input actor now db).1
handle (read scope c) db = (get_campaign_workflow scope c db).1

unfoldable pub serve : List Request → WorkflowDb → WorkflowDb
unfolding handle
serve [] db = db
serve (r ∷ rs) db = serve rs (handle r db)

pub Result-cases :
    (r : Result CampaignWorkflow × WorkflowDb)
    → ((out : CampaignWorkflow) × (r ≡ (ok out, r.1))) ⊎ ((e : Error) × (r.0 ≡ err e))
Result-cases (ok out, db) = inl (out, refl)
Result-cases (err e, db) = inr (e, refl)

get_campaign_workflow-IsSound :
    (scope : Option Context) (c : ℕ) (db : WorkflowDb)
    → IsSound db
    → IsSound (get_campaign_workflow scope c db).1
unfolding get_campaign_workflow
get_campaign_workflow-IsSound scope c db h = elim (Bool-cases (leb 1 c)) [
  | inl valid ↦ rw valid (
      with_tenant_keeps IsSound scope _ db h λ ctx.
        guard_keeps IsSound (any (is_campaign ctx.tenant c) db.campaigns) not_found _ h (
          rw (some_or_state (select_workflow ctx.tenant c (ensure ctx.tenant c db)) not_found _)
            (ensure-IsSound ctx.tenant c db h)))
  | inr bad ↦ rw bad h
]

handle-IsSound : (r : Request) (db : WorkflowDb) → IsSound db → IsSound (handle r db)
unfolding handle
handle-IsSound (transition scope c input actor now) db h =
    elim (Result-cases (transition_campaign scope c input actor now db)) [
      | inl (out, e) ↦ transition_campaign-IsSound scope c input actor now db e h
      | inr (e, q) ↦ rw (transition_error scope c input actor now db q) h
    ]
handle-IsSound (read scope c) db h = get_campaign_workflow-IsSound scope c db h

-- From a sound database, any sequence of requests of the workflow, whoever sends them and whether they
-- succeed or fail, leaves a sound one: no campaign has two rows, each row that is approved, scheduled,
-- sending or ended has the users and times that belong to it, and the status of a campaign, which the
-- sender reads, is in step with its row: running only where the row is sending, and so was approved
-- and scheduled, and scheduled, finished or cancelled only where the row is. A status that is set
-- without the workflow is no request of this kind.
pub serve-IsSound : (rs : List Request) (db : WorkflowDb) → IsSound db → IsSound (serve rs db)
unfolding serve
serve-IsSound [] db h = h
serve-IsSound (r ∷ rs) db h = serve-IsSound rs (handle r db) (handle-IsSound r db h)

-- The edge that a request with a new key took.
pub record Follows (ctx : Context) (c : ℕ) (input : TransitionInput) (actor : Actor)
    (db : WorkflowDb) (out : CampaignWorkflow) (db' : WorkflowDb) : Type 0 where
  pub before : CampaignWorkflow
  pub before_row : select_workflow ctx.tenant c (ensure ctx.tenant c db) ≡ some before
  pub edge : campaign_transitions before.state out.state ≡ true
  pub asked : state_of (to_lower (trim_space input.to_state)) ≡ some out.state
  pub revised : out.revision ≡ before.revision + 1
  pub after_row : select_workflow ctx.tenant c db' ≡ some out
  pub recorded :
      db'.events
      ≡ db.events
        ++ (event ctx c before out.state (trim_space input.reason) (trim_space input.key) actor
            ∷ [])

Moved-Follows :
    {ctx : Context} {c : ℕ} {input : TransitionInput} {actor : Actor} {now : ℕ} {db : WorkflowDb}
    {out : CampaignWorkflow} {db' : WorkflowDb}
    → Moved ctx c
        (state_of (to_lower (trim_space input.to_state)))
        (trim_space input.reason)
        (trim_space input.key)
        input.scheduled_at
        actor
        now
        db
        out
        db'
    → Follows ctx c input actor db out db'
unfolding advance ensure
Moved-Follows {ctx} {c} {input} {actor} {now} {db} {out} {db'} m =
    let to : m.target ≡ out.state = sym (ap (λ (w : CampaignWorkflow). w.state) m.result) in
    record {
      before = m.before;
      before_row = m.before_row;
      edge = subst (λ s. campaign_transitions m.before.state s ≡ true) to m.edge;
      asked = m.target_of ∙ ap some to;
      revised = ap (λ (w : CampaignWorkflow). w.revision) m.result;
      after_row = select-after_move m;
      recorded =
          ap (λ (d : WorkflowDb). d.events) m.rows
          ∙ ap
              (λ s.
                (ensure ctx.tenant c db).events
                ++ (event ctx c m.before s (trim_space input.reason) (trim_space input.key) actor
                    ∷ []))
              to
          ∙ ap
              (λ es.
                es
                ++ (event ctx c m.before out.state (trim_space input.reason) (trim_space input.key)
                      actor
                    ∷ []))
              same_events;
    }
  where
    same_events : (ensure ctx.tenant c db).events ≡ db.events
    same_events = ground arith

-- A request with a new key that ends well follows an edge of `campaignTransitions` from the state of
-- the campaign's row to the state that it names, raises the revision by one, leaves the row that it
-- returned, and records one event with its key and the two states.
pub transition_Follows :
    (scope : Option Context) (ctx : Context) (c : ℕ) (input : TransitionInput) (actor : Actor)
    (now : ℕ) (db : WorkflowDb) {out : CampaignWorkflow} {db' : WorkflowDb}
    → from_context scope ≡ some ctx
    → find (is_event ctx.tenant (trim_space input.key)) db.events ≡ none
    → transition_campaign scope c input actor now db ≡ (ok out, db')
    → Follows ctx c input actor db out db'
unfolding transition_campaign
transition_Follows scope ctx c input actor now db {out} {db'} bound free h =
    let (valid, h1) = guard_ok (valid_key c (trim_space input.key)) _ _ h in
    let h2 = with_tenant_at scope ctx _ bound h1 in
    Moved-Follows (
      first_use-Moved ctx c (trim_space input.reason) (trim_space input.key) input.scheduled_at
        actor now _ db (rw free at h2))
