-- ===== src/Control/Workflow/Retries.antt =====
-- Retries of `TransitionCampaign` of campaign_workflow.go with the same idempotency key.
use mailview.Prelude.{
  ℕ, ◌≡◌, ◌≢◌, refl, sym, ap, ◌∙◌, true, false, Option, none, some, ◌==◌, ==_iff, Bytes, find,
  str_eq_refl, trim_space, ok, err, arith, Option-cases, inl, inr, find-update_self,
  find-concat_new, guard_ok, some_or_last, conflict,
}
use mailview.Tenancy.{Context, from_context, with_tenant_ok}
use mailview.Control.Db.{Actor}
use mailview.Control.Workflow.{
  State, WorkflowDb, CampaignWorkflow, WorkflowEvent, TransitionInput, advance, is_row, is_event,
  ensure, select_workflow, replay, valid_key, transition_campaign,
}
use mailview.Control.Workflow.Outcome.{Moved, event, first_use-Moved}

-- The row of a campaign after its transition is the row that the transition returned.
pub select-after_move :
    {ctx : Context} {c : ℕ} {to : Option State} {reason key : Bytes} {at : Option ℕ} {actor : Actor}
    {now : ℕ} {db : WorkflowDb} {out : CampaignWorkflow} {db' : WorkflowDb}
    → Moved ctx c to reason key at actor now db out db'
    → select_workflow ctx.tenant c db' ≡ some out
unfolding advance
select-after_move {ctx} {c} {to} {reason} {key} {at} {actor} {now} {db} m =
    ap (select_workflow ctx.tenant c) m.rows
    ∙ find-update_self (is_row ctx.tenant c) (is_row ctx.tenant c)
        (advance m.target actor.user at now) (ensure ctx.tenant c db).workflows (λ y e. e)
        m.before_row
    ∙ ap some (sym m.result)

-- The first event with the request's key after its transition is the transition's.
pub prior-after_move :
    {ctx : Context} {c : ℕ} {to : Option State} {reason key : Bytes} {at : Option ℕ} {actor : Actor}
    {now : ℕ} {db : WorkflowDb} {out : CampaignWorkflow} {db' : WorkflowDb}
    (m : Moved ctx c to reason key at actor now db out db')
    → find (is_event ctx.tenant key) db.events ≡ none
    → find (is_event ctx.tenant key) db'.events
      ≡ some (event ctx c m.before m.target reason key actor)
unfolding ensure
prior-after_move {ctx} {c} {to} {reason} {key} {at} {actor} {now} {db} m free =
    ap (λ (d : WorkflowDb). find (is_event ctx.tenant key) d.events) m.rows
    ∙ find-concat_new (is_event ctx.tenant key) (ensure ctx.tenant c db).events
        (event ctx c m.before m.target reason key actor) (same_events ∙ free)
        (ground (arith, str_eq_refl key))
  where
    same_events :
        find (is_event ctx.tenant key) (ensure ctx.tenant c db).events
        ≡ find (is_event ctx.tenant key) db.events
    same_events = ground arith

-- A retry finds the event of its key and the row as it stands.
replay_at :
    (ctx : Context) (c : ℕ) (key : Bytes) (db : WorkflowDb) (prior : WorkflowEvent)
    (w : CampaignWorkflow)
    → prior.campaign ≡ c
    → select_workflow ctx.tenant c db ≡ some w
    → replay ctx c prior db ≡ (ok w, db)
replay_at ctx c key db prior w e row = rw ((==_iff prior.campaign c).1 e) (rw row)

pub known_key :
    (scope : Option Context) (ctx : Context) (c : ℕ) (input : TransitionInput) (actor : Actor)
    (now : ℕ) (db : WorkflowDb) (prior : WorkflowEvent) (w : CampaignWorkflow)
    → from_context scope ≡ some ctx
    → valid_key c (trim_space input.key) ≡ true
    → find (is_event ctx.tenant (trim_space input.key)) db.events ≡ some prior
    → prior.campaign ≡ c
    → select_workflow ctx.tenant c db ≡ some w
    → transition_campaign scope c input actor now db ≡ (ok w, db)
unfolding transition_campaign
known_key scope ctx c input actor now db prior w bound valid found same row =
    rw valid (rw bound (rw found (rw (replay_at ctx c (trim_space input.key) db prior w same row))))

pub replay_ok :
    (ctx : Context) (c : ℕ) (prior : WorkflowEvent) (db : WorkflowDb) {out : CampaignWorkflow}
    {db' : WorkflowDb}
    → replay ctx c prior db ≡ (ok out, db')
    → (prior.campaign ≡ c) × (select_workflow ctx.tenant c db ≡ some out) × (db ≡ db')
replay_ok ctx c prior db h =
    let (same, h1) = guard_ok (prior.campaign == c) _ _ h in
    let (row, kept) = some_or_last (select_workflow ctx.tenant c db) _ h1 in
    ((==_iff _ _).0 same, row, kept)

-- What is known of a request that ended well: its tenant, its key, and after it an event with the
-- key for the campaign, and the returned row.
pub record Done (scope : Option Context) (c : ℕ) (key : Bytes) (db' : WorkflowDb)
    (out : CampaignWorkflow) : Type 0 where
  pub ctx : Context
  pub bound : from_context scope ≡ some ctx
  pub valid : valid_key c key ≡ true
  pub prior : WorkflowEvent
  pub found : find (is_event ctx.tenant key) db'.events ≡ some prior
  pub same : prior.campaign ≡ c
  pub row : select_workflow ctx.tenant c db' ≡ some out

pub transition_Done :
    (scope : Option Context) (c : ℕ) (input : TransitionInput) (actor : Actor) (now : ℕ)
    (db : WorkflowDb) {out : CampaignWorkflow} {db' : WorkflowDb}
    → transition_campaign scope c input actor now db ≡ (ok out, db')
    → Done scope c (trim_space input.key) db' out
unfolding transition_campaign
transition_Done scope c input actor now db {out} {db'} h =
    let (valid, h1) = guard_ok (valid_key c key) _ _ h in
    let (ctx, bound, h2) = with_tenant_ok scope _ h1 in
    elim (Option-cases (find (is_event ctx.tenant key) db.events)) [
      | inl free ↦
          let m =
            first_use-Moved ctx c (trim_space input.reason) key input.scheduled_at actor now _ db
              (rw free at h2) in
          record {
            ctx = ctx;
            bound = bound;
            valid = valid;
            prior = event ctx c m.before m.target (trim_space input.reason) key actor;
            found = prior-after_move m free;
            same = refl;
            row = select-after_move m;
          }
      | inr hit ↦
          let (prior, found) = hit in
          let (same, row, kept) = replay_ok ctx c prior db (rw found at h2) in
          record {
            ctx = ctx;
            bound = bound;
            valid = valid;
            prior = prior;
            found =
                ap (λ (d : WorkflowDb). find (is_event ctx.tenant key) d.events) (sym kept) ∙ found;
            same = same;
            row = ap (select_workflow ctx.tenant c) (sym kept) ∙ row;
          }
    ]
  where
    key : Bytes
    key = trim_space input.key

-- A request that is sent again with its idempotency key, whatever else it asks for and whoever
-- sends it, has the reply of the first one and changes nothing: no second event, no audit row.
pub transition_retry :
    (scope : Option Context) (c : ℕ) (input again : TransitionInput) (actor other : Actor)
    (now later : ℕ) (db : WorkflowDb) {out : CampaignWorkflow} {db' : WorkflowDb}
    → trim_space again.key ≡ trim_space input.key
    → transition_campaign scope c input actor now db ≡ (ok out, db')
    → transition_campaign scope c again other later db' ≡ (ok out, db')
transition_retry scope c input again actor other now later db {out} {db'} same_key h =
    let d = transition_Done scope c input actor now db h in
    known_key scope d.ctx c again other later db' d.prior out d.bound
      (ap (valid_key c) same_key ∙ d.valid)
      (ap (λ k. find (is_event d.ctx.tenant k) db'.events) same_key ∙ d.found) d.same d.row

-- A key that belongs to another campaign is refused, and nothing changes.
pub transition_key_taken :
    (scope : Option Context) (ctx : Context) (c : ℕ) (input : TransitionInput) (actor : Actor)
    (now : ℕ) (db : WorkflowDb) (prior : WorkflowEvent)
    → from_context scope ≡ some ctx
    → valid_key c (trim_space input.key) ≡ true
    → find (is_event ctx.tenant (trim_space input.key)) db.events ≡ some prior
    → prior.campaign ≢ c
    → transition_campaign scope c input actor now db ≡ (err conflict, db)
unfolding transition_campaign
transition_key_taken scope ctx c input actor now db prior bound valid found other =
    rw valid (rw bound (rw found (rw differs)))
  where
    differs : (prior.campaign == c) ≡ false
    differs = ground arith
