-- ===== src/Control/Workflow/Outcome.antt =====
-- What a successful `TransitionCampaign` of campaign_workflow.go did, taken apart.
use mailview.Prelude.{
  ℕ, ◌≡◌, sym, ap, true, Option, some, [], ◌∷◌, ◌++◌, Bytes, codes, update, ok, guard_ok,
  some_or_ok,
}
use mailview.Tenancy.{Context}
use mailview.Control.Db.{Actor, audited, null_if_zero}
use mailview.Control.Workflow.{
  State, WorkflowDb, CampaignWorkflow, WorkflowEvent, campaign_transitions, needs_reason,
  needs_time, advance, sync_legacy_campaign_state, is_row, ensure, select_workflow,
  apply_transition, first_use,
}

-- The event that a transition records.
abbrev pub event : Context → ℕ → CampaignWorkflow → State → Bytes → Bytes → Actor → WorkflowEvent
event ctx c w to reason key actor = record {
  tenant = ctx.tenant;
  campaign = c;
  from = w.state;
  to = to;
  actor = null_if_zero actor.user;
  reason = reason;
  key = key;
}

-- The rows after a transition.
abbrev pub after_move :
    Context
    → ℕ
    → CampaignWorkflow
    → State
    → Bytes
    → Bytes
    → Option ℕ
    → Actor
    → ℕ
    → WorkflowDb
    → WorkflowDb
after_move ctx c w to reason key at actor now db =
    record (sync_legacy_campaign_state ctx.tenant c to at db) {
      workflows = update (is_row ctx.tenant c) (advance to actor.user at now) db.workflows;
      events = db.events ++ (event ctx c w to reason key actor ∷ []);
      audit = audited (some ctx.tenant) actor (codes "campaign.workflow.transition") c db.audit;
    }

pub record Moved (ctx : Context) (c : ℕ) (to : Option State) (reason key : Bytes) (at : Option ℕ)
    (actor : Actor) (now : ℕ) (db : WorkflowDb) (out : CampaignWorkflow) (db' : WorkflowDb)
    : Type 0 where
  pub before : CampaignWorkflow
  pub target : State
  pub before_row : select_workflow ctx.tenant c (ensure ctx.tenant c db) ≡ some before
  pub target_of : to ≡ some target
  pub edge : campaign_transitions before.state target ≡ true
  pub has_reason : needs_reason target reason ≡ true
  pub has_time : needs_time target at now ≡ true
  pub result : out ≡ advance target actor.user at now before
  pub rows : db' ≡ after_move ctx c before target reason key at actor now (ensure ctx.tenant c db)

module _ (ctx : Context) (c : ℕ) (reason key : Bytes) (at : Option ℕ) (actor : Actor)
    (now : ℕ) where
  apply_transition_ok :
      (target : State) (w : CampaignWorkflow) (db : WorkflowDb) {out : CampaignWorkflow}
      {db' : WorkflowDb}
      → apply_transition ctx c target reason key at actor now w db ≡ (ok out, db')
      → (campaign_transitions w.state target ≡ true)
        × (needs_reason target reason ≡ true)
        × (needs_time target at now ≡ true)
        × (out ≡ advance target actor.user at now w)
        × (db' ≡ after_move ctx c w target reason key at actor now db)
  unfolding apply_transition sync_legacy_campaign_state
  apply_transition_ok target w db h =
      let (edge, h1) = guard_ok (campaign_transitions w.state target) _ _ h in
      let (why, h2) = guard_ok (needs_reason target reason) _ _ h1 in
      let (when, h3) = guard_ok (needs_time target at now) _ _ h2 in
      (edge, why, when, cc h3, sym (ap (λ r. r.1) h3))

  pub first_use-Moved :
      (to : Option State) (db : WorkflowDb) {out : CampaignWorkflow} {db' : WorkflowDb}
      → first_use ctx c to reason key at actor now db ≡ (ok out, db')
      → Moved ctx c to reason key at actor now db out db'
  unfolding first_use
  first_use-Moved to db h =
      let (w, row, h1) = some_or_ok (select_workflow ctx.tenant c (ensure ctx.tenant c db)) _ _ h in
      let (target, is_target, h2) = some_or_ok to _ _ h1 in
      let (edge, why, when, out_is, db_is) =
        apply_transition_ok target w (ensure ctx.tenant c db) h2 in
      record {
        before = w;
        target = target;
        before_row = row;
        target_of = is_target;
        edge = edge;
        has_reason = why;
        has_time = when;
        result = out_is;
        rows = db_is;
      }
