-- ===== src/Control/Workflow/Approval.antt =====
-- The approvals that a row of campaign_workflow.go has to carry, and what one request does to them.
use mailview.Prelude.{
  ℕ, ◌≤◌, ◌≡◌, ◌≢◌, refl, sym, subst, Bool, true, false, not, ◌&&◌, Option, ◌==◌, Bytes, any, find,
  trim_space, ok, arith, Bool-cases, Option-cases, inl, inr, is_some, All, All-concat, All-mem,
  All-update, IsKeyed, IsKeyed-concat, IsKeyed-update, mem-find, guard_ok,
}
use mailview.Tenancy.{Context, with_tenant_ok}
use mailview.Control.Db.{Actor}
use mailview.Control.Workflow.{
  State, WorkflowDb, CampaignWorkflow, TransitionInput, campaign_transitions, advance, needs_time,
  is_row, is_event, is_campaign, fresh, ensure, valid_key, transition_campaign,
  sync_legacy_campaign_state,
}
use mailview.Control.Workflow.Outcome.{Moved, first_use-Moved}
use mailview.Control.Workflow.Retries.{replay_ok}
use mailview.Control.Workflow.Shown.{IsShown, All-each, state_in-fresh, moved-IsShown}

abbrev pub is_approved : State → Bool
is_approved State.approved = true
is_approved State.scheduled = true
is_approved State.sending = true
is_approved State.completed = true
is_approved _ = false

abbrev pub is_scheduled : State → Bool
is_scheduled State.scheduled = true
is_scheduled State.sending = true
is_scheduled State.completed = true
is_scheduled _ = false

-- A campaign that is approved or further has its approver, one that is scheduled or further the
-- user who scheduled it and the time, and an ended one the time of its end.
pub record IsBacked (w : CampaignWorkflow) : Type 0 where
  pub approver : is_approved w.state ≡ true → is_some w.approved_by ≡ true
  pub scheduler : is_scheduled w.state ≡ true → is_some w.scheduled_by ≡ true
  pub time : is_scheduled w.state ≡ true → is_some w.scheduled_at ≡ true
  pub ended : w.state ≡ State.completed → is_some w.completed_at ≡ true
  pub stopped : w.state ≡ State.cancelled → is_some w.cancellation_requested_at ≡ true
  pub submitter : w.state ≢ State.draft → is_some w.submitted_by ≡ true
  pub counted : 1 ≤ w.revision

abbrev pub same_key : CampaignWorkflow → CampaignWorkflow → Bool
same_key w v = w.tenant == v.tenant && w.campaign == v.campaign

pub record IsSound (db : WorkflowDb) : Type 0 where
  pub keyed : IsKeyed same_key db.workflows
  pub backed : All IsBacked db.workflows
  pub shown : All (IsShown db.workflows) db.campaigns

advance-IsBacked :
    (to : State) (user : ℕ) (at : Option ℕ) (now : ℕ) (w : CampaignWorkflow)
    → campaign_transitions w.state to ≡ true
    → needs_time to at now ≡ true
    → IsBacked w
    → IsBacked (advance to user at now w)
unfolding advance campaign_transitions
advance-IsBacked to user at now w edge time h = ground arith

pub ensure-IsSound : (t c : ℕ) (db : WorkflowDb) → IsSound db → IsSound (ensure t c db)
unfolding ensure
ensure-IsSound t c db h =
    elim (Bool-cases (any (is_campaign t c) db.campaigns && not (any (is_row t c) db.workflows))) [
      | inl e ↦ rw e (record {
        keyed = IsKeyed-concat same_key db.workflows (fresh t c) (ground arith) h.keyed;
        backed = All-concat IsBacked db.workflows (fresh t c) h.backed (ground arith);
        shown =
            All-each db.campaigns (λ r q. rw (state_in-fresh db.workflows t c r.tenant r.id) q)
              h.shown;
      })
      | inr e ↦ rw e h
    ]

Moved-IsSound :
    {ctx : Context} {c : ℕ} {to : Option State} {reason key : Bytes} {at : Option ℕ} {actor : Actor}
    {now : ℕ} {db : WorkflowDb} {out : CampaignWorkflow} {db' : WorkflowDb}
    → Moved ctx c to reason key at actor now db out db'
    → IsSound db
    → IsSound db'
unfolding advance sync_legacy_campaign_state
Moved-IsSound {ctx} {c} {to} {reason} {key} {at} {actor} {now} {db} m h =
    let sound = ensure-IsSound ctx.tenant c db h in
    let rows = (ensure ctx.tenant c db).workflows in
    let step = advance m.target actor.user at now in
    subst IsSound (sym m.rows) (record {
      keyed =
          IsKeyed-update same_key (is_row ctx.tenant c) step (λ x z. refl) (λ x z. refl) rows
            sound.keyed;
      backed =
          All-update IsBacked same_key (is_row ctx.tenant c) step (λ y z e. ground arith) rows
            sound.keyed m.before_row sound.backed
            (advance-IsBacked m.target actor.user at now m.before m.edge m.has_time (
              All-mem IsBacked rows sound.backed
                (mem-find (is_row ctx.tenant c) rows m.before_row).0));
      shown =
          moved-IsShown ctx.tenant c m.target actor.user at now rows m.before m.before_row
            (ensure ctx.tenant c db).campaigns m.edge sound.shown;
    })

-- A request that ended well keeps the rows backed and in step with the statuses.
pub transition_campaign-IsSound :
    (scope : Option Context) (c : ℕ) (input : TransitionInput) (actor : Actor) (now : ℕ)
    (db : WorkflowDb) {out : CampaignWorkflow} {db' : WorkflowDb}
    → transition_campaign scope c input actor now db ≡ (ok out, db')
    → IsSound db
    → IsSound db'
unfolding transition_campaign
transition_campaign-IsSound scope c input actor now db {out} {db'} h sound =
    let (valid, h1) = guard_ok (valid_key c (trim_space input.key)) _ _ h in
    let (ctx, bound, h2) = with_tenant_ok scope _ h1 in
    elim (Option-cases (find (is_event ctx.tenant (trim_space input.key)) db.events)) [
      | inl free ↦
          Moved-IsSound
            (first_use-Moved ctx c (trim_space input.reason) (trim_space input.key)
              input.scheduled_at actor now _ db (rw free at h2))
            sound
      | inr hit ↦
          let (prior, found) = hit in
          subst IsSound (replay_ok ctx c prior db (rw found at h2)).2 sound
    ]
