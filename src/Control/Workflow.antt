-- ===== src/Control/Workflow.antt =====
-- internal/mailview/control/campaign_workflow.go: the approval workflow of campaigns.
pub mod Outcome
pub mod Retries
pub mod Shown
pub mod Approval
pub mod History
pub mod Repeats
pub mod Decimal
mod Examples
use mailview.Prelude.{
  ℕ, ◌+◌, Bool, true, false, not, ◌&&◌, ◌||◌, Option, none, some, List, [], ◌∷◌, ◌++◌, ◌==◌, ltb,
  leb, if◌then◌else◌, Bytes, codes, any, find, update, length, str_eq, trim_space, to_lower, Tx,
  Result, ok, err, invalid, conflict, not_found, no_rows, invalid_transition, ◌>>=◌, ◌>>◌, exec,
  gets, guard, pure, some_or,
}
use mailview.Tenancy.{Context, with_tenant}
use mailview.Control.Db.{Actor, AuditEvent, audited, null_if_zero}

-- The eight constants `CampaignState…`.
pub data State : Type 0 where
  draft review approved scheduled sending completed rejected cancelled : State

-- The enumeration `campaign_status` of the core's table.
pub data CampaignStatus : Type 0 where
  draft running scheduled paused cancelled finished : CampaignStatus

pub record Campaign : Type 0 where
  pub tenant : ℕ
  pub id : ℕ
  pub status : CampaignStatus
  pub send_at : Option ℕ

-- `CampaignWorkflow`, without the row's creation and update times
pub record CampaignWorkflow : Type 0 where
  pub tenant : ℕ
  pub campaign : ℕ
  pub state : State
  pub revision : ℕ
  pub submitted_by : Option ℕ
  pub approved_by : Option ℕ
  pub rejected_by : Option ℕ
  pub scheduled_by : Option ℕ
  pub scheduled_at : Option ℕ
  pub cancellation_requested_at : Option ℕ
  pub completed_at : Option ℕ

-- mv_campaign_workflow_events
pub record WorkflowEvent : Type 0 where
  pub tenant : ℕ
  pub campaign : ℕ
  pub from : State
  pub to : State
  pub actor : Option ℕ
  pub reason : Bytes
  pub key : Bytes

pub record WorkflowDb : Type 0 where
  pub campaigns : List Campaign
  pub workflows : List CampaignWorkflow
  pub events : List WorkflowEvent
  pub audit : List AuditEvent

pub record TransitionInput : Type 0 where
  pub to_state : Bytes
  pub reason : Bytes
  pub key : Bytes
  pub scheduled_at : Option ℕ

-- A text that is none of the constants has no entry in `campaignTransitions`.
pub state_of : Bytes → Option State
unfolding str_eq
state_of s =
    if str_eq s (codes "draft")
    then some State.draft
    else if str_eq s (codes "review")
    then some State.review
    else if str_eq s (codes "approved")
    then some State.approved
    else if str_eq s (codes "scheduled")
    then some State.scheduled
    else if str_eq s (codes "sending")
    then some State.sending
    else if str_eq s (codes "completed")
    then some State.completed
    else if str_eq s (codes "rejected")
    then some State.rejected
    else if str_eq s (codes "cancelled")
    then some State.cancelled
    else none

-- `campaignTransitions`
unfoldable pub campaign_transitions : State → State → Bool
campaign_transitions State.draft State.review = true
campaign_transitions State.review State.approved = true
campaign_transitions State.review State.rejected = true
campaign_transitions State.rejected State.review = true
campaign_transitions State.approved State.scheduled = true
campaign_transitions State.approved State.cancelled = true
campaign_transitions State.scheduled State.sending = true
campaign_transitions State.scheduled State.cancelled = true
campaign_transitions State.sending State.completed = true
campaign_transitions State.sending State.cancelled = true
campaign_transitions _ _ = false

abbrev pub is_row : ℕ → ℕ → CampaignWorkflow → Bool
is_row t c w = w.tenant == t && w.campaign == c

abbrev pub is_campaign : ℕ → ℕ → Campaign → Bool
is_campaign t c r = r.tenant == t && r.id == c

-- The row as the column defaults make it.
abbrev pub fresh : ℕ → ℕ → CampaignWorkflow
fresh t c = record {
  tenant = t;
  campaign = c;
  state = State.draft;
  revision = 1;
  submitted_by = none;
  approved_by = none;
  rejected_by = none;
  scheduled_by = none;
  scheduled_at = none;
  cancellation_requested_at = none;
  completed_at = none;
}

-- `INSERT … SELECT id FROM campaigns WHERE tenant_id=$1 AND id=$2 ON CONFLICT DO NOTHING`
unfoldable pub ensure : ℕ → ℕ → WorkflowDb → WorkflowDb
unfolding any
ensure t c db =
    if any (is_campaign t c) db.campaigns && not (any (is_row t c) db.workflows)
    then record db { workflows = db.workflows ++ (fresh t c ∷ []) }
    else db

-- `selectCampaignWorkflow`
abbrev pub select_workflow : ℕ → ℕ → WorkflowDb → Option CampaignWorkflow
select_workflow t c db = find (is_row t c) db.workflows

-- The `UPDATE`'s `CASE` for each column.
abbrev pub stamp {ℓ} : {A : Type ℓ} → State → State → Option A → Option A → Option A
stamp State.review State.review new old = new
stamp State.approved State.approved new old = new
stamp State.rejected State.rejected new old = new
stamp State.scheduled State.scheduled new old = new
stamp State.cancelled State.cancelled new old = new
stamp State.completed State.completed new old = new
stamp _ _ new old = old

unfoldable pub advance : State → ℕ → Option ℕ → ℕ → CampaignWorkflow → CampaignWorkflow
advance to user at now w = record w {
  state = to;
  revision = w.revision + 1;
  submitted_by = stamp State.review to (some user) w.submitted_by;
  approved_by = stamp State.approved to (some user) w.approved_by;
  rejected_by = stamp State.rejected to (some user) w.rejected_by;
  scheduled_by = stamp State.scheduled to (some user) w.scheduled_by;
  scheduled_at = stamp State.scheduled to at w.scheduled_at;
  cancellation_requested_at = stamp State.cancelled to (some now) w.cancellation_requested_at;
  completed_at = stamp State.completed to (some now) w.completed_at;
}

-- The `switch` of `syncLegacyCampaignState`; `default` changes nothing.
unfoldable pub legacy_status : State → Option CampaignStatus
legacy_status State.scheduled = some CampaignStatus.scheduled
legacy_status State.sending = some CampaignStatus.running
legacy_status State.completed = some CampaignStatus.finished
legacy_status State.cancelled = some CampaignStatus.cancelled
legacy_status _ = none

abbrev pub set_status : CampaignStatus → Option ℕ → Campaign → Campaign
set_status CampaignStatus.scheduled at r = record r {
  status = CampaignStatus.scheduled;
  send_at = at;
}
set_status s at r = record r { status = s }

abbrev pub sync_with : Option CampaignStatus → ℕ → ℕ → Option ℕ → List Campaign → List Campaign
sync_with none t c at rows = rows
sync_with (some s) t c at rows = update (is_campaign t c) (set_status s at) rows

-- `syncLegacyCampaignState`
unfoldable pub sync_legacy_campaign_state : ℕ → ℕ → State → Option ℕ → WorkflowDb → WorkflowDb
unfolding legacy_status
sync_legacy_campaign_state t c to at db = record db {
  campaigns = sync_with (legacy_status to) t c at db.campaigns;
}

-- `in.ScheduledAt != nil && in.ScheduledAt.After(time.Now())`
abbrev pub in_future : Option ℕ → ℕ → Bool
in_future none now = false
in_future (some at) now = ltb now at

abbrev pub needs_reason : State → Bytes → Bool
needs_reason State.rejected reason = leb 3 (length reason)
needs_reason _ reason = true

abbrev pub needs_time : State → Option ℕ → ℕ → Bool
needs_time State.scheduled at now = in_future at now
needs_time _ at now = true

abbrev pub is_event : ℕ → Bytes → WorkflowEvent → Bool
is_event t k e = e.tenant == t && str_eq e.key k

-- The body of a request whose key is new, from the locked row on.
unfoldable pub apply_transition :
    Context
    → ℕ
    → State
    → Bytes
    → Bytes
    → Option ℕ
    → Actor
    → ℕ
    → CampaignWorkflow
    → Tx WorkflowDb CampaignWorkflow
apply_transition ctx c to reason key at actor now w = do
  guard (campaign_transitions w.state to) invalid_transition
  guard (needs_reason to reason) invalid
  guard (needs_time to at now) invalid
  exec (λ db. record db {
    workflows = update (is_row ctx.tenant c) (advance to actor.user at now) db.workflows;
    events =
        db.events
        ++ (record {
          tenant = ctx.tenant;
          campaign = c;
          from = w.state;
          to = to;
          actor = null_if_zero actor.user;
          reason = reason;
          key = key;
        }
            ∷ []);
  })
  exec (sync_legacy_campaign_state ctx.tenant c to at)
  exec (λ db. record db {
    audit = audited (some ctx.tenant) actor (codes "campaign.workflow.transition") c db.audit;
  })
  pure (advance to actor.user at now w)

-- A request whose key is new.
unfoldable pub first_use :
    Context
    → ℕ
    → Option State
    → Bytes
    → Bytes
    → Option ℕ
    → Actor
    → ℕ
    → Tx WorkflowDb CampaignWorkflow
first_use ctx c to reason key at actor now = do
  exec (ensure ctx.tenant c)
  found ← gets (select_workflow ctx.tenant c)
  w ← some_or found not_found
  target ← some_or to invalid_transition
  apply_transition ctx c target reason key at actor now w

-- A request whose key an earlier event has.
abbrev pub replay : Context → ℕ → WorkflowEvent → Tx WorkflowDb CampaignWorkflow
replay ctx c prior = do
  guard (prior.campaign == c) conflict
  found ← gets (select_workflow ctx.tenant c)
  some_or found no_rows

abbrev pub on_key :
    Option WorkflowEvent
    → Context
    → ℕ
    → Option State
    → Bytes
    → Bytes
    → Option ℕ
    → Actor
    → ℕ
    → Tx WorkflowDb CampaignWorkflow
on_key (some prior) ctx c to reason key at actor now = replay ctx c prior
on_key none ctx c to reason key at actor now = first_use ctx c to reason key at actor now

abbrev pub valid_key : ℕ → Bytes → Bool
valid_key c key = leb 1 c && leb 8 (length key) && leb (length key) 200

-- `TransitionCampaign`
unfoldable pub transition_campaign :
    Option Context → ℕ → TransitionInput → Actor → ℕ → Tx WorkflowDb CampaignWorkflow
unfolding state_of
transition_campaign scope c input actor now = do
  let to = state_of (to_lower (trim_space input.to_state))
  let reason = trim_space input.reason
  let key = trim_space input.key
  guard (valid_key c key) invalid
  with_tenant scope (λ ctx. do
    prior ← gets (λ db. find (is_event ctx.tenant key) db.events)
    on_key prior ctx c to reason key input.scheduled_at actor now)

-- `GetCampaignWorkflow`: the insertion selects the campaign's row, and returns a row where it is there.
unfoldable pub get_campaign_workflow : Option Context → ℕ → Tx WorkflowDb CampaignWorkflow
get_campaign_workflow scope c = do
  guard (leb 1 c) invalid
  with_tenant scope (λ ctx. do
    present ← gets (λ db. any (is_campaign ctx.tenant c) db.campaigns)
    guard present not_found
    exec (ensure ctx.tenant c)
    found ← gets (select_workflow ctx.tenant c)
    some_or found not_found)
