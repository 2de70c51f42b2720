-- ===== src/Control/Workflow/Examples.antt =====
-- Runs of campaign_workflow.go on one campaign, and the theorems at these runs.
use mailview.Prelude.{
  List, ℕ, ◌≡◌, ◌≢◌, refl, true, Option, none, some, [], ◌∷◌, Bytes, codes, any, find, trim_space,
  arith, str_eq, trim_left, trim_right, to_lower, ok, err, invalid_transition,
}
use mailview.Tenancy.{Context}
use mailview.Control.Db.{Actor}
use mailview.Control.Workflow.{
  State, CampaignStatus, CampaignWorkflow, WorkflowEvent, WorkflowDb, TransitionInput, advance,
  fresh, ensure, campaign_transitions, legacy_status, sync_legacy_campaign_state, apply_transition,
  first_use, state_of, is_event, valid_key, transition_campaign,
}
use mailview.Control.Workflow.Approval.{IsSound}
use mailview.Control.Workflow.Repeats.{Repeated, transition-Repeated}
use mailview.Control.Workflow.History.{
  Request, Follows, transition, read, serve, serve-IsSound, transition_Follows,
}

abbrev tenant : ℕ
tenant = 7

abbrev scope : Option Context
scope = some (record { tenant = tenant; user = 3 })

abbrev ctx : Context
ctx = record { tenant = tenant; user = 3 }

abbrev actor : Actor
actor = record { user = 3 }

abbrev start : WorkflowDb
start = record {
  campaigns =
      record { tenant = tenant; id = 5; status = CampaignStatus.draft; send_at = none } ∷ [];
  workflows = [];
  events = [];
  audit = [];
}

abbrev ask : Bytes → Bytes → Option ℕ → TransitionInput
ask to key at = record { to_state = to; reason = codes "because"; key = key; scheduled_at = at }

abbrev submit : TransitionInput
submit = ask (codes " Review ") (codes "key-0001") none

abbrev approve : TransitionInput
approve = ask (codes "approved") (codes "key-0001 ") none

abbrev submitted : CampaignWorkflow
submitted = advance State.review 3 none 100 (fresh tenant 5)

abbrev after_submit : WorkflowDb
after_submit = (transition_campaign scope 5 submit actor 100 start).1

abbrev submit_event : WorkflowEvent
submit_event = record {
  tenant = tenant;
  campaign = 5;
  from = State.draft;
  to = State.review;
  actor = some 3;
  reason = codes "because";
  key = codes "key-0001";
}

submit_ok : transition_campaign scope 5 submit actor 100 start ≡ (ok submitted, after_submit)
unfolding transition_campaign state_of first_use apply_transition ensure advance
    campaign_transitions sync_legacy_campaign_state legacy_status any str_eq trim_left trim_right
    to_lower
submit_ok = refl

same_key : trim_right (trim_left approve.key) ≡ trim_right (trim_left submit.key)
unfolding trim_left trim_right
same_key = refl

start-IsSound : IsSound start
start-IsSound = record { keyed = tt; backed = tt; shown = (refl, tt) }

-- The request with the key, sent again after others with other keys.
abbrev since : List Request
since =
    transition scope 5 (ask (codes "approved") (codes "key-0003") none) actor 150
    ∷ (read scope 5 ∷ [])

transition-Repeated_example :
    Repeated scope 5 approve actor 200 (serve since after_submit)
    × (transition_campaign scope 5 approve actor 200 after_submit ≡ (ok submitted, after_submit))
transition-Repeated_example =
    transition-Repeated scope 5 submit approve actor actor 100 200 start since same_key submit_ok

taken : find (is_event tenant (trim_space submit.key)) after_submit.events ≡ some submit_event
unfolding transition_campaign state_of first_use apply_transition ensure advance
    campaign_transitions sync_legacy_campaign_state legacy_status any str_eq trim_left trim_right
    to_lower
taken = refl

key_ok : valid_key 6 (trim_space submit.key) ≡ true
unfolding trim_left trim_right
key_ok = refl

five : submit_event.campaign ≢ 6
five = ground arith

-- From `draft` a campaign is not sent.
abbrev send : TransitionInput
send = ask (codes "sending") (codes "key-0002") none

refused : (transition_campaign scope 5 send actor 400 start).0 ≡ err invalid_transition
unfolding transition_campaign state_of first_use apply_transition ensure campaign_transitions any
    str_eq trim_left trim_right to_lower
refused = refl

serve-IsSound_example : IsSound (
    serve
      (read scope 5
        ∷ transition scope 5 submit actor 100
        ∷ transition scope 5 approve actor 200
        ∷ [])
      start)
serve-IsSound_example =
    serve-IsSound
      (read scope 5
        ∷ transition scope 5 submit actor 100
        ∷ transition scope 5 approve actor 200
        ∷ [])
      start start-IsSound

unused : find (is_event tenant (trim_space submit.key)) start.events ≡ none
unused = refl

transition_Follows_example : Follows ctx 5 submit actor start submitted after_submit
transition_Follows_example =
    transition_Follows scope ctx 5 submit actor 100 start refl unused submit_ok
