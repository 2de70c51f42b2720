-- ===== src/Control/Workflow/Shown.antt =====
-- The status of a campaign, which the sender reads, against the state of its workflow's row, in
-- campaign_workflow.go.
use mailview.Prelude.{
  ℕ, ◌≡◌, refl, ap, Bool, true, false, Option, none, some, List, [], ◌∷◌, ◌++◌, find, update,
  find-update_self, find-update_ne, arith, Bool-cases, Option-cases, inl, inr, All,
}
use mailview.Control.Workflow.{
  State, CampaignStatus, Campaign, CampaignWorkflow, campaign_transitions, is_row, is_campaign,
  fresh, advance, legacy_status, set_status, sync_with,
}

-- May a campaign have the status while its row is in the state?
abbrev pub shows : CampaignStatus → State → Bool
shows CampaignStatus.draft _ = true
shows CampaignStatus.paused _ = true
shows CampaignStatus.scheduled State.scheduled = true
shows CampaignStatus.running State.sending = true
shows CampaignStatus.finished State.completed = true
shows CampaignStatus.cancelled State.cancelled = true
shows _ _ = false

-- A campaign without a row is a draft.
abbrev pub state_of_row : Option CampaignWorkflow → State
state_of_row none = State.draft
state_of_row (some w) = w.state

abbrev pub state_in : List CampaignWorkflow → ℕ → ℕ → State
state_in ws t c = state_of_row (find (is_row t c) ws)

abbrev pub IsShown : List CampaignWorkflow → Campaign → Type 0
IsShown ws r = shows r.status (state_in ws r.tenant r.id) ≡ true

pub state_in-fresh :
    (ws : List CampaignWorkflow) (t c t' c' : ℕ)
    → state_in (ws ++ fresh t c ∷ []) t' c' ≡ state_in ws t' c'
state_in-fresh [] t c t' c' = elim (Bool-cases (is_row t' c' (fresh t c))) [
  | inl e ↦ rw e refl
  | inr e ↦ rw e refl
]
state_in-fresh (w ∷ ws) t c t' c' = elim (Bool-cases (is_row t' c' w)) [
  | inl e ↦ rw e refl
  | inr e ↦ rw e (state_in-fresh ws t c t' c')
]

pub All-each {ℓ} :
    {A : Type ℓ} {P Q : A → Type ℓ} (xs : List A) → ((x : A) → P x → Q x) → All P xs → All Q xs
All-each [] f h = tt
All-each (x ∷ xs) f h = (f x h.0, All-each xs f h.1)

All-set {ℓ} :
    {A : Type ℓ} {P Q : A → Type ℓ} (p : A → Bool) (f : A → A) (xs : List A)
    → ((x : A) → p x ≡ true → P x → Q (f x))
    → ((x : A) → p x ≡ false → P x → Q x)
    → All P xs
    → All Q (update p f xs)
All-set p f [] hit miss h = tt
All-set {Q = Q} p f (x ∷ xs) hit miss h = elim (Bool-cases (p x)) [
  | inl e ↦ (rw e (hit x e h.0), All-set p f xs hit miss h.1)
  | inr e ↦ (rw e (miss x e h.0), All-set p f xs hit miss h.1)
]

shows_kept :
    (s : CampaignStatus) (a b : State)
    → campaign_transitions a b ≡ true
    → legacy_status b ≡ none
    → shows s a ≡ true
    → shows s b ≡ true
unfolding campaign_transitions legacy_status
shows_kept s a b edge quiet h = ground arith

shows_set : (b : State) (s : CampaignStatus) → legacy_status b ≡ some s → shows s b ≡ true
unfolding legacy_status
shows_set b s e = ground arith

set_status_fields :
    (s : CampaignStatus) (at : Option ℕ) (r : Campaign)
    → ((set_status s at r).status ≡ s)
      × ((set_status s at r).tenant ≡ r.tenant)
      × ((set_status s at r).id ≡ r.id)
set_status_fields s at r = ground arith

module _ (t c : ℕ) (to : State) (user : ℕ) (at : Option ℕ) (now : ℕ) (ws : List CampaignWorkflow)
    (w : CampaignWorkflow) (row : find (is_row t c) ws ≡ some w) where
  abbrev moved : List CampaignWorkflow
  moved = update (is_row t c) (advance to user at now) ws

  state_in-moved : state_in moved t c ≡ to
  unfolding advance
  state_in-moved =
      ap state_of_row
        (find-update_self (is_row t c) (is_row t c) (advance to user at now) ws (λ y e. e) row)

  state_in-other :
      (r : Campaign)
      → is_campaign t c r ≡ false
      → state_in moved r.tenant r.id ≡ state_in ws r.tenant r.id
  unfolding advance
  state_in-other r e = ap state_of_row (
      find-update_ne (is_row t c) (is_row r.tenant r.id) (advance to user at now) ws
        (λ y q. ground (arith, e, q)))

  unchanged : (r : Campaign) → is_campaign t c r ≡ true → state_in ws r.tenant r.id ≡ w.state
  unchanged r e =
      let same_t : r.tenant ≡ t = ground (arith, e) in
      let same_c : r.id ≡ c = ground (arith, e) in rw (same_t, same_c) (ap state_of_row row)

  at_moved : (r : Campaign) → is_campaign t c r ≡ true → state_in moved r.tenant r.id ≡ to
  at_moved r e =
      let same_t : r.tenant ≡ t = ground (arith, e) in
      let same_c : r.id ≡ c = ground (arith, e) in rw (same_t, same_c) state_in-moved

  stays :
      (r : Campaign)
      → campaign_transitions w.state to ≡ true
      → legacy_status to ≡ none
      → IsShown ws r
      → IsShown moved r
  stays r edge quiet h = elim (Bool-cases (is_campaign t c r)) [
    | inl e ↦
        rw (at_moved r e) (shows_kept r.status w.state to edge quiet (rw (unchanged r e) at h))
    | inr e ↦ rw (state_in-other r e) h
  ]

  sets :
      (s : CampaignStatus) (r : Campaign)
      → legacy_status to ≡ some s
      → is_campaign t c r ≡ true
      → IsShown moved (set_status s at r)
  sets s r e here =
      let (same_s, same_t, same_c) = set_status_fields s at r in
      rw (same_s, same_t, same_c, at_moved r here) (shows_set to s e)

  -- A transition along an edge keeps the statuses in step with the rows.
  pub moved-IsShown :
      (cs : List Campaign)
      → campaign_transitions w.state to ≡ true
      → All (IsShown ws) cs
      → All (IsShown moved) (sync_with (legacy_status to) t c at cs)
  moved-IsShown cs edge h = elim (Option-cases (legacy_status to)) [
    | inl e ↦ rw e (All-each cs (λ r. stays r edge e) h)
    | inr (s, e) ↦ rw e (
        All-set (is_campaign t c) (set_status s at) cs (λ r here q. sets s r e here)
          (λ r away q. rw (state_in-other r away) q) h)
  ]
