-- ===== src/Control/Impersonation/Opening.antt =====
-- What a grant of impersonation.go allows, and for how long.
use mailview.Prelude.{
  ℕ, ◌+◌, ◌≤◌, ◌<◌, ◌≡◌, ◌≢◌, refl, subst, true, not, ◌&&◌, Option, none, some, ◌==◌, ==_iff, leb,
  leb→le, any, length, trim_space, ok, arith, in_tx_ok, guard_ok,
}
use mailview.Control.Db.{Actor}
use mailview.Control.Impersonation.{
  Grant, GrantDb, StartInput, mfa_recency_window, max_impersonation_ttl, min_reason_length, ttl_of,
  valid_ttl, last_verified, is_recent, active_member, new_grant, insert_body, insert_grant,
  start_impersonation,
}

-- What a new grant rests on.
pub record IsJustified (id actor : ℕ) (input : StartInput) (now : ℕ) (db : GrantDb) (g : Grant)
    : Type 0 where
  pub is_id : g.id ≡ id
  pub is_tenant : g.tenant ≡ input.tenant
  pub is_actor : g.actor ≡ actor
  pub other : g.target ≢ actor
  pub is_target : g.target ≡ input.target
  pub member : any (active_member input.tenant g.target) db.memberships ≡ true
  pub verified :
      (last : ℕ) × (last_verified actor db.mfa ≡ some last) × (now ≤ last + mfa_recency_window)
  pub explained : min_reason_length ≤ length g.reason
  pub open_at : now < g.expires_at
  pub closes : g.expires_at ≤ now + max_impersonation_ttl
  pub unapproved : g.approved_at ≡ none
  pub unrevoked : g.revoked_at ≡ none

recent_last :
    (o : Option ℕ) (now : ℕ)
    → is_recent o now ≡ true
    → (last : ℕ) × (o ≡ some last) × (now ≤ last + mfa_recency_window)
recent_last none now h = cc
recent_last (some last) now h = (last, refl, ground arith)

insert_grant_ok :
    (grant : Grant) (who : Actor) (db : GrantDb) {g : Grant} {db' : GrantDb}
    → insert_grant grant who db ≡ (ok g, db')
    → (any (active_member grant.tenant grant.target) db.memberships ≡ true) × (grant ≡ g)
unfolding insert_grant
insert_grant_ok grant who db h =
    let (member, h1) =
      guard_ok (any (active_member grant.tenant grant.target) db.memberships) _ _
        (in_tx_ok (insert_body grant who) h) in
    (member, cc h1)

ttl_bounds : (ttl : ℕ) → valid_ttl ttl ≡ true → (1 ≤ ttl) × (ttl ≤ max_impersonation_ttl)
ttl_bounds ttl h = ground arith

-- A grant that was opened names another user, an active member of the tenant, was explained, rests
-- on a TOTP check of its actor at most 15 minutes old, and ends within 30 minutes, whatever number
-- of minutes was asked for: the product may wrap, and its test is on the wrapped value.
pub start_impersonation-IsJustified :
    (id actor : ℕ) (input : StartInput) (who : Actor) (now : ℕ) (db : GrantDb) {g : Grant}
    {db' : GrantDb}
    → start_impersonation id actor input who now db ≡ (ok g, db')
    → IsJustified id actor input now db g
unfolding start_impersonation
start_impersonation-IsJustified id actor input who now db {g} {db'} h =
    let (long, h1) = guard_ok (leb min_reason_length (length (trim_space input.reason))) _ _ h in
    let (target, h2) = guard_ok (leb 1 input.target && not (input.target == actor)) _ _ h1 in
    let (ttl, h3) = guard_ok (valid_ttl (ttl_of input.ttl_minutes)) _ _ h2 in
    let (recent, h4) = guard_ok (is_recent (last_verified actor db.mfa) now) _ _ h3 in
    let (member, made) = insert_grant_ok (new_grant id actor input now) who _ h4 in
    subst (IsJustified id actor input now db) made (record {
      is_id = refl;
      is_tenant = refl;
      is_actor = refl;
      other = λ e. ground (arith, ==_iff input.target actor);
      is_target = refl;
      member = member;
      verified = recent_last (last_verified actor db.mfa) now recent;
      explained = leb→le _ _ long;
      open_at = ground (arith, ttl_bounds (ttl_of input.ttl_minutes));
      closes = ground (arith, ttl_bounds (ttl_of input.ttl_minutes));
      unapproved = refl;
      unrevoked = refl;
    })
