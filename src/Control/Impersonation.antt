-- ===== src/Control/Impersonation.antt =====
-- internal/mailview/control/impersonation.go: support grants. A time is a number of nanoseconds. The
-- `int` of a request is its 64-bit pattern, and the product with `time.Minute` wraps as Go's does.
pub mod Opening
pub mod Changes
pub mod FourEyes
pub mod Revocation
mod Examples
use mailview.Prelude.{
  ℕ, ◌+◌, ◌-◌, ◌*◌, ◌%◌, ◌^◌, Bool, true, false, not, ◌&&◌, ◌||◌, Option, none, some, List, [], ◌∷◌,
  ◌++◌, ◌==◌, ltb, leb, if◌then◌else◌, Bytes, codes, any, find, update, length, trim_space, Tx,
  Result, ok, err, Error, invalid, not_found, mfa_not_recent, grant_not_owned, grant_expired,
  grant_pending, ◌>>=◌, ◌>>◌, exec, gets, guard, pure, in_tx, is_some, is_none, some_or,
}
use mailview.Control.Db.{Actor, AuditEvent, Membership, audited, is_active}

pub record Grant : Type 0 where
  pub id : ℕ
  pub tenant : ℕ
  pub actor : ℕ
  pub target : ℕ
  pub reason : Bytes
  pub approved_by : Option ℕ
  pub approval_required : Bool
  pub approved_at : Option ℕ
  pub expires_at : ℕ
  pub revoked_at : Option ℕ

-- mv_mfa_methods, with `type = 'totp'`
pub record MfaMethod : Type 0 where
  pub user : ℕ
  pub last_used_at : Option ℕ

pub record GrantDb : Type 0 where
  pub mfa : List MfaMethod
  pub memberships : List Membership
  pub grants : List Grant
  pub audit : List AuditEvent

pub record StartInput : Type 0 where
  pub tenant : ℕ
  pub target : ℕ
  pub reason : Bytes
  pub ttl_minutes : ℕ
  pub require_approval : Bool

abbrev pub minute : ℕ
minute = 60_000_000_000

abbrev pub mfa_recency_window : ℕ
mfa_recency_window = 15 * minute

abbrev pub max_impersonation_ttl : ℕ
max_impersonation_ttl = 30 * minute

abbrev pub min_reason_length : ℕ
min_reason_length = 10

-- `time.Duration(in.TTLMinutes) * time.Minute`
abbrev pub ttl_of : ℕ → ℕ
ttl_of minutes = (minutes * minute) % 2 ^ 64

-- `ttl <= 0 || ttl > maxImpersonationTTL`, negated: the patterns from 2^63 on are negative.
abbrev pub valid_ttl : ℕ → Bool
valid_ttl ttl = not (ttl == 0 || leb (2 ^ 63) ttl || ltb max_impersonation_ttl ttl)

-- `last_used_at` of the actor's method, if there is one and it was used
abbrev pub last_verified : ℕ → List MfaMethod → Option ℕ
last_verified user [] = none
last_verified user (m ∷ ms) = if m.user == user then m.last_used_at else last_verified user ms

abbrev pub is_recent : Option ℕ → ℕ → Bool
is_recent none now = false
is_recent (some last) now = not (ltb mfa_recency_window (now - last))

abbrev pub active_member : ℕ → ℕ → Membership → Bool
active_member t u m = m.tenant == t && m.user == u && is_active m.status

abbrev log_grant : Actor → Bytes → ℕ → ℕ → GrantDb → GrantDb
log_grant who action tenant target db = record db {
  audit = audited (some tenant) who action target db.audit;
}

-- The row of a request that passed its checks.
abbrev pub new_grant : ℕ → ℕ → StartInput → ℕ → Grant
new_grant id actor input now = record {
  id = id;
  tenant = input.tenant;
  actor = actor;
  target = input.target;
  reason = trim_space input.reason;
  approved_by = none;
  approval_required = input.require_approval;
  approved_at = none;
  expires_at = now + ttl_of input.ttl_minutes;
  revoked_at = none;
}

-- The transaction of `StartImpersonation`
unfoldable pub insert_body : Grant → Actor → Tx GrantDb Grant
insert_body grant who = do
  member ← gets (λ db. any (active_member grant.tenant grant.target) db.memberships)
  guard member not_found
  exec (λ db. record db { grants = db.grants ++ (grant ∷ []) })
  exec (log_grant who (codes "impersonation.start") grant.tenant grant.target)
  pure grant

unfoldable pub insert_grant : Grant → Actor → Tx GrantDb Grant
unfolding insert_body
insert_grant grant who = in_tx (insert_body grant who)

-- `StartImpersonation`; the new row's id is the argument.
unfoldable pub start_impersonation : ℕ → ℕ → StartInput → Actor → ℕ → Tx GrantDb Grant
start_impersonation id actor input who now = do
  guard (leb min_reason_length (length (trim_space input.reason))) invalid
  guard (leb 1 input.target && not (input.target == actor)) invalid
  guard (valid_ttl (ttl_of input.ttl_minutes)) invalid
  last ← gets (λ db. last_verified actor db.mfa)
  guard (is_recent last now) mfa_not_recent
  insert_grant (new_grant id actor input now) who

abbrev pub is_grant : ℕ → Grant → Bool
is_grant id g = g.id == id

-- The `WHERE` clause of `ApproveImpersonation` behind `id=$1`.
abbrev pub can_approve : ℕ → ℕ → Grant → Bool
can_approve approver now g =
    g.approval_required
    && is_none g.approved_at
    && not (g.actor == approver)
    && is_none g.revoked_at
    && ltb now g.expires_at

unfoldable pub approve : ℕ → ℕ → Grant → Grant
approve approver now g = record g { approved_by = some approver; approved_at = some now }

-- `ApproveImpersonation`
unfoldable pub approve_body : ℕ → ℕ → Actor → ℕ → Tx GrantDb Grant
approve_body id approver who now = do
  let matches = λ (g : Grant). is_grant id g && can_approve approver now g
  found ← gets (λ db. find matches db.grants)
  grant ← some_or found invalid
  exec (λ db. record db { grants = update matches (approve approver now) db.grants })
  exec (log_grant who (codes "impersonation.approve") grant.tenant grant.target)
  pure (approve approver now grant)

unfoldable pub approve_impersonation : ℕ → ℕ → Actor → ℕ → Tx GrantDb Grant
unfolding approve_body
approve_impersonation id approver who now = in_tx (approve_body id approver who now)

unfoldable pub revoke : ℕ → Grant → Grant
revoke now g = record g { revoked_at = some now }

-- `RevokeImpersonation`
unfoldable pub revoke_body : ℕ → Actor → ℕ → Tx GrantDb Grant
revoke_body id who now = do
  let matches = λ (g : Grant). is_grant id g && is_none g.revoked_at
  found ← gets (λ db. find matches db.grants)
  grant ← some_or found not_found
  exec (λ db. record db { grants = update matches (revoke now) db.grants })
  exec (log_grant who (codes "impersonation.revoke") grant.tenant grant.target)
  pure (revoke now grant)

unfoldable pub revoke_impersonation : ℕ → Actor → ℕ → Tx GrantDb Grant
unfolding revoke_body
revoke_impersonation id who now = in_tx (revoke_body id who now)

-- The checks of `ValidateImpersonationGrant` on the row, in their order.
unfoldable pub check_grant : ℕ → ℕ → Grant → Result Grant
check_grant actor now g =
    if not (g.actor == actor)
    then err grant_not_owned
    else if is_some g.revoked_at || ltb g.expires_at now
    then err grant_expired
    else if g.approval_required && is_none g.approved_at
    then err grant_pending
    else ok g

abbrev on_row : (Grant → Result Grant) → Option Grant → Result Grant
on_row check none = err not_found
on_row check (some g) = check g

-- `ValidateImpersonationGrant`
unfoldable pub validate_impersonation_grant : ℕ → ℕ → ℕ → GrantDb → Result Grant
validate_impersonation_grant id actor now db =
    on_row (check_grant actor now) (find (is_grant id) db.grants)
