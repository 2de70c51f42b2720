-- ===== src/Control/Impersonation/Examples.antt =====
-- Runs of impersonation.go on one support user and one member, and the theorems at these runs.
use mailview.Prelude.{
  ℕ, ◌*◌, ◌≡◌, ◌≢◌, refl, true, some, List, [], ◌∷◌, codes, any, trim_left, trim_right, All, ok,
}
use mailview.Control.Db.{Actor, MembershipStatus}
use mailview.Control.Impersonation.{
  Grant, GrantDb, StartInput, minute, new_grant, insert_grant, insert_body, revoke, revoke_body,
  revoke_impersonation, start_impersonation, validate_impersonation_grant,
}
use mailview.Control.Impersonation.Opening.{IsJustified, start_impersonation-IsJustified}
use mailview.Control.Impersonation.Changes.{Call, start, approve_call, revoke_call, perform_all}
use mailview.Control.Impersonation.FourEyes.{IsIndependent, perform_all-IsIndependent}
use mailview.Control.Impersonation.Revocation.{revoked_forever}

abbrev db : GrantDb
db = record {
  mfa = record { user = 2; last_used_at = some (100 * minute) } ∷ [];
  memberships = record { id = 11; tenant = 7; user = 3; status = MembershipStatus.active } ∷ [];
  grants = [];
  audit = [];
}

abbrev input : StartInput
input = record {
  tenant = 7;
  target = 3;
  reason = codes " a bounced import ";
  ttl_minutes = 20;
  require_approval = true;
}

abbrev actor : Actor
actor = record { user = 2 }

abbrev now : ℕ
now = 110 * minute

abbrev opened_db : GrantDb
opened_db = (start_impersonation 41 2 input actor now db).1

started : start_impersonation 41 2 input actor now db ≡ (ok (new_grant 41 2 input now), opened_db)
unfolding start_impersonation insert_grant insert_body trim_left trim_right any
started = refl

start_impersonation-IsJustified_example : IsJustified 41 2 input now db (new_grant 41 2 input now)
start_impersonation-IsJustified_example =
    start_impersonation-IsJustified 41 2 input actor now db started

abbrev calls : List Call
calls = start 41 2 input actor now ∷ approve_call 41 9 actor now ∷ revoke_call 41 actor now ∷ []

perform_all-IsIndependent_example : All IsIndependent (perform_all calls db).grants
perform_all-IsIndependent_example = perform_all-IsIndependent calls db tt

abbrev grant : Grant
grant = new_grant 41 2 input now

abbrev revoked_db : GrantDb
revoked_db = (revoke_impersonation 41 actor now opened_db).1

was_revoked : revoke_impersonation 41 actor now opened_db ≡ (ok (revoke now grant), revoked_db)
unfolding revoke_impersonation revoke_body revoke start_impersonation insert_grant insert_body
    trim_left trim_right any
was_revoked = refl

revoked_forever_example :
    validate_impersonation_grant 41 2 now
      (perform_all (approve_call 41 9 actor now ∷ []) revoked_db)
    ≢ ok grant
revoked_forever_example =
    revoked_forever 41 actor now opened_db was_revoked (approve_call 41 9 actor now ∷ []) 2 now
      grant
