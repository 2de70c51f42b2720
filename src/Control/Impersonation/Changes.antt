-- ===== src/Control/Impersonation/Changes.antt =====
-- What the operations of impersonation.go do to the table of grants, one call and many.
use mailview.Prelude.{
  ℕ, ◌≡◌, refl, Bool, true, not, ◌&&◌, none, List, [], ◌∷◌, ◌++◌, ◌==◌, leb, any, find, update,
  length, trim_space, Tx, Bool-cases, Option-cases, inl, inr, &&-eq-true, is_none, in_tx,
  in_tx_keeps,
}
use mailview.Control.Db.{Actor}
use mailview.Control.Impersonation.{
  Grant, GrantDb, StartInput, min_reason_length, valid_ttl, ttl_of, last_verified, is_recent,
  active_member, new_grant, insert_body, insert_grant, approve_body, revoke_body,
  start_impersonation, is_grant, can_approve, approve, approve_impersonation, revoke,
  revoke_impersonation,
}

-- The grants alone, as each operation leaves them: with one more row, with some rows approved, with
-- some rows revoked, or as they were.
pub data Change (grants : List Grant) : List Grant → Type 0 where
  same : Change grants grants
  opened :
      (g : Grant)
      → g.approved_at ≡ none
      → g.approved_by ≡ none
      → g.revoked_at ≡ none
      → Change grants (grants ++ g ∷ [])
  approved :
      (p : Grant → Bool) (approver now : ℕ)
      → ((g : Grant) → p g ≡ true → can_approve approver now g ≡ true)
      → Change grants (update p (approve approver now) grants)
  revoked : (p : Grant → Bool) (now : ℕ) → Change grants (update p (revoke now) grants)

settle-Change :
    {A : Type 0} (m : Tx GrantDb A) (db : GrantDb)
    → Change db.grants (m db).1.grants
    → Change db.grants (in_tx m db).1.grants
settle-Change m db h = in_tx_keeps (λ d. Change db.grants d.grants) m db same h

insert-Change :
    (g : Grant) (who : Actor) (db : GrantDb)
    → g.approved_at ≡ none
    → g.approved_by ≡ none
    → g.revoked_at ≡ none
    → Change db.grants (insert_grant g who db).1.grants
unfolding insert_grant
insert-Change g who db at by gone =
    settle-Change (insert_body g who) db
      (elim (Bool-cases (any (active_member g.tenant g.target) db.memberships)) [
        | inl e ↦ rw e (opened g at by gone)
        | inr e ↦ rw e same
      ])

start-Change :
    (id actor : ℕ) (input : StartInput) (who : Actor) (now : ℕ) (db : GrantDb)
    → Change db.grants (start_impersonation id actor input who now db).1.grants
unfolding start_impersonation
start-Change id actor input who now db =
    elim (Bool-cases (leb min_reason_length (length (trim_space input.reason)))) [
      | inr e ↦ rw e same
      | inl e ↦ rw e (elim (Bool-cases (leb 1 input.target && not (input.target == actor))) [
        | inr f ↦ rw f same
        | inl f ↦ rw f (elim (Bool-cases (valid_ttl (ttl_of input.ttl_minutes))) [
          | inr g ↦ rw g same
          | inl g ↦ rw g (elim (Bool-cases (is_recent (last_verified actor db.mfa) now)) [
            | inr h ↦ rw h same
            | inl h ↦ rw h (insert-Change (new_grant id actor input now) who db refl refl refl)
          ])
        ])
      ])
    ]

approve-Change :
    (id approver : ℕ) (who : Actor) (now : ℕ) (db : GrantDb)
    → Change db.grants (approve_impersonation id approver who now db).1.grants
unfolding approve_impersonation
approve-Change id approver who now db =
    settle-Change (approve_body id approver who now) db
      (elim (Option-cases (find (λ g. is_grant id g && can_approve approver now g) db.grants)) [
        | inl e ↦ rw e same
        | inr found ↦
            let (g, e) = found in
            rw e (
              approved (λ g. is_grant id g && can_approve approver now g) approver now
                (λ g t. (&&-eq-true _ _ t).1))
      ])

revoke-Change :
    (id : ℕ) (who : Actor) (now : ℕ) (db : GrantDb)
    → Change db.grants (revoke_impersonation id who now db).1.grants
unfolding revoke_impersonation
revoke-Change id who now db =
    settle-Change (revoke_body id who now) db
      (elim (Option-cases (find (λ g. is_grant id g && is_none g.revoked_at) db.grants)) [
        | inl e ↦ rw e same
        | inr found ↦
            let (g, e) = found in rw e (revoked (λ g. is_grant id g && is_none g.revoked_at) now)
      ])

-- The operations that write grants, as a client calls them.
pub data Call : Type 0 where
  start : ℕ → ℕ → StartInput → Actor → ℕ → Call
  approve_call : ℕ → ℕ → Actor → ℕ → Call
  revoke_call : ℕ → Actor → ℕ → Call

unfoldable pub perform : Call → GrantDb → GrantDb
perform (start id actor input who now) db = (start_impersonation id actor input who now db).1
perform (approve_call id approver who now) db = (approve_impersonation id approver who now db).1
perform (revoke_call id who now) db = (revoke_impersonation id who now db).1

unfoldable pub perform_all : List Call → GrantDb → GrantDb
unfolding perform
perform_all [] db = db
perform_all (c ∷ cs) db = perform_all cs (perform c db)

pub perform-Change : (c : Call) (db : GrantDb) → Change db.grants (perform c db).grants
unfolding perform
perform-Change (start id actor input who now) db = start-Change id actor input who now db
perform-Change (approve_call id approver who now) db = approve-Change id approver who now db
perform-Change (revoke_call id who now) db = revoke-Change id who now db
