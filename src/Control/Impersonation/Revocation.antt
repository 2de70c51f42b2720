-- ===== src/Control/Impersonation/Revocation.antt =====
-- Which grants of impersonation.go are valid, and what a revocation does to them.
use mailview.Prelude.{
  ℕ, ◌≤◌, ◌≡◌, ◌≢◌, ◌↔◌, refl, ap, subst, true, false, ◌&&◌, ◌||◌, none, some, List, [], ◌∷◌,
  ==_iff, ltb, if◌then◌else◌, find, update, ok, arith, Bool-cases, Option-cases, inl, inr, is_some,
  is_none, find-update, find-concat, in_tx_ok, some_or_ok,
}
use mailview.Control.Db.{Actor}
use mailview.Control.Impersonation.{
  Grant, GrantDb, revoke_body, is_grant, approve, revoke, revoke_impersonation, check_grant,
  validate_impersonation_grant,
}
use mailview.Control.Impersonation.Changes.{
  Change, same, opened, approved, revoked, Call, perform, perform_all, perform-Change,
}

-- The row that a grant's id finds is revoked.
abbrev IsRevoked : ℕ → List Grant → Type 0
IsRevoked id gs = (g : Grant) × (find (is_grant id) gs ≡ some g) × (is_some g.revoked_at ≡ true)

Change-IsRevoked : (id : ℕ) {gs hs : List Grant} → Change gs hs → IsRevoked id gs → IsRevoked id hs
unfolding approve revoke
Change-IsRevoked id same h = h
Change-IsRevoked id {gs} (opened g at by gone) (r, found, dead) =
    (r, find-concat (is_grant id) gs (g ∷ []) found, dead)
Change-IsRevoked id {gs} (approved p approver now can) (r, found, dead) = (
  if p r then approve approver now r else r,
  find-update p (is_grant id) (approve approver now) (λ y. refl) gs found,
  ground (arith, dead),
)
Change-IsRevoked id {gs} (revoked p now) (r, found, dead) = (
  if p r then revoke now r else r,
  find-update p (is_grant id) (revoke now) (λ y. refl) gs found,
  ground (arith, dead),
)

perform_all-IsRevoked :
    (id : ℕ) (cs : List Call) (db : GrantDb)
    → IsRevoked id db.grants
    → IsRevoked id (perform_all cs db).grants
unfolding perform_all
perform_all-IsRevoked id [] db h = h
perform_all-IsRevoked id (c ∷ cs) db h =
    perform_all-IsRevoked id cs (perform c db) (Change-IsRevoked id (perform-Change c db) h)

-- What the checks on a row ask for.
pub record IsUsable (actor now : ℕ) (g : Grant) : Type 0 where
  pub own : g.actor ≡ actor
  pub unrevoked : g.revoked_at ≡ none
  pub in_time : now ≤ g.expires_at
  pub approval : g.approval_required ≡ true → is_some g.approved_at ≡ true

check_grant_ok :
    (actor now : ℕ) (r g : Grant) → check_grant actor now r ≡ ok g → (r ≡ g) × IsUsable actor now g
unfolding check_grant
check_grant_ok actor now r g h =
    let open_row : (is_some r.revoked_at || ltb r.expires_at now) ≡ false = ground arith in
    let waiting : (r.approval_required && is_none r.approved_at) ≡ false = ground arith in
    let same : r ≡ g = ground arith in
    (
      same,
      subst (IsUsable actor now) same (record {
        own = ground (arith, ==_iff r.actor actor);
        unrevoked = ground arith;
        in_time = ground arith;
        approval = λ t. ground arith;
      }),
    )

check_grant_usable :
    (actor now : ℕ) (g : Grant) → IsUsable actor now g → check_grant actor now g ≡ ok g
unfolding check_grant
check_grant_usable actor now g u =
    ground (arith, u.own, u.unrevoked, u.in_time, u.approval, ==_iff g.actor actor)

-- A grant is validated exactly when it is the row of its id, is the caller's own, is not revoked, is
-- not past its end, and is approved where it has to be.
pub validate_iff :
    (id actor now : ℕ) (db : GrantDb) (g : Grant)
    → (validate_impersonation_grant id actor now db ≡ ok g)
      ↔ ((find (is_grant id) db.grants ≡ some g) × IsUsable actor now g)
unfolding validate_impersonation_grant
validate_iff id actor now db g = elim (Option-cases (find (is_grant id) db.grants)) [
  | inl e ↦ rw e (λ h. cc, λ h. cc)
  | inr found ↦
      let (r, e) = found in
      rw e (
        λ h. let (it, u) = check_grant_ok actor now r g h in (ap some it, u),
        λ h. let it : r ≡ g = cc (h.0) in rw it (check_grant_usable actor now g h.1),
      )
]

-- Once every live row of an id is revoked, the row that the id finds is revoked.
update-IsRevoked :
    (id now : ℕ) (gs : List Grant) {r : Grant}
    → find (λ g. is_grant id g && is_none g.revoked_at) gs ≡ some r
    → IsRevoked id (update (λ g. is_grant id g && is_none g.revoked_at) (revoke now) gs)
unfolding revoke
update-IsRevoked id now [] h = cc
update-IsRevoked id now (g ∷ gs) {r} h = elim (Bool-cases (is_grant id g)) [
  | inl e ↦ elim (Bool-cases (is_none g.revoked_at)) [
    | inl live ↦ rw (e, live) (record g { revoked_at = some now }, rw e refl, refl)
    | inr dead ↦ rw (e, dead) (g, rw e refl, ground arith)
  ]
  | inr e ↦
      let rest : find (λ x. is_grant id x && is_none x.revoked_at) gs ≡ some r = rw e at h in
      let (x, found, dead) = update-IsRevoked id now gs rest in rw e (x, rw e found, dead)
]

revoke_impersonation-IsRevoked :
    (id : ℕ) (who : Actor) (now : ℕ) (db : GrantDb) {g : Grant} {db' : GrantDb}
    → revoke_impersonation id who now db ≡ (ok g, db')
    → IsRevoked id db'.grants
unfolding revoke_impersonation
revoke_impersonation-IsRevoked id who now db {g} {db'} h =
    let live = λ (r : Grant). is_grant id r && is_none r.revoked_at in
    let (r, found, h1) =
      some_or_ok (find live db.grants) _ _ (in_tx_ok (revoke_body id who now) h) in
    subst (IsRevoked id) (ap (λ z. z.1.grants) h1) (update-IsRevoked id now db.grants found)

-- After a revocation that succeeded, no sequence of calls, by anyone and at any time, makes the
-- grant valid again.
pub revoked_forever :
    (id : ℕ) (who : Actor) (now : ℕ) (db : GrantDb) {g : Grant} {db' : GrantDb}
    → revoke_impersonation id who now db ≡ (ok g, db')
    → (later : List Call) (actor at : ℕ) (r : Grant)
    → validate_impersonation_grant id actor at (perform_all later db') ≢ ok r
revoked_forever id who now db {g} {db'} h later actor at r valid =
    let (x, found, dead) =
      perform_all-IsRevoked id later db' (revoke_impersonation-IsRevoked id who now db h) in
    let (found', usable) = (validate_iff id actor at (perform_all later db') r).0 valid in
    let it : x ≡ r = cc in
    let gone : is_some r.revoked_at ≡ true = cc (ap (λ z. is_some z.revoked_at) it) in
    ground (arith, usable.unrevoked)
