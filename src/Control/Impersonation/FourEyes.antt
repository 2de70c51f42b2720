-- ===== src/Control/Impersonation/FourEyes.antt =====
-- Approval of the grants of impersonation.go by a second user.
use mailview.Prelude.{
  ℕ, ◌≡◌, ◌≢◌, refl, true, some, List, [], ◌∷◌, arith, is_some, All, All-concat, All-update_each,
}
use mailview.Control.Impersonation.{Grant, GrantDb, approve, revoke}
use mailview.Control.Impersonation.Changes.{
  Change, same, opened, approved, revoked, Call, perform, perform_all, perform-Change,
}

-- Who approved a grant is not who opened it.
abbrev pub IsIndependent : Grant → Type 0
IsIndependent g = is_some g.approved_at ≡ true → (b : ℕ) × (g.approved_by ≡ some b) × (b ≢ g.actor)

Change-IsIndependent :
    {gs hs : List Grant} → Change gs hs → All IsIndependent gs → All IsIndependent hs
unfolding approve revoke
Change-IsIndependent same h = h
Change-IsIndependent {gs} (opened g at by gone) h =
    All-concat IsIndependent gs g h (λ t. absurd (ground arith))
Change-IsIndependent {gs} (approved p approver now can) h =
    All-update_each IsIndependent p (approve approver now)
      (λ g e old t. (approver, refl, ground (arith, can g e))) gs h
Change-IsIndependent {gs} (revoked p now) h =
    All-update_each IsIndependent p (revoke now) (λ g e old. old) gs h

-- From a table in which no grant is approved by the user who opened it, any sequence of calls,
-- successful or not, leaves none that is.
pub perform_all-IsIndependent :
    (cs : List Call) (db : GrantDb)
    → All IsIndependent db.grants
    → All IsIndependent (perform_all cs db).grants
unfolding perform_all
perform_all-IsIndependent [] db h = h
perform_all-IsIndependent (c ∷ cs) db h =
    perform_all-IsIndependent cs (perform c db) (Change-IsIndependent (perform-Change c db) h)
