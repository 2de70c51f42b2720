-- ===== src/Tenancy.antt =====
-- internal/mailview/tenant/context.go: the tenant of a request and the transaction bound to it. The
-- request's context is the argument; the database's row policies are not modelled, each statement
-- names its tenant.
use mailview.Prelude.{
  ℕ, ◌≡◌, refl, sym, ap, ◌∙◌, Option, none, some, Tx, ok, err, missing_context, in_tx, in_tx_ok,
  in_tx_atomic, in_tx_keeps, Error, ◌==◌, if◌then◌else◌,
}

pub record Context : Type 0 where
  pub tenant : ℕ
  pub user : ℕ

-- `FromContext`: a context whose tenant is `uuid.Nil` is none.
abbrev pub from_context : Option Context → Option Context
from_context none = none
from_context (some c) = if c.tenant == 0 then none else some c

module _ {ℓ} {S A : Type ℓ} where
  abbrev bound : Option Context → (Context → Tx S A) → Tx S A
  bound none body s = (err missing_context, s)
  bound (some c) body s = in_tx (body c) s

  -- `Begin`, then the body, then `Commit` or `Rollback`; also `InTransaction`.
  abbrev pub with_tenant : Option Context → (Context → Tx S A) → Tx S A
  with_tenant ctx = bound (from_context ctx)

-- A transaction that ended well had a tenant.
pub with_tenant_ok {ℓ} :
    {S A : Type ℓ} {a : A} {s s' : S} (scope : Option Context) (body : Context → Tx S A)
    → with_tenant scope body s ≡ (ok a, s')
    → (ctx : Context) × (from_context scope ≡ some ctx) × (body ctx s ≡ (ok a, s'))
with_tenant_ok {S = S} {A = A} {a} {s} {s'} scope body h = at_context (from_context scope) h
  where
    at_context :
        (o : Option Context)
        → bound o body s ≡ (ok a, s')
        → (ctx : Context) × (o ≡ some ctx) × (body ctx s ≡ (ok a, s'))
    at_context none q = cc
    at_context (some ctx) q = (ctx, refl, in_tx_ok (body ctx) q)

-- A transaction that ended in an error, or had no tenant, changed nothing.
pub with_tenant_atomic {ℓ} :
    {S A : Type ℓ} (scope : Option Context) (body : Context → Tx S A) (s : S) {e : Error}
    → (with_tenant scope body s).0 ≡ err e
    → (with_tenant scope body s).1 ≡ s
with_tenant_atomic {S = S} {A = A} scope body s h = at_context (from_context scope) h
  where
    at_context :
        (o : Option Context) {x : Error} → (bound o body s).0 ≡ err x → (bound o body s).1 ≡ s
    at_context none q = refl
    at_context (some ctx) q = in_tx_atomic (body ctx) s q

pub with_tenant_keeps {ℓ κ} :
    {S A : Type ℓ} (P : S → Type κ) (scope : Option Context) (body : Context → Tx S A) (s : S)
    → P s
    → ((ctx : Context) → P (body ctx s).1)
    → P (with_tenant scope body s).1
with_tenant_keeps {S = S} {A = A} P scope body s before after = at_context (from_context scope)
  where
    at_context : (o : Option Context) → P (bound o body s).1
    at_context none = before
    at_context (some ctx) = in_tx_keeps P (body ctx) s before (after ctx)

-- The transaction of a request whose tenant is known.
pub with_tenant_at {ℓ} :
    {S A : Type ℓ} {a : A} {s s' : S} (scope : Option Context) (ctx : Context)
    (body : Context → Tx S A)
    → from_context scope ≡ some ctx
    → with_tenant scope body s ≡ (ok a, s')
    → body ctx s ≡ (ok a, s')
with_tenant_at {s = s} scope ctx body e h =
    in_tx_ok (body ctx) (sym (ap (λ o. bound o body s) e) ∙ h)
