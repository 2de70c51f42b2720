-- ===== src/Control/Slugs.antt =====
-- internal/mailview/control/slugs.go: the change of a tenant's slug, and the resolution of current and
-- former slugs. The new slug's errors are those of `NormalizeSlug`.
pub mod Aliases
pub mod Later
use mailview.Prelude.{
  ℕ, ◌+◌, ◌*◌, Bool, true, false, not, ◌&&◌, ◌||◌, Option, none, some, List, [], ◌∷◌, ◌++◌, ◌==◌,
  ltb, leb, if◌then◌else◌, Bytes, codes, any, find, update, str_eq, trim_space, to_lower, Tx,
  Result, ok, err, Error, invalid, conflict, not_found, ◌>>=◌, ◌>>◌, exec, gets, guard, pure,
  some_or, in_tx,
}
use mailview.Control.Db.{Db, Tenant, SlugHistory, Actor, append_audit}
use mailview.Control.Names.{normalize_slug}

pub record SlugInput : Type 0 where
  pub slug : Bytes
  pub redirect_days : ℕ

-- `TenantSlugChange`
pub record SlugChange : Type 0 where
  pub tenant : Tenant
  pub previous_slug : Bytes
  pub redirect_until : ℕ

abbrev pub is_tenant : ℕ → Tenant → Bool
is_tenant t r = r.id == t

abbrev pub has_slug : Bytes → Tenant → Bool
has_slug s r = str_eq r.slug s

abbrev pub was_slug : Bytes → SlugHistory → Bool
was_slug s h = str_eq h.old_slug s

-- Zero days are thirty.
abbrev pub redirect_days : ℕ → ℕ
redirect_days days = if days == 0 then 30 else days

abbrev pub day : ℕ
day = 24 * 3_600_000_000_000

unfoldable pub set_slug : Bytes → Tenant → Tenant
set_slug s r = record r { slug = s }

abbrev pub history_row : ℕ → Bytes → Bytes → ℕ → Actor → SlugHistory
history_row t old new until actor = record {
  tenant = t;
  old_slug = old;
  new_slug = new;
  redirect_until = until;
  changed_by = actor.user;
}

-- The transaction of `ChangeTenantSlug`; the unique index on `old_slug` is the guard before the
-- insertion, the one on `slug` follows from the test before.
unfoldable pub change_body : ℕ → Bytes → ℕ → Actor → Tx Db SlugChange
change_body t slug until actor = do
  found ← gets (λ db. find (is_tenant t) db.tenants)
  current ← some_or found not_found
  guard (not (str_eq current.slug slug)) conflict
  reserved ← gets (λ db. any (str_eq slug) db.reserved_slugs)
  guard (not reserved) invalid
  occupied ← gets (λ db. any (has_slug slug) db.tenants || any (was_slug slug) db.slug_history)
  guard (not occupied) conflict
  known ← gets (λ db. any (was_slug current.slug) db.slug_history)
  guard (not known) conflict
  exec (λ db. record db {
    slug_history = db.slug_history ++ history_row t current.slug slug until actor ∷ [];
    tenants = update (is_tenant t) (set_slug slug) db.tenants;
  })
  append_audit (some t) actor (codes "tenant.slug.change") t
  pure (record {
    tenant = set_slug slug current;
    previous_slug = current.slug;
    redirect_until = until;
  })

-- `ChangeTenantSlug`
unfoldable pub change_tenant_slug : ℕ → SlugInput → Actor → ℕ → Tx Db SlugChange
change_tenant_slug t input actor now = do
  found ← gets (λ db. normalize_slug input.slug)
  slug ← some_or found invalid
  guard (leb 1 (redirect_days input.redirect_days) && leb (redirect_days input.redirect_days) 365)
      invalid
  in_tx (change_body t slug (now + redirect_days input.redirect_days * day) actor)

-- `h.old_slug=$1 AND h.redirect_until>now()`, joined with the tenant's row
abbrev pub redirects : Bytes → ℕ → List Tenant → SlugHistory → Bool
redirects s now tenants h =
    was_slug s h && ltb now h.redirect_until && any (is_tenant h.tenant) tenants

abbrev by_alias : Option SlugHistory → List Tenant → Option (Tenant × Bool)
by_alias none tenants = none
by_alias (some h) tenants = with_flag (find (is_tenant h.tenant) tenants)
  where
    with_flag : Option Tenant → Option (Tenant × Bool)
    with_flag none = none
    with_flag (some t) = some (t, false)

abbrev by_slug : Option Tenant → Option (Tenant × Bool) → Option (Tenant × Bool)
by_slug (some t) alias = some (t, true)
by_slug none alias = alias

-- `ResolveTenantSlug`: the tenant and whether the slug is its current one; `none` is `ErrNotFound`.
unfoldable pub resolve_tenant_slug : Bytes → ℕ → Db → Option (Tenant × Bool)
resolve_tenant_slug value now db =
    let slug = to_lower (trim_space value) in
    by_slug (find (has_slug slug) db.tenants)
      (by_alias (find (redirects slug now db.tenants) db.slug_history) db.tenants)
