-- ===== src/Control/Slugs/Aliases.antt =====
-- What a change of slug leaves to be resolved.
use mailview.Prelude.{
  ℕ, ◌+◌, ◌*◌, ◌<◌, ◌≡◌, refl, sym, ap, subst, ◌∙◌, Bool, true, false, not, ◌&&◌, ◌||◌, some, [],
  ◌∷◌, ◌++◌, ltb, leb, Bytes, any, find, update, str_eq, str_eq_iff, str_eq_refl, trim_space,
  to_lower, ok, arith, Bool-cases, inl, inr, All, All-mem, IsKeyed, find-update_self,
  find-concat_new, find-any, any-find, any-weaken, keyed_unique, find-update_new, any-update_clear,
  mem-find, in_tx_ok, guard_ok, some_or_ok,
}
use mailview.Control.Db.{Db, Tenant, Actor}
use mailview.Control.Names.{normalize_slug, normalize_slug_ok, slug_lookup, slug_pattern}
use mailview.Control.Slugs.{
  SlugInput, SlugChange, is_tenant, has_slug, was_slug, redirect_days, set_slug, history_row,
  change_body, change_tenant_slug, redirects, resolve_tenant_slug, day,
}

abbrev pub same_slug : Tenant → Tenant → Bool
same_slug r s = str_eq r.slug s.slug

-- No two tenants have one slug, and every slug is in the form that `NormalizeSlug` gives.
pub record IsSound (db : Db) : Type 0 where
  pub unique : IsKeyed same_slug db.tenants
  pub normal : All (λ (r : Tenant). slug_pattern r.slug ≡ true) db.tenants

pub record Changed (t : ℕ) (slug : Bytes) (until : ℕ) (actor : Actor) (db : Db) (out : SlugChange)
    (db' : Db) : Type 0 where
  pub current : Tenant
  pub row : find (is_tenant t) db.tenants ≡ some current
  pub other : str_eq current.slug slug ≡ false
  pub unused : any (has_slug slug) db.tenants ≡ false
  pub untaken : any (was_slug slug) db.slug_history ≡ false
  pub unrecorded : any (was_slug current.slug) db.slug_history ≡ false
  pub result : out ≡ record {
    tenant = set_slug slug current;
    previous_slug = current.slug;
    redirect_until = until;
  }
  pub tenants : db'.tenants ≡ update (is_tenant t) (set_slug slug) db.tenants
  pub history :
      db'.slug_history ≡ db.slug_history ++ history_row t current.slug slug until actor ∷ []

not-true : {b : Bool} → not b ≡ true → b ≡ false
not-true h = ground arith

pub change_body-Changed :
    (t : ℕ) (slug : Bytes) (until : ℕ) (actor : Actor) (db : Db) {out : SlugChange} {db' : Db}
    → change_body t slug until actor db ≡ (ok out, db')
    → Changed t slug until actor db out db'
unfolding change_body
change_body-Changed t slug until actor db {out} {db'} h =
    let (w, row, h1) = some_or_ok (find (is_tenant t) db.tenants) _ _ h in
    let (other, h2) = guard_ok (not (str_eq w.slug slug)) _ _ h1 in
    let (open_slug, h3) = guard_ok (not (any (str_eq slug) db.reserved_slugs)) _ _ h2 in
    let (free, h4) =
      guard_ok (not (any (has_slug slug) db.tenants || any (was_slug slug) db.slug_history)) _ _
        h3 in
    let (fresh_row, h5) = guard_ok (not (any (was_slug w.slug) db.slug_history)) _ _ h4 in
    record {
      current = w;
      row = row;
      other = not-true other;
      unused = ground (arith, free);
      untaken = ground (arith, free);
      unrecorded = not-true fresh_row;
      result = cc h5;
      tenants = sym (ap (λ r. r.1.tenants) h5);
      history = sym (ap (λ r. r.1.slug_history) h5);
    }

module _ {t : ℕ} {slug : Bytes} {until : ℕ} {actor : Actor} {db : Db} {out : SlugChange} {db' : Db}
    (c : Changed t slug until actor db out db') where
  new_resolves : find (has_slug slug) db'.tenants ≡ some (set_slug slug c.current)
  unfolding set_slug
  new_resolves =
      ap (find (has_slug slug)) c.tenants
      ∙ find-update_new (is_tenant t) (has_slug slug) (set_slug slug) db.tenants c.unused
          (λ y e. str_eq_refl slug) c.row

  pub old_is_gone : IsSound db → any (has_slug c.current.slug) db'.tenants ≡ false
  unfolding set_slug
  old_is_gone h =
      ap (any (has_slug c.current.slug)) c.tenants
      ∙ any-update_clear (is_tenant t) (has_slug c.current.slug) (set_slug slug) db.tenants
          (λ y m e.
            let one : y ≡ c.current =
              keyed_unique same_slug
                (λ a b q. (str_eq_iff b.slug a.slug).1 (sym ((str_eq_iff a.slug b.slug).0 q)))
                db.tenants h.unique m (mem-find (is_tenant t) db.tenants c.row).0 e in
            subst (λ z. is_tenant t z ≡ true) (sym one) (mem-find (is_tenant t) db.tenants c.row).1)
          (λ y e. flipped)
    where
      flipped : str_eq slug c.current.slug ≡ false
      flipped = elim (Bool-cases (str_eq slug c.current.slug)) [
        | inr e ↦ e
        | inl e ↦
            let it : slug ≡ c.current.slug = (str_eq_iff slug c.current.slug).0 e in
            absurd (ground (arith, (str_eq_iff c.current.slug slug).1 (sym it), c.other))
      ]

  -- The row that an id finds.
  renamed : find (is_tenant t) db'.tenants ≡ some (set_slug slug c.current)
  unfolding set_slug
  renamed =
      ap (find (is_tenant t)) c.tenants
      ∙ find-update_self (is_tenant t) (is_tenant t) (set_slug slug) db.tenants (λ y e. e) c.row

  alias_found :
      (now : ℕ)
      → ltb now until ≡ true
      → find (redirects c.current.slug now db'.tenants) db'.slug_history
        ≡ some (history_row t c.current.slug slug until actor)
  alias_found now soon =
      ap (find (redirects c.current.slug now db'.tenants)) c.history
      ∙ find-concat_new (redirects c.current.slug now db'.tenants) db.slug_history
          (history_row t c.current.slug slug until actor)
          (any-find (redirects c.current.slug now db'.tenants) db.slug_history (
            any-weaken (was_slug c.current.slug) (redirects c.current.slug now db'.tenants)
              (λ r q. ground (arith, q)) db.slug_history c.unrecorded))
          (ground
            (arith, str_eq_refl c.current.slug, soon, find-any (is_tenant t) db'.tenants renamed))

  resolve_new :
      (value : Bytes) (at : ℕ)
      → to_lower (trim_space value) ≡ slug
      → resolve_tenant_slug value at db' ≡ some (set_slug slug c.current, true)
  unfolding resolve_tenant_slug
  resolve_new value at e = rw (e, new_resolves) refl

  resolve_old :
      (value : Bytes) (at : ℕ)
      → IsSound db
      → to_lower (trim_space value) ≡ c.current.slug
      → ltb at until ≡ true
      → resolve_tenant_slug value at db' ≡ some (set_slug slug c.current, false)
  unfolding resolve_tenant_slug
  resolve_old value at h e soon =
      rw (e, any-find (has_slug c.current.slug) db'.tenants (old_is_gone h))
        (rw (alias_found at soon) (rw renamed refl))

-- In the database that a change of slug leaves, where it ended well and slugs were unique and normal,
-- the new slug resolves to the tenant as its current one, and at every time before the end of the
-- redirection the old one resolves to the same tenant, as a former one. Nothing is said of what later
-- changes do to the old slug.
pub change_tenant_slug_resolves :
    (t : ℕ) (input : SlugInput) (actor : Actor) (now at : ℕ) (db : Db) {out : SlugChange} {db' : Db}
    → IsSound db
    → change_tenant_slug t input actor now db ≡ (ok out, db')
    → at < out.redirect_until
    → (resolve_tenant_slug input.slug at db' ≡ some (out.tenant, true))
      × (resolve_tenant_slug out.previous_slug at db' ≡ some (out.tenant, false))
unfolding change_tenant_slug resolve_tenant_slug
change_tenant_slug_resolves t input actor now at db {out} {db'} h done soon =
    let (slug, norm, h1) = some_or_ok (normalize_slug input.slug) _ _ done in
    let days = redirect_days input.redirect_days in
    let (bounded, h2) = guard_ok (leb 1 days && leb days 365) _ _ h1 in
    let c =
      change_body-Changed t slug (now + days * day) actor db
        (in_tx_ok (change_body t slug (now + days * day) actor) h2) in
    let (fits, free, lookup) = normalize_slug_ok input.slug norm in
    let normal : slug_pattern c.current.slug ≡ true =
      All-mem (λ (r : Tenant). slug_pattern r.slug ≡ true) db.tenants h.normal
        (mem-find (is_tenant t) db.tenants c.row).0 in
    let tenant : set_slug slug c.current ≡ out.tenant =
      sym (ap (λ (o : SlugChange). o.tenant) c.result) in
    let before : c.current.slug ≡ out.previous_slug =
      sym (ap (λ (o : SlugChange). o.previous_slug) c.result) in
    let until : out.redirect_until ≡ now + days * day =
      ap (λ (o : SlugChange). o.redirect_until) c.result in
    (
      resolve_new c input.slug at lookup ∙ ap (λ w. some (w, true)) tenant,
      resolve_old c out.previous_slug at h
            (ap (λ z. to_lower (trim_space z)) (sym before) ∙ slug_lookup c.current.slug normal)
            (ground (arith, soon, until))
          ∙ ap (λ w. some (w, false)) tenant,
    )
