-- ===== src/Control/Slugs/Later.antt =====
-- The redirection of a tenant's old slug under later changes of slugs.go.
use mailview.Prelude.{
  ℕ, ◌+◌, ◌*◌, ◌<◌, ◌≡◌, refl, sym, ap, subst, ◌∙◌, Bool, true, false, ◌&&◌, some, List, [], ◌∷◌,
  ◌++◌, leb, Bytes, Memᴰ, any, find, update, str_eq, str_eq_iff, str_eq_refl, trim_space, to_lower,
  Result, ok, err, arith, Bool-cases, Option-cases, inl, inr, All, All-concat, All-mem,
  any-concat_kept, any-mem, mem-any, mem-find, any-find, find-any, in_tx, in_tx_ok, in_tx_atomic,
  guard_ok, some_or_ok,
}
use mailview.Control.Db.{Db, Tenant, SlugHistory, Actor}
use mailview.Control.Names.{normalize_slug, slug_lookup, slug_pattern}
use mailview.Control.Slugs.{
  SlugInput, SlugChange, is_tenant, has_slug, was_slug, redirect_days, set_slug, history_row,
  change_body, change_tenant_slug, redirects, resolve_tenant_slug, day,
}
use mailview.Control.Slugs.Aliases.{
  IsSound, Changed, change_body-Changed, old_is_gone, change_tenant_slug_resolves,
}

any-found {ℓ} :
    {A : Type ℓ} (p : A → Bool) (xs : List A) → any p xs ≡ true → (x : A) × (find p xs ≡ some x)
unfolding any
any-found p [] h = cc
any-found p (x ∷ xs) h = elim (Bool-cases (p x)) [
  | inl e ↦ (x, rw e refl)
  | inr e ↦ let (y, f) = any-found p xs (rw e at h) in (y, rw e f)
]

-- Another call of `ChangeTenantSlug`.
pub record SlugCall : Type 0 where
  pub tenant : ℕ
  pub input : SlugInput
  pub actor : Actor
  pub now : ℕ

unfoldable pub change_all : List SlugCall → Db → Db
change_all [] db = db
change_all (c ∷ cs) db = change_all cs (change_tenant_slug c.tenant c.input c.actor c.now db).1

abbrev IsHis : Bytes → ℕ → ℕ → SlugHistory → Type 0
IsHis s t until h = was_slug s h ≡ true → (h.tenant ≡ t) × (h.redirect_until ≡ until)

-- No tenant has the slug, and the history has it as the tenant's alone.
record IsAliased (s : Bytes) (t until : ℕ) (db : Db) : Type 0 where
  cleared : any (has_slug s) db.tenants ≡ false
  listed : any (was_slug s) db.slug_history ≡ true
  his : All (IsHis s t until) db.slug_history
  here : any (is_tenant t) db.tenants ≡ true

module _ (p q : Tenant → Bool) (f : Tenant → Tenant) where
  any-update_clean :
      (rs : List Tenant)
      → ((r : Tenant) → q (f r) ≡ false)
      → any q rs ≡ false
      → any q (update p f rs) ≡ false
  unfolding any
  any-update_clean [] apart h = refl
  any-update_clean (r ∷ rs) apart h = elim (Bool-cases (p r)) [
    | inl e ↦ rw (e, apart r) (any-update_clean rs apart (ground (arith, h)))
    | inr e ↦
        let first : q r ≡ false = ground (arith, h) in
        rw (e, first) (any-update_clean rs apart (ground (arith, h)))
  ]

  any-update_same :
      (rs : List Tenant) → ((r : Tenant) → q (f r) ≡ q r) → any q (update p f rs) ≡ any q rs
  unfolding any
  any-update_same [] same = refl
  any-update_same (r ∷ rs) same = elim (Bool-cases (p r)) [
    | inl e ↦ rw (e, same r, any-update_same rs same) refl
    | inr e ↦ rw (e, any-update_same rs same) refl
  ]

-- A slug that is in the history is no one's new slug, and one that no tenant has is no one's old one.
Changed-IsAliased :
    (s : Bytes) (t until : ℕ) {t' : ℕ} {slug : Bytes} {end : ℕ} {actor : Actor} {db : Db}
    {out : SlugChange} {db' : Db}
    → Changed t' slug end actor db out db'
    → IsAliased s t until db
    → IsAliased s t until db'
unfolding set_slug
Changed-IsAliased s t until {t'} {slug} {end} {actor} {db} {out} {db'} c v =
    let fresh_slug : str_eq slug s ≡ false = elim (Bool-cases (str_eq slug s)) [
      | inr e ↦ e
      | inl e ↦
          let taken : any (was_slug slug) db.slug_history ≡ true =
            subst (λ z. any (was_slug z) db.slug_history ≡ true) (sym ((str_eq_iff slug s).0 e))
              v.listed in
          cc (taken, c.untaken)
    ] in
    let old_other : str_eq c.current.slug s ≡ false = elim (Bool-cases (str_eq c.current.slug s)) [
      | inr e ↦ e
      | inl e ↦
          let taken : any (has_slug s) db.tenants ≡ true =
            any-mem (has_slug s) db.tenants (mem-find (is_tenant t') db.tenants c.row).0 e in
          cc (taken, v.cleared)
    ] in
    record {
      cleared = rw c.tenants (
          any-update_clean (is_tenant t') (has_slug s) (set_slug slug) db.tenants (λ r. fresh_slug)
            v.cleared);
      listed = rw c.history (
          any-concat_kept (was_slug s) db.slug_history
            (history_row t' c.current.slug slug end actor) v.listed);
      his = rw c.history (
          All-concat (IsHis s t until) db.slug_history
            (history_row t' c.current.slug slug end actor) v.his (λ e. cc (e, old_other)));
      here = rw c.tenants (
          any-update_same (is_tenant t') (is_tenant t) (set_slug slug) db.tenants (λ r. refl)
          ∙ v.here);
    }

tx-IsAliased :
    (s : Bytes) (t until t' : ℕ) (slug : Bytes) (end : ℕ) (actor : Actor) (db : Db)
    (r : Result SlugChange × Db)
    → in_tx (change_body t' slug end actor) db ≡ r
    → IsAliased s t until db
    → IsAliased s t until r.1
tx-IsAliased s t until t' slug end actor db (ok out, db') e v =
    Changed-IsAliased s t until
      (change_body-Changed t' slug end actor db (in_tx_ok (change_body t' slug end actor) e)) v
tx-IsAliased s t until t' slug end actor db (err x, db') e v =
    subst (IsAliased s t until)
      (sym (in_tx_atomic (change_body t' slug end actor) db (ap (λ z. z.0) e)) ∙ ap (λ z. z.1) e) v

change-IsAliased :
    (s : Bytes) (t until : ℕ) (c : SlugCall) (db : Db)
    → IsAliased s t until db
    → IsAliased s t until (change_tenant_slug c.tenant c.input c.actor c.now db).1
unfolding change_tenant_slug
change-IsAliased s t until c db v = elim (Option-cases (normalize_slug c.input.slug)) [
  | inl e ↦ rw e v
  | inr (slug, e) ↦
      elim (Bool-cases (
        leb 1 (redirect_days c.input.redirect_days)
        && leb (redirect_days c.input.redirect_days) 365)) [
          | inr h ↦ rw (e, h) v
          | inl h ↦
              rw (e, h)
                (tx-IsAliased s t until c.tenant slug
                  (c.now + redirect_days c.input.redirect_days * day) c.actor db _ refl v)
        ]
]

all-IsAliased :
    (s : Bytes) (t until : ℕ) (cs : List SlugCall) (db : Db)
    → IsAliased s t until db
    → IsAliased s t until (change_all cs db)
unfolding change_all
all-IsAliased s t until [] db v = v
all-IsAliased s t until (c ∷ cs) db v =
    all-IsAliased s t until cs _ (change-IsAliased s t until c db v)

-- An old slug that is aliased resolves to its tenant until the redirection ends.
alias_resolves :
    (s : Bytes) (t until at : ℕ) (db : Db)
    → IsAliased s t until db
    → to_lower (trim_space s) ≡ s
    → at < until
    → (w : Tenant) × (w.id ≡ t) × (resolve_tenant_slug s at db ≡ some (w, false))
unfolding resolve_tenant_slug
alias_resolves s t until at db v norm soon =
    let (h, mem, was) = mem-any (was_slug s) db.slug_history v.listed in
    let (of_t, ends) = All-mem (IsHis s t until) db.slug_history v.his mem was in
    let active : redirects s at db.tenants h ≡ true =
      rw (was, of_t, ends, v.here) (ground (arith, soon)) in
    let (g, found) =
      any-found (redirects s at db.tenants) db.slug_history
        (any-mem (redirects s at db.tenants) db.slug_history mem active) in
    let (gm, redirecting) = mem-find (redirects s at db.tenants) db.slug_history found in
    let was' : was_slug s g ≡ true = ground (arith, redirecting) in
    let (of_t', ends') = All-mem (IsHis s t until) db.slug_history v.his gm was' in
    let (w, row) = any-found (is_tenant t) db.tenants v.here in
    (
      w,
      ground (arith, (mem-find (is_tenant t) db.tenants row).1),
      rw (norm, any-find (has_slug s) db.tenants v.cleared, found, of_t', row) refl,
    )

no_history :
    (s : Bytes) (t until : ℕ) (hs : List SlugHistory)
    → any (was_slug s) hs ≡ false
    → All (IsHis s t until) hs
unfolding any
no_history s t until [] h = tt
no_history s t until (x ∷ hs) h =
    (λ e. cc (e, head_of x hs h), no_history s t until hs (ground (arith, h)))
  where
    head_of :
        (x : SlugHistory) (hs : List SlugHistory)
        → any (was_slug s) (x ∷ hs) ≡ false
        → was_slug s x ≡ false
    head_of x hs h = ground (arith, h)

change_body-IsAliased :
    {t : ℕ} {slug : Bytes} {until : ℕ} {actor : Actor} {db : Db} {out : SlugChange} {db' : Db}
    (c : Changed t slug until actor db out db')
    → IsSound db
    → IsAliased c.current.slug t until db'
unfolding set_slug
change_body-IsAliased {t} {slug} {until} {actor} {db} c sound = record {
  cleared = old_is_gone c sound;
  listed = rw c.history (
      any-mem (was_slug c.current.slug)
        (db.slug_history ++ history_row t c.current.slug slug until actor ∷ [])
        (mem-last db.slug_history (history_row t c.current.slug slug until actor))
        (str_eq_refl c.current.slug));
  his = rw c.history (
      All-concat (IsHis c.current.slug t until) db.slug_history
        (history_row t c.current.slug slug until actor)
        (no_history c.current.slug t until db.slug_history c.unrecorded) (λ e. (refl, refl)));
  here = rw c.tenants (
      any-update_same (is_tenant t) (is_tenant t) (set_slug slug) db.tenants (λ r. refl)
      ∙ find-any (is_tenant t) db.tenants c.row);
}
  where
    mem-last : (xs : List SlugHistory) (x : SlugHistory) → Memᴰ x (xs ++ x ∷ [])
    mem-last [] x = Memᴰ.head refl
    mem-last (y ∷ xs) x = Memᴰ.tail (mem-last xs x)

-- After a change of slug that ended well, where slugs were unique and normal, the new slug resolves to
-- the tenant as its current one; and after whatever changes of slug follow, by any tenants and whether
-- they succeed or fail, the old one resolves to a row of the same tenant, as a former slug, at every
-- time before the end of the redirection. The creation of a tenant is no such change.
pub change_tenant_slug_redirects :
    (t : ℕ) (input : SlugInput) (actor : Actor) (now at : ℕ) (db : Db) {out : SlugChange} {db' : Db}
    (cs : List SlugCall)
    → IsSound db
    → change_tenant_slug t input actor now db ≡ (ok out, db')
    → at < out.redirect_until
    → (resolve_tenant_slug input.slug at db' ≡ some (out.tenant, true))
      × (w : Tenant) × (w.id ≡ t)
      × (resolve_tenant_slug out.previous_slug at (change_all cs db') ≡ some (w, false))
unfolding change_tenant_slug
change_tenant_slug_redirects t input actor now at db {out} {db'} cs sound done soon =
    let (slug, norm, h1) = some_or_ok (normalize_slug input.slug) _ _ done in
    let days = redirect_days input.redirect_days in
    let (bounded, h2) = guard_ok (leb 1 days && leb days 365) _ _ h1 in
    let c =
      change_body-Changed t slug (now + days * day) actor db
        (in_tx_ok (change_body t slug (now + days * day) actor) h2) in
    let normal : slug_pattern c.current.slug ≡ true =
      All-mem (λ (r : Tenant). slug_pattern r.slug ≡ true) db.tenants sound.normal
        (mem-find (is_tenant t) db.tenants c.row).0 in
    let before : out.previous_slug ≡ c.current.slug =
      ap (λ (o : SlugChange). o.previous_slug) c.result in
    let until : out.redirect_until ≡ now + days * day =
      ap (λ (o : SlugChange). o.redirect_until) c.result in
    let (w, same, old) =
      alias_resolves c.current.slug t (now + days * day) at (change_all cs db')
        (all-IsAliased c.current.slug t (now + days * day) cs db' (change_body-IsAliased c sound))
        (slug_lookup c.current.slug normal) (omega (arith, soon, until)) in
    (
      (change_tenant_slug_resolves t input actor now at db sound done soon).0,
      w,
      same,
      ap (λ s. resolve_tenant_slug s at (change_all cs db')) before ∙ old,
    )
