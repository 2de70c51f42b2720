-- ===== src/Control/Domains/Routes.antt =====
-- Which tenant a hostname of domains.go routes to.
use mailview.Prelude.{
  ℕ, ◌≡◌, refl, sym, ap, subst, ◌∙◌, true, false, ◌&&◌, none, some, List, [], ◌∷◌, Memᴰ, ==_iff,
  Bytes, codes, any, update, str_eq_iff, trim_space, to_lower, ok, arith, Bool-cases, Option-cases,
  inl, inr, &&-eq-true, find-update_self, is_empty, keyed_unique, mem-find, mem-any, any-mem,
  mem-cases,
}
use mailview.Control.Db.{Actor, Tenant, tenant_is_active}
use mailview.Control.Domains.Table.{TenantDomain, DomainStatus, DomainDb}
use mailview.Control.Domains.Ownership.{is_domain, is_verified, with_status, revoke_tenant_domain}
use mailview.Control.Domains.Routing.{routes, first_route, get_tenant_by_verified_hostname}
use mailview.Control.Domains.Honesty.{IsSound, same_host, status-IsSound, is_pending}
use mailview.Control.Domains.Proven.{update_status_ok}

-- The hostname as a request writes it names the stored one.
abbrev pub Names : Bytes → Bytes → Type 0
Names asked stored = to_lower (trim_space asked) ≡ stored

-- An active tenant with a verified row for the hostname.
pub record Route (asked : Bytes) (db : DomainDb) (t : Tenant) : Type 0 where
  pub row : TenantDomain
  pub row_mem : Memᴰ row db.domains
  pub tenant_mem : Memᴰ t db.control.tenants
  pub active : tenant_is_active t.status ≡ true
  pub of_tenant : row.tenant ≡ t.id
  pub named : Names asked row.hostname
  pub verified : is_verified row.status ≡ true

first_route-some :
    (h : Bytes) (db : DomainDb) (ts : List Tenant) {t : Tenant}
    → first_route h db ts ≡ some t
    → Memᴰ t ts × (tenant_is_active t.status ≡ true) × (any (routes h t.id) db.domains ≡ true)
unfolding first_route
first_route-some h db [] e = cc
first_route-some h db (s ∷ ts) {t} e =
    elim (Bool-cases (tenant_is_active s.status && any (routes h s.id) db.domains)) [
      | inl q ↦
          let first : some s ≡ some t = rw q at e in
          let it : t ≡ s = cc in
          let (act, r) =
            &&-eq-true (tenant_is_active s.status) (any (routes h s.id) db.domains) q in
          (
            Memᴰ.head it,
            subst (λ z. tenant_is_active z.status ≡ true) (sym it) act,
            subst (λ z. any (routes h z.id) db.domains ≡ true) (sym it) r,
          )
      | inr q ↦
          let rest : first_route h db ts ≡ some t = rw q at e in
          let (m, a, r) = first_route-some h db ts rest in (Memᴰ.tail m, a, r)
    ]

first_route-none :
    (h : Bytes) (db : DomainDb) (ts : List Tenant) {t : Tenant}
    → first_route h db ts ≡ none
    → Memᴰ t ts
    → tenant_is_active t.status ≡ true
    → any (routes h t.id) db.domains ≡ false
unfolding first_route
first_route-none h db [] e m act = elim m [ ]
first_route-none h db (s ∷ ts) {t} e m act =
    elim (Bool-cases (tenant_is_active s.status && any (routes h s.id) db.domains)) [
      | inl q ↦ absurd (ground (arith, rw q at e))
      | inr q ↦ elim (mem-cases m) [
        | inl it ↦
            let same : (tenant_is_active t.status && any (routes h t.id) db.domains) ≡ false =
              subst (λ z. (tenant_is_active z.status && any (routes h z.id) db.domains) ≡ false)
                (sym it) q in
            ground arith
        | inr n ↦ first_route-none h db ts (rw q at e) n act
      ]
    ]

get_tenant-Route :
    (asked : Bytes) (db : DomainDb) {t : Tenant}
    → get_tenant_by_verified_hostname asked db ≡ some t
    → Route asked db t
unfolding get_tenant_by_verified_hostname
get_tenant-Route asked db {t} h = elim (Bool-cases (is_empty (to_lower (trim_space asked)))) [
  | inl e ↦ absurd (ground (arith, rw e at h))
  | inr e ↦
      let (m, act, r) =
        first_route-some (to_lower (trim_space asked)) db db.control.tenants (rw e at h) in
      let (d, dm, p) = mem-any (routes (to_lower (trim_space asked)) t.id) db.domains r in
      record {
        row = d;
        row_mem = dm;
        tenant_mem = m;
        active = act;
        of_tenant = ground (arith, p, ==_iff d.tenant t.id);
        named = sym ((str_eq_iff d.hostname (to_lower (trim_space asked))).0 (ground arith));
        verified = ground arith;
      }
]

unrouted :
    (asked : Bytes) (db : DomainDb) {t : Tenant}
    → is_empty (to_lower (trim_space asked)) ≡ false
    → get_tenant_by_verified_hostname asked db ≡ none
    → ¬ Route asked db t
unfolding get_tenant_by_verified_hostname
unrouted asked db {t} e h r =
    let free : any (routes (to_lower (trim_space asked)) t.id) db.domains ≡ false =
      first_route-none (to_lower (trim_space asked)) db db.control.tenants (rw e at h) r.tenant_mem
        r.active in
    let hit : any (routes (to_lower (trim_space asked)) t.id) db.domains ≡ true =
      any-mem (routes (to_lower (trim_space asked)) t.id) db.domains r.row_mem (
        ground (
          arith,
          (==_iff r.row.tenant t.id).1 r.of_tenant,
          r.verified,
          (str_eq_iff r.row.hostname (to_lower (trim_space asked))).1 (sym r.named),
        )) in
    ground arith

one_host :
    (ds : List TenantDomain) {d e : TenantDomain}
    → IsSound ds
    → Memᴰ d ds
    → Memᴰ e ds
    → d.hostname ≡ e.hostname
    → d ≡ e
one_host ds {d} {e} h md me same =
    keyed_unique same_host
      (λ x y q. (str_eq_iff y.hostname x.hostname).1 (sym ((str_eq_iff x.hostname y.hostname).0 q)))
      ds h.unique md me ((str_eq_iff d.hostname e.hostname).1 same)

-- In a sound table a hostname that is not blank routes to an active tenant with a verified row for
-- it, and wherever there is such a tenant, to one with that tenant's id.
pub get_tenant_by_verified_hostname_lem :
    (asked : Bytes) (db : DomainDb)
    → IsSound db.domains
    → is_empty (to_lower (trim_space asked)) ≡ false
    → ((t : Tenant) → get_tenant_by_verified_hostname asked db ≡ some t → Route asked db t)
      × ((u : Tenant)
          → Route asked db u
          → (t : Tenant) × (get_tenant_by_verified_hostname asked db ≡ some t) × (t.id ≡ u.id))
get_tenant_by_verified_hostname_lem asked db h written = (
  λ t e. get_tenant-Route asked db e,
  λ u r. elim (Option-cases (get_tenant_by_verified_hostname asked db)) [
    | inl e ↦ absurd (unrouted asked db written e r)
    | inr found ↦
        let (t, e) = found in
        let q = get_tenant-Route asked db e in
        let same = one_host db.domains h q.row_mem r.row_mem (sym q.named ∙ r.named) in
        (t, e, sym q.of_tenant ∙ ap (λ (d : TenantDomain). d.tenant) same ∙ r.of_tenant)
  ],
)

-- A hostname whose row was revoked routes nowhere, however the request writes it.
revoke_unroutes :
    (t id : ℕ) (actor : Actor) (now : ℕ) (asked : Bytes) (db : DomainDb) {out : TenantDomain}
    {db' : DomainDb}
    → IsSound db.domains
    → revoke_tenant_domain t id actor now db ≡ (ok out, db')
    → Names asked out.hostname
    → get_tenant_by_verified_hostname asked db' ≡ none
unfolding revoke_tenant_domain with_status is_pending
revoke_unroutes t id actor now asked db {out} {db'} h revoked named =
    let (d, found, made, rows) =
      update_status_ok t id DomainStatus.revoked actor (codes "tenant_domain.revoke")
        (codes "ownership revoked") now db revoked in
    let step = with_status DomainStatus.revoked (codes "ownership revoked") now in
    let sound : IsSound db'.domains = subst IsSound (sym rows) (
      status-IsSound t id DomainStatus.revoked (codes "ownership revoked") now db.domains refl h) in
    let kept =
      find-update_self (is_domain t id) (is_domain t id) step db.domains (λ y e. e) found in
    let mem : Memᴰ out db'.domains =
      subst (λ z. Memᴰ z db'.domains) (sym made)
        (subst (λ z. Memᴰ (step d) z) (sym rows)
          (mem-find (is_domain t id) (update (is_domain t id) step db.domains) kept).0) in
    elim (Option-cases (get_tenant_by_verified_hostname asked db')) [
      | inl e ↦ e
      | inr hit ↦
          let (u, e) = hit in
          let r = get_tenant-Route asked db' e in
          let same : r.row ≡ out = one_host db'.domains sound r.row_mem mem (sym r.named ∙ named) in
          let gone : is_verified out.status ≡ false = ap (λ z. is_verified z.status) made in
          let live : is_verified out.status ≡ true =
            subst (λ z. is_verified z.status ≡ true) same r.verified in
          absurd (ground arith)
    ]
