-- ===== src/Control/ApiKeys/Granted.antt =====
-- What the keys of api_keys.go may do.
use mailview.Prelude.{
  ℕ, ◌≡◌, refl, sym, ap, codes, none, trim_space, true, false, not, Option, some, List, [], ◌∷◌,
  ◌++◌, Bytes, any, ok, invalid, missing_context, conflict, arith, All, hex_encode, continue_ok,
  guard_ok, some_or_ok,
}
use mailview.Tenancy.{Context, from_context, with_tenant, with_tenant_at}
use mailview.Control.Db.{Db, Actor}
use mailview.Control.Rbac.{has_tenant_permission}
use mailview.Control.ApiKeys.{
  ApiKey, KeyInput, Drawn, KeyDb, valid_request, in_future, is_tenant_code, may_give, clashes,
  insert_key, token_of, new_key, create_for, create_api_key,
}

-- A code is tenant-scoped, and effective for the user in the tenant.
abbrev pub Given : Db → ℕ → ℕ → Bytes → Type 0
Given db t u code = (is_tenant_code code ≡ true) × (has_tenant_permission db t u code ≡ true)

may_give-All :
    (db : Db) (t u : ℕ) (seen perms : List Bytes)
    → may_give db t u seen perms ≡ true
    → All (Given db t u) perms
unfolding may_give
may_give-All db t u seen [] h = tt
may_give-All db t u seen (c ∷ cs) h =
    let parts : (is_tenant_code c ≡ true)
        × (has_tenant_permission db t u c ≡ true)
        × (may_give db t u (c ∷ seen) cs ≡ true) =
      ground arith in
    ((parts.0, parts.1), may_give-All db t u (c ∷ seen) cs parts.2)

insert_key_ok :
    (k : ApiKey) (actor : Actor) (s s' : KeyDb)
    → insert_key k actor s ≡ (ok tt, s')
    → (any (clashes k) s.keys ≡ false) × (s'.keys ≡ s.keys ++ k ∷ [])
unfolding insert_key
insert_key_ok k actor s s' h =
    let (free, rest) = guard_ok (not (any (clashes k) s.keys)) conflict _ h in ground arith

-- What is known of the key that a creation added.
pub record IsGranted (sha256 base64 : Bytes → Bytes) (token : Bytes) (d : Drawn) (now : ℕ)
    (input : KeyInput) (scope : Option Context) (actor : Actor) (s s' : KeyDb) : Type 0 where
  pub key : ApiKey
  pub ctx : Context
  pub bound : from_context scope ≡ some ctx
  pub own : key.tenant ≡ ctx.tenant
  pub added : s'.keys ≡ s.keys ++ key ∷ []
  pub free : any (clashes key) s.keys ≡ false
  pub given : All (Given s.db key.tenant actor.user) key.permissions
  pub hashed : key.secret_hash ≡ hex_encode (sha256 token)
  pub shown : key.key_prefix ≡ hex_encode d.prefix_bytes
  pub secret : token ≡ codes "mv_" ++ (key.key_prefix ++ (codes "." ++ base64 d.raw))
  pub named : key.name ≡ trim_space input.name
  pub asked : key.permissions ≡ input.permissions
  pub ends : key.expires_at ≡ input.expires_at
  pub by : key.created_by ≡ actor.user
  pub live : key.revoked_at ≡ none
  pub lasts : in_future key.expires_at now ≡ true

module _ (sha256 base64 : Bytes → Bytes) where
  create_for-IsGranted :
      (scope : Option Context) (d : Drawn) (now : ℕ) (input : KeyInput) (actor : Actor)
      (ctx : Context) (s s' : KeyDb) (token : Bytes)
      → from_context scope ≡ some ctx
      → in_future input.expires_at now ≡ true
      → create_for sha256 base64 scope d input actor ctx s ≡ (ok token, s')
      → IsGranted sha256 base64 token d now input scope actor s s'
  unfolding create_for
  create_for-IsGranted scope d now input actor ctx s s' token e later h =
      let (allowed, h1) =
        guard_ok (may_give s.db ctx.tenant actor.user [] input.permissions) invalid _ h in
      let (done, u, inserted, last) =
        continue_ok
          (with_tenant scope (λ c. insert_key (new_key sha256 base64 d c.tenant input actor) actor)
            s)
          _ h1 in
      let k = new_key sha256 base64 d ctx.tenant input actor in
      let (free, added) = insert_key_ok k actor s u (with_tenant_at scope ctx _ e inserted) in
      let same_db : u ≡ s' = cc in
      let same_token : token_of sha256 base64 d ≡ token = cc in
      record {
        key = k;
        ctx = ctx;
        bound = e;
        own = refl;
        added = rw (← same_db) added;
        free = free;
        given = may_give-All s.db ctx.tenant actor.user [] input.permissions allowed;
        hashed = ap (λ z. hex_encode (sha256 z)) same_token;
        lasts = later;
        shown = refl;
        secret = sym same_token;
        named = refl;
        asked = refl;
        ends = refl;
        by = refl;
        live = refl;
      }

  -- The one key that a creation adds belongs to the tenant of the request, may do what was asked for,
  -- all of which its creator may do there and is tenant-scoped, and has the end that was asked for:
  -- one in the future, or none. It shares no name and no prefix with a key of its tenant. Of its token
  -- it has the digest and the prefix, which is drawn apart from the token's secret part.
  pub create_api_key-IsGranted :
      (scope : Option Context) (d : Drawn) (now : ℕ) (input : KeyInput) (actor : Actor)
      (s s' : KeyDb) (token : Bytes)
      → create_api_key sha256 base64 scope d now input actor s ≡ (ok token, s')
      → IsGranted sha256 base64 token d now input scope actor s s'
  unfolding create_api_key
  create_api_key-IsGranted scope d now input actor s s' token h =
      let (valid, h1) = guard_ok (valid_request input actor) invalid _ h in
      let (later, h2) = guard_ok (in_future input.expires_at now) invalid _ h1 in
      let (ctx, e, h3) = some_or_ok (from_context scope) missing_context _ h2 in
      create_for-IsGranted scope d now input actor ctx s s' token e later h3
