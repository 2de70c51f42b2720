-- ===== src/Control/ApiKeys.antt =====
-- internal/mailview/control/api_keys.go: keys that act for a tenant. The random bytes, the new id and
-- the time are arguments; SHA-256 and base64 are parameters.
pub mod Granted
mod Examples
use mailview.Prelude.{
  ℕ, Bool, true, false, not, ◌&&◌, ◌||◌, Option, none, some, List, [], ◌∷◌, ◌++◌, ◌==◌, ltb, leb,
  if◌then◌else◌, Bytes, codes, any, length, update, str_eq, is_empty, trim_space, has_suffix,
  contains, hex_encode, Tx, Result, ok, err, Error, invalid, conflict, not_found, missing_context,
  ◌>>=◌, ◌>>◌, exec, gets, guard, pure, some_or, is_none,
}
use mailview.Tenancy.{Context, from_context, with_tenant}
use mailview.Control.Db.{Db, Actor, AuditEvent, audited}
use mailview.Control.Rbac.{has_tenant_permission}

-- mv_api_keys, without the times of creation and last use
pub record ApiKey : Type 0 where
  pub id : ℕ
  pub tenant : ℕ
  pub name : Bytes
  pub key_prefix : Bytes
  pub secret_hash : Bytes
  pub permissions : List Bytes
  pub expires_at : Option ℕ
  pub revoked_at : Option ℕ
  pub created_by : ℕ

pub record KeyInput : Type 0 where
  pub name : Bytes
  pub permissions : List Bytes
  pub expires_at : Option ℕ

-- What `CreateAPIKey` draws: a UUID and two readings of the random source.
pub record Drawn : Type 0 where
  pub id : ℕ
  pub raw : Bytes
  pub prefix_bytes : Bytes

pub record KeyDb : Type 0 where
  pub db : Db
  pub keys : List ApiKey

abbrev pub valid_request : KeyInput → Actor → Bool
valid_request input actor =
    not (is_empty (trim_space input.name))
    && leb (length (trim_space input.name)) 100
    && ltb 0 (length input.permissions)
    && leb 1 actor.user

-- No time, or one that is after now.
abbrev pub in_future : Option ℕ → ℕ → Bool
in_future none now = true
in_future (some t) now = ltb now t

abbrev pub is_tenant_code : Bytes → Bool
is_tenant_code code = has_suffix code (codes ".tenant") && not (contains code (codes ".platform"))

-- The loop over the permissions that are asked for, with the ones that it has seen.
unfoldable pub may_give : Db → ℕ → ℕ → List Bytes → List Bytes → Bool
may_give db t u seen [] = true
may_give db t u seen (code ∷ more) =
    let rest = may_give db t u (code ∷ seen) more in
    if is_tenant_code code && not (any (str_eq code) seen) && has_tenant_permission db t u code
    then rest
    else false

-- UNIQUE(tenant_id,name), UNIQUE(tenant_id,key_prefix) and the primary key
abbrev pub clashes : ApiKey → ApiKey → Bool
clashes k x =
    x.id == k.id
    || (x.tenant == k.tenant && (str_eq x.name k.name || str_eq x.key_prefix k.key_prefix))

abbrev log_key : ℕ → Actor → Bytes → ℕ → KeyDb → KeyDb
log_key tenant actor action id s = record s {
  db = record s.db { audit = audited (some tenant) actor action id s.db.audit };
}

-- The transaction of `CreateAPIKey`
unfoldable pub insert_key : ApiKey → Actor → Tx KeyDb Unit
insert_key k actor = do
  clash ← gets (λ s. any (clashes k) s.keys)
  guard (not clash) conflict
  exec (λ s. record s { keys = s.keys ++ (k ∷ []) })
  exec (log_key k.tenant actor (codes "api_key.create") k.id)

abbrev pub is_live : ℕ → ℕ → ApiKey → Bool
is_live t id k = k.tenant == t && k.id == id && is_none k.revoked_at

unfoldable pub revoke_body : ℕ → ℕ → Actor → Context → Tx KeyDb Unit
revoke_body id now actor ctx = do
  found ← gets (λ s. any (is_live ctx.tenant id) s.keys)
  guard found not_found
  exec (λ s. record s {
    keys = update (is_live ctx.tenant id) (λ k. record k { revoked_at = some now }) s.keys;
  })
  exec (log_key ctx.tenant actor (codes "api_key.revoke") id)

-- `RevokeAPIKey`
unfoldable pub revoke_api_key : Option Context → ℕ → ℕ → Actor → Tx KeyDb Unit
unfolding revoke_body
revoke_api_key scope id now actor = with_tenant scope (revoke_body id now actor)

module _ (sha256 base64 : Bytes → Bytes) where
  abbrev pub token_of : Drawn → Bytes
  token_of d = codes "mv_" ++ (hex_encode d.prefix_bytes ++ (codes "." ++ base64 d.raw))

  abbrev pub new_key : Drawn → ℕ → KeyInput → Actor → ApiKey
  new_key d tenant input actor = record {
    id = d.id;
    tenant = tenant;
    name = trim_space input.name;
    key_prefix = hex_encode d.prefix_bytes;
    secret_hash = hex_encode (sha256 (token_of d));
    permissions = input.permissions;
    expires_at = input.expires_at;
    revoked_at = none;
    created_by = actor.user;
  }

  -- What follows `FromContext` in `CreateAPIKey`: the loop, and the transaction.
  unfoldable pub create_for : Option Context → Drawn → KeyInput → Actor → Context → Tx KeyDb Bytes
  create_for scope d input actor ctx = do
    allowed ← gets (λ s. may_give s.db ctx.tenant actor.user [] input.permissions)
    guard allowed invalid
    with_tenant scope (λ c. insert_key (new_key d c.tenant input actor) actor)
    pure (token_of d)

  -- `CreateAPIKey`: the token.
  unfoldable pub create_api_key : Option Context → Drawn → ℕ → KeyInput → Actor → Tx KeyDb Bytes
  unfolding create_for
  create_api_key scope d now input actor = do
    guard (valid_request input actor) invalid
    guard (in_future input.expires_at now) invalid
    ctx ← some_or (from_context scope) missing_context
    create_for scope d input actor ctx
