-- ===== src/Control/ApiKeys/Examples.antt =====
-- The first key of a tenant.
use mailview.Prelude.{
  ◌≡◌, refl, some, [], ◌∷◌, Bytes, codes, any, str_eq, ok, err, invalid, Option, trim_left,
  trim_right,
}
use mailview.Tenancy.{Context}
use mailview.Control.Db.{Db, Actor, MembershipStatus}
use mailview.Control.Rbac.{has_tenant_permission}
use mailview.Control.ApiKeys.{
  KeyInput, Drawn, KeyDb, may_give, insert_key, token_of, create_for, create_api_key,
}
use mailview.Control.ApiKeys.Granted.{IsGranted, create_api_key-IsGranted}

abbrev manage : Bytes
manage = codes "list.manage.tenant"

abbrev db : Db
db = record {
  tenants = [];
  reserved_slugs = [];
  slug_history = [];
  users = [];
  memberships = record { id = 11; tenant = 7; user = 3; status = MembershipStatus.active } ∷ [];
  member_roles = record { membership = 11; role = 21 } ∷ [];
  roles = [];
  permissions = manage ∷ [];
  role_permissions = record { role = 21; code = manage } ∷ [];
  denials = [];
  audit = [];
}

abbrev before : KeyDb
before = record { db = db; keys = [] }

abbrev member : Actor
member = record { user = 3 }

abbrev scope : Option Context
scope = some (record { tenant = 7; user = 3 })

abbrev input : KeyInput
input = record { name = codes "sync"; permissions = manage ∷ []; expires_at = some 90 }

abbrev drawn : Drawn
drawn = record { id = 5; raw = 1 ∷ []; prefix_bytes = 171 ∷ [] }

-- Any functions will do: here the digest is the first byte, and base64 the text itself.
abbrev digest : Bytes → Bytes
digest [] = []
digest (b ∷ _) = b ∷ []

abbrev as_is : Bytes → Bytes
as_is b = b

abbrev after : KeyDb
after = (create_api_key digest as_is scope drawn 50 input member before).1

created :
    create_api_key digest as_is scope drawn 50 input member before
    ≡ (ok (token_of digest as_is drawn), after)
unfolding create_api_key create_for insert_key may_give has_tenant_permission any str_eq trim_left
    trim_right
created = refl

create_api_key-IsGranted_example :
    IsGranted digest as_is (token_of digest as_is drawn) drawn 50 input scope member before after
create_api_key-IsGranted_example =
    create_api_key-IsGranted digest as_is scope drawn 50 input member before after
      (token_of digest as_is drawn) created

-- A permission that the user does not have.
refused :
    (create_api_key digest as_is scope drawn 50
      (record input { permissions = codes "list.read.tenant" ∷ [] })
      member
      before).0
    ≡ err invalid
unfolding create_api_key create_for insert_key may_give has_tenant_permission any str_eq trim_left
    trim_right
refused = refl
