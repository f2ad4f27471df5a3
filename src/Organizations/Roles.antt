-- ===== src/Organizations/Roles.antt =====
-- Roles of an organization: createInMemoryRoleStore (src/roles/inMemoryRoleStore.ts), setMemberRoles
-- (src/roles/operations.ts) and the permission resolver (src/roles/resolver.ts).
use Prim.Native.String.{◌++◌ as ◌+++◌}
use absolute_auth.Prelude.{
  ℕ, String, Bool, false, ◌||◌, Option, none, some, List, [], ◌∷◌, ◌++◌, ◌==◌, option_string_eq,
  if◌then◌else◌, includes, filter, unique,
}
use absolute_auth.JsMap.{JsMap, get, set, delete, values}
use absolute_auth.Organizations.{
  OrganizationMembership, Store, get_membership, save_membership, is_suspended,
}

pub record Role : Type 0 where
  pub created_at : ℕ
  pub organization_id : Option String
  pub permissions : List String
  pub slug : String
  pub updated_at : ℕ

-- `${organizationId ?? ''}\t${slug}`
unfoldable pub role_key : String → Option String → String
role_key slug none = "\t" +++ slug
role_key slug (some organization_id) = organization_id +++ ("\t" +++ slug)

unfoldable pub delete_role : String → Option String → JsMap Role → JsMap Role
unfolding role_key
delete_role slug organization_id m = delete (role_key slug organization_id) m

unfoldable pub get_role : String → Option String → JsMap Role → Option Role
unfolding role_key
get_role slug organization_id m = get (role_key slug organization_id) m

unfoldable pub list_roles : Option String → JsMap Role → List Role
list_roles organization_id m = filter (λ role. role.organization_id == organization_id) (values m)

unfoldable pub save_role : Role → JsMap Role → JsMap Role
unfolding role_key
save_role role m = set (role_key role.slug role.organization_id) role m

assigned :
    List String → ℕ → Option OrganizationMembership → Store → Option OrganizationMembership × Store
assigned roles now none s = (none, s)
assigned roles now (some membership) s =
    let updated : OrganizationMembership = record membership { roles = roles; updated_at = now } in
    (some updated, save_membership updated s)

unfoldable pub set_member_roles :
    String → List String → String → ℕ → Store → Option OrganizationMembership × Store
unfolding assigned
set_member_roles organization_id roles user_id now s =
    assigned roles now (get_membership organization_id user_id s) s

-- The role of the organization, or the global one of that slug.
scoped_or_global : String → Option Role → JsMap Role → Option Role
unfolding get_role
scoped_or_global slug none m = get_role slug none m
scoped_or_global slug (some role) m = some role

scoped : Option String → String → JsMap Role → Option Role
unfolding get_role
scoped none slug m = none
scoped (some organization_id) slug m = get_role slug (some organization_id) m

permissions_of : Option Role → List String
permissions_of none = []
permissions_of (some role) = role.permissions

unfoldable pub role_permissions : Option String → JsMap Role → String → List String
unfolding scoped scoped_or_global permissions_of
role_permissions organization_id m slug =
    permissions_of (scoped_or_global slug (scoped organization_id slug m) m)

unfoldable pub all_permissions : Option String → JsMap Role → List String → List String
all_permissions organization_id m [] = []
all_permissions organization_id m (slug ∷ roles) =
    role_permissions organization_id m slug ++ all_permissions organization_id m roles

-- new Set(resolved.flat())
unfoldable pub resolve_permissions : Option String → JsMap Role → List String → List String
unfolding all_permissions
resolve_permissions organization_id m roles = unique (all_permissions organization_id m roles)

unfoldable pub permitted : String → String → JsMap Role → Option OrganizationMembership → Bool
unfolding resolve_permissions is_suspended
permitted organization_id permission m none = false
permitted organization_id permission m (some membership) =
    if is_suspended membership.status
    then false
    else includes "*" (resolve_permissions (some organization_id) m membership.roles)
      || includes permission (resolve_permissions (some organization_id) m membership.roles)

-- The function that createMembershipPermissionResolver returns, for a user's id.
unfoldable pub has_permission : Option String → String → String → JsMap Role → Store → Bool
unfolding permitted
has_permission none permission user_id m s = false
has_permission (some organization_id) permission user_id m s =
    permitted organization_id permission m (get_membership organization_id user_id s)
