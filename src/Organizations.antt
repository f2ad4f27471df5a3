-- ===== src/Organizations.antt =====
-- Organizations, memberships and invitations: createInMemoryOrganizationStore
-- (src/organizations/inMemoryOrganizationStore.ts) and the operations of src/organizations/operations.ts.
-- Trimming and lower case, random values
-- and the digest are parameters.
pub mod Laws
pub mod Operations
pub mod Assigned
pub mod Roles
pub mod Permissions
mod Tests
use Prim.Native.String.{◌++◌ as ◌+++◌}
use absolute_auth.Prelude.{
  ℕ, ◌+◌, String, Bool, true, false, not, ◌&&◌, ◌||◌, Option, none, some, List, [], ◌∷◌, ◌++◌, map,
  ◌==◌, string_eq, leb, if◌then◌else◌, filter,
}
use absolute_auth.Json.{Claims}
use absolute_auth.JsMap.{JsMap, get, has, set, delete, values, find_value}

pub record Organization : Type 0 where
  pub created_at : ℕ
  pub metadata : Option Claims
  pub name : String
  pub organization_id : String
  pub updated_at : ℕ

pub data MembershipStatus : Type 0 where
  active suspended : MembershipStatus

pub record OrganizationMembership : Type 0 where
  pub created_at : ℕ
  pub organization_id : String
  pub roles : List String
  pub status : MembershipStatus
  pub updated_at : ℕ
  pub user_id : String

pub data InvitationState : Type 0 where
  accepted pending revoked : InvitationState

pub record OrganizationInvitation : Type 0 where
  pub accepted_at : Option ℕ
  pub created_at : ℕ
  pub email : String
  pub expires_at : ℕ
  pub invitation_id : String
  pub invitee_name : Option String
  pub inviter_user_id : Option String
  pub message : Option String
  pub organization_id : String
  pub roles : List String
  pub state : InvitationState
  pub token_hash : String

pub record Store : Type 0 where
  pub organizations : JsMap Organization
  pub memberships : JsMap OrganizationMembership
  pub invitations : JsMap OrganizationInvitation

-- `${organizationId}\u0000${userId}`
unfoldable pub membership_key : String → String → String
membership_key organization_id user_id = organization_id +++ ("\0" +++ user_id)

unfoldable pub is_pending : InvitationState → Bool
is_pending accepted = false
is_pending pending = true
is_pending revoked = false

unfoldable pub is_suspended : MembershipStatus → Bool
is_suspended active = false
is_suspended suspended = true

-- What acceptInvitation is called with; normalize is trim and lower case.
pub record Acceptance : Type 0 where
  pub normalize : String → String
  pub token_hash : String
  pub user_id : String
  pub verified_email : String
  pub now : ℕ

unfoldable pub refuses : Acceptance → OrganizationInvitation → Store → Bool
unfolding is_pending
refuses input invitation s =
    not (is_pending invitation.state)
    || (leb invitation.expires_at input.now
        || (not (input.normalize invitation.email == input.verified_email)
            || not (has invitation.organization_id s.organizations)))

unfoldable pub new_membership : Acceptance → OrganizationInvitation → OrganizationMembership
new_membership input invitation = record {
  created_at = input.now;
  organization_id = invitation.organization_id;
  roles = invitation.roles;
  status = active;
  updated_at = input.now;
  user_id = input.user_id;
}

-- The two writes of an acceptance.
unfoldable pub consumed :
    Acceptance → OrganizationInvitation → OrganizationMembership → Store → Store
unfolding membership_key
consumed input invitation membership s = record s {
  invitations =
      set invitation.invitation_id
        (record invitation { accepted_at = some input.now; state = accepted }) s.invitations;
  memberships =
      set (membership_key invitation.organization_id input.user_id) membership s.memberships;
}

unfoldable pub accept_as :
    Acceptance
    → OrganizationInvitation
    → Option OrganizationMembership
    → Store
    → Option OrganizationMembership × Store
unfolding consumed new_membership is_suspended
accept_as input invitation none s = (
  some (new_membership input invitation),
  consumed input invitation (new_membership input invitation) s,
)
accept_as input invitation (some existing) s =
    if is_suspended existing.status
    then (none, s)
    else (some existing, consumed input invitation existing s)

unfoldable pub accept_found :
    Acceptance → Option OrganizationInvitation → Store → Option OrganizationMembership × Store
unfolding accept_as refuses membership_key
accept_found input none s = (none, s)
accept_found input (some invitation) s =
    if refuses input invitation s
    then (none, s)
    else accept_as input invitation
        (get (membership_key invitation.organization_id input.user_id) s.memberships) s

unfoldable pub of_token : String → OrganizationInvitation → Bool
of_token token_hash invitation = invitation.token_hash == token_hash

-- The store's acceptInvitation.
unfoldable pub accept_invitation : Acceptance → Store → Option OrganizationMembership × Store
unfolding accept_found of_token
accept_invitation input s =
    accept_found input (find_value (of_token input.token_hash) s.invitations) s

unfoldable pub delete_organization : String → Store → Store
delete_organization organization_id s = record s {
  organizations = delete organization_id s.organizations;
}

unfoldable pub get_invitation : String → Store → Option OrganizationInvitation
get_invitation invitation_id s = get invitation_id s.invitations

unfoldable pub get_invitation_by_token_hash : String → Store → Option OrganizationInvitation
unfolding of_token
get_invitation_by_token_hash token_hash s = find_value (of_token token_hash) s.invitations

unfoldable pub get_membership : String → String → Store → Option OrganizationMembership
unfolding membership_key
get_membership organization_id user_id s =
    get (membership_key organization_id user_id) s.memberships

unfoldable pub get_organization : String → Store → Option Organization
get_organization organization_id s = get organization_id s.organizations

unfoldable pub list_invitations_by_organization : String → Store → List OrganizationInvitation
list_invitations_by_organization organization_id s =
    filter (λ entry. entry.organization_id == organization_id) (values s.invitations)

unfoldable pub list_memberships_by_organization : String → Store → List OrganizationMembership
list_memberships_by_organization organization_id s =
    filter (λ entry. entry.organization_id == organization_id) (values s.memberships)

unfoldable pub list_memberships_by_user : String → Store → List OrganizationMembership
list_memberships_by_user user_id s =
    filter (λ entry. entry.user_id == user_id) (values s.memberships)

unfoldable pub list_organizations : Store → List Organization
list_organizations s = values s.organizations

unfoldable pub remove_membership : String → String → Store → Store
unfolding membership_key
remove_membership organization_id user_id s = record s {
  memberships = delete (membership_key organization_id user_id) s.memberships;
}

unfoldable pub save_invitation : OrganizationInvitation → Store → Store
save_invitation invitation s = record s {
  invitations = set invitation.invitation_id invitation s.invitations;
}

unfoldable pub save_membership : OrganizationMembership → Store → Store
unfolding membership_key
save_membership membership s = record s {
  memberships =
      set (membership_key membership.organization_id membership.user_id) membership s.memberships;
}

unfoldable pub save_organization : Organization → Store → Store
save_organization organization s = record s {
  organizations = set organization.organization_id organization s.organizations;
}
