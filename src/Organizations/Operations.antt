-- ===== src/Organizations/Operations.antt =====
-- The operations of src/organizations/operations.ts. Random values, the digest, trimming, lower case and
-- the cleaning of the invitee's name and message are parameters.
use Prim.Native.Char.{Char, code}
use absolute_auth.Prelude.{
  ℕ, ◌+◌, String, Option, none, some, List, [], ◌∷◌, map, ◌==◌, string_eq, nat_eq, if◌then◌else◌,
}
use absolute_auth.Json.{Claims}
use absolute_auth.Crypto.Base32.{chars, text}
use absolute_auth.Organizations.{
  Organization, OrganizationMembership, OrganizationInvitation, active, pending, Store,
  accept_invitation, get_membership, get_organization, list_memberships_by_user, save_membership,
  save_organization, save_invitation,
}

pub record Runtime : Type 0 where
  pub trim : String → String
  pub to_lower_case : String → String
  pub hash_token : String → String

-- acceptInvitation: without an email that the provider verified, nothing is asked of the store.
unfoldable pub accept :
    Runtime
    → (token user_id : String) → Option String
    → ℕ
    → Store
    → Option OrganizationMembership × Store
accept runtime token user_id none now s = (none, s)
accept runtime token user_id (some email) now s =
    if runtime.trim email == ""
    then (none, s)
    else accept_invitation
        (record {
          normalize = λ t. runtime.to_lower_case (runtime.trim t);
          token_hash = runtime.hash_token token;
          user_id = user_id;
          verified_email = runtime.to_lower_case (runtime.trim email);
          now = now;
        })
        s

-- A membership that starts at a time.
unfoldable pub joined : String → List String → ℕ → String → OrganizationMembership
joined organization_id roles now user_id = record {
  created_at = now;
  organization_id = organization_id;
  roles = roles;
  status = active;
  updated_at = now;
  user_id = user_id;
}

unfoldable pub create_organization :
    (uuid : String) (metadata : Option Claims) (name : String) (owner_roles : List String)
    (owner_user_id : String) (now : ℕ)
    → Store
    → Organization × Store
unfolding joined
create_organization uuid metadata name owner_roles owner_user_id now s =
    let organization : Organization = record {
      created_at = now;
      metadata = metadata;
      name = name;
      organization_id = uuid;
      updated_at = now;
    } in
    (
      organization,
      save_membership (joined uuid owner_roles now owner_user_id)
          (save_organization organization s),
    )

-- The invitee's name and the message are what the code leaves of them, or none.
pub record Invite : Type 0 where
  pub email : String
  pub invitation_duration_ms : ℕ
  pub inviter_user_id : Option String
  pub organization_id : String
  pub roles : List String
  pub name : Option String
  pub note : Option String
  pub token : String
  pub uuid : String
  pub now : ℕ

unfoldable pub invite_to_organization :
    Runtime → Invite → Store → OrganizationInvitation × String × Store
invite_to_organization runtime input s =
    let invitation : OrganizationInvitation = record {
      accepted_at = none;
      created_at = input.now;
      email = runtime.to_lower_case (runtime.trim input.email);
      expires_at = input.now + input.invitation_duration_ms;
      invitation_id = input.uuid;
      invitee_name = input.name;
      inviter_user_id = input.inviter_user_id;
      message = input.note;
      organization_id = input.organization_id;
      roles = input.roles;
      state = pending;
      token_hash = runtime.hash_token input.token;
    } in
    (invitation, input.token, save_invitation invitation s)

-- What follows the last '@', where there is one.
after_at : List Char → Option (List Char)
after_at [] = none
after_at (c ∷ cs) = elim (after_at cs) [
  | none ↦ (if code c == 64 then some cs else none)
  | some rest ↦ some rest
]

domain_text : Runtime → Option (List Char) → String
unfolding text
domain_text runtime none = ""
domain_text runtime (some cs) = runtime.to_lower_case (text cs)

-- The domain of an address, empty where it has none.
unfoldable pub domain_of : Runtime → String → String
unfolding after_at domain_text chars
domain_of runtime email = domain_text runtime (after_at (chars email))

unfoldable pub assign :
    String → List String → ℕ → String → Option OrganizationMembership → Store → List String × Store
unfolding joined
assign user_id roles now organization_id none s =
    (organization_id ∷ [], save_membership (joined organization_id roles now user_id) s)
assign user_id roles now organization_id (some existing) s = ([], s)

-- for (const organizationId of orgIds)
unfoldable pub assign_all : String → List String → ℕ → List String → Store → List String × Store
unfolding assign
assign_all user_id roles now [] s = ([], s)
assign_all user_id roles now (id ∷ ids) s =
    let (fresh, s') = assign user_id roles now id (get_membership id user_id s) s in
    let (rest, s'') = assign_all user_id roles now ids s' in
    (elim fresh [ [] ↦ rest | f ∷ _ ↦ f ∷ rest ], s'')

-- get_orgs_for_domain is the application's.
unfoldable pub auto_assign_orgs_by_email :
    Runtime
    → (get_orgs_for_domain : String → List String) → (email : String) → (roles : List String)
    → (user_id : String) → ℕ
    → Store
    → List String × Store
unfolding domain_of assign_all
auto_assign_orgs_by_email runtime get_orgs_for_domain email roles user_id now s =
    let domain = domain_of runtime email in
    if domain == "" then ([], s) else assign_all user_id roles now (get_orgs_for_domain domain) s

unfoldable pub list_user_organizations :
    String → Store → List (OrganizationMembership × Option Organization)
list_user_organizations user_id s =
    map (λ membership. (membership, get_organization membership.organization_id s))
      (list_memberships_by_user user_id s)
