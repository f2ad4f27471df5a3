-- ===== src/Organizations/Tests.antt =====
-- An invitation, its acceptance, and the permissions of the member.
use absolute_auth.Prelude.{
  String, ◌≡◌, ◌↔◌, refl, true, false, none, some, List, [], ◌∷◌, includes, unique,
}
use absolute_auth.JsMap.{get, set, has, find_value}
use absolute_auth.Organizations.{
  Organization, OrganizationMembership, OrganizationInvitation, active, pending, Store, Acceptance,
  accept_invitation, save_membership, get_membership,
}
use absolute_auth.Organizations.Laws.{Accepted, IsKeyed, acceptance_sound, invitation_accepted_once}
use absolute_auth.Organizations.Operations.{Runtime, auto_assign_orgs_by_email}
use absolute_auth.Organizations.Roles.{Role, has_permission, role_permissions}
use absolute_auth.Organizations.Permissions.{Permitted, has_permission_iff}

abbrev organization : Organization
organization = record {
  created_at = 0;
  metadata = none;
  name = "Acme";
  organization_id = "o1";
  updated_at = 0;
}

abbrev invitation : OrganizationInvitation
invitation = record {
  accepted_at = none;
  created_at = 0;
  email = "ann@acme.example";
  expires_at = 100;
  invitation_id = "i1";
  invitee_name = none;
  inviter_user_id = none;
  message = none;
  organization_id = "o1";
  roles = "editor" ∷ [];
  state = pending;
  token_hash = "h1";
}

abbrev store : Store
store = record {
  organizations = ("o1", organization) ∷ [];
  memberships = [];
  invitations = ("i1", invitation) ∷ [];
}

abbrev by_user : String → Acceptance
by_user user_id = record {
  normalize = λ t. t;
  token_hash = "h1";
  user_id = user_id;
  verified_email = "ann@acme.example";
  now = 50;
}

abbrev membership : OrganizationMembership
membership = record {
  created_at = 50;
  organization_id = "o1";
  roles = "editor" ∷ [];
  status = active;
  updated_at = 50;
  user_id = "ann";
}

accepted_by_ann : (accept_invitation (by_user "ann") store).0 ≡ some membership
unfolding accept_invitation find_value has get
accepted_by_ann = refl

acceptance_sound_example :
    Accepted (by_user "ann") store membership (accept_invitation (by_user "ann") store).1
acceptance_sound_example = acceptance_sound (by_user "ann") store membership accepted_by_ann

invitation_accepted_once_example :
    (accept_invitation (by_user "bob") (accept_invitation (by_user "ann") store).1
      ≡ (none, (accept_invitation (by_user "ann") store).1))
    × IsKeyed (accept_invitation (by_user "ann") store).1.invitations
unfolding get
invitation_accepted_once_example =
    invitation_accepted_once (by_user "ann") (by_user "bob") store membership (refl, refl, tt)
      accepted_by_ann refl

abbrev editor : Role
editor = record {
  created_at = 0;
  organization_id = none;
  permissions = "posts:write" ∷ [];
  slug = "editor";
  updated_at = 0;
}

has_permission_iff_example :
    ((has_permission
          (some "o1")
          "posts:write"
          "ann"
          (("\teditor", editor) ∷ [])
          (accept_invitation (by_user "ann") store).1
        ≡ true)
      ↔ Permitted "o1" "posts:write"
          (("\teditor", editor) ∷ [])
          (get_membership "o1" "ann" (accept_invitation (by_user "ann") store).1))
    × (has_permission none "posts:write" "ann"
          (("\teditor", editor) ∷ [])
          (accept_invitation (by_user "ann") store).1
        ≡ false)
has_permission_iff_example =
    has_permission_iff "o1" "posts:write" "ann" (("\teditor", editor) ∷ [])
      (accept_invitation (by_user "ann") store).1

ann_writes :
    has_permission
      (some "o1")
      "posts:write"
      "ann"
      (("\teditor", editor) ∷ [])
      (accept_invitation (by_user "ann") store).1
    ≡ true
unfolding has_permission accept_invitation find_value has get set get_membership includes unique
    role_permissions
ann_writes = refl

abbrev runtime : Runtime
runtime = record { trim = λ t. t; to_lower_case = λ t. t; hash_token = λ t. t }

abbrev orgs : String → List String
orgs domain = "o1" ∷ "o2" ∷ []

assigned_both :
    (auto_assign_orgs_by_email runtime orgs "ann@acme.example" [] "ann" 7 store).0
    ≡ "o1" ∷ "o2" ∷ []
unfolding auto_assign_orgs_by_email get set get_membership save_membership
assigned_both = refl
