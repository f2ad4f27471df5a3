-- ===== src/Organizations/Laws.antt =====
-- An invitation is accepted once, by the user that it was sent to, and changes no membership that
-- exists.
use absolute_auth.Prelude.{
  ◌≡◌, ◌<◌, refl, Bool, true, false, Option, none, some, [], ◌∷◌, string_eq, arith, eq_iff,
  Bool-cases, inl, inr,
}
use absolute_auth.JsMap.{JsMap, get, set, has, find_value}
use absolute_auth.JsMap.Laws.{get-set}
use absolute_auth.JsMap.Update.{find_value_holds}
use absolute_auth.Organizations.{
  OrganizationMembership, OrganizationInvitation, InvitationState, MembershipStatus, active,
  suspended, accepted, pending, revoked, Store, Acceptance, refuses, new_membership, consumed,
  accept_as, accept_found, accept_invitation, membership_key, of_token, is_pending, is_suspended,
  get_membership,
}

-- The invitations stand under their ids, each once.
abbrev pub IsKeyed : JsMap OrganizationInvitation → Type 0
IsKeyed [] = Unit
IsKeyed ((k, v) ∷ m) = (v.invitation_id ≡ k) × (get k m ≡ none) × IsKeyed m

find_value-keyed :
    (p : OrganizationInvitation → Bool) (v : OrganizationInvitation)
    (m : JsMap OrganizationInvitation)
    → IsKeyed m
    → find_value p m ≡ some v
    → get v.invitation_id m ≡ some v
unfolding find_value get
find_value-keyed p v [] h f = ground (arith, f)
find_value-keyed p v ((k, u) ∷ m) h f =
    ground (arith, f, h.0, h.1, eq_iff k v.invitation_id, find_value-keyed p v m h.2)

-- Where a search ends in one entry, it ends in what replaces it.
find_value-set_found :
    (p : OrganizationInvitation → Bool) (v w : OrganizationInvitation)
    (m : JsMap OrganizationInvitation)
    → IsKeyed m
    → find_value p m ≡ some v
    → p w ≡ true
    → find_value p (set v.invitation_id w m) ≡ some w
unfolding find_value set
find_value-set_found p v w [] h f e = ground (arith, f)
find_value-set_found p v w ((k, u) ∷ m) h f e = ground (
  arith,
  f,
  e,
  h.0,
  h.1,
  eq_iff k v.invitation_id,
  find_value-keyed p v m h.2,
  find_value-set_found p v w m h.2,
)

module _ (input : Acceptance) (s : Store) where
  -- What an acceptance found and did.
  abbrev pub Accepted : OrganizationMembership → Store → Type 0
  Accepted membership s' =
      (invitation : OrganizationInvitation) × (find_value (of_token input.token_hash) s.invitations
        ≡ some invitation)
      × (invitation.state ≡ pending)
      × (input.now < invitation.expires_at)
      × (input.normalize invitation.email ≡ input.verified_email)
      × (has invitation.organization_id s.organizations ≡ true)
      × (membership.status ≡ active)
      × (membership ≡ elim (get_membership invitation.organization_id input.user_id s) [
        | none ↦ new_membership input invitation
        | some existing ↦ existing
      ])
      × (s' ≡ consumed input invitation membership s)

pending_of : (state : InvitationState) → is_pending state ≡ true → state ≡ pending
unfolding is_pending
pending_of accepted h = ground (arith, h)
pending_of pending h = refl
pending_of revoked h = ground (arith, h)

pub active_of : (status : MembershipStatus) → is_suspended status ≡ false → status ≡ active
unfolding is_suspended
active_of active h = refl
active_of suspended h = ground (arith, h)

module _ (input : Acceptance) where
  -- What the conditions of an acceptance leave.
  Fit : OrganizationInvitation → Store → Type 0
  Fit invitation s =
      (invitation.state ≡ pending)
      × (input.now < invitation.expires_at)
      × (input.normalize invitation.email ≡ input.verified_email)
      × (has invitation.organization_id s.organizations ≡ true)

  refuses-Fit :
      (invitation : OrganizationInvitation) (s : Store)
      → refuses input invitation s ≡ false
      → Fit invitation s
  unfolding refuses Fit
  refuses-Fit invitation s r = (
    pending_of invitation.state (ground (arith, r)),
    ground (arith, r),
    ground (arith, r, eq_iff (input.normalize invitation.email) input.verified_email),
    ground (arith, r),
  )

  Accepted-as :
      (invitation : OrganizationInvitation) (o : Option OrganizationMembership) (s : Store)
      (membership : OrganizationMembership)
      → find_value (of_token input.token_hash) s.invitations ≡ some invitation
      → refuses input invitation s ≡ false
      → get_membership invitation.organization_id input.user_id s ≡ o
      → (accept_as input invitation o s).0 ≡ some membership
      → Accepted input s membership (accept_as input invitation o s).1
  unfolding accept_as Fit
  Accepted-as invitation none s membership f r g h =
      let (state, time, email, org) = refuses-Fit invitation s r in
      let same : new_membership input invitation ≡ membership = ground (arith, h) in
      (
        invitation,
        f,
        state,
        time,
        email,
        org,
        ground (arith, same),
        ground (arith, same, g),
        ground (arith, same),
      )
  Accepted-as invitation (some existing) s membership f r g h =
      let (state, time, email, org) = refuses-Fit invitation s r in
      let same : existing ≡ membership = ground (arith, h) in
      let status = active_of existing.status (ground (arith, h)) in
      (
        invitation,
        f,
        state,
        time,
        email,
        org,
        ground (arith, same, status),
        ground (arith, same, g),
        ground (arith, same, status),
      )

  Accepted-found :
      (o : Option OrganizationInvitation) (s : Store) (membership : OrganizationMembership)
      → find_value (of_token input.token_hash) s.invitations ≡ o
      → (accept_found input o s).0 ≡ some membership
      → Accepted input s membership (accept_found input o s).1
  unfolding accept_found get_membership
  Accepted-found none s membership f h = absurd (ground (arith, h))
  Accepted-found (some invitation) s membership f h =
      elim (Bool-cases (refuses input invitation s)) [
        | inl e ↦ absurd (ground (arith, h, e))
        | inr e ↦ rw e (
            Accepted-as invitation
              (get (membership_key invitation.organization_id input.user_id) s.memberships) s
              membership f e refl (ground (arith, h, e)))
      ]

-- An acceptance that returns a membership found the invitation of the token, pending, not expired,
-- for the verified email and for an organization that exists; the membership is active: the user's own
-- where there was one, roles and all, and else a new one with the roles of the invitation; a
-- suspended membership is never returned. Only the invitation and the membership are written.
pub acceptance_sound :
    (input : Acceptance) (s : Store) (membership : OrganizationMembership)
    → (accept_invitation input s).0 ≡ some membership
    → Accepted input s membership (accept_invitation input s).1
unfolding accept_invitation
acceptance_sound input s membership h =
    Accepted-found input (find_value (of_token input.token_hash) s.invitations) s membership refl h

set-IsKeyed :
    (v : OrganizationInvitation) (m : JsMap OrganizationInvitation)
    → IsKeyed m
    → IsKeyed (set v.invitation_id v m)
unfolding get set
set-IsKeyed v [] h = (refl, refl, tt)
set-IsKeyed v ((k, u) ∷ m) h = ground (
  arith,
  h.0,
  h.1,
  set-IsKeyed v m h.2,
  get-set v.invitation_id k v m,
  eq_iff k v.invitation_id,
  eq_iff v.invitation_id k,
)

consumed-refused :
    (first second : Acceptance) (invitation : OrganizationInvitation)
    (membership : OrganizationMembership) (s : Store)
    → IsKeyed s.invitations
    → find_value (of_token first.token_hash) s.invitations ≡ some invitation
    → second.token_hash ≡ first.token_hash
    → (accept_invitation second (consumed first invitation membership s)
        ≡ (none, consumed first invitation membership s))
      × IsKeyed (consumed first invitation membership s).invitations
unfolding consumed accept_invitation accept_found refuses is_pending of_token
consumed-refused first second invitation membership s keyed f same =
    let used : OrganizationInvitation = record invitation {
      accepted_at = some first.now;
      state = accepted;
    } in
    let holds = find_value_holds (of_token first.token_hash) invitation s.invitations f in
    let found =
      find_value-set_found (of_token second.token_hash) invitation used s.invitations keyed
        (rw same f) (rw same holds) in
    (rw found refl, set-IsKeyed used s.invitations keyed)

-- An invitation token is accepted once: where the invitations stand under their ids, after an
-- acceptance any other with the same token, by any user with any email at any time, is refused and
-- changes nothing; and the invitations still stand under their ids.
pub invitation_accepted_once :
    (first second : Acceptance) (s : Store) (membership : OrganizationMembership)
    → IsKeyed s.invitations
    → (accept_invitation first s).0 ≡ some membership
    → second.token_hash ≡ first.token_hash
    → (accept_invitation second (accept_invitation first s).1
        ≡ (none, (accept_invitation first s).1))
      × IsKeyed (accept_invitation first s).1.invitations
invitation_accepted_once first second s membership keyed h same =
    let (invitation, f, state, time, email, org, status, which, effect) =
      acceptance_sound first s membership h in
    rw effect (consumed-refused first second invitation membership s keyed f same)
