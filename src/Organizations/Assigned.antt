-- ===== src/Organizations/Assigned.antt =====
-- The assignment of organizations by the domain of an email, run twice.
use absolute_auth.Prelude.{
  ℕ, String, ◌≡◌, refl, true, Option, none, some, List, [], ◌∷◌, ◌==◌, string_eq, All, arith,
  eq_iff, Bool-cases, inl, inr,
}
use absolute_auth.JsMap.{has}
use absolute_auth.JsMap.Laws.{get-set}
use absolute_auth.Organizations.{
  OrganizationMembership, Store, get_membership, membership_key, save_membership,
}
use absolute_auth.Organizations.Operations.{
  Runtime, joined, assign, assign_all, auto_assign_orgs_by_email, domain_of,
}

-- The user has a membership in the organization, of either status.
abbrev pub IsMember : String → Store → String → Type 0
IsMember user_id s organization_id =
    has (membership_key organization_id user_id) s.memberships ≡ true

module _ (user_id : String) (roles : List String) (now : ℕ) where
  assign-has :
      (id : String) (k : String) (o : Option OrganizationMembership) (s : Store)
      → has k s.memberships ≡ true
      → has k (assign user_id roles now id o s).1.memberships ≡ true
  unfolding assign has save_membership
  assign-has id k none s h =
      ground (
        arith,
        h,
        get-set (membership_key id user_id) k (joined id roles now user_id) s.memberships,
      )
  assign-has id k (some existing) s h = h

  assign_all-has :
      (ids : List String) (k : String) (s : Store)
      → has k s.memberships ≡ true
      → has k (assign_all user_id roles now ids s).1.memberships ≡ true
  unfolding assign_all
  assign_all-has [] k s h = h
  assign_all-has (id ∷ ids) k s h =
      assign_all-has ids k (assign user_id roles now id (get_membership id user_id s) s).1
        (assign-has id k (get_membership id user_id s) s h)

  assign-IsMember :
      (id : String) (s : Store)
      → IsMember user_id (assign user_id roles now id (get_membership id user_id s) s).1 id
  unfolding assign has save_membership get_membership joined
  assign-IsMember id s = ground (
    arith,
    get-set (membership_key id user_id) (membership_key id user_id) (joined id roles now user_id)
        s.memberships,
    eq_iff (membership_key id user_id) (membership_key id user_id),
  )

  assign_all-IsMember :
      (ids : List String) (s : Store)
      → All (IsMember user_id (assign_all user_id roles now ids s).1) ids
  unfolding assign_all
  assign_all-IsMember [] s = tt
  assign_all-IsMember (id ∷ ids) s =
      let s' = (assign user_id roles now id (get_membership id user_id s) s).1 in
      (
        assign_all-has ids (membership_key id user_id) s' (assign-IsMember id s),
        assign_all-IsMember ids s',
      )

assigned_again :
    (user_id : String) (roles : List String) (now : ℕ) (ids : List String) (s : Store)
    → All (IsMember user_id s) ids
    → assign_all user_id roles now ids s ≡ ([], s)
unfolding assign_all assign has get_membership
assigned_again user_id roles now [] s h = refl
assigned_again user_id roles now (id ∷ ids) s h =
    ground (arith, h.0, assigned_again user_id roles now ids s h.1)

-- Assigning a user to the organizations of the email's domain a second time, at any time and with any
-- roles, assigns none and changes nothing.
pub auto_assign_idempotent :
    (runtime : Runtime) (orgs : String → List String) (email : String) (roles other : List String)
    (user_id : String) (now later : ℕ) (s : Store)
    → auto_assign_orgs_by_email runtime orgs email other user_id later
        (auto_assign_orgs_by_email runtime orgs email roles user_id now s).1
      ≡ ([], (auto_assign_orgs_by_email runtime orgs email roles user_id now s).1)
unfolding auto_assign_orgs_by_email
auto_assign_idempotent runtime orgs email roles other user_id now later s =
    elim (Bool-cases (domain_of runtime email == "")) [
      | inl e ↦ rw e refl
      | inr e ↦ rw e (
          assigned_again user_id other later (orgs (domain_of runtime email))
            (assign_all user_id roles now (orgs (domain_of runtime email)) s).1
            (assign_all-IsMember user_id roles now (orgs (domain_of runtime email)) s))
    ]
