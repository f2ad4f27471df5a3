-- ===== src/Organizations/Permissions.antt =====
-- A permission is what one role of an active membership grants.
use Prim.Native.String.{◌++◌ as ◌+++◌}
use absolute_auth.Prelude.{
  String, ◌≡◌, ◌↔◌, ◌⊎◌, refl, sym, subst, Bool, true, false, ◌||◌, Option, none, some, List, [],
  ◌∷◌, ◌++◌, includes, add, unique, unique_from, Any, any, arith, eq_iff, string_eq, ◌==◌,
  Option-cases, inl, inr,
}
use absolute_auth.JsMap.{JsMap, get}
use absolute_auth.Organizations.{
  OrganizationMembership, active, Store, get_membership, is_suspended,
}
use absolute_auth.Organizations.Laws.{active_of}
use absolute_auth.Organizations.Roles.{
  Role, role_permissions, all_permissions, resolve_permissions, permitted, has_permission,
}

includes-append :
    (x : String) (xs ys : List String) → includes x (xs ++ ys) ≡ (includes x xs || includes x ys)
unfolding includes
includes-append x [] ys = refl
includes-append x (z ∷ xs) ys = ground (arith, includes-append x xs ys)

includes-add : (x y : String) (s : List String) → includes x (add y s) ≡ (includes x s || y == x)
unfolding add includes
includes-add x y s = ground (arith, includes-append x s (y ∷ []), eq_iff y x)

includes-unique_from :
    (x : String) (s xs : List String)
    → includes x (unique_from s xs) ≡ (includes x s || includes x xs)
unfolding unique_from includes
includes-unique_from x s [] = ground arith
includes-unique_from x s (y ∷ xs) =
    ground (arith, includes-unique_from x (add y s) xs, includes-add x y s)

includes-unique : (x : String) (xs : List String) → includes x (unique xs) ≡ includes x xs
unfolding unique includes
includes-unique x xs = includes-unique_from x [] xs

includes-all :
    (x : String) (organization_id : Option String) (m : JsMap Role) (roles : List String)
    → includes x (all_permissions organization_id m roles)
      ≡ any (λ slug. includes x (role_permissions organization_id m slug)) roles
unfolding all_permissions includes
includes-all x organization_id m [] = refl
includes-all x organization_id m (slug ∷ roles) = ground (
  arith,
  includes-append x (role_permissions organization_id m slug)
      (all_permissions organization_id m roles),
  includes-all x organization_id m roles,
)

-- One of the slugs satisfies one of two tests.
either :
    (p q : String → Bool) (xs : List String)
    → ((any p xs || any q xs) ≡ true) ↔ Any (λ x. (p x ≡ true) ⊎ (q x ≡ true)) xs
either p q [] = ground arith
either p q (x ∷ xs) = ground (arith, either p q xs)

-- The role that a slug stands for in an organization: the organization's own, or the global one
-- where it has none. A role is stored under its organization, a tab and its slug.
abbrev pub IsRoleOf : String → JsMap Role → String → Role → Type 0
IsRoleOf organization_id m slug role =
    (get (organization_id +++ ("\t" +++ slug)) m ≡ some role)
    ⊎ ((get (organization_id +++ ("\t" +++ slug)) m ≡ none) × (get ("\t" +++ slug) m ≡ some role))

-- That the role of a slug has a permission, or the wildcard.
abbrev pub Grants : String → String → JsMap Role → String → Type 0
Grants organization_id permission m slug =
    (role : Role) × IsRoleOf organization_id m slug role
    × ((includes "*" role.permissions ≡ true) ⊎ (includes permission role.permissions ≡ true))

-- The same of the permissions that the resolver reads.
abbrev Resolved : String → String → JsMap Role → String → Type 0
Resolved organization_id permission m slug =
    (includes "*" (role_permissions (some organization_id) m slug) ≡ true)
    ⊎ (includes permission (role_permissions (some organization_id) m slug) ≡ true)

module _ (organization_id permission : String) (m : JsMap Role) (slug : String) where
  role_permissions-own :
      (role : Role)
      → get (organization_id +++ ("\t" +++ slug)) m ≡ some role
      → role_permissions (some organization_id) m slug ≡ role.permissions
  unfolding role_permissions
  role_permissions-own role e = ground (arith, e)

  role_permissions-global :
      (role : Role)
      → get (organization_id +++ ("\t" +++ slug)) m ≡ none
      → get ("\t" +++ slug) m ≡ some role
      → role_permissions (some organization_id) m slug ≡ role.permissions
  unfolding role_permissions
  role_permissions-global role e g = ground (arith, e, g)

  role_permissions-nothing :
      get (organization_id +++ ("\t" +++ slug)) m ≡ none
      → get ("\t" +++ slug) m ≡ none
      → role_permissions (some organization_id) m slug ≡ []
  unfolding role_permissions
  role_permissions-nothing e g = ground (arith, e, g)

  Resolved-Grants :
      Resolved organization_id permission m slug → Grants organization_id permission m slug
  unfolding includes
  Resolved-Grants h = elim (Option-cases (get (organization_id +++ ("\t" +++ slug)) m)) [
    | inr (role, e) ↦ (role, inl e, rw (role_permissions-own role e) at h)
    | inl e ↦ elim (Option-cases (get ("\t" +++ slug) m)) [
      | inr (role, g) ↦ (role, inr (e, g), rw (role_permissions-global role e g) at h)
      | inl g ↦ absurd (ground (arith, h, role_permissions-nothing e g))
    ]
  ]

  Grants-Resolved :
      Grants organization_id permission m slug → Resolved organization_id permission m slug
  Grants-Resolved (role, inl e, h) = rw (role_permissions-own role e) h
  Grants-Resolved (role, inr (e, g), h) = rw (role_permissions-global role e g) h

Any-weaken :
    {P Q : String → Type 0} (xs : List String) → ((x : String) → P x → Q x) → Any P xs → Any Q xs
Any-weaken [] f h = h
Any-weaken (x ∷ xs) f (inl p) = inl (f x p)
Any-weaken (x ∷ xs) f (inr p) = inr (Any-weaken xs f p)

module _ (organization_id permission : String) (m : JsMap Role) where
  permitted_active :
      (membership : OrganizationMembership)
      → membership.status ≡ active
      → (permitted organization_id permission m (some membership) ≡ true)
        ↔ Any (Resolved organization_id permission m) membership.roles
  unfolding permitted resolve_permissions is_suspended
  permitted_active membership a =
      rw
        (
          a,
          includes-unique "*" (all_permissions (some organization_id) m membership.roles),
          includes-unique permission (all_permissions (some organization_id) m membership.roles),
          includes-all "*" (some organization_id) m membership.roles,
          includes-all permission (some organization_id) m membership.roles,
        )
        (either (λ slug. includes "*" (role_permissions (some organization_id) m slug))
          (λ slug. includes permission (role_permissions (some organization_id) m slug))
          membership.roles)

  -- The evidence for a permission.
  abbrev pub Permitted : Option OrganizationMembership → Type 0
  Permitted o =
      (membership : OrganizationMembership) × (o ≡ some membership)
      × (membership.status ≡ active)
      × Any (Grants organization_id permission m) membership.roles

  permitted_iff :
      (o : Option OrganizationMembership)
      → (permitted organization_id permission m o ≡ true) ↔ Permitted o
  unfolding permitted is_suspended
  permitted_iff none = (λ h. absurd (ground (arith, h)), λ p. absurd (ground (arith, p.1)))
  permitted_iff (some membership) = (
    λ h.
        let a = active_of membership.status (ground (arith, h)) in
        (
          membership,
          refl,
          a,
          Any-weaken membership.roles (Resolved-Grants organization_id permission m)
              ((permitted_active membership a).0 h),
        ),
    λ (other, same, a, grants).
        let e : membership ≡ other = ground (arith, same) in
        subst (λ z. permitted organization_id permission m (some z) ≡ true) (sym e)
          ((permitted_active other a).1
            (Any-weaken other.roles (Grants-Resolved organization_id permission m) grants)),
  )

-- A user has a permission in an organization exactly if the user's membership there is active and one
-- of its slugs stands for a role, the organization's own and else the global one, that has the
-- permission or the wildcard; without an organization no permission is held.
pub has_permission_iff :
    (organization_id permission user_id : String) (m : JsMap Role) (s : Store)
    → ((has_permission (some organization_id) permission user_id m s ≡ true)
        ↔ Permitted organization_id permission m (get_membership organization_id user_id s))
      × (has_permission none permission user_id m s ≡ false)
unfolding has_permission
has_permission_iff organization_id permission user_id m s =
    (permitted_iff organization_id permission m (get_membership organization_id user_id s), refl)
