-- ===== src/Oidc/Refresh/Validity.antt =====
-- The invariant of the refresh-token store, and how its tests relate.
use absolute_auth.Prelude.{
  String, ◌≡◌, refl, Bool, true, false, ◌||◌, some, List, [], ◌∷◌, ◌++◌, ◌==◌, string_eq, arith,
  eq_iff, includes, add,
}
use absolute_auth.JsMap.{find_value}
use absolute_auth.JsMap.Update.{Nowhere, AtMostOne, find_value_holds, Nowhere_found}
use absolute_auth.Oidc.Refresh.{Family, Store, is_active_for, has_consumed, revoke}

-- The family has the hash, as its current token or as a used one.
unfoldable pub owns : String → Family → Bool
unfolding includes
owns h family = family.token.token_hash == h || includes h family.consumed

-- A family's current token is among its used ones: what rotation never makes true.
unfoldable pub self_consumed : Family → Bool
unfolding has_consumed
self_consumed family = has_consumed family.token.token_hash family

-- The store's invariant: every hash belongs to one family at most, and no family's current token
-- is a used one.
pub record IsValid (families : Store) : Type 0 where
  pub one_owner : (h : String) → AtMostOne (owns h) families
  pub fresh : Nowhere self_consumed families

includes-append :
    (x y : String) (ys : List String) → includes x (ys ++ y ∷ []) ≡ (y == x || includes x ys)
unfolding includes
includes-append x y [] = ground (arith, eq_iff y x)
includes-append x y (z ∷ ys) = ground (arith, includes-append x y ys)

pub includes-add :
    (x y : String) (s : List String) → includes x (add y s) ≡ (y == x || includes x s)
unfolding add
includes-add x y s = ground (arith, includes-append x y s, eq_iff y x)

pub active-le-owns : (h : String) (f : Family) → owns h f ≡ false → is_active_for h f ≡ false
unfolding owns is_active_for
active-le-owns h f e = ground arith

pub consumed-le-owns : (h : String) (f : Family) → owns h f ≡ false → has_consumed h f ≡ false
unfolding owns has_consumed
consumed-le-owns h f e = ground arith

pub owns_of_active : (h : String) (f : Family) → is_active_for h f ≡ true → owns h f ≡ true
unfolding owns is_active_for
owns_of_active h f e = ground arith

-- The family that is found by an active hash has not consumed that hash.
pub fresh_of_found :
    (h : String) (f : Family) (m : Store)
    → Nowhere self_consumed m
    → find_value (is_active_for h) m ≡ some f
    → has_consumed h f ≡ false
unfolding is_active_for self_consumed
fresh_of_found h f m n e = ground (
  arith,
  Nowhere_found self_consumed (is_active_for h) f m n e,
  find_value_holds (is_active_for h) f m e,
  eq_iff f.token.token_hash h,
)

pub revoked_inactive : (h : String) (f : Family) → is_active_for h (revoke f) ≡ false
unfolding revoke is_active_for
revoked_inactive h f = refl
