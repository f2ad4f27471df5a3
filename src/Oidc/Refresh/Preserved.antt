-- ===== src/Oidc/Refresh/Preserved.antt =====
-- Each operation of the store keeps its invariant.
use absolute_auth.Prelude.{
  String, ◌≡◌, refl, Bool, true, false, Option, none, some, ◌==◌, string_eq, arith, eq_iff, ◌⊎◌,
  inl, inr, Bool-cases, Option-cases, subst,
}
use absolute_auth.JsMap.{find_value, update_first, delete, delete_where}
use absolute_auth.JsMap.Update.{
  Nowhere, AtMostOne, Nowhere_found, find_value_holds, Nowhere-update_first,
}
use absolute_auth.JsMap.Preserve
use absolute_auth.Oidc.Types.{RefreshToken}
use absolute_auth.Oidc.Refresh.{
  Family, Store, is_active_for, has_consumed, replace, revoke, rotate_token,
  revoke_by_consumed_token, consume_token, revoke_family, save_token, drop_found, drop_owned,
}
use absolute_auth.Oidc.Refresh.Validity.{owns, self_consumed, IsValid, includes-add}

-- The maps that the deleting operations leave.
abbrev pub Shrunk : Store → Store → Type 0
Shrunk m m' =
    (m' ≡ m) ⊎ ((k : String) × (m' ≡ delete k m)) ⊎ ((p : Family → Bool) × (m' ≡ delete_where p m))

drop_found-Shrunk : (o : Option Family) (m : Store) → Shrunk m (drop_found o m).1
unfolding drop_found
drop_found-Shrunk none m = inl refl
drop_found-Shrunk (some f) m = inr (inl (f.token.family_id, refl))

drop_owned-Shrunk : (u i : String) (o : Option Family) (m : Store) → Shrunk m (drop_owned u i o m).1
unfolding drop_owned
drop_owned-Shrunk u i none m = inl refl
drop_owned-Shrunk u i (some f) m = elim (Bool-cases (f.token.user_id == u)) [
  | inl e ↦ inr (inl (i, rw e))
  | inr e ↦ inl (rw e)
]

pub consume_token-Shrunk : (h : String) (m : Store) → Shrunk m (consume_token h m).1
unfolding consume_token
consume_token-Shrunk h m = drop_found-Shrunk _ m

pub revoke_family-Shrunk : (u i : String) (m : Store) → Shrunk m (revoke_family u i m).1
unfolding revoke_family
revoke_family-Shrunk u i m = drop_owned-Shrunk u i _ m

pub Nowhere-Shrunk : (q : Family → Bool) (m m' : Store) → Shrunk m m' → Nowhere q m → Nowhere q m'
Nowhere-Shrunk q m m' (inl e) n = rw e n
Nowhere-Shrunk q m m' (inr (inl (k, e))) n = rw e (Preserve.Nowhere-delete q k m n)
Nowhere-Shrunk q m m' (inr (inr (p, e))) n = rw e (Preserve.Nowhere-delete_where q p m n)

AtMostOne-Shrunk : (q : Family → Bool) (m m' : Store) → Shrunk m m' → AtMostOne q m → AtMostOne q m'
AtMostOne-Shrunk q m m' (inl e) n = rw e n
AtMostOne-Shrunk q m m' (inr (inl (k, e))) n = rw e (Preserve.AtMostOne-delete q k m n)
AtMostOne-Shrunk q m m' (inr (inr (p, e))) n = rw e (Preserve.AtMostOne-delete_where q p m n)

pub Shrunk-IsValid : (m m' : Store) → Shrunk m m' → IsValid m → IsValid m'
Shrunk-IsValid m m' s v = record {
  one_owner = λ h. AtMostOne-Shrunk (owns h) m m' s (v.one_owner h);
  fresh = Nowhere-Shrunk self_consumed m m' s v.fresh;
}

owns-revoke : (h : String) (f : Family) → owns h (revoke f) ≡ owns h f
unfolding owns revoke
owns-revoke h f = refl

self_consumed-revoke : (f : Family) → self_consumed (revoke f) ≡ self_consumed f
unfolding self_consumed revoke
self_consumed-revoke f = refl

-- Revocation of a family, whichever it is.
revoked-IsValid : (p : Family → Bool) (m : Store) → IsValid m → IsValid (update_first p revoke m)
revoked-IsValid p m v = record {
  one_owner = λ h.
      Preserve.AtMostOne-update_first_same (owns h) p revoke m (λ f _. owns-revoke h f)
        (v.one_owner h);
  fresh =
      Preserve.Nowhere-update_first_same self_consumed p revoke m (λ f _. self_consumed-revoke f)
        v.fresh;
}

pub revoke_by_consumed_token-IsValid :
    (h : String) (m : Store) → IsValid m → IsValid (revoke_by_consumed_token h m).1
unfolding revoke_by_consumed_token
revoke_by_consumed_token-IsValid h m v = elim (Option-cases (find_value (has_consumed h) m)) [
  | inl e ↦ rw (e, revoke_by_consumed_token) v
  | inr (f, e) ↦ rw (e, revoke_by_consumed_token) (revoked-IsValid (has_consumed h) m v)
]

-- Rotation adds the new hash to the hashes of its family.
owns-replace :
    (x h : String) (r : RefreshToken) (f : Family)
    → is_active_for h f ≡ true
    → (r.token_hash == x) ≡ false
    → owns x (replace h r f) ≡ owns x f
unfolding owns replace is_active_for
owns-replace x h r f e d = ground (
  arith,
  includes-add x h f.consumed,
  eq_iff f.token.token_hash h,
  eq_iff h x,
  eq_iff f.token.token_hash x,
)

self_consumed-replace :
    (h : String) (r : RefreshToken) (f : Family)
    → is_active_for h f ≡ true
    → owns r.token_hash f ≡ false
    → self_consumed (replace h r f) ≡ false
unfolding owns self_consumed replace is_active_for
self_consumed-replace h r f e d = ground (
  arith,
  includes-add r.token_hash h f.consumed,
  eq_iff f.token.token_hash h,
  eq_iff h r.token_hash,
  eq_iff f.token.token_hash r.token_hash,
)

module _ (h : String) (r : RefreshToken) (m : Store) (new : Nowhere (owns r.token_hash) m) where
  replaced_one_owner :
      IsValid m → (x : String) → AtMostOne (owns x) (update_first (is_active_for h) (replace h r) m)
  replaced_one_owner v x = elim (Bool-cases (r.token_hash == x)) [
    | inl e ↦
        Preserve.AtMostOne-update_first_new (owns x) (is_active_for h) (replace h r) m
          (subst (λ y. Nowhere (owns y) m) ((eq_iff r.token_hash x).0 e) new)
    | inr e ↦
        Preserve.AtMostOne-update_first_same (owns x) (is_active_for h) (replace h r) m
          (λ f a. owns-replace x h r f a e) (v.one_owner x)
  ]

  replaced-IsValid :
      (f : Family)
      → find_value (is_active_for h) m ≡ some f
      → IsValid m
      → IsValid (update_first (is_active_for h) (replace h r) m)
  replaced-IsValid f e v = record {
    one_owner = replaced_one_owner v;
    fresh = Nowhere-update_first self_consumed (is_active_for h) (replace h r) f m v.fresh e (
        self_consumed-replace h r f (find_value_holds (is_active_for h) f m e)
          (Nowhere_found (owns r.token_hash) (is_active_for h) f m new e));
  }

  pub rotate_token-IsValid : IsValid m → IsValid (rotate_token h r m).1
  unfolding rotate_token
  rotate_token-IsValid v = elim (Option-cases (find_value (is_active_for h) m)) [
    | inl e ↦ rw (e, rotate_token) (revoke_by_consumed_token-IsValid h m v)
    | inr (f, e) ↦ rw (e, rotate_token) (replaced-IsValid f e v)
  ]

-- A new family with its first token.
module _ (t : RefreshToken) (m : Store) (new : Nowhere (owns t.token_hash) m) where
  save_token_one_owner : IsValid m → (x : String) → AtMostOne (owns x) (save_token t m)
  unfolding save_token owns
  save_token_one_owner v x = elim (Bool-cases (t.token_hash == x)) [
    | inl e ↦
        Preserve.AtMostOne-set_new (owns x) t.family_id _ m
          (subst (λ y. Nowhere (owns y) m) ((eq_iff t.token_hash x).0 e) new)
    | inr e ↦ Preserve.AtMostOne-set_other (owns x) t.family_id _ m (ground arith) (v.one_owner x)
  ]

  pub save_token-IsValid : IsValid m → IsValid (save_token t m)
  unfolding save_token self_consumed
  save_token-IsValid v = record {
    one_owner = save_token_one_owner v;
    fresh = Preserve.Nowhere-set self_consumed t.family_id _ m refl v.fresh;
  }
