-- ===== src/JsMap/Laws.antt =====
-- What a client of `JsMap` sees of each method, through `get`.
use absolute_auth.Prelude.{
  ◌+◌, String, ◌≡◌, refl, Bool, Option, none, some, [], ◌∷◌, ◌==◌, string_eq, arith, eq_iff,
  if◌then◌else◌, length,
}
use absolute_auth.JsMap.{JsMap, get, set, delete, delete_where, count_where}

-- What is left of a value under a test that selects what goes.
abbrev pub unless {ℓ} : {V : Type ℓ} → (V → Bool) → Option V → Option V
unless p none = none
unless p (some v) = if p v then none else some v

module _ {ℓ} {V : Type ℓ} where
  -- No key occurs twice: what `Map` guarantees.
  abbrev pub IsMap : JsMap V → Type ℓ
  IsMap [] = Unit
  IsMap ((k, v) ∷ m) = (get k m ≡ none) × IsMap m

  pub get-set :
      (k j : String) (v : V) (m : JsMap V)
      → get j (set k v m) ≡ (if k == j then some v else get j m)
  unfolding get set
  get-set k j v [] = refl
  get-set k j v ((i, w) ∷ m) = ground (arith, eq_iff k j, eq_iff i k, eq_iff i j, get-set k j v m)

  pub get-delete :
      (k j : String) (m : JsMap V) → get j (delete k m) ≡ (if k == j then none else get j m)
  unfolding get delete
  get-delete k j [] = ground arith
  get-delete k j ((i, w) ∷ m) = ground (arith, eq_iff k j, eq_iff i k, eq_iff i j, get-delete k j m)

  -- A key that is not there is not there after the loop.
  get-delete_where-none :
      (p : V → Bool) (k : String) (m : JsMap V) → get k m ≡ none → get k (delete_where p m) ≡ none
  unfolding get delete_where
  get-delete_where-none p k [] h = refl
  get-delete_where-none p k ((i, w) ∷ m) h = ground (arith, get-delete_where-none p k m)

  -- The loop removes exactly the entries that it selects.
  pub get-delete_where :
      (p : V → Bool) (k : String) (m : JsMap V)
      → IsMap m
      → get k (delete_where p m) ≡ unless p (get k m)
  unfolding get delete_where
  get-delete_where p k [] h = refl
  get-delete_where p k ((i, w) ∷ m) h =
      ground (arith, eq_iff i k, get-delete_where p k m h.1, get-delete_where-none p k m)

  pub length-delete_where :
      (p : V → Bool) (m : JsMap V) → length (delete_where p m) + count_where p m ≡ length m
  unfolding delete_where count_where
  length-delete_where p [] = refl
  length-delete_where p ((i, w) ∷ m) = ground (arith, length-delete_where p m)

  pub set-IsMap : (k : String) (v : V) (m : JsMap V) → IsMap m → IsMap (set k v m)
  unfolding get set
  set-IsMap k v [] h = (refl, tt)
  set-IsMap k v ((i, w) ∷ m) h =
      ground (arith, set-IsMap k v m h.1, get-set k i v m, eq_iff i k, eq_iff k i)

  pub delete-IsMap : (k : String) (m : JsMap V) → IsMap m → IsMap (delete k m)
  unfolding delete
  delete-IsMap k [] h = tt
  delete-IsMap k ((i, w) ∷ m) h = ground (arith, delete-IsMap k m h.1, get-delete k i m)

  pub delete_where-IsMap : (p : V → Bool) (m : JsMap V) → IsMap m → IsMap (delete_where p m)
  unfolding delete_where
  delete_where-IsMap p [] h = tt
  delete_where-IsMap p ((i, w) ∷ m) h =
      ground (arith, delete_where-IsMap p m h.1, get-delete_where-none p i m)
