-- ===== src/JsMap.antt =====
-- JavaScript's `Map` with string keys, as the in-memory stores use it: an association list in
-- insertion order. `set` on a present key keeps its place, on a new key appends.
pub mod Laws
pub mod Update
pub mod Preserve
use absolute_auth.Prelude.{
  ℕ, String, Bool, not, Option, none, some, List, [], ◌∷◌, map, ◌==◌, string_eq, if◌then◌else◌,
  filter, find,
}

abbrev pub JsMap {ℓ} : Type ℓ → Type ℓ
JsMap V = List (String × V)

module _ {ℓ} {V : Type ℓ} where
  -- m.get(k)
  unfoldable pub get : String → JsMap V → Option V
  get k [] = none
  get k ((j, v) ∷ m) = if j == k then some v else get k m

  -- m.has(k)
  unfoldable pub has : String → JsMap V → Bool
  unfolding get
  has k m = elim (get k m) [ none ↦ Bool.false | some v ↦ Bool.true ]

  -- m.set(k, v)
  unfoldable pub set : String → V → JsMap V → JsMap V
  set k v [] = (k, v) ∷ []
  set k v ((j, w) ∷ m) = if j == k then (j, v) ∷ m else (j, w) ∷ set k v m

  -- m.delete(k)
  unfoldable pub delete : String → JsMap V → JsMap V
  delete k [] = []
  delete k ((j, v) ∷ m) = let rest = delete k m in if j == k then rest else (j, v) ∷ rest

  -- [...m.values()]
  unfoldable pub values : JsMap V → List V
  values [] = []
  values ((j, v) ∷ m) = v ∷ values m

  -- for (const [k, v] of m) if (p(v)) m.delete(k)
  unfoldable pub delete_where : (V → Bool) → JsMap V → JsMap V
  delete_where p [] = []
  delete_where p ((j, v) ∷ m) = let rest = delete_where p m in if p v then rest else (j, v) ∷ rest

  -- the number of entries that such a loop deletes
  unfoldable pub count_where : (V → Bool) → JsMap V → ℕ
  count_where p [] = 0
  count_where p ((j, v) ∷ m) = let rest = count_where p m in if p v then ℕ.suc rest else rest

  -- The first value that satisfies the test: a `for` loop over the values with a `return`.
  unfoldable pub find_value : (V → Bool) → JsMap V → Option V
  find_value p [] = none
  find_value p ((j, v) ∷ m) = if p v then some v else find_value p m

  -- A mutation of the object that such a loop returns.
  unfoldable pub update_first : (V → Bool) → (V → V) → JsMap V → JsMap V
  update_first p f [] = []
  update_first p f ((j, v) ∷ m) = if p v then (j, f v) ∷ m else (j, v) ∷ update_first p f m
