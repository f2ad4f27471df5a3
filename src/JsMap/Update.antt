-- ===== src/JsMap/Update.antt =====
-- What `find_value` sees after `update_first`.
use absolute_auth.Prelude.{◌≡◌, refl, Bool, true, false, none, some, [], ◌∷◌, arith}
use absolute_auth.JsMap.{JsMap, find_value, update_first}

module _ {ℓ} {V : Type ℓ} where
  -- No value satisfies the test.
  abbrev pub Nowhere : (V → Bool) → JsMap V → Type 0
  Nowhere p [] = Unit
  Nowhere p ((k, v) ∷ m) = (p v ≡ false) × Nowhere p m

  -- At most one value satisfies the test.
  abbrev pub AtMostOne : (V → Bool) → JsMap V → Type 0
  AtMostOne p [] = Unit
  AtMostOne p ((k, v) ∷ m) = (p v ≡ true → Nowhere p m) × AtMostOne p m

  pub find_value-Nowhere : (p : V → Bool) (m : JsMap V) → Nowhere p m → find_value p m ≡ none
  unfolding find_value
  find_value-Nowhere p [] h = refl
  find_value-Nowhere p ((k, v) ∷ m) h = ground (arith, find_value-Nowhere p m h.1)

  pub Nowhere-find_value : (p : V → Bool) (m : JsMap V) → find_value p m ≡ none → Nowhere p m
  unfolding find_value
  Nowhere-find_value p [] h = tt
  Nowhere-find_value p ((k, v) ∷ m) h = ground (arith, Nowhere-find_value p m)

  pub find_value_holds : (p : V → Bool) (v : V) (m : JsMap V) → find_value p m ≡ some v → p v ≡ true
  unfolding find_value
  find_value_holds p v [] h = ground arith
  find_value_holds p v ((k, w) ∷ m) h = ground (arith, find_value_holds p v m)

  -- A test that held nowhere finds the updated value, if it satisfies it.
  pub find_value-update_first :
      (q p : V → Bool) (f : V → V) (v : V) (m : JsMap V)
      → Nowhere q m
      → find_value p m ≡ some v
      → q (f v) ≡ true
      → find_value q (update_first p f m) ≡ some (f v)
  unfolding find_value update_first
  find_value-update_first q p f v [] n h e = ground arith
  find_value-update_first q p f v ((k, w) ∷ m) n h e =
      ground (arith, find_value-update_first q p f v m)

  -- A test that held nowhere still does, if the updated value fails it.
  pub Nowhere-update_first :
      (q p : V → Bool) (f : V → V) (v : V) (m : JsMap V)
      → Nowhere q m
      → find_value p m ≡ some v
      → q (f v) ≡ false
      → Nowhere q (update_first p f m)
  unfolding find_value update_first
  Nowhere-update_first q p f v [] n h e = tt
  Nowhere-update_first q p f v ((k, w) ∷ m) n h e = ground (arith, Nowhere-update_first q p f v m)

  -- Two updates of one value are one.
  pub update_first-update_first :
      (q p : V → Bool) (f g : V → V) (v : V) (m : JsMap V)
      → Nowhere q m
      → find_value p m ≡ some v
      → q (f v) ≡ true
      → update_first q g (update_first p f m) ≡ update_first p (λ w. g (f w)) m
  unfolding find_value update_first
  update_first-update_first q p f g v [] n h e = refl
  update_first-update_first q p f g v ((k, w) ∷ m) n h e =
      ground (arith, update_first-update_first q p f g v m)

  -- A value that is found fails a test that holds nowhere.
  pub Nowhere_found :
      (q p : V → Bool) (v : V) (m : JsMap V) → Nowhere q m → find_value p m ≡ some v → q v ≡ false
  unfolding find_value
  Nowhere_found q p v [] n h = ground arith
  Nowhere_found q p v ((k, w) ∷ m) n h = ground (arith, Nowhere_found q p v m)

  -- Where one value at most satisfies `q`, and it was updated to fail it, none does.
  pub Nowhere-update_first_only :
      (q p : V → Bool) (f : V → V) (v : V) (m : JsMap V)
      → AtMostOne q m
      → find_value p m ≡ some v
      → q v ≡ true
      → q (f v) ≡ false
      → Nowhere q (update_first p f m)
  unfolding find_value update_first
  Nowhere-update_first_only q p f v [] n h e d = tt
  Nowhere-update_first_only q p f v ((k, w) ∷ m) n h e d =
      ground (arith, n.0, Nowhere-update_first_only q p f v m, Nowhere_found q p v m)

  -- A test that holds less often.
  pub Nowhere-weaken :
      (p q : V → Bool) (m : JsMap V)
      → ((v : V) → q v ≡ false → p v ≡ false)
      → Nowhere q m
      → Nowhere p m
  Nowhere-weaken p q [] le n = tt
  Nowhere-weaken p q ((k, v) ∷ m) le n = (le v n.0, Nowhere-weaken p q m le n.1)

  pub AtMostOne-weaken :
      (p q : V → Bool) (m : JsMap V)
      → ((v : V) → q v ≡ false → p v ≡ false)
      → AtMostOne q m
      → AtMostOne p m
  AtMostOne-weaken p q [] le n = tt
  AtMostOne-weaken p q ((k, v) ∷ m) le n =
      (λ h. Nowhere-weaken p q m le (n.0 (ground (arith, le v))), AtMostOne-weaken p q m le n.1)

  -- The one value that satisfies `q` is found by `p`, and fails `r`: nothing satisfies `r`.
  pub Nowhere_of_only :
      (p q r : V → Bool) (v : V) (m : JsMap V)
      → ((w : V) → q w ≡ false → r w ≡ false)
      → AtMostOne q m
      → find_value p m ≡ some v
      → q v ≡ true
      → r v ≡ false
      → Nowhere r m
  unfolding find_value
  Nowhere_of_only p q r v [] le n h e d = tt
  Nowhere_of_only p q r v ((k, w) ∷ m) le n h e d = ground (
    arith,
    n.0,
    le w,
    Nowhere-weaken r q m le,
    Nowhere_of_only p q r v m le,
    Nowhere_found q p v m,
  )
