-- ===== src/JsMap/Preserve.antt =====
-- Which map operations keep `Nowhere` and `AtMostOne`.
use absolute_auth.Prelude.{String, ◌≡◌, Bool, true, false, [], ◌∷◌, arith, string_eq}
use absolute_auth.JsMap.{JsMap, set, delete, delete_where, update_first}
use absolute_auth.JsMap.Update.{Nowhere, AtMostOne}

module _ {ℓ} {V : Type ℓ} (q : V → Bool) where
  pub Nowhere-delete : (k : String) (m : JsMap V) → Nowhere q m → Nowhere q (delete k m)
  unfolding delete
  Nowhere-delete k [] n = tt
  Nowhere-delete k ((j, v) ∷ m) n = ground (arith, Nowhere-delete k m n.1)

  pub Nowhere-delete_where :
      (p : V → Bool) (m : JsMap V) → Nowhere q m → Nowhere q (delete_where p m)
  unfolding delete_where
  Nowhere-delete_where p [] n = tt
  Nowhere-delete_where p ((j, v) ∷ m) n = ground (arith, Nowhere-delete_where p m n.1)

  pub Nowhere-set :
      (k : String) (v : V) (m : JsMap V) → q v ≡ false → Nowhere q m → Nowhere q (set k v m)
  unfolding set
  Nowhere-set k v [] e n = (e, tt)
  Nowhere-set k v ((j, w) ∷ m) e n = ground (arith, Nowhere-set k v m e n.1)

  -- An update that makes no value satisfy `q`.
  pub Nowhere-update_first_all :
      (p : V → Bool) (f : V → V) (m : JsMap V)
      → ((v : V) → q v ≡ false → q (f v) ≡ false)
      → Nowhere q m
      → Nowhere q (update_first p f m)
  unfolding update_first
  Nowhere-update_first_all p f [] keep n = tt
  Nowhere-update_first_all p f ((j, v) ∷ m) keep n =
      ground (arith, keep v, Nowhere-update_first_all p f m keep n.1)

  pub Nowhere-update_first_same :
      (p : V → Bool) (f : V → V) (m : JsMap V)
      → ((v : V) → p v ≡ true → q (f v) ≡ q v)
      → Nowhere q m
      → Nowhere q (update_first p f m)
  unfolding update_first
  Nowhere-update_first_same p f [] same n = tt
  Nowhere-update_first_same p f ((j, v) ∷ m) same n =
      ground (arith, same v, Nowhere-update_first_same p f m same n.1)

  Nowhere-AtMostOne : (m : JsMap V) → Nowhere q m → AtMostOne q m
  Nowhere-AtMostOne [] n = tt
  Nowhere-AtMostOne ((j, v) ∷ m) n = (λ _. n.1, Nowhere-AtMostOne m n.1)

  pub AtMostOne-delete : (k : String) (m : JsMap V) → AtMostOne q m → AtMostOne q (delete k m)
  unfolding delete
  AtMostOne-delete k [] n = tt
  AtMostOne-delete k ((j, v) ∷ m) n =
      ground (arith, n.0, AtMostOne-delete k m n.1, Nowhere-delete k m)

  pub AtMostOne-delete_where :
      (p : V → Bool) (m : JsMap V) → AtMostOne q m → AtMostOne q (delete_where p m)
  unfolding delete_where
  AtMostOne-delete_where p [] n = tt
  AtMostOne-delete_where p ((j, v) ∷ m) n =
      ground (arith, n.0, AtMostOne-delete_where p m n.1, Nowhere-delete_where p m)

  -- A value that fails `q`, or the first to satisfy it.
  pub AtMostOne-set_other :
      (k : String) (v : V) (m : JsMap V) → q v ≡ false → AtMostOne q m → AtMostOne q (set k v m)
  unfolding set
  AtMostOne-set_other k v [] e n = (λ _. tt, tt)
  AtMostOne-set_other k v ((j, w) ∷ m) e n =
      ground (arith, n.0, AtMostOne-set_other k v m e n.1, Nowhere-set k v m e)

  pub AtMostOne-set_new : (k : String) (v : V) (m : JsMap V) → Nowhere q m → AtMostOne q (set k v m)
  unfolding set
  AtMostOne-set_new k v [] n = (λ _. tt, tt)
  AtMostOne-set_new k v ((j, w) ∷ m) n =
      ground (arith, AtMostOne-set_new k v m n.1, Nowhere-AtMostOne m n.1)

  -- An update that `q` does not notice, and one of a map where `q` holds nowhere.
  pub AtMostOne-update_first_same :
      (p : V → Bool) (f : V → V) (m : JsMap V)
      → ((v : V) → p v ≡ true → q (f v) ≡ q v)
      → AtMostOne q m
      → AtMostOne q (update_first p f m)
  unfolding update_first
  AtMostOne-update_first_same p f [] same n = tt
  AtMostOne-update_first_same p f ((j, v) ∷ m) same n = ground (
    arith,
    n.0,
    same v,
    AtMostOne-update_first_same p f m same n.1,
    Nowhere-update_first_same p f m same,
  )

  pub AtMostOne-update_first_new :
      (p : V → Bool) (f : V → V) (m : JsMap V) → Nowhere q m → AtMostOne q (update_first p f m)
  unfolding update_first
  AtMostOne-update_first_new p f [] n = tt
  AtMostOne-update_first_new p f ((j, v) ∷ m) n =
      ground (arith, AtMostOne-update_first_new p f m n.1, Nowhere-AtMostOne m n.1)
