-- ===== src/Oidc/Claims/Reserved.antt =====
-- No extra claim reaches a reserved key.
use absolute_auth.Prelude.{
  String, ◌≡◌, refl, true, Option, none, some, List, [], ◌∷◌, arith, string_eq, eq_iff, includes,
}
use absolute_auth.JsMap.{get, set}
use absolute_auth.JsMap.Laws.{get-set}
use absolute_auth.Json.{Json, Claims, without_keys}
use absolute_auth.Oidc.Claims.{
  AccessContext, reserved_access_claims, set_act, set_cnf, own_claims, build_access_claims,
}

get-without_keys :
    (keys : List String) (k : String) (c : Claims)
    → includes k keys ≡ true
    → get k (without_keys keys c) ≡ none
unfolding get without_keys
get-without_keys keys k [] h = refl
get-without_keys keys k ((j, v) ∷ c) h = ground (arith, get-without_keys keys k c h, eq_iff j k)

-- Two claim sets that agree at a key agree there after the same write.
module _ (k : String) where
  set-agree :
      (j : String) (v : Json) (c d : Claims)
      → get k c ≡ get k d
      → get k (set j v c) ≡ get k (set j v d)
  set-agree j v c d e = ground (arith, get-set j k v c, get-set j k v d)

  own_claims-agree :
      (c : AccessContext) (extra extra' : Claims)
      → get k extra ≡ get k extra'
      → get k (own_claims c extra) ≡ get k (own_claims c extra')
  unfolding own_claims
  own_claims-agree c extra extra' e = set-agree _ _ _ _ (
      set-agree _ _ _ _ (
        set-agree _ _ _ _ (
          set-agree _ _ _ _ (
            set-agree _ _ _ _
              (set-agree _ _ _ _ (set-agree _ _ _ _ (set-agree _ _ _ _ (set-agree _ _ _ _ e))))))))

  set_act-agree :
      (act : Option String) (c d : Claims)
      → get k c ≡ get k d
      → get k (set_act act c) ≡ get k (set_act act d)
  unfolding set_act
  set_act-agree none c d e = e
  set_act-agree (some sub) c d e = set-agree _ _ _ _ e

  set_cnf-agree :
      (jkt x5t : Option String) (c d : Claims)
      → get k c ≡ get k d
      → get k (set_cnf jkt x5t c) ≡ get k (set_cnf jkt x5t d)
  unfolding set_cnf
  set_cnf-agree none none c d e = e
  set_cnf-agree (some jkt) none c d e = set-agree _ _ _ _ e
  set_cnf-agree none (some x5t) c d e = set-agree _ _ _ _ e
  set_cnf-agree (some jkt) (some x5t) c d e = set-agree _ _ _ _ e

  -- Whatever claims the application's hook adds, every reserved claim of the access token is what
  -- it would be without the hook, absent ones included.
  pub reserved_claims_fixed :
      (c : AccessContext) (extra : Claims)
      → includes k reserved_access_claims ≡ true
      → get k (build_access_claims c (some extra)) ≡ get k (build_access_claims c none)
  unfolding build_access_claims get
  reserved_claims_fixed c extra h = set_cnf-agree c.dpop_jkt c.client_cert_thumbprint _ _ (
      set_act-agree c.act _ _
        (own_claims-agree c _ _ (get-without_keys reserved_access_claims k extra h)))
