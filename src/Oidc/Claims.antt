-- ===== src/Oidc/Claims.antt =====
-- The claims of an access token (buildAccessClaims and resolveAccessTtl of src/oidc/config.ts).
pub mod Reserved
use Prim.Native.String.{◌++◌}
use absolute_auth.Prelude.{
  ℕ, String, Option, none, some, List, [], ◌∷◌, ◌+◌, ◌/◌, map, filter, includes,
}
use absolute_auth.JsMap.{JsMap, set}
use absolute_auth.Json.{Json, str, num, obj, end, field, Claims, spread, without_keys}
use absolute_auth.Oidc.Provider.{
  AccessTtl, by_default, fixed, by_scopes, get_or, ms_per_second, ms_per_hour,
}

-- scopes.join(' ')
unfoldable pub join : List String → String
join [] = ""
join (s ∷ []) = s
join (s ∷ t ∷ rest) = s ++ (" " ++ join (t ∷ rest))

unfoldable pub now_seconds : ℕ → ℕ
now_seconds milliseconds = milliseconds / ms_per_second

unfoldable pub resolve_access_ttl : AccessTtl → List String → ℕ
resolve_access_ttl by_default scopes = ms_per_hour
resolve_access_ttl (fixed ttl) scopes = ttl
resolve_access_ttl (by_scopes ttl) scopes = ttl scopes

narrow_to : List String → List String → List String
unfolding includes
narrow_to available requested = filter (λ scope. includes scope available) requested

unfoldable pub narrow_scopes : List String → Option (List String) → List String
unfolding narrow_to
narrow_scopes available none = available
narrow_scopes available (some []) = available
narrow_scopes available (some (s ∷ rest)) = narrow_to available (s ∷ rest)

-- RESERVED_ACCESS_CLAIMS
abbrev pub reserved_access_claims : List String
reserved_access_claims =
    "act" ∷ "aud" ∷ "client_id" ∷ "cnf" ∷ "exp" ∷ "iat" ∷ "iss" ∷ "jti" ∷ "scope" ∷ "sub"
    ∷ "token_use" ∷ []

pub record AccessContext : Type 0 where
  pub act : Option String
  pub audience : Option String
  pub client_cert_thumbprint : Option String
  pub client_id : String
  pub dpop_jkt : Option String
  pub issuer : String
  pub jti : String
  pub now : ℕ
  pub scopes : List String
  pub sub : String
  pub ttl : ℕ

unfoldable pub safe_extra : Option Claims → Claims
unfolding without_keys
safe_extra none = []
safe_extra (some extra) = without_keys reserved_access_claims extra

-- if (act !== undefined) claims.act = { sub: act }
unfoldable pub set_act : Option String → Claims → Claims
set_act none claims = claims
set_act (some sub) claims = set "act" (obj (field "sub" (str sub) end)) claims

-- The confirmation claim carries the bindings that are present, and stands only if one is.
unfoldable pub set_cnf : Option String → Option String → Claims → Claims
set_cnf none none claims = claims
set_cnf (some jkt) none claims = set "cnf" (obj (field "jkt" (str jkt) end)) claims
set_cnf none (some x5t) claims = set "cnf" (obj (field "x5t#S256" (str x5t) end)) claims
set_cnf (some jkt) (some x5t) claims =
    set "cnf" (obj (field "jkt" (str jkt) (field "x5t#S256" (str x5t) end))) claims

-- The object literal: the spread of the extra claims, and then the token's own.
unfoldable pub own_claims : AccessContext → Claims → Claims
unfolding join now_seconds
own_claims c extra = set "token_use" (str "access") (
    set "sub" (str c.sub) (
      set "scope" (str (join c.scopes)) (
        set "jti" (str c.jti) (
          set "iss" (str c.issuer) (
            set "iat" (num (now_seconds c.now)) (
              set "exp" (num (now_seconds (c.now + c.ttl))) (
                set "client_id" (str c.client_id)
                  (set "aud" (str (get_or c.audience c.client_id)) extra))))))))

unfoldable pub build_access_claims : AccessContext → Option Claims → Claims
unfolding safe_extra own_claims set_act set_cnf
build_access_claims c extra =
    set_cnf c.dpop_jkt c.client_cert_thumbprint (set_act c.act (own_claims c (safe_extra extra)))
