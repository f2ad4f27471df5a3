-- ===== src/Json.antt =====
-- The values that the code types as `unknown`: claims, metadata, JWT payloads (src/oidc/types.ts,
-- src/audit/types.ts). Numbers are the natural ones; the code reads times and counts alone.
use absolute_auth.Prelude.{
  ℕ, String, Bool, Option, none, some, List, ◌∷◌, [], if◌then◌else◌, includes,
}
use absolute_auth.JsMap
use absolute_auth.JsMap.{JsMap}

mutual
  pub data Json : Type 0 where
    null : Json
    bool : Bool → Json
    num : ℕ → Json
    str : String → Json
    arr : Items → Json
    obj : Fields → Json

  pub data Items : Type 0 where
    nil : Items
    cons : Json → Items → Items

  pub data Fields : Type 0 where
    end : Fields
    field : String → Json → Fields → Fields

-- A top-level object, `Record<string, unknown>`: keys in order, each once.
abbrev pub Claims : Type 0
Claims = JsMap Json

-- { ...c, ...d }
unfoldable pub spread : Claims → Claims → Claims
unfolding JsMap.set
spread c [] = c
spread c ((k, v) ∷ d) = spread (JsMap.set k v c) d

-- Object.fromEntries(Object.entries(c).filter(([key]) => !keys.has(key)))
unfoldable pub without_keys : List String → Claims → Claims
unfolding includes
without_keys keys [] = []
without_keys keys ((k, v) ∷ c) =
    let rest = without_keys keys c in if includes k keys then rest else (k, v) ∷ rest

-- `typeof v === 'string' ? v : undefined`.
unfoldable pub as_string : Option Json → Option String
as_string none = none
as_string (some null) = none
as_string (some (bool b)) = none
as_string (some (num n)) = none
as_string (some (str s)) = some s
as_string (some (arr xs)) = none
as_string (some (obj fs)) = none

-- `typeof v === 'number' ? v : undefined`.
unfoldable pub as_number : Option Json → Option ℕ
as_number none = none
as_number (some null) = none
as_number (some (bool b)) = none
as_number (some (num n)) = some n
as_number (some (str s)) = none
as_number (some (arr xs)) = none
as_number (some (obj fs)) = none
