-- ===== src/Adaptive.antt =====
-- The adaptive risk engine: src/adaptive/config.ts and its in-memory stores
-- (src/adaptive/inMemoryStores.ts). The coordinates are floating-point numbers: their type, and the
-- test whether a journey was faster than the limit, are parameters.
pub mod Engine
pub mod Laws
mod Tests
use Prim.Native.String.{◌++◌ as ◌+++◌}
use absolute_auth.Prelude.{
  ℕ, zero, suc, ◌+◌, ◌-◌, String, Bool, true, false, not, ◌&&◌, ◌||◌, Option, none, some, List, [],
  ◌∷◌, ◌++◌, map, ◌==◌, string_eq, option_string_eq, nat_eq, ltb, leb, if◌then◌else◌, length,
  filter, any, sort_descending,
}
use absolute_auth.JsMap.{JsMap, get, set, values}

pub data RiskAction : Type 0 where
  allow deny step_up : RiskAction

pub data RiskSignal : Type 0 where
  impossible_travel new_country new_device off_hours proxy velocity : RiskSignal

pub record GeoPoint (F : Type 0) : Type 0 where
  pub country : Option String
  pub latitude : Option F
  pub longitude : Option F

pub record RiskContext (F : Type 0) : Type 0 where
  pub device_id : String
  pub geo : Option (GeoPoint F)
  pub ip_address : Option String
  pub is_proxy : Option Bool
  pub local_hour : Option ℕ
  pub now : ℕ
  pub user_id : String

pub record RiskReason : Type 0 where
  pub action : RiskAction
  pub signal : RiskSignal

pub record RiskAssessment : Type 0 where
  pub action : RiskAction
  pub reasons : List RiskReason

pub record RiskThresholds : Type 0 where
  pub deny_score : ℕ
  pub step_up_score : ℕ

pub record WeightedRiskAssessment : Type 0 where
  pub action : RiskAction
  pub reasons : List RiskReason
  pub score : ℕ

pub record KnownDevice : Type 0 where
  pub device_id : String
  pub first_seen_at : ℕ
  pub label : Option String
  pub last_seen_at : ℕ
  pub trusted : Bool
  pub user_id : String

pub record LoginAttempt (F : Type 0) : Type 0 where
  pub attempt_id : String
  pub country : Option String
  pub device_id : String
  pub ip_address : Option String
  pub latitude : Option F
  pub longitude : Option F
  pub outcome : RiskAction
  pub timestamp : ℕ
  pub user_id : String

unfoldable pub device_key : String → String → String
device_key user_id device_id = user_id +++ (":" +++ device_id)

unfoldable pub find_device : String → String → JsMap KnownDevice → Option KnownDevice
unfolding device_key
find_device user_id device_id m = get (device_key user_id device_id) m

unfoldable pub list_devices : String → JsMap KnownDevice → List KnownDevice
list_devices user_id m =
    sort_descending (λ device. device.last_seen_at)
      (filter (λ device. device.user_id == user_id) (values m))

unfoldable pub save_device : KnownDevice → JsMap KnownDevice → JsMap KnownDevice
unfolding device_key
save_device device m = set (device_key device.user_id device.device_id) device m

take : {F : Type 0} → ℕ → List (LoginAttempt F) → List (LoginAttempt F)
take zero xs = []
take (suc n) [] = []
take (suc n) (x ∷ xs) = x ∷ take n xs

unfoldable pub list_recent :
    {F : Type 0} → String → ℕ → List (LoginAttempt F) → List (LoginAttempt F)
unfolding take
list_recent user_id limit attempts = take limit (
    sort_descending (λ attempt. attempt.timestamp)
      (filter (λ attempt. attempt.user_id == user_id) attempts))

unfoldable pub record_attempt :
    {F : Type 0} → LoginAttempt F → List (LoginAttempt F) → List (LoginAttempt F)
record_attempt attempt attempts = attempts ++ attempt ∷ []

-- AdaptiveConfig without its stores, the defaults filled in. too_fast tells whether the journey from
-- the coordinates of an attempt to a point is defined and faster than the limit.
pub record AdaptiveConfig (F : Type 0) : Type 0 where
  pub history_limit : ℕ
  pub off_hours_start : ℕ
  pub off_hours_end : ℕ
  pub rules : RiskSignal → Option RiskAction
  pub velocity_max_attempts : ℕ
  pub velocity_window_ms : ℕ
  pub too_fast : LoginAttempt F → GeoPoint F → ℕ → Bool

pub record Stores (F : Type 0) : Type 0 where
  pub devices : JsMap KnownDevice
  pub attempts : List (LoginAttempt F)
