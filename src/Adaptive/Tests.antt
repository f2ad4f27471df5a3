-- ===== src/Adaptive/Tests.antt =====
-- A user with a trusted device.
use absolute_auth.Prelude.{ℕ, ◌≡◌, refl, true, false, none, some, [], ◌∷◌, any, sort_descending}
use absolute_auth.JsMap.{get}
use absolute_auth.Adaptive.{deny, new_device, proxy, RiskContext, AdaptiveConfig, Stores}
use absolute_auth.Adaptive.Engine.{detect_signals, trust_device}
use absolute_auth.Adaptive.Laws.{attempted, happen_all, is_new, trusted_device_known}

abbrev cfg : AdaptiveConfig ℕ
cfg = record {
  history_limit = 50;
  off_hours_start = 0;
  off_hours_end = 6;
  rules = λ signal. none;
  velocity_max_attempts = 5;
  velocity_window_ms = 300000;
  too_fast = λ previous geo now. false;
}

abbrev context : RiskContext ℕ
context = record {
  device_id = "d1";
  geo = none;
  ip_address = none;
  is_proxy = some true;
  local_hour = none;
  now = 1000;
  user_id = "ann";
}

abbrev empty : Stores ℕ
empty = record { devices = []; attempts = [] }

both_fire : detect_signals cfg context empty ≡ new_device ∷ proxy ∷ []
unfolding detect_signals get sort_descending
both_fire = refl

trusted_device_known_example :
    any is_new (
      detect_signals cfg context
        (happen_all (attempted "a1" context deny ∷ []) (trust_device "ann" "d1" none 900 empty)))
    ≡ false
trusted_device_known_example =
    trusted_device_known cfg context none 900 (attempted "a1" context deny ∷ []) empty
