-- ===== src/Adaptive/Laws.antt =====
-- The verdict is the most severe reason, and a trusted device stays known.
use absolute_auth.Prelude.{
  ℕ, ◌≡◌, ◌≤◌, refl, String, Bool, true, false, not, Option, List, [], ◌∷◌, ◌++◌, map,
  if◌then◌else◌, ltb, All, Any, any, ◌⊎◌, inl, inr, arith, eq_iff, string_eq,
}
use absolute_auth.JsMap.{JsMap}
use absolute_auth.JsMap.Laws.{get-set}
use absolute_auth.Adaptive.{
  RiskAction, allow, RiskSignal, impossible_travel, new_country, off_hours, proxy, velocity,
  new_device, RiskContext, RiskReason, KnownDevice, device_key, find_device, save_device,
  AdaptiveConfig, Stores,
}
use absolute_auth.Adaptive.Engine.{
  action_severity, worst_from, most_severe, is_untrusted, detect_signals, rule_reason, assess_risk,
  record_login_attempt, trust_device, when,
}

-- Of an action and reasons, the worst is at least as severe as each, and is one of them.
Worst : RiskAction → RiskAction → List RiskReason → Type 0
Worst result start reasons =
    (action_severity start ≤ action_severity result)
    × All (λ reason. action_severity reason.action ≤ action_severity result) reasons
    × ((result ≡ start) ⊎ Any (λ reason. reason.action ≡ result) reasons)

worst_from-Worst :
    (start : RiskAction) (reasons : List RiskReason)
    → Worst (worst_from start reasons) start reasons
unfolding worst_from Worst
worst_from-Worst start [] = (omega arith, tt, inl refl)
worst_from-Worst start (reason ∷ reasons) = ground (
  arith,
  worst_from-Worst
      (if ltb (action_severity start) (action_severity reason.action) then reason.action else start)
      reasons,
)

-- The verdict of the rules is at least as severe as every reason that it returns, and is allow or the
-- action of one of them; the reasons are those of the signals that fired, in their order.
pub verdict_most_severe :
    {F : Type 0} (cfg : AdaptiveConfig F) (context : RiskContext F) (s : Stores F)
    → All
        (λ reason.
          action_severity reason.action ≤ action_severity (assess_risk cfg context s).action)
        (assess_risk cfg context s).reasons
      × (((assess_risk cfg context s).action ≡ allow)
          ⊎ Any
              (λ reason. reason.action ≡ (assess_risk cfg context s).action)
              (assess_risk cfg context s).reasons)
      × ((assess_risk cfg context s).reasons ≡ map (rule_reason cfg) (detect_signals cfg context s))
unfolding assess_risk most_severe Worst
verdict_most_severe cfg context s =
    let (_, each, one) =
      worst_from-Worst allow (map (rule_reason cfg) (detect_signals cfg context s)) in
    (each, one, refl)

unfoldable pub is_new : RiskSignal → Bool
is_new signal = elim signal [ new_device ↦ true | _ ↦ false ]

-- What happens to the stores after a device is trusted: attempts are recorded, devices trusted.
pub data Event (F : Type 0) : Type 0 where
  attempted : (uuid : String) → RiskContext F → RiskAction → Event F
  device_trusted : (user_id device_id : String) → Option String → ℕ → Event F

saved-trusted :
    (user_id device_id : String) (device : KnownDevice) (s : JsMap KnownDevice)
    → is_untrusted (find_device user_id device_id s) ≡ false
    → (device.trusted ≡ true
        ⊎ device.trusted ≡ not (is_untrusted (find_device device.user_id device.device_id s)))
    → is_untrusted (find_device user_id device_id (save_device device s)) ≡ false
unfolding save_device find_device is_untrusted
saved-trusted user_id device_id device s h t = ground (
  arith,
  h,
  t,
  get-set (device_key device.user_id device.device_id) (device_key user_id device_id) device s,
  eq_iff (device_key device.user_id device.device_id) (device_key user_id device_id),
)

saved-untrusted :
    (device : KnownDevice) (s : JsMap KnownDevice)
    → is_untrusted (find_device device.user_id device.device_id (save_device device s))
      ≡ not device.trusted
unfolding save_device find_device is_untrusted
saved-untrusted device s = ground (
  arith,
  get-set (device_key device.user_id device.device_id) (device_key device.user_id device.device_id)
      device s,
  eq_iff (device_key device.user_id device.device_id) (device_key device.user_id device.device_id),
)

-- Of the signals that may fire, only the first is a new device.
fired_known :
    (a b c d e f : Bool)
    → a ≡ false
    → any is_new (
        when a new_device
        ++ (when b new_country
            ++ (when c impossible_travel
                ++ (when d velocity ++ (when e proxy ++ when f off_hours)))))
      ≡ false
unfolding when is_new
fired_known a b c d e f h = ground (arith, h)

module _ {F : Type 0} where
  abbrev pub happen : Event F → Stores F → Stores F
  happen (attempted uuid context outcome) s = record_login_attempt uuid context outcome s
  happen (device_trusted user_id device_id label now) s = trust_device user_id device_id label now s

  abbrev pub happen_all : List (Event F) → Stores F → Stores F
  happen_all [] s = s
  happen_all (e ∷ es) s = happen_all es (happen e s)

  happen-trusted :
      (user_id device_id : String) (e : Event F) (s : Stores F)
      → is_untrusted (find_device user_id device_id s.devices) ≡ false
      → is_untrusted (find_device user_id device_id (happen e s).devices) ≡ false
  unfolding record_login_attempt trust_device
  happen-trusted user_id device_id (attempted uuid context outcome) s h =
      saved-trusted user_id device_id _ s.devices h (inr refl)
  happen-trusted user_id device_id (device_trusted u d label now) s h =
      saved-trusted user_id device_id _ s.devices h (inl refl)

  happen_all-trusted :
      (user_id device_id : String) (es : List (Event F)) (s : Stores F)
      → is_untrusted (find_device user_id device_id s.devices) ≡ false
      → is_untrusted (find_device user_id device_id (happen_all es s).devices) ≡ false
  happen_all-trusted user_id device_id [] s h = h
  happen_all-trusted user_id device_id (e ∷ es) s h =
      happen_all-trusted user_id device_id es (happen e s) (happen-trusted user_id device_id e s h)

  trust-trusted :
      (user_id device_id : String) (label : Option String) (now : ℕ) (s : Stores F)
      → is_untrusted
          (find_device user_id device_id (trust_device user_id device_id label now s).devices)
        ≡ false
  unfolding trust_device
  trust-trusted user_id device_id label now s = saved-untrusted _ s.devices

  detect-known :
      (cfg : AdaptiveConfig F) (context : RiskContext F) (s : Stores F)
      → is_untrusted (find_device context.user_id context.device_id s.devices) ≡ false
      → any is_new (detect_signals cfg context s) ≡ false
  unfolding detect_signals
  detect-known cfg context s h = fired_known _ _ _ _ _ _ h

-- A device that a user trusted is no new device for that user: after any later attempts, by any user
-- on any device, and any later trust, an attempt of that user on it does not raise the signal.
pub trusted_device_known :
    {F : Type 0} (cfg : AdaptiveConfig F) (context : RiskContext F) (label : Option String)
    (now : ℕ) (es : List (Event F)) (s : Stores F)
    → any is_new (
        detect_signals cfg context
          (happen_all es (trust_device context.user_id context.device_id label now s)))
      ≡ false
trusted_device_known cfg context label now es s = detect-known cfg context _ (
    happen_all-trusted context.user_id context.device_id es
      (trust_device context.user_id context.device_id label now s)
      (trust-trusted context.user_id context.device_id label now s))
