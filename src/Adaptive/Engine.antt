-- ===== src/Adaptive/Engine.antt =====
-- The rules, the two verdicts, and what an attempt and a trusted device record (src/adaptive/config.ts).
use absolute_auth.Prelude.{
  ℕ, ◌+◌, String, Bool, true, false, not, ◌&&◌, ◌||◌, Option, none, some, List, [], ◌∷◌, ◌++◌, map,
  ◌==◌, string_eq, option_string_eq, nat_eq, ltb, leb, if◌then◌else◌, length, filter, any,
}
use absolute_auth.Adaptive.{
  RiskAction, allow, deny, step_up, RiskSignal, impossible_travel, new_country, new_device,
  off_hours, proxy, velocity, GeoPoint, RiskContext, RiskReason, RiskAssessment, RiskThresholds,
  WeightedRiskAssessment, KnownDevice, LoginAttempt, find_device, save_device, list_recent,
  record_attempt, AdaptiveConfig, Stores,
}

unfoldable pub action_severity : RiskAction → ℕ
action_severity allow = 0
action_severity deny = 2
action_severity step_up = 1

unfoldable pub default_rule_actions : RiskSignal → RiskAction
default_rule_actions impossible_travel = deny
default_rule_actions new_country = step_up
default_rule_actions new_device = step_up
default_rule_actions off_hours = allow
default_rule_actions proxy = step_up
default_rule_actions velocity = deny

unfoldable pub default_risk_weights : RiskSignal → ℕ
default_risk_weights impossible_travel = 80
default_risk_weights new_country = 25
default_risk_weights new_device = 20
default_risk_weights off_hours = 10
default_risk_weights proxy = 30
default_risk_weights velocity = 80

-- reasons.reduce(..., 'allow')
unfoldable pub worst_from : RiskAction → List RiskReason → RiskAction
unfolding action_severity
worst_from worst [] = worst
worst_from worst (reason ∷ reasons) =
    worst_from
      (if ltb (action_severity worst) (action_severity reason.action) then reason.action else worst)
      reasons

unfoldable pub most_severe : List RiskReason → RiskAction
unfolding worst_from
most_severe reasons = worst_from allow reasons

unfoldable pub is_within_off_hours : ℕ → ℕ → ℕ → Bool
is_within_off_hours hour start end =
    if leb start end then leb start hour && ltb hour end else leb start hour || ltb hour end

unfoldable pub action_for_score : ℕ → RiskThresholds → RiskAction
action_for_score score thresholds =
    if leb thresholds.deny_score score
    then deny
    else if leb thresholds.step_up_score score
    then step_up
    else allow

-- device === undefined || !device.trusted
unfoldable pub is_untrusted : Option KnownDevice → Bool
is_untrusted none = true
is_untrusted (some device) = not device.trusted

-- if (...) fired.push(signal)
unfoldable pub when : Bool → RiskSignal → List RiskSignal
when b signal = if b then signal ∷ [] else []

or_default : Option RiskAction → RiskAction → RiskAction
or_default none action = action
or_default (some action) default = action

total : (RiskSignal → ℕ) → List RiskSignal → ℕ
total weights [] = 0
total weights (signal ∷ fired) = weights signal + total weights fired

first_seen : ℕ → Option KnownDevice → ℕ
first_seen now none = now
first_seen now (some existing) = existing.first_seen_at

label_of : Option KnownDevice → Option String
label_of none = none
label_of (some existing) = existing.label

module _ {F : Type 0} where
  country_of : Option (GeoPoint F) → Option String
  country_of none = none
  country_of (some geo) = geo.country

  is_new_country : Option String → List (LoginAttempt F) → Bool
  is_new_country none history = false
  is_new_country (some country) history =
      not (length history == 0) && not (any (λ attempt. attempt.country == some country) history)

  is_impossible : AdaptiveConfig F → ℕ → Option (GeoPoint F) → List (LoginAttempt F) → Bool
  is_impossible cfg now none history = false
  is_impossible cfg now (some geo) [] = false
  is_impossible cfg now (some geo) (previous ∷ rest) = cfg.too_fast previous geo now

  recent_count : AdaptiveConfig F → ℕ → List (LoginAttempt F) → ℕ
  recent_count cfg now history =
      length (filter (λ attempt. leb now (attempt.timestamp + cfg.velocity_window_ms)) history)

  is_off_hours : AdaptiveConfig F → Option ℕ → Bool
  unfolding is_within_off_hours
  is_off_hours cfg none = false
  is_off_hours cfg (some hour) = is_within_off_hours hour cfg.off_hours_start cfg.off_hours_end

  unfoldable pub detect_signals : AdaptiveConfig F → RiskContext F → Stores F → List RiskSignal
  unfolding when is_untrusted country_of is_new_country is_impossible recent_count is_off_hours
      find_device list_recent
  detect_signals cfg context s =
      let device = find_device context.user_id context.device_id s.devices in
      let history = list_recent context.user_id cfg.history_limit s.attempts in
      when (is_untrusted device) new_device
      ++ (when (is_new_country (country_of context.geo) history) new_country
          ++ (when (is_impossible cfg context.now context.geo history) impossible_travel
              ++ (when (leb cfg.velocity_max_attempts (recent_count cfg context.now history))
                    velocity
                  ++ (when (elim context.is_proxy [ none ↦ false | some b ↦ b ]) proxy
                      ++ when (is_off_hours cfg context.local_hour) off_hours))))

  unfoldable pub rule_reason : AdaptiveConfig F → RiskSignal → RiskReason
  unfolding default_rule_actions or_default
  rule_reason cfg signal = record {
    action = or_default (cfg.rules signal) (default_rule_actions signal);
    signal = signal;
  }

  unfoldable pub assess_risk : AdaptiveConfig F → RiskContext F → Stores F → RiskAssessment
  unfolding rule_reason most_severe detect_signals
  assess_risk cfg context s =
      let reasons = map (rule_reason cfg) (detect_signals cfg context s) in
      record { action = most_severe reasons; reasons = reasons }

  unfoldable pub score_risk :
      AdaptiveConfig F
      → RiskThresholds
      → (RiskSignal → ℕ)
      → RiskContext F
      → Stores F
      → WeightedRiskAssessment
  unfolding total action_for_score detect_signals
  score_risk cfg thresholds weights context s =
      let fired = detect_signals cfg context s in
      let score = total weights fired in
      let action = action_for_score score thresholds in
      record {
        action = action;
        reasons = map (λ signal. record { action = action; signal = signal }) fired;
        score = score;
      }

  coordinate : {A : Type 0} → (GeoPoint F → Option A) → Option (GeoPoint F) → Option A
  coordinate field none = none
  coordinate field (some geo) = field geo

  unfoldable pub record_login_attempt :
      (uuid : String) → RiskContext F → RiskAction → Stores F → Stores F
  unfolding find_device save_device record_attempt first_seen label_of coordinate is_untrusted
  record_login_attempt uuid context outcome s =
      let existing = find_device context.user_id context.device_id s.devices in
      record {
        devices =
            save_device
              (record {
                device_id = context.device_id;
                first_seen_at = first_seen context.now existing;
                label = label_of existing;
                last_seen_at = context.now;
                trusted = not (is_untrusted existing);
                user_id = context.user_id;
              })
              s.devices;
        attempts =
            record_attempt
              (record {
                attempt_id = uuid;
                country = coordinate (λ geo. geo.country) context.geo;
                device_id = context.device_id;
                ip_address = context.ip_address;
                latitude = coordinate (λ geo. geo.latitude) context.geo;
                longitude = coordinate (λ geo. geo.longitude) context.geo;
                outcome = outcome;
                timestamp = context.now;
                user_id = context.user_id;
              })
              s.attempts;
      }

  unfoldable pub trust_device :
      (user_id device_id : String) → Option String → ℕ → Stores F → Stores F
  unfolding find_device save_device first_seen label_of
  trust_device user_id device_id label now s =
      let existing = find_device user_id device_id s.devices in
      record s {
        devices =
            save_device
              (record {
                device_id = device_id;
                first_seen_at = first_seen now existing;
                label = elim label [ none ↦ label_of existing | some l ↦ some l ];
                last_seen_at = now;
                trusted = true;
                user_id = user_id;
              })
              s.devices;
      }
