-- ===== src/Alerting/Verdicts.antt =====
-- Which alerts `EvaluateAndAlert` of server/core/alerting/rule_engine.go raises.
use iot_server.Base.{ℕ, ◌≡◌, Bool, true, false, ◌&&◌, ◌||◌, List, [], ◌∷◌, arith, ltb, All}
use iot_server.Base.Text.{Bytes, utf8, bytes_eq}
use iot_server.Base.Int.{ltb_ℤ}
use iot_server.Base.Float.{Float64, finite, ltb_float}
use iot_server.Models.{TelemetryPayload}
use iot_server.Alerting.Rules.{
  AlertEvent, RuleThresholds, high_temperature, low_temperature, low_battery, weak_signal,
  alerts_of,
}

-- Whether an alert of the rule is among the alerts.
unfoldable pub raises : Bytes → List AlertEvent → Bool
raises rule [] = false
raises rule (a ∷ as') = bytes_eq a.rule_name rule || raises rule as'

module _ (th : RuleThresholds) (now : ℕ) (t : TelemetryPayload) where
  -- Each rule is raised exactly when its condition holds: a temperature above the high threshold,
  -- one below the low threshold, a battery level above 0 and below the threshold, and a signal
  -- below the threshold. A temperature that is no number raises neither of the first two.
  pub alerts_of-raises :
      (raises (utf8 "HIGH_TEMPERATURE") (alerts_of th now t)
        ≡ ltb_float th.high_temp_threshold t.metrics.temperature)
      × (raises (utf8 "LOW_TEMPERATURE") (alerts_of th now t)
          ≡ ltb_float t.metrics.temperature th.low_temp_threshold)
      × (raises (utf8 "LOW_BATTERY") (alerts_of th now t) ≡ (
          ltb 0 t.metrics.battery_level_pct && ltb t.metrics.battery_level_pct th.low_battery_pct))
      × (raises (utf8 "WEAK_SIGNAL") (alerts_of th now t)
          ≡ ltb_ℤ t.metrics.rssi th.weak_rssi_threshold)
  unfolding alerts_of high_temperature low_temperature low_battery weak_signal raises bytes_eq
  alerts_of-raises = (ground arith, ground arith, ground arith, ground arith)

  -- Every alert is one of the device of the message, at the time of the evaluation.
  alerts_of-device :
      All (λ a. (a.device_id ≡ t.header.device_id) × (a.timestamp ≡ now)) (alerts_of th now t)
  unfolding alerts_of high_temperature low_temperature low_battery weak_signal
  alerts_of-device = ground arith

ltb_float_trans :
    (a b c : Float64) → ltb_float a b ≡ true → ltb_float b c ≡ true → ltb_float a c ≡ true
unfolding ltb_float
ltb_float_trans (finite x m) (finite y n) (finite z o) p q = ground arith
ltb_float_trans _ _ _ p q = ground arith

-- With thresholds in order, the high and the low temperature are never reported of one message.
pub alerts_of-exclusive :
    (th : RuleThresholds) (now : ℕ) (t : TelemetryPayload)
    → ltb_float th.high_temp_threshold th.low_temp_threshold ≡ false
    → raises (utf8 "HIGH_TEMPERATURE") (alerts_of th now t) ≡ true
    → raises (utf8 "LOW_TEMPERATURE") (alerts_of th now t) ≡ false
alerts_of-exclusive th now t ordered high =
    let v = alerts_of-raises th now t in
    ground (
      arith,
      v.0,
      v.1,
      ltb_float_trans th.high_temp_threshold t.metrics.temperature th.low_temp_threshold,
    )
