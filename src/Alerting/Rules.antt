-- ===== src/Alerting/Rules.antt =====
-- The rules of `EvaluateAndAlert` in server/core/alerting/rule_engine.go, with the types of
-- server/core/alerting/types.go. An alert's `Details` is never set.
use iot_server.Base.{ℕ, Bool, ◌&&◌, List, [], ◌∷◌, ◌++◌, ltb, if◌then◌else◌}
use iot_server.Base.Text.{Bytes, utf8, digits}
use iot_server.Base.Int.{ℤ, negsuc, ltb_ℤ}
use iot_server.Base.Float.{Float64, of_nat, zero_float, ltb_float}
use iot_server.Base.Format.{format_int, format_fixed}
use iot_server.Models.{TelemetryPayload, Value, float_value, uint32_value, int32_value}

abbrev severity_warning : Bytes
severity_warning = utf8 "WARNING"

abbrev pub severity_critical : Bytes
severity_critical = utf8 "CRITICAL"

pub record AlertEvent : Type 0 where
  pub alert_id : Bytes
  pub device_id : Bytes
  pub rule_name : Bytes
  pub severity : Bytes
  pub title : Bytes
  pub message : Bytes
  pub current_val : Value
  pub threshold : Value
  pub timestamp : ℕ

pub record RuleThresholds : Type 0 where
  pub high_temp_threshold : Float64
  pub low_temp_threshold : Float64
  pub low_battery_pct : ℕ
  pub weak_rssi_threshold : ℤ

abbrev pub default_thresholds : RuleThresholds
default_thresholds = record {
  high_temp_threshold = of_nat 35;
  low_temp_threshold = zero_float;
  low_battery_pct = 20;
  weak_rssi_threshold = negsuc 84;
}

module _ (th : RuleThresholds) (now : ℕ) (t : TelemetryPayload) where
  unfoldable pub high_temperature : AlertEvent
  high_temperature = record {
    alert_id = utf8 "alt-temp-high-" ++ digits now;
    device_id = t.header.device_id;
    rule_name = utf8 "HIGH_TEMPERATURE";
    severity = severity_critical;
    title = utf8 "高温アラート検知";
    message =
        utf8 "温度が閾値 ("
        ++ (format_fixed 1 th.high_temp_threshold
            ++ (utf8 "℃) を超過しました: " ++ (format_fixed 2 t.metrics.temperature ++ utf8 "℃")));
    current_val = float_value t.metrics.temperature;
    threshold = float_value th.high_temp_threshold;
    timestamp = now;
  }

  unfoldable pub low_temperature : AlertEvent
  low_temperature = record {
    alert_id = utf8 "alt-temp-low-" ++ digits now;
    device_id = t.header.device_id;
    rule_name = utf8 "LOW_TEMPERATURE";
    severity = severity_warning;
    title = utf8 "低温・凍結注意アラート";
    message =
        utf8 "温度が氷点下 ("
        ++ (format_fixed 1 th.low_temp_threshold
            ++ (utf8 "℃) を下回りました: " ++ (format_fixed 2 t.metrics.temperature ++ utf8 "℃")));
    current_val = float_value t.metrics.temperature;
    threshold = float_value th.low_temp_threshold;
    timestamp = now;
  }

  unfoldable pub low_battery : AlertEvent
  low_battery = record {
    alert_id = utf8 "alt-batt-low-" ++ digits now;
    device_id = t.header.device_id;
    rule_name = utf8 "LOW_BATTERY";
    severity = severity_critical;
    title = utf8 "バッテリ残量低下アラート";
    message =
        utf8 "バッテリ残量が "
        ++ (digits t.metrics.battery_level_pct
            ++ (utf8 "% (閾値: " ++ (digits th.low_battery_pct ++ utf8 "%) です。早期充電/交換が必要です")));
    current_val = uint32_value t.metrics.battery_level_pct;
    threshold = uint32_value th.low_battery_pct;
    timestamp = now;
  }

  unfoldable pub weak_signal : AlertEvent
  weak_signal = record {
    alert_id = utf8 "alt-rssi-weak-" ++ digits now;
    device_id = t.header.device_id;
    rule_name = utf8 "WEAK_SIGNAL";
    severity = severity_warning;
    title = utf8 "電波強度低下アラート";
    message =
        utf8 "RSSIが "
        ++ (format_int t.metrics.rssi
            ++ (utf8 "dBm (閾値: " ++ (format_int th.weak_rssi_threshold ++ utf8 "dBm) に低下しています")));
    current_val = int32_value t.metrics.rssi;
    threshold = int32_value th.weak_rssi_threshold;
    timestamp = now;
  }

  -- `if test { alerts = append(alerts, …) }`
  abbrev alert_if : Bool → AlertEvent → List AlertEvent
  alert_if test a = if test then a ∷ [] else []

  -- The list `alerts` before the loop that dispatches it.
  unfoldable pub alerts_of : List AlertEvent
  alerts_of =
      alert_if (ltb_float th.high_temp_threshold t.metrics.temperature) high_temperature
      ++ (alert_if (ltb_float t.metrics.temperature th.low_temp_threshold) low_temperature
          ++ (alert_if
                (ltb 0 t.metrics.battery_level_pct
                  && ltb t.metrics.battery_level_pct th.low_battery_pct)
                low_battery
              ++ alert_if (ltb_ℤ t.metrics.rssi th.weak_rssi_threshold) weak_signal))
