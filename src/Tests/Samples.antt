-- ===== src/Tests/Samples.antt =====
-- Concrete inputs: a device's data, messages, and a history of calls.
use iot_server.Base.{some, List, [], ◌∷◌, arith}
use iot_server.Base.Text.{utf8}
use iot_server.Base.Int.{negsuc}
use iot_server.Base.Float.{of_nat}
use iot_server.Models.{TelemetryPayload, DeviceCommand, no_entries, entry, float_value}
use iot_server.Serializer.Telemetry.{TelemetryData}
use iot_server.Serializer.Bounds.{IsTelemetryData}
use iot_server.Decoder.Device.{payload_of}
use iot_server.Decoder.Fields.{HeaderField, MetricsField, StatusField, MessageField}
use iot_server.Decoder.Fields
use iot_server.Storage.Memory.History.{Call}

-- 36.5 degrees, 45.25 percent of humidity and 3.75 volts, as patterns.
abbrev pub sensor : TelemetryData
sensor = record {
  device_id = some (utf8 "DEV-ESP32-001");
  timestamp = 1764115200;
  seq_no = 300;
  firmware_version = some (utf8 "1.0.0");
  boot_count = 2;
  temperature = 0x42120000;
  humidity = 0x42350000;
  battery_voltage = 0x40700000;
  battery_level_pct = 15;
  rssi = negsuc 89;
  interval_sec = 60;
  state = some (utf8 "LOW_POWER");
  uptime_sec = 3600;
  free_heap_bytes = 123456;
}

pub sensor-IsTelemetryData : IsTelemetryData sensor
sensor-IsTelemetryData = record {
  timestamp_fits = omega arith;
  seq_no_fits = omega arith;
  boot_count_fits = omega arith;
  temperature_fits = omega arith;
  humidity_fits = omega arith;
  battery_voltage_fits = omega arith;
  battery_level_pct_fits = omega arith;
  rssi_fits = omega arith;
  interval_sec_fits = omega arith;
  uptime_sec_fits = omega arith;
  free_heap_bytes_fits = omega arith;
}

-- What the server gets of it, and the same from another device.
abbrev pub reading : TelemetryPayload
reading = payload_of sensor

abbrev pub other_reading : TelemetryPayload
other_reading = record reading { header = record (reading.header) { device_id = utf8 "DEV-2" } }

-- Fields out of order, a header in two parts, and fields that the schema does not have.
abbrev pub loose_message : List MessageField
loose_message =
    MessageField.unknown 9 (Fields.delimited (utf8 "new"))
    ∷ MessageField.status (StatusField.uptime_sec 7 ∷ [])
    ∷ MessageField.header (HeaderField.seq_no 5 ∷ HeaderField.unknown 6 (Fields.varint 300) ∷ [])
    ∷ MessageField.header (HeaderField.device_id (utf8 "DEV-1") ∷ [])
    ∷ []

abbrev pub sleep_command : DeviceCommand
sleep_command = record {
  command_id = utf8 "cmd-1";
  action = utf8 "CONFIG_UPDATE";
  params = some (entry (utf8 "sleep_interval_sec") (float_value (of_nat 120)) no_entries);
}

-- The latest first: a command for the first device is queued between two messages of it.
abbrev pub calls : List Call
calls =
    Call.save_telemetry 30 reading
    ∷ Call.save_telemetry 20 other_reading
    ∷ Call.queue_command (utf8 "DEV-ESP32-001") sleep_command
    ∷ Call.save_telemetry 10 reading
    ∷ []
