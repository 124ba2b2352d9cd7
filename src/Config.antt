-- ===== src/Config.antt =====
-- firmware/main/config/DeviceConfig.hpp: the constants of the station, with what an optional local
-- header, which is not in the repository, may set.
use iot_visual_management_sy.Prelude.{ℕ, Option, none, some, Bytes, codes}

-- The macros of `DeviceConfig.local.hpp`; `none` if a macro is not defined there, or the header is
-- missing.
pub record LocalConfig : Type 0 where
  pub station_device_id : Option Bytes
  pub station_wifi_ssid : Option Bytes
  pub station_wifi_password : Option Bytes
  pub station_mqtt_uri : Option Bytes

-- `#ifndef`: a macro that is defined keeps its text.
abbrev or_default : Option Bytes → Bytes → Bytes
or_default none text = text
or_default (some set) text = set

abbrev pub device_id : LocalConfig → Bytes
device_id c = or_default c.station_device_id (codes "station_01")

abbrev pub wifi_ssid : LocalConfig → Bytes
wifi_ssid c = or_default c.station_wifi_ssid (codes "YOUR_WIFI_SSID")

abbrev pub wifi_password : LocalConfig → Bytes
wifi_password c = or_default c.station_wifi_password (codes "YOUR_WIFI_PASSWORD")

abbrev pub mqtt_broker_uri : LocalConfig → Bytes
mqtt_broker_uri c = or_default c.station_mqtt_uri (codes "mqtt://YOUR_BROKER_ADDRESS:1883")

abbrev pub firmware_version : Bytes
firmware_version = codes "0.1.0"

abbrev pub mqtt_base_topic : Bytes
mqtt_base_topic = codes "kaizen/stations"

abbrev pub offline_event_queue_size : ℕ
offline_event_queue_size = 64

abbrev pub event_queue_size : ℕ
event_queue_size = 32

abbrev pub heartbeat_interval_ms : ℕ
heartbeat_interval_ms = 30000

abbrev pub digital_debounce_ms : ℕ
digital_debounce_ms = 30

abbrev pub analog_deadband_percent : ℕ
analog_deadband_percent = 2

abbrev pub status_led_gpio : ℕ
status_led_gpio = 2

abbrev pub button_gpio : ℕ
button_gpio = 4

abbrev pub toggle_gpio : ℕ
toggle_gpio = 5

abbrev pub encoder_a_gpio : ℕ
encoder_a_gpio = 6

abbrev pub encoder_b_gpio : ℕ
encoder_b_gpio = 7
