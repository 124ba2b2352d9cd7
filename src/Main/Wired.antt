-- ===== src/Main/Wired.antt =====
-- The start-up of a station as it is wired: every object with its pins, source IDs, events, sizes and
-- limits as numbers, and the first failure if a call fails.
use iot_visual_management_sy.Prelude.{
  ◌≡◌, ◌∙◌, ap, Bool, true, false, if◌then◌else◌, List, [], ◌∷◌, ◌++◌, none, pos, arith,
}
use iot_visual_management_sy.Config.{device_id, wifi_ssid, wifi_password, mqtt_broker_uri}
use iot_visual_management_sy.Event.{button_pressed, button_released, toggle_changed}
use iot_visual_management_sy.EventQueue
use iot_visual_management_sy.Store
use iot_visual_management_sy.StateManager.{initial}
use iot_visual_management_sy.Drivers.Led
use iot_visual_management_sy.Drivers.Analog
use iot_visual_management_sy.Drivers.Analog.{AdcApi}
use iot_visual_management_sy.Output.{OutputManager}
use iot_visual_management_sy.Output
use iot_visual_management_sy.Input.{InputManager}
use iot_visual_management_sy.Input
use iot_visual_management_sy.Mqtt.{MqttManager}
use iot_visual_management_sy.Mqtt
use iot_visual_management_sy.Wifi.{WifiManager}
use iot_visual_management_sy.Wifi
use iot_visual_management_sy.Main.{
  NvsErr, nvs_ok, nvs_no_free_pages, nvs_new_version_found, nvs_fail, Platform, Firmware, Board,
  BootError, nvs_erase_failed, nvs_failed, queue_failed, output_failed, inputs_failed, mqtt_failed,
  application_failed, boot, starting_inputs, needs_erase, is_ok,
}
use iot_visual_management_sy.Main.Checks.{first_failure, failure, boot-made}

-- The button on GPIO 4, the toggle on GPIO 5, the encoder on GPIO 6 and 7, and the analog input on the
-- first channel of the first ADC unit, with the sources 1 to 4.
abbrev pub wired_inputs : {adc : AdcApi} → InputManager adc
wired_inputs = record {
  button_input = record {
    pin = 4;
    source_id = 1;
    active_event = button_pressed;
    inactive_event = button_released;
    debounce_ms = 30;
    last_raw_state = false;
    stable_state = false;
    initial_event_pending = true;
    last_change_time_ms = 0;
  };
  toggle_input = record {
    pin = 5;
    source_id = 2;
    active_event = toggle_changed;
    inactive_event = toggle_changed;
    debounce_ms = 30;
    last_raw_state = false;
    stable_state = false;
    initial_event_pending = true;
    last_change_time_ms = 0;
  };
  rotary_encoder = record {
    channel_a_pin = 6;
    channel_b_pin = 7;
    source_id = 3;
    count = pos 0;
    previous_state = 0;
  };
  analog_input = record {
    unit = 0;
    channel = 0;
    source_id = 4;
    deadband_percent = 2;
    adc_handle = none;
    stable_percent = pos 0;
    initialized = false;
    initial_event_pending = true;
  };
  task_started = false;
}

-- An active-high LED on GPIO 2.
abbrev pub wired_output : OutputManager
wired_output = record {
  status_led = record { pin = 2; active_high = true; state = false; level = none };
}

module _ {p : Platform} (b : Board p) where
  abbrev mqtt_manager : MqttManager p.mqtt
  mqtt_manager = record {
    broker_uri = mqtt_broker_uri b.config;
    device_id = device_id b.config;
    client = none;
    initialized = false;
    connected = false;
  }

  abbrev wifi_manager : WifiManager p.wifi
  wifi_manager = record {
    ssid = wifi_ssid b.config;
    password = wifi_password b.config;
    initialized = false;
    connected = false;
    reconnect_enabled = true;
    netif = none;
    wifi_event_handler = none;
    ip_event_handler = none;
  }

  -- The station that is ready: a queue of 32 events, a buffer of 64, the drivers initialized.
  abbrev pub ready_firmware : Firmware p
  ready_firmware =
      let inputs = (Input.initialize {adc = p.adc} (wired_inputs {adc = p.adc}) b.setup b.adc).1 in
      let mqtt = (Mqtt.initialize {mqtt = p.mqtt} mqtt_manager b.mqtt).1 in
      record {
        queue = EventQueue.create {api = p.queue} 32;
        task = record {
          application = record {
            state_manager = initial;
            output_manager = (Output.initialize b.led_configured wired_output).1;
            offline_store = Store.create {api = p.mutex} 64;
            next_sequence_id = 1;
            world = record { manager = mqtt.0; net = mqtt.1; heap = b.heap };
          };
          last_heartbeat_ms = 0;
        };
        inputs = inputs.0;
        adc = inputs.1;
        wifi = wifi_manager;
        wifi_net = b.wifi;
        progress = starting_inputs;
      }

-- The failures of the storage, by the result of its first initialization, whether an erase succeeds,
-- and the result of the initialization after an erase. Two results call for an erase.
abbrev pub storage_failures : NvsErr → Bool → NvsErr → List BootError
storage_failures nvs_ok erased second = []
storage_failures nvs_fail erased second = nvs_failed ∷ []
storage_failures nvs_no_free_pages false second = nvs_erase_failed ∷ []
storage_failures nvs_no_free_pages true nvs_ok = []
storage_failures nvs_no_free_pages true _ = nvs_failed ∷ []
storage_failures nvs_new_version_found false second = nvs_erase_failed ∷ []
storage_failures nvs_new_version_found true nvs_ok = []
storage_failures nvs_new_version_found true _ = nvs_failed ∷ []

-- Those behind the storage.
abbrev pub later : {p : Platform} → Board p → List BootError
later {p} b =
    failure (EventQueue.is_valid {api = p.queue} (EventQueue.create {api = p.queue} 32))
      queue_failed
    ++ (failure (Output.initialize b.led_configured wired_output).0 output_failed
        ++ (failure (Input.initialize {adc = p.adc} (wired_inputs {adc = p.adc}) b.setup b.adc).0
              inputs_failed
            ++ (failure (Mqtt.initialize {mqtt = p.mqtt} (mqtt_manager b) b.mqtt).0 mqtt_failed
                ++ failure b.application_task application_failed)))

-- The failures that the start-up meets, in its order, if each call is made whatever failed before.
abbrev pub start_failures : {p : Platform} → Board p → List BootError
start_failures {p} b =
    let first = p.nvs.init b.flash in
    let erased = p.nvs.erase first.1 in
    storage_failures first.0 erased.0 (p.nvs.init erased.1).0 ++ later b

storage_failures_lem :
    (first second : NvsErr) (erased : Bool)
    → (if needs_erase first
        then (if erased
            then (if is_ok second then [] else nvs_failed ∷ [])
            else nvs_erase_failed ∷ [])
        else if is_ok first
        then []
        else nvs_failed ∷ [])
      ≡ storage_failures first erased second
unfolding needs_erase is_ok
storage_failures_lem first second erased = ground arith

-- The start-up, with the texts that the configuration gives: if no call fails it makes the station with
-- its inputs and its LED on their pins, a queue of 32 events and a buffer of 64; otherwise it ends with
-- the first failure in the order storage, queue, output, inputs, MQTT, application task. The storage
-- fails if its initialization fails otherwise than for a lack of free pages or a new version, or if it
-- does for one of these and then the erase or the second initialization fails.
pub boot_lem :
    {p : Platform} (b : Board p) → boot b ≡ first_failure (start_failures b) (ready_firmware b)
unfolding Led.create Analog.create Wifi.create Mqtt.create
boot_lem {p} b =
    let first = p.nvs.init b.flash in
    let erased = p.nvs.erase first.1 in
    boot-made b
    ∙ ap (λ es. first_failure (es ++ later b) (ready_firmware b))
        (storage_failures_lem first.0 (p.nvs.init erased.1).0 erased.0)
