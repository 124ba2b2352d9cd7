-- ===== src/Main.antt =====
-- firmware/main/main.cpp: the objects of the firmware, and the start-up that makes them and starts
-- the tasks.
pub mod Checks
pub mod Wired
use iot_visual_management_sy.Prelude.{
  ℕ, Bool, true, false, List, [], ◌∷◌, ◌++◌, Option, none, some, Bytes, if◌then◌else◌,
}
use iot_visual_management_sy.Config.{
  LocalConfig, device_id, wifi_ssid, wifi_password, mqtt_broker_uri, offline_event_queue_size,
  event_queue_size, digital_debounce_ms, analog_deadband_percent, status_led_gpio, button_gpio,
  toggle_gpio, encoder_a_gpio, encoder_b_gpio,
}
use iot_visual_management_sy.Event.{button_pressed, button_released, toggle_changed}
use iot_visual_management_sy.Rtos.{QueueApi, MutexApi}
use iot_visual_management_sy.EventQueue.{EventQueue}
use iot_visual_management_sy.EventQueue
use iot_visual_management_sy.Store.{Store}
use iot_visual_management_sy.Store
use iot_visual_management_sy.StateManager.{initial}
use iot_visual_management_sy.Drivers.Led
use iot_visual_management_sy.Drivers.Digital
use iot_visual_management_sy.Drivers.Encoder
use iot_visual_management_sy.Drivers.Analog.{AdcApi}
use iot_visual_management_sy.Drivers.Analog
use iot_visual_management_sy.Output.{OutputManager}
use iot_visual_management_sy.Output
use iot_visual_management_sy.Input.{InputManager, Setup}
use iot_visual_management_sy.Input
use iot_visual_management_sy.Cjson.{CjsonApi}
use iot_visual_management_sy.Mqtt.{MqttApi, MqttManager}
use iot_visual_management_sy.Mqtt
use iot_visual_management_sy.EspWifi.{WifiApi}
use iot_visual_management_sy.Wifi.{WifiManager}
use iot_visual_management_sy.Wifi
use iot_visual_management_sy.Uplink.Station.{station}
use iot_visual_management_sy.Application.{Task}
use iot_visual_management_sy.Application

-- The results of `nvs_flash_init` that the code tells apart.
pub data NvsErr : Type 0 where
  nvs_ok nvs_no_free_pages nvs_new_version_found nvs_fail : NvsErr

-- What the start-up uses of nvs_flash.h. The Boolean of `erase` is the comparison with ESP_OK.
pub record NvsApi : Type 1 where
  pub Flash : Type 0
  pub init : Flash → NvsErr × Flash
  pub erase : Flash → Bool × Flash

-- The libraries that the firmware calls.
pub record Platform : Type 1 where
  pub nvs : NvsApi
  pub queue : QueueApi
  pub mutex : MutexApi
  pub adc : AdcApi
  pub json : CjsonApi
  pub mqtt : MqttApi
  pub wifi : WifiApi

-- How the start-up ends early, by the failed call. `nvs_erase_failed` is the abort of
-- `ESP_ERROR_CHECK`.
pub data BootError : Type 0 where
  nvs_erase_failed nvs_failed queue_failed output_failed inputs_failed mqtt_failed : BootError
  application_failed : BootError

pub data Boot (A : Type 0) : Type 0 where
  ok : A → Boot A
  err : BootError → Boot A

infixl 5 ◌>>=◌ ◌>>◌
abbrev pub ◌>>=◌ : {A B : Type 0} → Boot A → (A → Boot B) → Boot B
ok a >>= f = f a
err e >>= f = err e

abbrev pub ◌>>◌ : {B : Type 0} → Boot (Unit {0}) → Boot B → Boot B
m >> k = m >>= λ _. k

-- `if (!done) return;`
abbrev pub check : Bool → BootError → Boot (Unit {0})
check true e = ok tt
check false e = err e

-- What the start-up finds: the configuration, what the pins and the calls without a state of their own
-- return, and the peripherals.
pub record Board (p : Platform) : Type 0 where
  pub config : LocalConfig
  pub flash : p.nvs.Flash
  pub led_configured : Bool
  pub setup : Setup
  pub application_task : Bool  -- xTaskCreate(...) == pdPASS
  pub adc : p.adc.Adc
  pub mqtt : p.mqtt.Net
  pub heap : p.json.Heap
  pub wifi : p.wifi.Net

-- Where `app_main` is once the application task runs.
pub data Progress : Type 0 where
  starting_inputs initializing_wifi starting_mqtt : Progress
  returned : Bool → Progress

-- The static objects, the peripherals behind them, and the place in `app_main`. The application holds
-- the MQTT manager, as its world.
pub record Firmware (p : Platform) : Type 0 where
  pub queue : EventQueue p.queue
  pub task : Task (station p.mqtt p.json) p.mutex
  pub inputs : InputManager p.adc
  pub adc : p.adc.Adc
  pub wifi : WifiManager p.wifi
  pub wifi_net : p.wifi.Net
  pub progress : Progress

unfoldable pub needs_erase : NvsErr → Bool
needs_erase nvs_no_free_pages = true
needs_erase nvs_new_version_found = true
needs_erase _ = false

unfoldable pub is_ok : NvsErr → Bool
is_ok nvs_ok = true
is_ok _ = false

module _ (nvs : NvsApi) where
  unfoldable pub init_nvs : nvs.Flash → Boot (Unit {0})
  unfolding needs_erase is_ok
  init_nvs flash =
      let (result, f1) = nvs.init flash in
      if needs_erase result
      then (let (erased, f2) = nvs.erase f1 in
          do check erased nvs_erase_failed; check (is_ok (nvs.init f2).0) nvs_failed)
      else check (is_ok result) nvs_failed

-- The four inputs with their pins, sources and events. ADC_UNIT_1 and ADC_CHANNEL_0 are 0.
abbrev pub create_inputs : {adc : AdcApi} → InputManager adc
create_inputs = record {
  button_input = Digital.create button_gpio 1 button_pressed button_released digital_debounce_ms;
  toggle_input = Digital.create toggle_gpio 2 toggle_changed toggle_changed digital_debounce_ms;
  rotary_encoder = Encoder.create encoder_a_gpio encoder_b_gpio 3;
  analog_input = Analog.create 0 0 4 analog_deadband_percent;
  task_started = false;
}

abbrev pub create_output : OutputManager
create_output = record { status_led = Led.create status_led_gpio true }

module _ {p : Platform} where
  -- `app_main` up to the start of the application task. No task of the firmware runs before.
  unfoldable pub boot : Board p → Boot (Firmware p)
  boot b = do
    init_nvs p.nvs b.flash
    let queue : EventQueue p.queue = EventQueue.create {api = p.queue} event_queue_size
    check (EventQueue.is_valid {api = p.queue} queue) queue_failed
    let store : Store p.mutex = Store.create {api = p.mutex} offline_event_queue_size
    let (output_done, output) = Output.initialize b.led_configured create_output
    check output_done output_failed
    let (inputs_done, (inputs, adc)) =
        Input.initialize {adc = p.adc} (create_inputs {adc = p.adc}) b.setup b.adc
    check inputs_done inputs_failed
    let wifi : WifiManager p.wifi =
        Wifi.create {wifi = p.wifi} (wifi_ssid b.config) (wifi_password b.config)
    let (mqtt_done, (manager, net)) =
        Mqtt.initialize {mqtt = p.mqtt}
          (Mqtt.create {mqtt = p.mqtt} (mqtt_broker_uri b.config) (device_id b.config)) b.mqtt
    check mqtt_done mqtt_failed
    check (Application.start b.application_task false).0 application_failed
    ok (record {
      queue = queue;
      task = record {
        application = record {
          state_manager = initial;
          output_manager = output;
          offline_store = store;
          next_sequence_id = 1;
          world = record { manager = manager; net = net; heap = b.heap };
        };
        last_heartbeat_ms = 0;
      };
      inputs = inputs;
      adc = adc;
      wifi = wifi;
      wifi_net = b.wifi;
      progress = starting_inputs;
    })

  unfoldable pub advance : Progress → Bool → Firmware p → Firmware p
  advance starting_inputs created f =
      let (done, inputs) = Input.start created f.inputs in
      record f { inputs = inputs; progress = (if done then initializing_wifi else returned false) }
  advance initializing_wifi created f =
      let (done, (wifi, net)) = Wifi.initialize (f.wifi, f.wifi_net) in
      record f {
        wifi = wifi;
        wifi_net = net;
        progress = (if done then starting_mqtt else returned false);
      }
  advance starting_mqtt created f =
      let line = f.task.application.world in
      let (done, net) = Mqtt.start line.manager line.net in
      record f {
        task = record f.task {
          application = record f.task.application { world = record line { net = net } };
        };
        progress = returned done;
      }
  advance (returned done) created f = f

  -- The next call of the rest of `app_main`, on whether `xTaskCreate` gives the input task.
  unfoldable pub main_step : Firmware p → Bool → Firmware p
  unfolding advance
  main_step f created = advance f.progress created f
