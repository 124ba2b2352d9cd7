-- ===== src/System/Host.antt =====
-- A concrete platform, a board on it, and a short run of its firmware.
use iot_visual_management_sy.Prelude.{
  some, ℕ, zero, suc, ◌≡◌, refl, [], true, none, pos, Bytes, codes, arith, false,
}
use iot_visual_management_sy.Event.{Event}
use iot_visual_management_sy.Rtos.Host.{host_queue, host_mutex}
use iot_visual_management_sy.EventQueue
use iot_visual_management_sy.EventQueue.Fifo.{contents, capacity}
use iot_visual_management_sy.Store
use iot_visual_management_sy.Drivers.Analog.Host.{host_adc}
use iot_visual_management_sy.Drivers.Digital
use iot_visual_management_sy.Drivers.Encoder
use iot_visual_management_sy.Drivers.Analog
use iot_visual_management_sy.Input
use iot_visual_management_sy.Cjson.Host.{host_json}
use iot_visual_management_sy.Serializer.{serialize_event, print_object, add_fields}
use iot_visual_management_sy.Mqtt.{mqtt_event_connected, mqtt_event_data}
use iot_visual_management_sy.Mqtt
use iot_visual_management_sy.Mqtt.Host.{host_mqtt}
use iot_visual_management_sy.Wifi.Host.{host_wifi}
use iot_visual_management_sy.Uplink.Station.{station}
use iot_visual_management_sy.Output
use iot_visual_management_sy.Application
use iot_visual_management_sy.Application.Offer.{Unserializable}
use iot_visual_management_sy.Main.{
  NvsApi, nvs_ok, nvs_no_free_pages, Platform, Board, ok, Firmware, boot, init_nvs, main_step,
  advance, needs_erase, is_ok,
}
use iot_visual_management_sy.Main.Checks.{made_firmware}
use iot_visual_management_sy.System.{
  Reach, here, round, next, starts, mqtt_happens, application_round, input_round, mqtt_step, polls,
}

-- A flash that has no free pages until it is erased.
abbrev pub host_nvs : NvsApi
host_nvs = record {
  Flash = ℕ;
  init = λ pages. elim pages [ zero ↦ (nvs_no_free_pages, 0) | suc k ↦ (nvs_ok, suc k) ];
  erase = λ pages. (true, 8);
}

abbrev pub host : Platform
host = record {
  nvs = host_nvs;
  queue = host_queue;
  mutex = host_mutex;
  adc = host_adc;
  json = host_json;
  mqtt = host_mqtt;
  wifi = host_wifi;
}

abbrev pub board : Board host
board = record {
  config = record {
    station_device_id = none;
    station_wifi_ssid = some (codes "net");
    station_wifi_password = some (codes "secret");
    station_mqtt_uri = some (codes "mqtt://broker:1883");
  };
  flash = 0;
  led_configured = true;
  setup = record {
    button_configured = true;
    button_level = 1;
    button_time_us = 1000;
    toggle_configured = true;
    toggle_level = 1;
    toggle_time_us = 1100;
    encoder_configured = true;
    encoder_level_a = 1;
    encoder_level_b = 1;
  };
  application_task = true;
  adc = (pos 2048, 0);
  mqtt = record { count = 0; taken = []; topics = [] };
  heap = record { count = 0; entries = [] };
  wifi = record {
    shown = record {
      netifs = 0;
      handlers = 0;
      default_handlers = false;
      driver = false;
      configured = none;
      requests = 0;
    };
    ip_events = true;
  };
}

pub board_boots : boot board ≡ ok (made_firmware board)
unfolding boot init_nvs needs_erase is_ok EventQueue.create EventQueue.is_valid Output.initialize
    Input.initialize Digital.initialize Encoder.initialize Analog.initialize Analog.create
    Analog.configure Analog.read_raw Mqtt.initialize Mqtt.create Application.start
board_boots = refl

pub host_json-serializes :
    (e : Event) → ¬ Unserializable (station host_mqtt host_json) (codes "station_01") e
unfolding serialize_event print_object add_fields
host_json-serializes e (w, empty) = ground (arith, empty)

abbrev pub readings : Input.Readings
readings = record {
  button = record { level = 1; time_us = 50000; publish_time_us = 50000 };
  toggle = record { level = 0; time_us = 50000; publish_time_us = 50000 };
  encoder = record { level_a = 1; level_b = 1; time_us = 50000 };
  analog_time_us = 50000;
}

abbrev pub device : Bytes
device = codes "station_01"

abbrev pub with_inputs : Firmware host
with_inputs = main_step (made_firmware board) true

abbrev pub polled : Firmware host
polled = input_round with_inputs readings

abbrev pub connected : Firmware host
connected = mqtt_step polled mqtt_event_connected 60000

abbrev pub processed : Firmware host
processed = application_round device connected 70000 (pos 100000)

pub inputs_run : with_inputs.inputs.task_started ≡ true
unfolding main_step advance Input.start Input.initialize Digital.initialize Encoder.initialize
inputs_run = refl

pub connected-Reach : Reach device (made_firmware board) 0 connected
connected-Reach =
    next (next (next here (starts true)) (polls readings inputs_run))
      (mqtt_happens mqtt_event_connected 60000)

pub processed-Reach : Reach device (made_firmware board) 1 processed
processed-Reach = round connected-Reach 70000 (pos 100000)

-- Each round takes one event that waits, if there is one.
abbrev pub later_round : Firmware host → Firmware host
later_round f = application_round device f 80000 (pos 100000)

abbrev pub drained : Firmware host
drained = later_round (later_round (later_round processed))

pub drained-Reach : Reach device (made_firmware board) 4 drained
drained-Reach =
    round (round (round processed-Reach 80000 (pos 100000)) 80000 (pos 100000)) 80000 (pos 100000)

pub drained_empty :
    (contents drained.queue ≡ [])
    × (drained.task.application.offline_store.events ≡ [])
    × (capacity drained.queue ≡ 32)
    × (drained.task.application.world.manager.device_id ≡ device)
unfolding capacity main_step advance Input.start application_round input_round mqtt_step contents
    EventQueue.create EventQueue.is_valid EventQueue.send EventQueue.receive Output.initialize
    Output.handle_event Input.initialize Input.poll_round Digital.initialize Digital.update
    Digital.accept Digital.watch Digital.due Digital.publish_state_change Digital.state_event
    Encoder.initialize Encoder.update Encoder.observe Encoder.read_state Analog.initialize
    Analog.create Analog.configure Analog.read_raw Analog.update Analog.observe Analog.ignored
    Analog.publish_value Analog.raw_to_percent Mqtt.initialize Mqtt.create Mqtt.handle_event
    Mqtt.publish_connection_event Mqtt.subscribe Mqtt.publish Application.run_round
    Application.offer Application.buffer Application.flush_round Application.flush_loop
    Application.flush_offline_events Application.flush_if_any Application.publish_now
    Application.publish_or_buffer Application.restore Application.process_event Store.create
    Store.lock Store.unlock Store.empty Store.size Store.push Store.append_event Store.coalesce
    Store.peek serialize_event print_object add_fields
drained_empty = (refl, refl, refl, refl)
