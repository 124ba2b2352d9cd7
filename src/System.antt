-- ===== src/System.antt =====
-- The running firmware: the rest of `app_main`, the application task (app/Application.cpp), the input
-- task (app/InputManager.cpp) and the event tasks of ESP-MQTT and ESP-IDF (network/MqttManager.cpp,
-- network/WifiManager.cpp), interleaved in any order. A step is one round of a task or one event; the
-- steps share the event queue, and the application and the MQTT events share the MQTT manager.
pub mod Emission
pub mod Track
pub mod Notices
pub mod Carry
pub mod Inputs
pub mod Invariant
pub mod Startup
pub mod Settled
pub mod CatchUp
pub mod Silent
pub mod Pending
pub mod Command
pub mod Host
mod Examples
use iot_visual_management_sy.Prelude.{ℕ, suc, ◌/◌, ◌≡◌, ℤ, Bool, true, Bytes}
use iot_visual_management_sy.Input.{Readings, poll_round}
use iot_visual_management_sy.Mqtt.{MqttEvent}
use iot_visual_management_sy.Mqtt
use iot_visual_management_sy.Wifi.{WifiEvent}
use iot_visual_management_sy.Wifi
use iot_visual_management_sy.Application.{Task, run_round}
use iot_visual_management_sy.Main.{Platform, Firmware, main_step}

module _ {p : Platform} where
  -- A round of the application task, with the timer in microseconds and the free heap.
  pub application_round : Bytes → Firmware p → ℕ → ℤ → Firmware p
  application_round device_id f time_us free_heap =
      let (task, queue) =
        run_round device_id f.task
          (record { queue = f.queue; time_us = time_us; free_heap = free_heap }) in
      record f { task = task; queue = queue }

  -- A round of the input task.
  pub input_round : Firmware p → Readings → Firmware p
  input_round f r =
      let ((inputs, queue), adc) = poll_round f.inputs f.queue f.adc r in
      record f { inputs = inputs; queue = queue; adc = adc }

  -- What the application and the MQTT events share.
  abbrev pub mqtt_station : Firmware p → Mqtt.Station p.mqtt p.queue p.json
  mqtt_station f =
      let line = f.task.application.world in
      record { manager = line.manager; queue = f.queue; net = line.net; heap = line.heap }

  abbrev pub with_station : Firmware p → Mqtt.Station p.mqtt p.queue p.json → Firmware p
  with_station f s = record f {
    queue = s.queue;
    task = record f.task {
      application = record f.task.application {
        world = record { manager = s.manager; net = s.net; heap = s.heap };
      };
    };
  }

  pub mqtt_step : Firmware p → MqttEvent → ℕ → Firmware p
  mqtt_step f event time_us =
      with_station f (Mqtt.handle_event p.json (mqtt_station f) event time_us)

  pub wifi_step : Firmware p → WifiEvent → ℕ → Firmware p
  wifi_step f event time_us =
      let s =
        Wifi.handle_wifi_event (record { manager = f.wifi; net = f.wifi_net; queue = f.queue })
          event time_us in
      record f { wifi = s.manager; wifi_net = s.net; queue = s.queue }

-- A step of any task but the application's. The input task has to be started; an event may come at
-- any time.
pub data Step {p : Platform} (f : Firmware p) : Firmware p → Type 0 where
  starts : (created : Bool) → Step f (main_step f created)
  polls : (r : Readings) → f.inputs.task_started ≡ true → Step f (input_round f r)
  mqtt_happens : (event : MqttEvent) (time_us : ℕ) → Step f (mqtt_step f event time_us)
  wifi_happens : (event : WifiEvent) (time_us : ℕ) → Step f (wifi_step f event time_us)

-- What is reached with a number of rounds of the application task, in any order with other steps.
pub data Reach {p : Platform} (device_id : Bytes) (start : Firmware p)
    : ℕ → Firmware p → Type 0 where
  here : Reach device_id start 0 start
  round :
      {n : ℕ} {f : Firmware p}
      → Reach device_id start n f
      → (time_us : ℕ) (free_heap : ℤ)
      → Reach device_id start (suc n) (application_round device_id f time_us free_heap)
  next :
      {n : ℕ} {f g : Firmware p} → Reach device_id start n f → Step f g → Reach device_id start n g
