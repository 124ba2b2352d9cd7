-- ===== src/System/Invariant.antt =====
-- What holds whatever the tasks do: the queue is within its bound, MQTT gets the events in order, and
-- no reported value is lost on the way.
use iot_visual_management_sy.Prelude.{
  ℕ, suc, ◌+◌, ◌*◌, ◌≤◌, ◌<◌, u32_mod, ℤ, Bool, List, Bytes, arith,
}
use iot_visual_management_sy.Config.{event_queue_size}
use iot_visual_management_sy.Event.{Event}
use iot_visual_management_sy.Input.{Readings}
use iot_visual_management_sy.Mqtt.{MqttEvent}
use iot_visual_management_sy.Mqtt.Quiet.{handle_event-Quiet}
use iot_visual_management_sy.Wifi.{WifiEvent}
use iot_visual_management_sy.Wifi
use iot_visual_management_sy.Uplink.{Message}
use iot_visual_management_sy.Uplink.Station.{station}
use iot_visual_management_sy.Application.{Round}
use iot_visual_management_sy.Application.Offer.{Unserializable}
use iot_visual_management_sy.Application.Sequence.{OrderedNow}
use iot_visual_management_sy.Application.Loop.{run_round-Ordered}
use iot_visual_management_sy.Application.Lit.{IsLit, run_round-IsLit}
use iot_visual_management_sy.Main.{
  Platform, Firmware, Progress, starting_inputs, initializing_wifi, starting_mqtt, returned,
  main_step, advance,
}
use iot_visual_management_sy.System.{
  application_round, input_round, mqtt_step, wifi_step, mqtt_station, Step, starts, polls,
  mqtt_happens, wifi_happens, Reach, here, round, next,
}
use iot_visual_management_sy.System.Carry.{Carries-notice, Carries-world, Carries-round}
use iot_visual_management_sy.System.Notices.{
  handle_event-Fits, accepted-start, accepted-handle_event, handle_wifi_event-Quiet,
  handle_wifi_event-Fits,
}
use iot_visual_management_sy.System.Inputs.{
  AreWired, CarriesInputs, poll_round-AreWired, poll_round-CarriesInputs, OrderedNow-world,
  start_inputs,
}

module _ {p : Platform} (device_id : Bytes) (before : List Message) where
  -- After `n` rounds of the application task.
  pub record IsFaithful (n : ℕ) (f : Firmware p) : Type 0 where
    pub wired : AreWired f.inputs
    pub carries : CarriesInputs device_id before f.inputs f.queue f.task.application
    pub ordered : OrderedNow device_id before f.task.application
    pub lit : IsLit f.task.application
    pub numbers : f.task.application.next_sequence_id ≤ 1 + 2 * n

  pub application_round-IsFaithful :
      ((e : Event) → ¬ Unserializable (station p.mqtt p.json) device_id e)
      → (n : ℕ) (f : Firmware p) (time_us : ℕ) (free_heap : ℤ) → 1 + 2 * suc n < u32_mod
      → IsFaithful n f
      → IsFaithful (suc n) (application_round device_id f time_us free_heap)
  unfolding application_round
  application_round-IsFaithful sure n f time_us free_heap room h =
      let r : Round p.queue = record {
        queue = f.queue;
        time_us = time_us;
        free_heap = free_heap;
      } in
      let o = run_round-Ordered device_id before f.task r (omega (arith, h.numbers)) h.ordered in
      record {
        wired = h.wired;
        carries = Carries-round device_id before sure _ _ _ f.task r h.carries;
        ordered = o.1;
        lit = run_round-IsLit device_id f.task r h.lit;
        numbers = omega (arith, o.0, h.numbers);
      }

  input_round-IsFaithful :
      (n : ℕ) (f : Firmware p) (r : Readings) → IsFaithful n f → IsFaithful n (input_round f r)
  unfolding input_round
  input_round-IsFaithful n f r h = record {
    wired = poll_round-AreWired f.inputs f.queue f.adc r h.wired;
    carries =
        poll_round-CarriesInputs device_id before f.inputs f.queue f.adc r f.task.application
          h.wired h.carries;
    ordered = h.ordered;
    lit = h.lit;
    numbers = h.numbers;
  }

  mqtt_step-IsFaithful :
      (n : ℕ) (f : Firmware p) (event : MqttEvent) (time_us : ℕ)
      → IsFaithful n f
      → IsFaithful n (mqtt_step f event time_us)
  unfolding mqtt_step
  mqtt_step-IsFaithful n f event time_us h =
      let s = mqtt_station f in
      let same = accepted-handle_event p.json s event time_us in
      record {
        wired = h.wired;
        carries =
            Carries-notice device_id before _ _ _ f.queue _ _
              (handle_event-Quiet p.json s event time_us)
              (handle_event-Fits p.json s event time_us event_queue_size)
              (Carries-world device_id before _ _ _ f.queue f.task.application _ same h.carries);
        ordered = OrderedNow-world device_id before f.task.application _ same h.ordered;
        lit = h.lit;
        numbers = h.numbers;
      }

  wifi_step-IsFaithful :
      (n : ℕ) (f : Firmware p) (event : WifiEvent) (time_us : ℕ)
      → IsFaithful n f
      → IsFaithful n (wifi_step f event time_us)
  unfolding wifi_step
  wifi_step-IsFaithful n f event time_us h =
      let s : Wifi.Station p.wifi p.queue = record {
        manager = f.wifi;
        net = f.wifi_net;
        queue = f.queue;
      } in
      record {
        wired = h.wired;
        carries =
            Carries-notice device_id before _ _ _ f.queue _ _
              (handle_wifi_event-Quiet s event time_us)
              (handle_wifi_event-Fits s event time_us event_queue_size) h.carries;
        ordered = h.ordered;
        lit = h.lit;
        numbers = h.numbers;
      }

  starts-IsFaithful :
      (n : ℕ) (f : Firmware p) (progress : Progress) (created : Bool)
      → IsFaithful n f
      → IsFaithful n (advance progress created f)
  unfolding advance
  starts-IsFaithful n f starting_inputs created h =
      let same = start_inputs f.inputs created in
      record {
        wired = rw same (record {
          button = h.wired.button;
          toggle = h.wired.toggle;
          encoder = h.wired.encoder;
          analog = h.wired.analog;
        });
        carries = rw same h.carries;
        ordered = h.ordered;
        lit = h.lit;
        numbers = h.numbers;
      }
  starts-IsFaithful n f initializing_wifi created h = record {
    wired = h.wired;
    carries = h.carries;
    ordered = h.ordered;
    lit = h.lit;
    numbers = h.numbers;
  }
  starts-IsFaithful n f starting_mqtt created h =
      let line = f.task.application.world in
      let same = accepted-start line.manager line.net in
      record {
        wired = h.wired;
        carries = Carries-world device_id before _ _ _ f.queue f.task.application _ same h.carries;
        ordered = OrderedNow-world device_id before f.task.application _ same h.ordered;
        lit = h.lit;
        numbers = h.numbers;
      }
  starts-IsFaithful n f (returned done) created h = h

  Step-IsFaithful : (n : ℕ) {f g : Firmware p} → Step f g → IsFaithful n f → IsFaithful n g
  unfolding main_step
  Step-IsFaithful n {f} (starts created) h = starts-IsFaithful n f f.progress created h
  Step-IsFaithful n {f} (polls r running) h = input_round-IsFaithful n f r h
  Step-IsFaithful n {f} (mqtt_happens event time_us) h = mqtt_step-IsFaithful n f event time_us h
  Step-IsFaithful n {f} (wifi_happens event time_us) h = wifi_step-IsFaithful n f event time_us h

  pub Reach-IsFaithful :
      ((e : Event) → ¬ Unserializable (station p.mqtt p.json) device_id e)
      → (start : Firmware p) {n : ℕ} {f : Firmware p} → 1 + 2 * n < u32_mod
      → IsFaithful 0 start
      → Reach device_id start n f
      → IsFaithful n f
  Reach-IsFaithful sure start room h here = h
  Reach-IsFaithful sure start {n = suc n} room h (round reached time_us free_heap) =
      application_round-IsFaithful sure n _ time_us free_heap room
        (Reach-IsFaithful sure start (omega arith) h reached)
  Reach-IsFaithful sure start {n} room h (next reached step) =
      Step-IsFaithful n step (Reach-IsFaithful sure start room h reached)
