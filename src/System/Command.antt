-- ===== src/System/Command.antt =====
-- A command from the broker to the LED: through the queue, the application task, the logical state and
-- the output, while the other tasks go on.
use iot_visual_management_sy.Prelude.{
  ℕ, zero, suc, ◌+◌, subst, append-nil, ◌≡◌, ◌<◌, sym, ap, ◌∙◌, length, ℤ, nonzero, Bool, false, [],
  ◌∷◌, ◌++◌, some, Bytes, arith, length-append,
}
use iot_visual_management_sy.Event.{Event}
use iot_visual_management_sy.EventQueue
use iot_visual_management_sy.EventQueue.Fifo.{contents, capacity, receive_lem}
use iot_visual_management_sy.Output.Shown.{level_for}
use iot_visual_management_sy.Mqtt.{Arrival, mqtt_event_data, handle_event}
use iot_visual_management_sy.Mqtt.Incoming.{Complete, handle_incoming_message-delivers}
use iot_visual_management_sy.Serializer.Command.{Command}
use iot_visual_management_sy.EventQueue.{EventQueue}
use iot_visual_management_sy.Application.{Round}
use iot_visual_management_sy.Application.Lit.{IsLit, run_round-IsLit}
use iot_visual_management_sy.Application.Consume.{run_round-state}
use iot_visual_management_sy.Main.{
  Platform, Firmware, Progress, starting_inputs, initializing_wifi, starting_mqtt, returned,
  main_step, advance,
}
use iot_visual_management_sy.System.{
  application_round, input_round, mqtt_step, wifi_step, mqtt_station, Step, starts, polls,
  mqtt_happens, wifi_happens,
}
use iot_visual_management_sy.System.Inputs.{AreWired, poll_round-AreWired, start_inputs}
use iot_visual_management_sy.System.Silent.{
  is_message, poll_round-Adds, handle_event-Adds, handle_wifi_event-Adds,
}
use iot_visual_management_sy.System.Pending.{
  Pending, Pending-received, Pending-zero, Pending-Adds, handle_all-Command,
}

-- Whether a step brings a message of the broker.
unfoldable pub brings_message : {p : Platform} {f g : Firmware p} → Step f g → Bool
brings_message (starts created) = false
brings_message (polls r running) = false
brings_message (mqtt_happens event time_us) = is_message event
brings_message (wifi_happens event time_us) = false

-- What is reached with a number of rounds of the application task, in any order with steps that bring
-- no message of the broker.
pub data Undisturbed {p : Platform} (device_id : Bytes) (start : Firmware p)
    : ℕ → Firmware p → Type 0 where
  at_once : Undisturbed device_id start 0 start
  after_round :
      {n : ℕ} {f : Firmware p}
      → Undisturbed device_id start n f
      → (time_us : ℕ) (free_heap : ℤ)
      → Undisturbed device_id start (suc n) (application_round device_id f time_us free_heap)
  after_step :
      {n : ℕ} {f g : Firmware p}
      → Undisturbed device_id start n f
      → (s : Step f g) → brings_message s ≡ false
      → Undisturbed device_id start n g

module _ {p : Platform} where
  -- A command is on its way: at most `k` rounds of the application until the output is `v`.
  record Obeys (v : Bool) (k : ℕ) (f : Firmware p) : Type 0 where
    pending : Pending v k f.task.application.state_manager (contents f.queue)
    wired : AreWired f.inputs
    lit : IsLit f.task.application

  application_round-Obeys :
      (device_id : Bytes) (v : Bool) (k : ℕ) (f : Firmware p) (time_us : ℕ) (free_heap : ℤ)
      → Obeys v (suc k) f
      → Obeys v k (application_round device_id f time_us free_heap)
  unfolding application_round
  application_round-Obeys device_id v k f time_us free_heap h =
      let r : Round p.queue = record {
        queue = f.queue;
        time_us = time_us;
        free_heap = free_heap;
      } in
      let handled = run_round-state device_id f.task r in
      let received = receive_lem f.queue in
      let w = h.pending in
      record {
        pending =
            rw (handled.0, handled.1)
              (Pending-received v k f.task.application.state_manager w.ahead w.behind
                (EventQueue.receive f.queue).0 (contents (EventQueue.receive f.queue).1)
                (sym w.at ∙ received.0) (λ e. sym w.at ∙ received.1.0 e) w.near w.value w.silent);
        wired = h.wired;
        lit = run_round-IsLit device_id f.task r h.lit;
      }

  advance-Obeys :
      (v : Bool) (k : ℕ) (f : Firmware p) (progress : Progress) (created : Bool)
      → Obeys v k f
      → Obeys v k (advance progress created f)
  unfolding advance
  advance-Obeys v k f starting_inputs created h =
      let same = start_inputs f.inputs created in
      record {
        pending = h.pending;
        wired = rw same (record {
          button = h.wired.button;
          toggle = h.wired.toggle;
          encoder = h.wired.encoder;
          analog = h.wired.analog;
        });
        lit = h.lit;
      }
  advance-Obeys v k f initializing_wifi created h = record {
    pending = h.pending;
    wired = h.wired;
    lit = h.lit;
  }
  advance-Obeys v k f starting_mqtt created h = record {
    pending = h.pending;
    wired = h.wired;
    lit = h.lit;
  }
  advance-Obeys v k f (returned done) created h = h

  Step-Obeys :
      (v : Bool) (k : ℕ) {f g : Firmware p} (s : Step f g)
      → brings_message s ≡ false
      → Obeys v k f
      → Obeys v k g
  unfolding main_step input_round mqtt_step wifi_step brings_message
  Step-Obeys v k {f} (starts created) silent h = advance-Obeys v k f f.progress created h
  Step-Obeys v k {f} (polls r running) silent h = record {
    pending =
        Pending-Adds v k f.task.application.state_manager f.queue _
          (poll_round-Adds f.inputs f.queue f.adc r h.wired) h.pending;
    wired = poll_round-AreWired f.inputs f.queue f.adc r h.wired;
    lit = h.lit;
  }
  Step-Obeys v k {f} (mqtt_happens event time_us) silent h = record {
    pending =
        Pending-Adds v k f.task.application.state_manager f.queue _
          (handle_event-Adds p.json (mqtt_station f) event time_us silent) h.pending;
    wired = h.wired;
    lit = h.lit;
  }
  Step-Obeys v k {f} (wifi_happens event time_us) silent h = record {
    pending =
        Pending-Adds v k f.task.application.state_manager f.queue _
          (handle_wifi_event-Adds (record { manager = f.wifi; net = f.wifi_net; queue = f.queue })
            event time_us)
          h.pending;
    wired = h.wired;
    lit = h.lit;
  }

  Undisturbed-Obeys :
      (device_id : Bytes) (v : Bool) (f : Firmware p) (k n : ℕ) {g : Firmware p}
      → Obeys v (n + k) f
      → Undisturbed device_id f n g
      → Obeys v k g
  Undisturbed-Obeys device_id v f k zero h at_once = subst (λ m. Obeys v m f) (omega arith) h
  Undisturbed-Obeys device_id v f k (suc n) h (after_round reached time_us free_heap) =
      application_round-Obeys device_id v k _ time_us free_heap (
        Undisturbed-Obeys device_id v f (suc k) n (subst (λ m. Obeys v m f) (omega arith) h)
          reached)
  Undisturbed-Obeys device_id v f k n h (after_step reached s calm) =
      Step-Obeys v k s calm (Undisturbed-Obeys device_id v f k n h reached)

  delivered-Obeys :
      (f : Firmware p) (a : Arrival) (time_us k : ℕ) (payload : Bytes) (e : Event)
      → AreWired f.inputs
      → IsLit f.task.application
      → Complete f.task.application.world.manager.device_id a payload
      → Command p.json payload time_us f.task.application.world.heap e
      → length (contents f.queue) < capacity f.queue
      → length (contents f.queue) < k
      → Obeys (nonzero e.value) k (mqtt_step f (mqtt_event_data a) time_us)
  unfolding mqtt_step handle_event
  delivered-Obeys f a time_us k payload e wired lit complete command room enough =
      let s = mqtt_station f in
      record {
        pending = record {
          ahead = contents f.queue ++ e ∷ [];
          behind = [];
          at =
              handle_incoming_message-delivers p.json s.manager a time_us s.queue s.heap payload e
                complete command room
              ∙ sym (append-nil (contents f.queue ++ e ∷ []));
          near = omega (arith, length-append (contents f.queue) (e ∷ []), enough);
          value =
              handle_all-Command f.task.application.state_manager (contents f.queue) payload time_us
                s.heap e command;
          silent = tt;
        };
        wired = wired;
        lit = lit;
      }

  -- A command is obeyed. Suppose that the station's inputs are wired as the start-up wires them,
  -- that the LED shows the logical output, that the queue has room, and that a whole, unretained
  -- message arrives on the station's command topic whose payload is a command. After more rounds
  -- of the application task than events waited, in any order with the other tasks and with
  -- whatever else happens but another message: the output is on exactly if the value of the
  -- command is not 0, and the LED has the level that stands for it.
  pub delivery_obeyed :
      (device_id : Bytes) (f g : Firmware p) (a : Arrival) (time_us n : ℕ) (payload : Bytes)
      (e : Event)
      → AreWired f.inputs
      → IsLit f.task.application
      → Complete f.task.application.world.manager.device_id a payload
      → Command p.json payload time_us f.task.application.world.heap e
      → length (contents f.queue) < capacity f.queue
      → length (contents f.queue) < n
      → Undisturbed device_id (mqtt_step f (mqtt_event_data a) time_us) n g
      → let o = g.task.application.output_manager in
        (g.task.application.state_manager.output_state ≡ nonzero e.value)
        × (o.status_led.level ≡ some (level_for o.status_led.active_high (nonzero e.value)))
  delivery_obeyed device_id f g a time_us n payload e wired lit complete command room rounds run =
      let start =
        delivered-Obeys f a time_us (n + 0) payload e wired lit complete command room
          (omega (arith, rounds)) in
      let last = Undisturbed-Obeys device_id (nonzero e.value) _ 0 n start run in
      let on =
        Pending-zero (nonzero e.value) g.task.application.state_manager (contents g.queue)
          last.pending in
      let o = g.task.application.output_manager in
      (on, last.lit.level ∙ ap (λ b. some (level_for o.status_led.active_high b)) on)
