-- ===== src/System/Startup.antt =====
-- What the start-up leaves: a firmware for which the invariant of System/Invariant.antt holds.
use iot_visual_management_sy.Prelude.{
  Bool, true, false, ℕ, ◌+◌, ◌*◌, ◌≡◌, ◌<◌, refl, sym, subst, u32_mod, append-nil, true, List, [],
  none, some, arith, Option-cases, inl, inr,
}
use iot_visual_management_sy.Config.{device_id, event_queue_size, offline_event_queue_size}
use iot_visual_management_sy.Event.{Event}
use iot_visual_management_sy.Rtos.{QueueApi}
use iot_visual_management_sy.EventQueue.{EventQueue}
use iot_visual_management_sy.EventQueue
use iot_visual_management_sy.EventQueue.Fifo.{contents, capacity, Fits}
use iot_visual_management_sy.Store
use iot_visual_management_sy.Store.Invariant.{create-IsValid}
use iot_visual_management_sy.Drivers.Digital
use iot_visual_management_sy.Drivers.Encoder
use iot_visual_management_sy.Drivers.Analog.{AdcApi, AnalogInput}
use iot_visual_management_sy.Drivers.Analog
use iot_visual_management_sy.Drivers.Analog.Setup.{ready, failed, initialize-Initialized}
use iot_visual_management_sy.Output
use iot_visual_management_sy.Output.Shown.{Shows, initialize-Shows}
use iot_visual_management_sy.StateManager.{initial}
use iot_visual_management_sy.Input.{InputManager, Setup}
use iot_visual_management_sy.Input
use iot_visual_management_sy.Uplink.Station.{station}
use iot_visual_management_sy.Application.Offer.{Unserializable}
use iot_visual_management_sy.Main.{
  create_output, Platform, Firmware, Board, ok, create_inputs, boot,
}
use iot_visual_management_sy.Main.Checks.{queue_made, output_made, made_firmware, boot-ok}
use iot_visual_management_sy.Uplink.{Message}
use iot_visual_management_sy.Application.LastValue.{last_value}
use iot_visual_management_sy.Application.Converge.{told_after}
use iot_visual_management_sy.System.Track.{Tracks}
use iot_visual_management_sy.System.{Reach}
use iot_visual_management_sy.System.Inputs.{AreWired}
use iot_visual_management_sy.System.Invariant.{IsFaithful, Reach-IsFaithful}

-- Wired, with every initial report pending.
record AreFresh {adc : AdcApi} (i : InputManager adc) : Type 0 where
  wired : AreWired i
  button : i.button_input.initial_event_pending ≡ true
  toggle : i.toggle_input.initial_event_pending ≡ true
  analog : i.analog_input.initial_event_pending ≡ true
  no_unit : i.analog_input.adc_handle ≡ none

analog_kept :
    {adc : AdcApi} (a : AnalogInput adc) (w : adc.Adc)
    → a.adc_handle ≡ none
    → let a' = (Analog.initialize a w).1.0 in
      (a'.source_id ≡ a.source_id) × (a'.initial_event_pending ≡ a.initial_event_pending)
analog_kept a w null = elim (initialize-Initialized a w null) [
  | ready h raw unit channel sample done made one ↦ rw made (refl, refl)
  | failed fault bad same none_left ↦ rw same (refl, refl)
]

module _ {adc : AdcApi} where
  record AreStarted (i : InputManager adc) : Type 0 where
    wired : AreWired i
    button : i.button_input.initial_event_pending ≡ true
    toggle : i.toggle_input.initial_event_pending ≡ true
    analog : i.analog_input.initial_event_pending ≡ true

  initialize-AreStarted :
      (i : InputManager adc) (s : Setup) (w : adc.Adc)
      → AreFresh i
      → AreStarted (Input.initialize i s w).1.0
  unfolding Input.initialize Digital.initialize Encoder.initialize
  initialize-AreStarted i s w h = ground (arith, analog_kept i.analog_input w h.no_unit)

create_inputs-AreFresh : {adc : AdcApi} → AreFresh {adc = adc} create_inputs
unfolding Analog.create
create_inputs-AreFresh = record {
  wired = record {
    button = record { at = refl; active = (refl, refl); inactive = (refl, refl) };
    toggle = record { at = refl; active = (refl, refl); inactive = (refl, refl) };
    encoder = refl;
    analog = refl;
  };
  button = refl;
  toggle = refl;
  analog = refl;
  no_unit = refl;
}

create_output-Shows :
    (configured : Bool)
    → (Output.initialize configured create_output).0 ≡ true
    → Shows (Output.initialize configured create_output).1 initial
unfolding Output.initialize
create_output-Shows true h = initialize-Shows create_output
create_output-Shows false h = absurd (ground arith)

pub create-Fits :
    (api : QueueApi) (n : ℕ)
    → EventQueue.is_valid {api = api} (EventQueue.create n) ≡ true
    → Fits n (EventQueue.create {api = api} n) × (contents (EventQueue.create {api = api} n) ≡ [])
unfolding EventQueue.create EventQueue.is_valid contents capacity
create-Fits api n h = elim (Option-cases (api.create n)) [
  | inl null ↦ absurd (ground arith)
  | inr (q, made) ↦ ground (arith, api.create_empty n q made)
]

abbrev pub accepted : {p : Platform} → Firmware p → List Message
accepted {p} f = p.mqtt.accepted f.task.application.world.net

module _ {p : Platform} (b : Board p) (m : p.mutex.Handle) (made : p.mutex.create ≡ some m)
    (valid : queue_made b ≡ true) where
  start-Tracks :
      (j : ℕ)
      → Tracks
          (device_id b.config)
          (accepted (made_firmware b))
          j
          none
          (made_firmware b).queue
          (made_firmware b).task.application
  unfolding told_after last_value Store.create
  start-Tracks j = record {
    so_far = none;
    holds = record {
      sent = [];
      handed = sym (append-nil (accepted (made_firmware b)));
      last = refl;
      valid = create-IsValid offline_event_queue_size m made;
      physical = tt;
      fits = omega arith;
    };
    waiting = rw (create-Fits p.queue event_queue_size valid).1 refl;
  }

module _ {p : Platform} (b : Board p) (m : p.mutex.Handle) (made : p.mutex.create ≡ some m)
    (valid : queue_made b ≡ true) (output : output_made b ≡ true) where
  start-IsFaithful :
      IsFaithful (device_id b.config) (accepted (made_firmware b)) 0 (made_firmware b)
  unfolding Store.create
  start-IsFaithful =
      let i = initialize-AreStarted create_inputs b.setup b.adc create_inputs-AreFresh in
      let (fits, nothing) = create-Fits p.queue event_queue_size valid in
      record {
        wired = i.wired;
        carries = record {
          fits = fits;
          sound = rw nothing tt;
          button = rw i.button (start-Tracks b m made valid 1);
          toggle = rw i.toggle (start-Tracks b m made valid 2);
          analog = rw i.analog (start-Tracks b m made valid 4);
        };
        ordered = record {
          sent = [];
          handed = sym (append-nil (accepted (made_firmware b)));
          ascends = record { ascending = tt; below = tt };
          valid = create-IsValid offline_event_queue_size m made;
        };
        lit = create_output-Shows b.led_configured output;
        numbers = omega arith;
      }

-- The whole firmware. Suppose that the start-up succeeds, the mutex of the buffer could be made,
-- and the serializer never gives an empty text. Then in every state that the interleaved steps
-- reach (rounds of the two tasks, events of MQTT and Wi-Fi, the rest of the start-up), with so few
-- rounds `n` of the application task that 1 + 2n is below 2^32: at most 32 events wait in the
-- queue; what MQTT took since the start are the messages of some events that ascend in sequence
-- ID, with the buffered ones behind; the LED's pin has the level that stands for the logical
-- output; and for the button, the toggle and the analog input, the last value in what MQTT took,
-- what is buffered and what waits in the queue is the one that the input reported last, if any.
pub Reach-boot-IsFaithful :
    {p : Platform} (b : Board p) (start f : Firmware p) (n : ℕ) (m : p.mutex.Handle)
    → p.mutex.create ≡ some m
    → ((e : Event) → ¬ Unserializable (station p.mqtt p.json) (device_id b.config) e)
    → boot b ≡ ok start
    → 1 + 2 * n < u32_mod
    → Reach (device_id b.config) start n f
    → IsFaithful (device_id b.config) (accepted start) n f
Reach-boot-IsFaithful b start f n m made sure boots room reached =
    let (valid, output, same) = boot-ok b start boots in
    Reach-IsFaithful (device_id b.config) (accepted start) sure start room
      (subst (λ s. IsFaithful (device_id b.config) (accepted s) 0 s) same
        (start-IsFaithful b m made valid output))
      reached
