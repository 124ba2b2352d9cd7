-- ===== src/System/Settled.antt =====
-- A station with nothing left to send: what MQTT accepted last is what the inputs show.
use iot_visual_management_sy.Prelude.{
  ℕ, ◌+◌, ◌*◌, ◌≡◌, ◌<◌, ap, sym, ◌∙◌, u32_mod, ℤ, List, [], ◌++◌, map, append-nil, Option, some,
  Bytes,
}
use iot_visual_management_sy.Config.{device_id}
use iot_visual_management_sy.Event.{Event}
use iot_visual_management_sy.Rtos.{QueueApi, MutexApi}
use iot_visual_management_sy.EventQueue.{EventQueue}
use iot_visual_management_sy.EventQueue.Fifo.{contents}
use iot_visual_management_sy.Input.{InputManager}
use iot_visual_management_sy.Drivers.Analog.{AdcApi}
use iot_visual_management_sy.Uplink.{Uplink, Message}
use iot_visual_management_sy.Uplink.Station.{station}
use iot_visual_management_sy.Application.{Application}
use iot_visual_management_sy.Application.Offer.{text_of, Unserializable}
use iot_visual_management_sy.Application.LastValue.{last_value}
use iot_visual_management_sy.Application.Converge.{told_after}
use iot_visual_management_sy.Main.{Platform, Firmware, Board, ok, boot}
use iot_visual_management_sy.System.{Reach}
use iot_visual_management_sy.System.Emission.{digital_value, analog_value}
use iot_visual_management_sy.System.Track.{Tracks}
use iot_visual_management_sy.System.Startup.{accepted, Reach-boot-IsFaithful}

module _ (u : Uplink) (device_id : Bytes) (before : List Message) where
  -- Since `before`, MQTT took the messages of events whose last one of the source `j` has the value.
  pub record IsTold (j : ℕ) (value : Option ℤ) (w : u.World) : Type 0 where
    pub sent : List Event
    pub handed : u.handed w ≡ before ++ map (text_of u device_id) sent
    pub last : last_value j sent ≡ value

  Tracks-IsTold :
      {m : MutexApi} {api : QueueApi} (j : ℕ) (value : Option ℤ) (q : EventQueue api)
      (a : Application u m)
      → contents q ≡ []
      → a.offline_store.events ≡ []
      → Tracks device_id before j value q a
      → IsTold j value a.world
  unfolding told_after
  Tracks-IsTold j value q a queue buffer t = record {
    sent = t.holds.sent;
    handed = t.holds.handed;
    last =
        ap (last_value j)
          (sym (append-nil t.holds.sent) ∙ ap (λ es. t.holds.sent ++ es) (sym buffer))
        ∙ t.holds.last
        ∙ ap (told_after j t.so_far) (sym queue)
        ∙ t.waiting;
  }

module _ {adc : AdcApi} (u : Uplink) (device_id : Bytes) (before : List Message) where
  -- MQTT has accepted what the inputs show.
  pub record AreTold (i : InputManager adc) (w : u.World) : Type 0 where
    pub button : IsTold u device_id before 1 (digital_value i.button_input) w
    pub toggle : IsTold u device_id before 2 (digital_value i.toggle_input) w
    pub analog : IsTold u device_id before 4 (analog_value i.analog_input) w

-- What MQTT accepted is up to date. Under the conditions of Reach-boot-IsFaithful, in every state
-- that is reached and in which the queue and the buffer are empty: the events whose messages the MQTT
-- client accepted since the start end, for the button, the toggle and the analog input, with the value
-- that the input reported last, if any.
pub settled_told :
    {p : Platform} (b : Board p) (start f : Firmware p) (n : ℕ) (m : p.mutex.Handle)
    → p.mutex.create ≡ some m
    → ((e : Event) → ¬ Unserializable (station p.mqtt p.json) (device_id b.config) e)
    → boot b ≡ ok start
    → 1 + 2 * n < u32_mod
    → Reach (device_id b.config) start n f
    → contents f.queue ≡ []
    → f.task.application.offline_store.events ≡ []
    → AreTold
        (station p.mqtt p.json)
        (device_id b.config)
        (accepted start)
        f.inputs
        f.task.application.world
settled_told {p} b start f n m made sure boots room reached queue buffer =
    let c = (Reach-boot-IsFaithful b start f n m made sure boots room reached).carries in
    let told =
      λ (j : ℕ) (v : Option ℤ)
          (t : Tracks (device_id b.config) (accepted start) j v f.queue f.task.application).
        Tracks-IsTold (station p.mqtt p.json) (device_id b.config) (accepted start) j v f.queue
          f.task.application queue buffer t in
    record { button = told 1 _ c.button; toggle = told 2 _ c.toggle; analog = told 4 _ c.analog }
