-- ===== src/System/CatchUp.antt =====
-- A station that is connected and whose messages are taken: the rounds of the application task empty
-- the queue and the buffer, and MQTT has accepted the values that the inputs report.
use iot_visual_management_sy.Prelude.{
  ℕ, suc, ◌+◌, ◌*◌, ◌≡◌, ◌≢◌, ◌⊎◌, ◌≤◌, ◌<◌, refl, sym, subst, u32_mod, length, ℤ, true, false,
  List, [], ◌∷◌, ◌++◌, Option, none, some, Bytes, arith, inl, inr, is_nil, Bool-cases,
}
use iot_visual_management_sy.Config.{device_id, firmware_version}
use iot_visual_management_sy.Event.{Event}
use iot_visual_management_sy.EventQueue
use iot_visual_management_sy.EventQueue.Fifo.{contents, of_option, receive_lem}
use iot_visual_management_sy.Cjson.{CjsonApi}
use iot_visual_management_sy.Mqtt.{MqttApi, is_negative, publish}
use iot_visual_management_sy.Uplink.{Message}
use iot_visual_management_sy.Uplink.Station.{Line, station}
use iot_visual_management_sy.Application.{Round, offer, message_of}
use iot_visual_management_sy.Application.Offer.{Unserializable}
use iot_visual_management_sy.Application.Consume.{run_round-state}
use iot_visual_management_sy.Application.Emptied.{run_round-empties}
use iot_visual_management_sy.Main.{Platform, Firmware, Board, ok, boot}
use iot_visual_management_sy.System.{Reach, round, application_round}
use iot_visual_management_sy.System.Invariant.{IsFaithful, application_round-IsFaithful}
use iot_visual_management_sy.System.Startup.{accepted, Reach-boot-IsFaithful}
use iot_visual_management_sy.System.Settled.{AreTold, settled_told}

-- The client takes every message for sending.
abbrev pub TakesAll : MqttApi → Type 0
TakesAll mqtt =
    (c : mqtt.Client) (t : Message) (w : mqtt.Net) → is_negative (mqtt.enqueue c t w).0 ≡ false

module _ {mqtt : MqttApi} {json : CjsonApi} where
  -- The manager has its client, and counts as connected.
  pub record IsUp (w : Line mqtt json) : Type 0 where
    pub connected : w.manager.connected ≡ true
    pub client : mqtt.Client
    pub made : w.manager.client ≡ some client

  takes_offer :
      (device_id : Bytes) (takes : TakesAll mqtt) (e : Event) (w : Line mqtt json)
      → IsUp w
      → (offer (station mqtt json) device_id e w).0 ≢ some false
  unfolding offer publish
  takes_offer device_id takes e w h =
      let text = (station mqtt json).serialize e device_id firmware_version w in
      elim (Bool-cases (is_nil text.0)) [
        | inl empty ↦ rw empty (λ refusal. absurd (ground (arith, refusal)))
        | inr some_text ↦
            rw (some_text, h.connected, h.made)
              (λ refusal.
                absurd
                  (ground (arith, refusal, takes h.client (message_of device_id text.0) w.net)))
      ]

taken_off :
    (o : Option Event) (es rest : List Event) (k : ℕ)
    → es ≡ of_option o ++ rest
    → (o ≡ none → es ≡ [])
    → length es ≤ suc k
    → length rest ≤ k
taken_off none es rest k at empty short = ground (arith, empty refl)
taken_off (some e) es rest k at empty short = ground arith

module _ {p : Platform} where
  -- Rounds of the application task, by the timer in microseconds and the free heap.
  unfoldable pub rounds : Bytes → Firmware p → List (ℕ × ℤ) → Firmware p
  rounds device_id f [] = f
  rounds device_id f ((time_us, free_heap) ∷ rs) =
      rounds device_id (application_round device_id f time_us free_heap) rs

  rounds-Reach :
      (device_id : Bytes) (start f : Firmware p) (n : ℕ) (rs : List (ℕ × ℤ))
      → Reach device_id start n f
      → Reach device_id start (n + length rs) (rounds device_id f rs)
  unfolding rounds
  rounds-Reach device_id start f n [] r = subst (λ k. Reach device_id start k f) (omega arith) r
  rounds-Reach device_id start f n ((time_us, free_heap) ∷ rs) r =
      let g = application_round device_id f time_us free_heap in
      subst (λ k. Reach device_id start k (rounds device_id g rs)) (omega arith)
        (rounds-Reach device_id start g (suc n) rs (round r time_us free_heap))

  rounds_inputs :
      (device_id : Bytes) (f : Firmware p) (rs : List (ℕ × ℤ))
      → (rounds device_id f rs).inputs ≡ f.inputs
  unfolding rounds application_round
  rounds_inputs device_id f [] = refl
  rounds_inputs device_id f ((time_us, free_heap) ∷ rs) =
      rounds_inputs device_id (application_round device_id f time_us free_heap) rs

  -- Nothing waits anywhere.
  abbrev IsDrained : Firmware p → Type 0
  IsDrained f = (contents f.queue ≡ []) × (f.task.application.offline_store.events ≡ [])

  rounds-drain :
      (device_id : Bytes) (before : List Message)
      (sure : (e : Event) → ¬ Unserializable (station p.mqtt p.json) device_id e)
      (takes : TakesAll p.mqtt) (n : ℕ) (f : Firmware p) (rs : List (ℕ × ℤ))
      → 1 + 2 * (n + length rs) < u32_mod
      → IsFaithful device_id before n f
      → IsUp f.task.application.world
      → length (contents f.queue) ≤ length rs
      → (f.task.application.offline_store.events ≡ []) ⊎ (1 ≤ length rs)
      → IsDrained (rounds device_id f rs)
  unfolding rounds application_round
  rounds-drain device_id before sure takes n f [] room h up short nothing = (
    ground arith,
    elim nothing [ inl none_left ↦ none_left | inr some_round ↦ absurd (omega arith) ],
  )
  rounds-drain device_id before sure takes n f ((time_us, free_heap) ∷ rs) room h up short nothing =
      let r : Round p.queue = record {
        queue = f.queue;
        time_us = time_us;
        free_heap = free_heap;
      } in
      let g = application_round device_id f time_us free_heap in
      let received = receive_lem f.queue in
      let left =
        run_round-empties device_id IsUp (λ w k. k)
          (λ e d v w k. record { connected = k.connected; client = k.client; made = k.made })
          (λ t w k. record { connected = k.connected; client = k.client; made = k.made })
          (λ w k. k.connected) (takes_offer device_id takes) before f.task r
          (omega (arith, h.numbers)) h.ordered up in
      let next =
        application_round-IsFaithful device_id before sure n f time_us free_heap (omega arith) h in
      rounds-drain device_id before sure takes (suc n) g rs (omega arith) next left.1
        (subst (λ q. length (contents q) ≤ length rs) (sym (run_round-state device_id f.task r).1)
          (taken_off (EventQueue.receive f.queue).0 (contents f.queue)
            (contents (EventQueue.receive f.queue).1) (length rs) received.0 received.1.0 short))
        (inl left.0)

-- A connected station catches up. Suppose that the start-up succeeds, the mutex of the buffer
-- could be made, the serializer never gives an empty text, and two sequence IDs for each round of
-- the application task do not run out. Then from every state that the interleaved steps reach, if
-- the MQTT manager has its client and counts as connected, and the client takes every message:
-- after more rounds of the application task than events waited in the queue, with nothing else in
-- between, the queue and the buffer are empty, and the events whose messages the client accepted
-- since the start end, for the button, the toggle and the analog input, with the value that the
-- input reported last, if any.
pub catches_up :
    {p : Platform} (b : Board p) (start f : Firmware p) (n : ℕ) (m : p.mutex.Handle)
    (rs : List (ℕ × ℤ))
    → p.mutex.create ≡ some m
    → ((e : Event) → ¬ Unserializable (station p.mqtt p.json) (device_id b.config) e)
    → boot b ≡ ok start
    → 1 + 2 * (n + length rs) < u32_mod
    → Reach (device_id b.config) start n f
    → IsUp f.task.application.world
    → TakesAll p.mqtt
    → length (contents f.queue) < length rs
    → let g = rounds (device_id b.config) f rs in
      (contents g.queue ≡ [])
      × (g.task.application.offline_store.events ≡ [])
      × AreTold
          (station p.mqtt p.json)
          (device_id b.config)
          (accepted start)
          f.inputs
          g.task.application.world
catches_up {p} b start f n m rs made sure boots room reached up takes enough =
    let id = device_id b.config in
    let g = rounds id f rs in
    let faithful = Reach-boot-IsFaithful b start f n m made sure boots (omega arith) reached in
    let drained =
      rounds-drain id (accepted start) sure takes n f rs room faithful up (omega arith)
        (inr (omega arith)) in
    let told =
      settled_told b start g (n + length rs) m made sure boots room
        (rounds-Reach id start f n rs reached) drained.0 drained.1 in
    (
      drained.0,
      drained.1,
      subst (λ i. AreTold (station p.mqtt p.json) id (accepted start) i g.task.application.world)
          (rounds_inputs id f rs) told,
    )
