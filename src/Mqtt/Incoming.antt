-- ===== src/Mqtt/Incoming.antt =====
-- Which of the messages that arrive get into the station's queue.
use iot_visual_management_sy.Prelude.{
  ℕ, ◌≡◌, ◌≤◌, ◌<◌, refl, true, ap, ◌∙◌, ltb, length, pos, pos_part, eqb_ℤ_iff, false, [], ◌∷◌,
  ◌++◌, some, Bytes, eqb_bytes_sound, eqb_bytes_refl, arith, Option-cases, inl, inr, if◌then◌else◌,
}
use iot_visual_management_sy.Event.{Event}
use iot_visual_management_sy.Rtos.{QueueApi}
use iot_visual_management_sy.EventQueue.{EventQueue, send}
use iot_visual_management_sy.EventQueue.Fifo.{contents, capacity, send_lem}
use iot_visual_management_sy.Cjson.{CjsonApi}
use iot_visual_management_sy.Serializer.{parse_command}
use iot_visual_management_sy.Serializer.Command.{Command, parse_command_lem}
use iot_visual_management_sy.Mqtt.{
  MqttApi, MqttManager, Arrival, command_topic, text_at, complete_payload, handle_incoming_message,
}

-- A message in one piece, not retained, of at most 512 bytes, on the station's command topic, and its
-- payload.
pub record Complete (device_id : Bytes) (a : Arrival) (payload : Bytes) : Type 0 where
  pub text : text_at a.bytes a.data_len ≡ some payload
  pub short : pos_part a.data_len ≤ 512
  pub from_start : a.current_data_offset ≡ pos 0
  pub whole : a.total_data_len ≡ a.data_len
  pub fresh : a.retain ≡ false
  pub topic : text_at a.topic a.topic_len ≡ some (command_topic device_id)

complete_payload-Complete :
    (device_id : Bytes) (a : Arrival) (payload : Bytes)
    → complete_payload device_id a ≡ some payload
    → Complete device_id a payload
unfolding complete_payload
complete_payload-Complete device_id a payload h = elim (Option-cases (text_at a.bytes a.data_len)) [
  | inl missing ↦ absurd (ground arith)
  | inr (p, text) ↦ elim (Option-cases (text_at a.topic a.topic_len)) [
    | inl nowhere ↦ absurd (ground arith)
    | inr (t, topic) ↦ record {
      text = ground arith;
      short = ground arith;
      from_start = ground (arith, eqb_ℤ_iff a.current_data_offset (pos 0));
      whole = ground (arith, eqb_ℤ_iff a.total_data_len a.data_len);
      fresh = ground arith;
      topic = topic ∙ ap some (eqb_bytes_sound t (command_topic device_id) (ground arith));
    }
  ]
]

Complete-complete_payload :
    (device_id : Bytes) (a : Arrival) (payload : Bytes)
    → Complete device_id a payload
    → complete_payload device_id a ≡ some payload
unfolding complete_payload
Complete-complete_payload device_id a payload c = ground (
  arith,
  c.text,
  c.topic,
  c.fresh,
  c.whole,
  c.from_start,
  c.short,
  (eqb_ℤ_iff a.total_data_len a.data_len).1 c.whole,
  (eqb_ℤ_iff a.current_data_offset (pos 0)).1 c.from_start,
  eqb_bytes_refl (command_topic device_id),
)

module _ {mqtt : MqttApi} {api : QueueApi} (json : CjsonApi) where
  -- A command that finds room in the queue is appended.
  pub handle_incoming_message-delivers :
      (g : MqttManager mqtt) (a : Arrival) (time_us : ℕ) (q : EventQueue api) (h : json.Heap)
      (payload : Bytes) (e : Event)
      → Complete g.device_id a payload
      → Command json payload time_us h e
      → length (contents q) < capacity q
      → contents (handle_incoming_message json g a time_us q h).0 ≡ contents q ++ e ∷ []
  unfolding handle_incoming_message
  handle_incoming_message-delivers g a time_us q h payload e complete command room =
      let whole = Complete-complete_payload g.device_id a payload complete in
      let taken = ((parse_command_lem json payload time_us h).0 e).1 command in
      let accepted : (send q e).0 ≡ true = ground (arith, (send_lem q e).0) in
      rw (handle_incoming_message, whole, taken)
        ((send_lem q e).1 ∙ ap (λ b. contents q ++ (if b then e ∷ [] else [])) accepted)

  -- The outcome of an arrival: nothing happens to the queue, or the event of a command is sent to it.
  pub data Outcome (g : MqttManager mqtt) (a : Arrival) (time_us : ℕ) (q : EventQueue api)
      (h : json.Heap) (q' : EventQueue api) : Type 0 where
    left_alone : q' ≡ q → Outcome g a time_us q h q'
    sent :
        (payload : Bytes) (e : Event)
        → Complete g.device_id a payload
        → Command json payload time_us h e
        → contents q'
          ≡ contents q ++ (if ltb (length (contents q)) (capacity q) then e ∷ [] else [])
        → Outcome g a time_us q h q'

  pub handle_incoming_message_lem :
      (g : MqttManager mqtt) (a : Arrival) (time_us : ℕ) (q : EventQueue api) (h : json.Heap)
      → Outcome g a time_us q h (handle_incoming_message json g a time_us q h).0
        × (json.live (handle_incoming_message json g a time_us q h).1 ≡ json.live h)
  unfolding handle_incoming_message
  handle_incoming_message_lem g a time_us q h =
      elim (Option-cases (complete_payload g.device_id a)) [
        | inl rejected ↦ rw (handle_incoming_message, rejected) (left_alone refl, refl)
        | inr (payload, complete) ↦
            let parse = parse_command_lem json payload time_us h in
            elim (Option-cases (parse_command json payload time_us h).0) [
              | inl unsupported ↦
                  rw (handle_incoming_message, complete, unsupported) (left_alone refl, parse.1)
              | inr (e, command) ↦
                  let q' = send_lem q e in
                  rw (handle_incoming_message, complete, command)
                    (
                      sent payload e (complete_payload-Complete g.device_id a payload complete)
                          ((parse.0 e).0 command)
                          (q'.1 ∙ ap (λ b. contents q ++ (if b then e ∷ [] else [])) q'.0),
                      parse.1,
                    )
            ]
      ]
