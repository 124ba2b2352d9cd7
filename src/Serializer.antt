-- ===== src/Serializer.antt =====
-- firmware/main/network/MessageSerializer.cpp: events to JSON, and commands from JSON.
pub mod Outcome
pub mod Render
pub mod Command
mod Examples
use iot_visual_management_sy.Prelude.{
  ℕ, ltb, length, is_nil, ◌/◌, ℤ, pos, of_bool, Bool, true, false, not, ◌&&◌, ◌||◌, ◌==◌, List, [],
  ◌∷◌, Option, none, some, Bytes, codes, eqb_bytes, has_byte, has_text, if◌then◌else◌,
}
use iot_visual_management_sy.Event.{
  Event, EventType, blank, button_pressed, button_released, toggle_changed, encoder_changed,
  analog_changed, remote_state_update, set_output, wifi_connected, wifi_disconnected,
  mqtt_connected, mqtt_disconnected, sync_requested, heartbeat, fault_detected,
}
use iot_visual_management_sy.Cjson.{CjsonApi}

abbrev pub event_type_to_string : EventType → Bytes
event_type_to_string button_pressed = codes "button_pressed"
event_type_to_string button_released = codes "button_released"
event_type_to_string toggle_changed = codes "toggle_changed"
event_type_to_string encoder_changed = codes "encoder_changed"
event_type_to_string analog_changed = codes "analog_changed"
event_type_to_string remote_state_update = codes "remote_state_update"
event_type_to_string set_output = codes "set_output"
event_type_to_string wifi_connected = codes "wifi_connected"
event_type_to_string wifi_disconnected = codes "wifi_disconnected"
event_type_to_string mqtt_connected = codes "mqtt_connected"
event_type_to_string mqtt_disconnected = codes "mqtt_disconnected"
event_type_to_string sync_requested = codes "sync_requested"
event_type_to_string heartbeat = codes "heartbeat"
event_type_to_string fault_detected = codes "fault_detected"
event_type_to_string EventType.none = codes "none"

-- `p ? p : "unknown"`
abbrev pub or_unknown : Option Bytes → Bytes
or_unknown none = codes "unknown"
or_unknown (some s) = s

-- One of the calls that add a field: a string, or an integer converted to double.
pub data Field : Type 0 where
  string_field : Bytes → Bytes → Field
  number_field : Bytes → ℤ → Field

-- The fields of an event's message, in their order.
abbrev pub event_fields : Event → Option Bytes → Option Bytes → List Field
event_fields event device_id firmware_version =
    string_field (codes "device_id") (or_unknown device_id)
    ∷ number_field (codes "sequence_id") (pos event.sequence_id)
    ∷ string_field (codes "event_type") (event_type_to_string event.type)
    ∷ number_field (codes "source_id") (pos event.source_id)
    ∷ number_field (codes "value") event.value
    ∷ number_field (codes "timestamp_ms") (pos event.timestamp_ms)
    ∷ string_field (codes "firmware_version") (or_unknown firmware_version)
    ∷ []

-- The first test of `parseCommand`; 92, 117, 48 are the backslash, `u` and `0`.
unfoldable pub is_acceptable : Bytes → Bool
is_acceptable payload = not (
    is_nil payload
    || (ltb 512 (length payload)
        || (has_byte 0 payload || has_text (92 ∷ 117 ∷ 48 ∷ 48 ∷ 48 ∷ 48 ∷ []) payload)))

unfoldable pub command_type : Bytes → Option EventType
command_type s =
    if eqb_bytes s (codes "set_output")
    then some set_output
    else if eqb_bytes s (codes "set_state")
    then some remote_state_update
    else none

-- A null item fails every test.
abbrev pub test : {Node : Type 0} → (Node → Bool) → Option Node → Bool
test is none = false
test is (some n) = is n

module _ (json : CjsonApi) where
  abbrev pub add_field : json.Node → Field → json.Heap → Bool × json.Heap
  add_field root (string_field name value) h = json.add_string root name value h
  add_field root (number_field name value) h = json.add_number root name (json.of_int value) h

  -- The chain of `||`: the first call that fails ends it.
  unfoldable pub add_fields : json.Node → List Field → json.Heap → Bool × json.Heap
  add_fields root [] h = (true, h)
  add_fields root (f ∷ fs) h =
      let (added, h1) = add_field root f h in
      let rest = add_fields root fs h1 in if added then rest else (false, h1)

  -- `serializeEvent` once the fields were added. The empty string stands for no text.
  unfoldable pub print_object : json.Node → json.Heap → Bytes × json.Heap
  print_object root h =
      let (buffer, h1) = json.print_unformatted root h in
      elim buffer [
        | none ↦ ([], json.delete root h1)
        | some result ↦ (result, json.delete root (json.free h1))
      ]

  -- A null pointer for the device ID or the version is `none`.
  unfoldable pub serialize_event :
      Event → Option Bytes → Option Bytes → json.Heap → Bytes × json.Heap
  serialize_event event device_id firmware_version h =
      let (created, h1) = json.create_object h in
      elim created [
        | none ↦ ([], h1)
        | some root ↦
            let (complete, h2) =
              add_fields root (event_fields event device_id firmware_version) h1 in
            if complete then print_object root h2 else ([], json.delete root h2)
      ]

  -- A boolean, or the number 0 or 1.
  unfoldable pub is_switch : json.Node → Bool
  is_switch n =
      json.is_bool n
      || (json.is_number n
          && (json.is_zero (json.value_double n) || json.is_one (json.value_double n)))

  unfoldable pub switch_value : json.Node → Bool
  switch_value n = json.is_true n || (json.is_number n && json.is_one (json.value_double n))

  -- What the tests on the parsed object give; `none` is the result false.
  unfoldable pub command_of : json.Node → ℕ → Option Event
  command_of root time_us =
      let command = json.get_item root (codes "command") in
      let value = json.get_item root (codes "value") in
      if json.array_size root == 2 && (test json.is_string command && test is_switch value)
      then elim command [
        | none ↦ none
        | some c ↦ elim (command_type (json.value_string c)) [
          | none ↦ none
          | some type ↦ some (record blank {
            type = type;
            value = of_bool (test switch_value value);
            timestamp_ms = time_us / 1000;
          })
        ]
      ]
      else none

  -- `none` stands for the result false, where the caller's event is left as it was.
  unfoldable pub parse_command : Bytes → ℕ → json.Heap → Option Event × json.Heap
  parse_command payload time_us h =
      if is_acceptable payload
      then (let (parsed, h1) = json.parse payload h in
          elim parsed [
            | none ↦ (none, h1)
            | some root ↦ (
              (if json.is_object root then command_of root time_us else none),
              json.delete root h1,
            )
          ])
      else (none, h)
