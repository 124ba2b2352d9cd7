-- ===== src/Serializer/Command.antt =====
-- Which payloads `parseCommand` takes as commands, and what it makes of them.
use iot_visual_management_sy.Prelude.{
  ℕ, ◌/◌, ◌≡◌, ◌≢◌, ◌↔◌, ◌≤◌, refl, length, of_bool, Bool, true, false, [], some, Bytes, codes,
  eqb_bytes, eqb_bytes_sound, has_byte, has_text, arith, Option-cases, Bool-cases, List-cases, inl,
  inr,
}
use iot_visual_management_sy.Event.{Event, EventType, blank, set_output, remote_state_update}
use iot_visual_management_sy.Cjson.{CjsonApi}
use iot_visual_management_sy.Serializer.{
  is_acceptable, command_type, is_switch, switch_value, command_of, parse_command,
}

-- The two commands, by their texts.
pub data Names (s : Bytes) (t : EventType) : Type 0 where
  output : s ≡ codes "set_output" → t ≡ set_output → Names s t
  state : s ≡ codes "set_state" → t ≡ remote_state_update → Names s t

command_type_lem : (s : Bytes) (t : EventType) → (command_type s ≡ some t) ↔ Names s t
unfolding command_type eqb_bytes
command_type_lem s t = (forward, back)
  where
    forward : command_type s ≡ some t → Names s t
    forward h = elim (Bool-cases (eqb_bytes s (codes "set_output"))) [
      | inl first ↦ output (eqb_bytes_sound s (codes "set_output") first) (ground arith)
      | inr other ↦ elim (Bool-cases (eqb_bytes s (codes "set_state"))) [
        | inl second ↦ state (eqb_bytes_sound s (codes "set_state") second) (ground arith)
        | inr neither ↦ absurd (ground arith)
      ]
    ]

    back : Names s t → command_type s ≡ some t
    back (output p q) = rw (p, q) refl
    back (state p q) = rw (p, q) refl

module _ (json : CjsonApi) where
  -- A value that switches on or off: a boolean, or the number 1 or 0.
  pub data Switch (value : json.Node) (on : Bool) : Type 0 where
    boolean : json.is_bool value ≡ true → json.is_true value ≡ on → Switch value on
    one :
        json.is_number value ≡ true
        → json.is_one (json.value_double value) ≡ true
        → on ≡ true
        → Switch value on
    zero :
        json.is_number value ≡ true
        → json.is_zero (json.value_double value) ≡ true
        → on ≡ false
        → Switch value on

  switch_value-Switch : (n : json.Node) → is_switch json n ≡ true → Switch n (switch_value json n)
  unfolding is_switch switch_value
  switch_value-Switch n h = elim (Bool-cases (json.is_bool n)) [
    | inl yes_bool ↦ boolean yes_bool (ground (arith, json.bool_is_no_number n yes_bool))
    | inr no_bool ↦ elim (Bool-cases (json.is_one (json.value_double n))) [
      | inl is_one ↦ one (ground arith) is_one (ground arith)
      | inr other ↦
          let no_true : json.is_true n ≡ false = elim (Bool-cases (json.is_true n)) [
            | inl yes_true ↦ cc (json.true_is_bool n yes_true, no_bool)
            | inr no_true ↦ no_true
          ] in
          zero (ground arith) (ground arith) (ground arith)
    ]
  ]

  Switch-accepts :
      (n : json.Node) (on : Bool)
      → Switch n on
      → (is_switch json n ≡ true) × (switch_value json n ≡ on)
  unfolding is_switch switch_value
  Switch-accepts n on (boolean b t) = ground (arith, json.bool_is_no_number n b)
  Switch-accepts n on (one m o e) = ground arith
  Switch-accepts n on (zero m z e) =
      let no_one = json.zero_is_not_one (json.value_double n) z in
      elim (Bool-cases (json.is_true n)) [
        | inl yes_true ↦
            let no_number = json.bool_is_no_number n (json.true_is_bool n yes_true) in
            absurd (ground arith)
        | inr no_true ↦ ground arith
      ]

  -- An object that is a command: exactly two fields, a string "command" that names one, and a
  -- "value" that is a boolean or the number 0 or 1; and the event that it stands for.
  pub record Object (root : json.Node) (time_us : ℕ) (e : Event) : Type 0 where
    pub command : json.Node
    pub value : json.Node
    pub type : EventType
    pub two : json.array_size root ≡ 2
    pub has_command : json.get_item root (codes "command") ≡ some command
    pub has_value : json.get_item root (codes "value") ≡ some value
    pub string : json.is_string command ≡ true
    pub on : Bool
    pub switch : Switch value on
    pub names : Names (json.value_string command) type
    pub event : e ≡ record blank { type = type; value = of_bool on; timestamp_ms = time_us / 1000 }

  command_of-Object :
      (root : json.Node) (time_us : ℕ) (e : Event)
      → command_of json root time_us ≡ some e
      → Object root time_us e
  unfolding command_of
  command_of-Object root time_us e h = elim (Option-cases (json.get_item root (codes "command"))) [
    | inl missing ↦ absurd (ground arith)
    | inr (c, has_c) ↦ elim (Option-cases (json.get_item root (codes "value"))) [
      | inl missing ↦ absurd (ground arith)
      | inr (v, has_v) ↦ elim (Option-cases (command_type (json.value_string c))) [
        | inl unknown ↦ absurd (ground arith)
        | inr (t, named) ↦ record {
          command = c;
          value = v;
          type = t;
          two = ground arith;
          has_command = has_c;
          has_value = has_v;
          string = ground arith;
          on = switch_value json v;
          switch = switch_value-Switch v (ground arith);
          names = (command_type_lem (json.value_string c) t).0 named;
          event = ground arith;
        }
      ]
    ]
  ]

  command_of-accepts :
      (root : json.Node) (time_us : ℕ) (e : Event)
      → Object root time_us e
      → command_of json root time_us ≡ some e
  unfolding command_of
  command_of-accepts root time_us e o =
      let named = (command_type_lem (json.value_string o.command) o.type).1 o.names in
      let switched = Switch-accepts o.value o.on o.switch in
      ground (arith, named, o.two, o.has_command, o.has_value, o.string, switched, o.event)

  -- A payload of 1 to 512 bytes without a NUL, escaped or not, that cJSON parses to such an object.
  pub record Command (payload : Bytes) (time_us : ℕ) (h : json.Heap) (e : Event) : Type 0 where
    pub some_bytes : payload ≢ []
    pub short : length payload ≤ 512
    pub no_nul : has_byte 0 payload ≡ false
    pub no_escaped_nul : has_text (codes "\\u0000") payload ≡ false
    pub root : json.Node
    pub parsed : (json.parse payload h).0 ≡ some root
    pub is_object : json.is_object root ≡ true
    pub object : Object root time_us e

  parse_command-Command :
      (payload : Bytes) (time_us : ℕ) (h : json.Heap) (e : Event)
      → (parse_command json payload time_us h).0 ≡ some e
      → Command payload time_us h e
  unfolding parse_command is_acceptable
  parse_command-Command payload time_us h e k = elim (Option-cases (json.parse payload h).0) [
    | inl invalid ↦ absurd (ground arith)
    | inr (root, parsed) ↦ record {
      some_bytes = λ empty. absurd (ground arith);
      short = ground arith;
      no_nul = ground arith;
      no_escaped_nul = ground arith;
      root = root;
      parsed = parsed;
      is_object = ground arith;
      object = command_of-Object root time_us e (ground arith);
    }
  ]

  parse_command-accepts :
      (payload : Bytes) (time_us : ℕ) (h : json.Heap) (e : Event)
      → Command payload time_us h e
      → (parse_command json payload time_us h).0 ≡ some e
  unfolding parse_command is_acceptable
  parse_command-accepts payload time_us h e c = elim (List-cases payload) [
    | inl empty ↦ absurd (c.some_bytes empty)
    | inr (b, bs, at) ↦
        let taken = command_of-accepts c.root time_us e c.object in
        ground (arith, taken, c.short, c.no_nul, c.no_escaped_nul, c.parsed, c.is_object)
  ]

  parse_command-live :
      (payload : Bytes) (time_us : ℕ) (h : json.Heap)
      → json.live (parse_command json payload time_us h).1 ≡ json.live h
  unfolding parse_command
  parse_command-live payload time_us h = elim (Option-cases (json.parse payload h).0) [
    | inl invalid ↦ ground (arith, json.live-parse payload h)
    | inr (root, parsed) ↦
        ground (arith, json.live-parse payload h, json.live-delete root (json.parse payload h).1)
  ]

  -- `parseCommand` takes a payload exactly if it is a command, with the event that the command
  -- stands for; taken or not, every cJSON tree that it was given is released.
  pub parse_command_lem :
      (payload : Bytes) (time_us : ℕ) (h : json.Heap)
      → ((e : Event)
          → ((parse_command json payload time_us h).0 ≡ some e) ↔ Command payload time_us h e)
        × (json.live (parse_command json payload time_us h).1 ≡ json.live h)
  parse_command_lem payload time_us h = (
    (λ e. (parse_command-Command payload time_us h e, parse_command-accepts payload time_us h e)),
    parse_command-live payload time_us h,
  )
