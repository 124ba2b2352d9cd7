-- ===== src/System/Examples.antt =====
-- The theorems about the whole firmware at a concrete platform and a short run.
use iot_visual_management_sy.Prelude.{
  ℕ, some, length, ℤ, List, ◌∷◌, subst, sym, has_byte, has_text, eqb_bytes, take, ◌≡◌, refl, [],
  true, pos, Bytes, codes, arith, false,
}
use iot_visual_management_sy.Event.{Event, blank, set_output}
use iot_visual_management_sy.Drivers.Digital
use iot_visual_management_sy.Drivers.Encoder
use iot_visual_management_sy.Drivers.Analog
use iot_visual_management_sy.EventQueue
use iot_visual_management_sy.EventQueue.Fifo.{contents}
use iot_visual_management_sy.Input
use iot_visual_management_sy.Cjson.Host.{host_json, root_item, command_item, value_item}
use iot_visual_management_sy.Serializer.Command.{Command, output, boolean}
use iot_visual_management_sy.Output.Shown.{level_for}
use iot_visual_management_sy.Mqtt.Incoming.{Complete}
use iot_visual_management_sy.Mqtt.{mqtt_event_connected, mqtt_event_data}
use iot_visual_management_sy.Mqtt
use iot_visual_management_sy.Mqtt.Host.{host_mqtt}
use iot_visual_management_sy.Uplink.Station.{station}
use iot_visual_management_sy.Main.{Board, Firmware, boot, main_step, advance}
use iot_visual_management_sy.Main.Checks.{made_firmware, first_failure}
use iot_visual_management_sy.Main.Wired.{start_failures, ready_firmware, boot_lem}
use iot_visual_management_sy.System.{application_round, input_round, mqtt_step, polls}
use iot_visual_management_sy.System.Invariant.{IsFaithful}
use iot_visual_management_sy.System.Startup.{Reach-boot-IsFaithful}
use iot_visual_management_sy.System.Settled.{AreTold}
use iot_visual_management_sy.System.CatchUp.{TakesAll, rounds, catches_up}
use iot_visual_management_sy.System.Command.{
  brings_message, at_once, after_round, after_step, delivery_obeyed,
}
use iot_visual_management_sy.System.Host.{
  host, board, board_boots, host_json-serializes, readings, device, processed, processed-Reach,
  connected, connected-Reach, drained, drained-Reach, drained_empty,
}

Reach-boot-IsFaithful_example : IsFaithful device [] 1 processed
unfolding Mqtt.initialize Mqtt.create
Reach-boot-IsFaithful_example =
    Reach-boot-IsFaithful board (made_firmware board) processed 1 true refl host_json-serializes
      board_boots (omega arith) processed-Reach

-- Three events wait once MQTT is connected.
connected_waits :
    (length (contents connected.queue) ≡ 3)
    × (connected.task.application.world.manager.connected ≡ true)
    × (connected.task.application.world.manager.client ≡ some tt)
unfolding main_step advance Input.start input_round mqtt_step contents EventQueue.create
    EventQueue.is_valid EventQueue.send Input.initialize Input.poll_round Digital.initialize
    Digital.update Digital.accept Digital.watch Digital.due Digital.publish_state_change
    Digital.state_event Encoder.initialize Encoder.update Encoder.observe Encoder.read_state
    Analog.initialize Analog.create Analog.configure Analog.read_raw Analog.update Analog.observe
    Analog.ignored Analog.publish_value Analog.raw_to_percent Mqtt.initialize Mqtt.create
    Mqtt.handle_event Mqtt.publish_connection_event Mqtt.subscribe
connected_waits = (refl, refl, refl)

abbrev four_rounds : List (ℕ × ℤ)
four_rounds =
    (70000, pos 100000) ∷ (80000, pos 100000) ∷ (90000, pos 100000) ∷ (100000, pos 100000) ∷ []

host_takes_all : TakesAll host_mqtt
host_takes_all c t w = refl

catches_up_example :
    let g = rounds device connected four_rounds in
    (contents g.queue ≡ [])
    × (g.task.application.offline_store.events ≡ [])
    × AreTold (station host_mqtt host_json) device [] connected.inputs g.task.application.world
unfolding Mqtt.initialize Mqtt.create
catches_up_example =
    catches_up board (made_firmware board) connected 0 true four_rounds refl host_json-serializes
      board_boots (omega arith) connected-Reach
      (record { connected = connected_waits.1; client = tt; made = connected_waits.2 })
      host_takes_all (ground (arith, connected_waits.0))

abbrev dark_board : Board host
dark_board = record board { led_configured = false }

boot_lem_example :
    boot dark_board ≡ first_failure (start_failures dark_board) (ready_firmware dark_board)
boot_lem_example = boot_lem dark_board

drained-IsFaithful : IsFaithful device [] 4 drained
unfolding Mqtt.initialize Mqtt.create
drained-IsFaithful =
    Reach-boot-IsFaithful board (made_firmware board) drained 4 true refl host_json-serializes
      board_boots (omega arith) drained-Reach

-- The host takes an opening brace as the command to switch the output on.
abbrev switch_on : Bytes
switch_on = codes "{"

abbrev arrival : Mqtt.Arrival
arrival = record {
  bytes = some switch_on;
  data_len = pos 1;
  total_data_len = pos 1;
  current_data_offset = pos 0;
  retain = false;
  topic = some (Mqtt.command_topic device);
  topic_len = pos 35;
}

arrival-Complete : Complete device arrival switch_on
unfolding take
arrival-Complete = record {
  text = refl;
  short = omega arith;
  from_start = refl;
  whole = refl;
  fresh = refl;
  topic = refl;
}

abbrev command_event : Event
command_event = record blank { type = set_output; value = pos 1; timestamp_ms = 90 }

switch_on-Command :
    Command host_json switch_on 90000 drained.task.application.world.heap command_event
unfolding has_byte has_text eqb_bytes
switch_on-Command = record {
  some_bytes = λ empty. absurd (ground arith);
  short = omega arith;
  no_nul = refl;
  no_escaped_nul = refl;
  root = root_item;
  parsed = refl;
  is_object = refl;
  object = record {
    command = command_item;
    value = value_item;
    type = set_output;
    two = refl;
    has_command = refl;
    has_value = refl;
    string = refl;
    on = true;
    switch = boolean refl refl;
    names = output refl refl;
    event = refl;
  };
}

abbrev commanded : Firmware host
commanded = mqtt_step drained (mqtt_event_data arrival) 90000

-- The input task polls before the application's round.
abbrev switched : Firmware host
switched = application_round device (input_round commanded readings) 91000 (pos 100000)

inputs_still_run : commanded.inputs.task_started ≡ true
unfolding main_step advance Input.start Input.initialize Input.poll_round application_round
    input_round mqtt_step Digital.initialize Encoder.initialize
inputs_still_run = refl

brings_nothing :
    brings_message {f = commanded} {g = input_round commanded readings}
      (polls readings inputs_still_run)
    ≡ false
unfolding brings_message
brings_nothing = refl

delivery_obeyed_example :
    let o = switched.task.application.output_manager in
    (switched.task.application.state_manager.output_state ≡ true)
    × (o.status_led.level ≡ some (level_for o.status_led.active_high true))
delivery_obeyed_example =
    delivery_obeyed device drained switched arrival 90000 1 switch_on command_event
      drained-IsFaithful.wired drained-IsFaithful.lit
      (subst (λ d. Complete d arrival switch_on) (sym drained_empty.3) arrival-Complete)
      switch_on-Command (ground (arith, drained_empty.0, drained_empty.2))
      (ground (arith, drained_empty.0))
      (after_round (after_step at_once (polls readings inputs_still_run) brings_nothing) 91000
        (pos 100000))
