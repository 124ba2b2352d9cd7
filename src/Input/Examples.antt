-- ===== src/Input/Examples.antt =====
-- The theorems about the inputs at a concrete setup and round.
use iot_visual_management_sy.Prelude.{◌⊎◌, ◌≡◌, ◌+◌, refl, true, false, pos, some, []}
use iot_visual_management_sy.Event.{button_pressed, button_released, toggle_changed}
use iot_visual_management_sy.Rtos.Host.{host_queue}
use iot_visual_management_sy.EventQueue.{EventQueue}
use iot_visual_management_sy.EventQueue.Fifo.{contents}
use iot_visual_management_sy.Drivers.Digital
use iot_visual_management_sy.Drivers.Encoder
use iot_visual_management_sy.Drivers.Analog
use iot_visual_management_sy.Drivers.Analog.Host.{host_adc}
use iot_visual_management_sy.Input.{InputManager, Setup, Readings, initialize, poll_round}
use iot_visual_management_sy.Input.Round.{Added, poll_round-Added}
use iot_visual_management_sy.Input.Startup.{all_configured, initialize_units}

abbrev inputs : InputManager host_adc
inputs = record {
  button_input = Digital.create 4 1 button_pressed button_released 30;
  toggle_input = Digital.create 5 2 toggle_changed toggle_changed 30;
  rotary_encoder = Encoder.create 6 7 3;
  analog_input = Analog.create 0 3 4 2;
  task_started = false;
}

abbrev setup : Setup
setup = record {
  button_configured = true;
  button_level = 1;
  button_time_us = 1000;
  toggle_configured = true;
  toggle_level = 1;
  toggle_time_us = 1100;
  encoder_configured = false;
  encoder_level_a = 1;
  encoder_level_b = 1;
}

abbrev queue : EventQueue host_queue
queue = record { handle = some (record { capacity = 4; items = [] }) }

abbrev readings : Readings
readings = record {
  button = record { level = 0; time_us = 50000; publish_time_us = 50000 };
  toggle = record { level = 0; time_us = 50000; publish_time_us = 50000 };
  encoder = record { level_a = 1; level_b = 0; time_us = 50000 };
  analog_time_us = 50000;
}

poll_round-Added_example :
    Added inputs (contents queue) (contents (poll_round inputs queue (pos 2048, 1) readings).0.1)
poll_round-Added_example = poll_round-Added inputs queue (pos 2048, 1) readings

initialize_units_example :
    let r = initialize inputs setup (pos 2048, 0) in
    ((r.0 ≡ true) × (all_configured setup ≡ true) × (host_adc.units r.1.1 ≡ 0 + 1))
    ⊎ ((r.0 ≡ false) × (r.1.0.analog_input ≡ inputs.analog_input) × (host_adc.units r.1.1 ≡ 0))
unfolding Analog.create
initialize_units_example = initialize_units inputs setup (pos 2048, 0) refl
