-- ===== src/StateManager.antt =====
-- firmware/main/state/StateManager.cpp: the logical state of the station.
pub mod Latest
mod Examples
use iot_visual_management_sy.Prelude.{ℤ, pos, Bool, true, false, nonzero}
use iot_visual_management_sy.Event.{
  Event, EventType, button_pressed, button_released, toggle_changed, encoder_changed,
  analog_changed, remote_state_update, set_output,
}

pub record StateManager : Type 0 where
  pub button_state : Bool
  pub toggle_state : Bool
  pub encoder_value : ℤ
  pub analog_value : ℤ
  pub output_state : Bool

abbrev pub initial : StateManager
initial = record {
  button_state = false;
  toggle_state = false;
  encoder_value = pos 0;
  analog_value = pos 0;
  output_state = false;
}

-- The `switch` on `event.type`; the last clause is its `default`, with the connectivity events.
apply : EventType → Event → StateManager → StateManager
apply button_pressed event s = record s { button_state = true }
apply button_released event s = record s { button_state = false }
apply toggle_changed event s = record s { toggle_state = nonzero event.value }
apply encoder_changed event s = record s { encoder_value = event.value }
apply analog_changed event s = record s { analog_value = event.value }
apply set_output event s = record s { output_state = nonzero event.value }
apply remote_state_update event s = record s { output_state = nonzero event.value }
apply _ event s = s

unfoldable pub handle_event : StateManager → Event → StateManager
unfolding apply
handle_event s event = apply event.type event s
