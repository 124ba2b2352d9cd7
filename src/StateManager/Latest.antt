-- ===== src/StateManager/Latest.antt =====
-- The state is that of the latest event of each kind: an independent reading of a history.
use iot_visual_management_sy.Prelude.{
  ◌≡◌, refl, ℤ, Bool, true, false, nonzero, List, [], ◌∷◌, Option, none, some, arith,
}
use iot_visual_management_sy.Event.{
  Event, EventType, button_pressed, button_released, toggle_changed, encoder_changed,
  analog_changed, remote_state_update, set_output,
}
use iot_visual_management_sy.StateManager.{StateManager, handle_event}

-- What one event says of each of the five values, if anything.
abbrev of_button : EventType → Option Bool
of_button button_pressed = some true
of_button button_released = some false
of_button _ = none

abbrev of_toggle : EventType → ℤ → Option Bool
of_toggle toggle_changed v = some (nonzero v)
of_toggle _ v = none

abbrev of_encoder : EventType → ℤ → Option ℤ
of_encoder encoder_changed v = some v
of_encoder _ v = none

abbrev of_analog : EventType → ℤ → Option ℤ
of_analog analog_changed v = some v
of_analog _ v = none

abbrev pub of_output : EventType → ℤ → Option Bool
of_output set_output v = some (nonzero v)
of_output remote_state_update v = some (nonzero v)
of_output _ v = none

-- The last value that a history states, or the one before it.
pub latest {ℓ} : {A : Type ℓ} → (Event → Option A) → A → List Event → A
latest says before [] = before
latest says before (e ∷ es) = latest says (elim (says e) [ none ↦ before | some v ↦ v ]) es

unfoldable pub handle_all : StateManager → List Event → StateManager
handle_all s [] = s
handle_all s (e ∷ es) = handle_all (handle_event s e) es

-- The state that a history leaves, by looking up each value on its own.
abbrev pub state_of : StateManager → List Event → StateManager
state_of s es = record {
  button_state = latest (λ e. of_button e.type) s.button_state es;
  toggle_state = latest (λ e. of_toggle e.type e.value) s.toggle_state es;
  encoder_value = latest (λ e. of_encoder e.type e.value) s.encoder_value es;
  analog_value = latest (λ e. of_analog e.type e.value) s.analog_value es;
  output_state = latest (λ e. of_output e.type e.value) s.output_state es;
}

step :
    (s : StateManager) (e : Event) (es : List Event)
    → state_of (handle_event s e) es ≡ state_of s (e ∷ es)
unfolding latest handle_event
step s e es = ground arith

-- Handling the events one after the other gives the state read off from the latest event of each
-- kind: press and release for the button, and so on. Nothing else in the history matters.
pub handle_all-state_of : (s : StateManager) (es : List Event) → handle_all s es ≡ state_of s es
unfolding handle_all latest
handle_all-state_of s [] = refl
handle_all-state_of s (e ∷ es) = rw (handle_all-state_of (handle_event s e) es) (step s e es)
