-- ===== src/Drivers/Encoder/Examples.antt =====
-- The theorems about the encoder on a turn of its shaft.
use iot_visual_management_sy.Prelude.{
  ◌++◌, if◌then◌else◌, ℕ, ◌≡◌, ◌+ℤ◌, refl, pos, List, [], ◌∷◌, some, arith,
}
use iot_visual_management_sy.Rtos.Host.{host_queue}
use iot_visual_management_sy.EventQueue.{EventQueue}
use iot_visual_management_sy.Drivers.Encoder.{RotaryEncoder, Poll, create, read_state, update}
use iot_visual_management_sy.Drivers.Encoder.Phase.{phase, circle_move, limited, update-circle}
use iot_visual_management_sy.Drivers.Encoder.Report.{tells, count_event, update_reports}
use iot_visual_management_sy.EventQueue.Fifo.{contents}
use iot_visual_management_sy.Drivers.Encoder.Count.{
  InInt32, mod4, run, Way, moves, arrived, run-InInt32, run-position,
}

abbrev encoder : RotaryEncoder
encoder = create 6 7 3

abbrev queue : EventQueue host_queue
queue = record { handle = some (record { capacity = 2; items = [] }) }

abbrev poll : ℕ → ℕ → Poll
poll a b = record { level_a = a; level_b = b; time_us = 10000 }

abbrev turn : List (Poll × EventQueue host_queue)
turn = (poll 1 0, queue) ∷ (poll 1 1, queue) ∷ (poll 0 1, queue) ∷ (poll 0 0, queue) ∷ []

update-circle_example :
    ((update encoder queue (poll 0 1)).0.previous_state ≡ read_state 0 1)
    × ((update encoder queue (poll 0 1)).0.count
        ≡ pos 0 +ℤ limited (pos 0) (circle_move 0 (read_state 0 1)))
update-circle_example = update-circle encoder queue (poll 0 1) (omega arith) refl

run-InInt32_example : InInt32 (run encoder turn).count
run-InInt32_example = run-InInt32 encoder turn (omega arith) (omega arith, omega arith)

-- The shaft turns once, from the position 0 to the position 4.
turn-Way : Way (pos 0) turn (pos 4)
unfolding read_state mod4 ◌+ℤ◌
turn-Way = moves (pos 1) (omega arith) (omega arith) refl (
    moves (pos 1) (omega arith) (omega arith) refl (
      moves (pos 1) (omega arith) (omega arith) refl
        (moves (pos 1) (omega arith) (omega arith) refl arrived)))

start_mod4 : phase 0 ≡ mod4 (pos 0)
unfolding mod4
start_mod4 = refl

run-position_example : (run encoder turn).count +ℤ pos 0 ≡ pos 0 +ℤ pos 4
run-position_example =
    run-position encoder turn (pos 0) (pos 4) (omega arith) (omega arith) start_mod4 turn-Way

update_reports_example :
    let r' = (update encoder queue (poll 1 0)).0 in
    contents (update encoder queue (poll 1 0)).1
    ≡ contents queue ++ (if tells r' (pos 0) queue then count_event r' 10000 ∷ [] else [])
update_reports_example = update_reports encoder queue (poll 1 0)
