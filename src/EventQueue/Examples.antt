-- ===== src/EventQueue/Examples.antt =====
-- The theorem about the event queue at a concrete history.
use iot_visual_management_sy.Prelude.{◌≡◌, refl, List, [], ◌∷◌, ◌++◌}
use iot_visual_management_sy.Event.{blank}
use iot_visual_management_sy.Rtos.Host.{host_queue}
use iot_visual_management_sy.EventQueue.{create}
use iot_visual_management_sy.EventQueue.Fifo.{
  Call, sends, receives, contents, run, Fits, run-create_fifo,
}

abbrev history : List Call
history =
    sends blank ∷ sends (record blank { source_id = 2 }) ∷ sends blank ∷ receives ∷ sends blank ∷ []

run-create_fifo_example :
    let r = run {api = host_queue} (create 2) (record { accepted = []; handed = [] }) history in
    (r.1.accepted ≡ r.1.handed ++ contents r.0) × Fits 2 r.0
run-create_fifo_example =
    run-create_fifo host_queue 2 history (record { capacity = 2; items = [] }) refl
