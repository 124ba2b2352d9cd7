-- ===== src/Drivers/Digital/Promise.antt =====
-- The two sides of the debounce, over any run of polls: no report of a level that bounced, and a
-- report of every level that stays.
use iot_visual_management_sy.Prelude.{ℕ, ◌≤◌, ◌≡◌, Bool, List, All}
use iot_visual_management_sy.Rtos.{QueueApi}
use iot_visual_management_sy.EventQueue.{EventQueue}
use iot_visual_management_sy.Drivers.Digital.{DigitalInput, Poll, raw}

-- The driver's timer stands at `since` at the latest, for the level `b`.
pub record Holds (d : DigitalInput) (b : Bool) (since : ℕ) : Type 0 where
  pub last_raw : d.last_raw_state ≡ b
  pub change : d.last_change_time_ms ≤ since

module _ {api : QueueApi} where
  -- Polls that all read the level `b`.
  abbrev pub AllRead : Bool → List (Poll × EventQueue api) → Type 0
  AllRead b = All λ pq. raw pq.0.level ≡ b
