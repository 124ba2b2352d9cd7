-- ===== src/Drivers/Encoder.antt =====
-- firmware/main/drivers/RotaryEncoder.cpp: the quadrature encoder. The GPIO levels and the timer are
-- arguments; the event queue that the driver refers to is passed through.
pub mod Phase
pub mod Count
pub mod Report
mod Examples
use iot_visual_management_sy.Prelude.{
  ℕ, zero, suc, ◌+◌, ◌*◌, ◌/◌, ◌%◌, ◌==◌, ℤ, pos, negsuc, ◌+ℤ◌, eqb_ℤ, int32_max, int32_min, Bool,
  true, false, ◌&&◌, ◌||◌, List, [], ◌∷◌, if◌then◌else◌,
}
use iot_visual_management_sy.Event.{Event, blank, encoder_changed}
use iot_visual_management_sy.Rtos.{QueueApi}
use iot_visual_management_sy.EventQueue.{EventQueue}
use iot_visual_management_sy.EventQueue

pub record RotaryEncoder : Type 0 where
  pub channel_a_pin : ℕ
  pub channel_b_pin : ℕ
  pub source_id : ℕ  -- uint32
  pub count : ℤ  -- int32
  pub previous_state : ℕ  -- uint8, [A B]

abbrev pub create : ℕ → ℕ → ℕ → RotaryEncoder
create a b source = record {
  channel_a_pin = a;
  channel_b_pin = b;
  source_id = source;
  count = pos 0;
  previous_state = 0;
}

-- The levels of the two channels at one poll, and the timer, in microseconds, as `publishCount`
-- reads it.
pub record Poll : Type 0 where
  pub level_a : ℕ
  pub level_b : ℕ
  pub time_us : ℕ

-- `gpio_get_level(pin) ? 1 : 0`
abbrev pub bit : ℕ → ℕ
bit level = if level == 0 then 0 else 1

-- Channel A is bit 1 and channel B is bit 0.
unfoldable pub read_state : ℕ → ℕ → ℕ
read_state level_a level_b = bit level_a * 2 + bit level_b

abbrev pub transition_table : List ℤ
transition_table =
    pos 0
    ∷ negsuc 0
    ∷ pos 1
    ∷ pos 0
    ∷ pos 1
    ∷ pos 0
    ∷ pos 0
    ∷ negsuc 0
    ∷ negsuc 0
    ∷ pos 0
    ∷ pos 0
    ∷ pos 1
    ∷ pos 0
    ∷ pos 1
    ∷ negsuc 0
    ∷ pos 0
    ∷ []

-- An index outside the table does not occur (see Drivers/Encoder/Phase.antt).
abbrev pub entry : List ℤ → ℕ → ℤ
entry [] i = pos 0
entry (x ∷ xs) zero = x
entry (x ∷ xs) (suc i) = entry xs i

-- `(previous << 2) | current`, as a uint8.
pub movement : ℕ → ℕ → ℤ
movement previous current = entry transition_table ((previous * 4 + current) % 256)

abbrev is_positive : ℤ → Bool
is_positive (pos n) = if n == 0 then false else true
is_positive (negsuc n) = false

abbrev is_negative : ℤ → Bool
is_negative (pos n) = false
is_negative (negsuc n) = true

-- The count stays at the limits of int32.
unfoldable pub saturated : ℤ → ℤ → Bool
saturated count m = is_positive m && eqb_ℤ count int32_max || is_negative m && eqb_ℤ count int32_min

-- The argument is `gpio_config(&config) == ESP_OK`.
unfoldable pub initialize : Bool → ℕ → ℕ → RotaryEncoder → Bool × RotaryEncoder
initialize configured level_a level_b r =
    if configured
    then (true, record r { previous_state = read_state level_a level_b })
    else (false, r)

module _ {api : QueueApi} where
  unfoldable pub publish_count : RotaryEncoder → EventQueue api → ℕ → EventQueue api
  publish_count r q time_us =
      (EventQueue.send q (record blank {
        type = encoder_changed;
        source_id = r.source_id;
        value = r.count;
        timestamp_ms = time_us / 1000;
        sequence_id = 0;
      })).1

  -- The part of `update` behind the first return.
  unfoldable pub moved : RotaryEncoder → EventQueue api → ℕ → ℕ → RotaryEncoder × EventQueue api
  unfolding publish_count
  moved r q current time_us =
      let m = movement r.previous_state current in
      let r' = record r { previous_state = current } in
      if eqb_ℤ m (pos 0)
      then (r', q)
      else if saturated r.count m
      then (r', q)
      else (let r'' = record r' { count = r.count +ℤ m } in (r'', publish_count r'' q time_us))

  -- `update` for the state that was read.
  unfoldable pub observe : RotaryEncoder → EventQueue api → ℕ → ℕ → RotaryEncoder × EventQueue api
  observe r q current time_us =
      if current == r.previous_state then (r, q) else moved r q current time_us

  unfoldable pub update : RotaryEncoder → EventQueue api → Poll → RotaryEncoder × EventQueue api
  update r q p = observe r q (read_state p.level_a p.level_b) p.time_us
