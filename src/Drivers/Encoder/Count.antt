-- ===== src/Drivers/Encoder/Count.antt =====
-- The encoder's count over a whole run of polls: it stays in int32, and while the shaft turns by one
-- position at a time it follows the shaft's way exactly.
use iot_visual_management_sy.Prelude.{
  ℕ, ◌+◌, ◌-◌, ◌%◌, ◌^◌, ◌≤◌, ◌<◌, ◌≡◌, ◌∙◌, ap, refl, true, ℤ, pos, negsuc, ◌+ℤ◌, +ℤ_parts, ◌≤ℤ◌,
  pos_part, neg_part, int32_max, int32_min, List, [], ◌∷◌, length, arith,
}
use iot_visual_management_sy.Rtos.{QueueApi}
use iot_visual_management_sy.EventQueue.{EventQueue}
use iot_visual_management_sy.Drivers.Encoder.{RotaryEncoder, Poll, read_state, update}
use iot_visual_management_sy.Drivers.Encoder.Phase.{
  phase, circle_move, fits_int32, limited, read_state-lt, update-circle,
}

abbrev pub InInt32 : ℤ → Type 0
InInt32 c = (int32_min ≤ℤ c) × (c ≤ℤ int32_max)

InInt32-fits : (c : ℤ) → InInt32 c → fits_int32 c ≡ true
InInt32-fits c h = ground arith

limited-InInt32 : (c m : ℤ) → InInt32 c → InInt32 (c +ℤ limited c m)
unfolding limited ◌+ℤ◌
limited-InInt32 c m h = ground arith

-- The place in the circle that a position of the shaft has.
unfoldable pub mod4 : ℤ → ℕ
mod4 (pos n) = n % 4
mod4 (negsuc n) = 3 - n % 4

-- The way of the shaft at a step of at most one is the step that the circle shows.
circle_move-mod4 :
    (p c : ℕ) (z m : ℤ)
    → phase p ≡ mod4 z
    → phase c ≡ mod4 (z +ℤ m)
    → negsuc 0 ≤ℤ m
    → m ≤ℤ pos 1
    → circle_move p c ≡ m
unfolding mod4 ◌+ℤ◌
circle_move-mod4 p c z m h k lo hi = ground arith

step_size :
    (c m : ℤ)
    → negsuc 0 ≤ℤ m
    → m ≤ℤ pos 1
    → pos_part (c +ℤ m) + neg_part (c +ℤ m) ≤ pos_part c + neg_part c + 1
unfolding ◌+ℤ◌
step_size c m lo hi = ground arith

limited_free :
    (c m : ℤ) → negsuc 0 ≤ℤ m → m ≤ℤ pos 1 → pos_part c + neg_part c + 1 < 2 ^ 31 → limited c m ≡ m
unfolding limited ◌+ℤ◌
limited_free c m lo hi h = ground arith

parts_equal : (a b : ℤ) → pos_part a + neg_part b ≡ pos_part b + neg_part a → a ≡ b
parts_equal a b h = ground arith

moved_by : (n c z m t : ℤ) → n +ℤ (z +ℤ m) ≡ (c +ℤ m) +ℤ t → n +ℤ z ≡ c +ℤ t
moved_by n c z m t h = parts_equal (n +ℤ z) (c +ℤ t) (
    omega (
      arith,
      +ℤ_parts n z,
      +ℤ_parts c t,
      +ℤ_parts z m,
      +ℤ_parts n (z +ℤ m),
      +ℤ_parts c m,
      +ℤ_parts (c +ℤ m) t,
      ap pos_part h,
      ap neg_part h,
    ))

-- A run of polls. Each finds the queue as the other tasks left it.
module _ {api : QueueApi} where
  pub run : RotaryEncoder → List (Poll × EventQueue api) → RotaryEncoder
  run r [] = r
  run r ((p, q) ∷ ps) = run (update r q p).0 ps

  -- A way of the shaft, as positions in quarters of a cycle, that moves by at most one position
  -- between two polls; each poll reads the levels of the position that it finds.
  pub data Way : ℤ → List (Poll × EventQueue api) → ℤ → Type 0 where
    arrived : {from : ℤ} → Way from [] from
    moves :
        {p : Poll} {q : EventQueue api} {ps : List (Poll × EventQueue api)} {from to : ℤ} (m : ℤ)
        → negsuc 0 ≤ℤ m
        → m ≤ℤ pos 1
        → phase (read_state p.level_a p.level_b) ≡ mod4 (from +ℤ m)
        → Way (from +ℤ m) ps to
        → Way from ((p, q) ∷ ps) to

  -- However the levels change, the count of a run of polls that starts in int32 stays in int32.
  pub run-InInt32 :
      (r : RotaryEncoder) (ps : List (Poll × EventQueue api))
      → r.previous_state < 4
      → InInt32 r.count
      → InInt32 (run r ps).count
  unfolding run
  run-InInt32 r [] h b = b
  run-InInt32 r ((p, q) ∷ ps) h b =
      let c = read_state p.level_a p.level_b in
      let u = update-circle r q p h (InInt32-fits r.count b) in
      run-InInt32 (update r q p).0 ps (rw u.0 (read_state-lt p.level_a p.level_b))
        (rw u.1 (limited-InInt32 r.count (circle_move r.previous_state c) b))

  -- One poll with room in int32 counts the shaft's step.
  update-count :
      (r : RotaryEncoder) (p : Poll) (q : EventQueue api) (z m : ℤ)
      → r.previous_state < 4
      → pos_part r.count + neg_part r.count + 1 < 2 ^ 31
      → phase r.previous_state ≡ mod4 z
      → phase (read_state p.level_a p.level_b) ≡ mod4 (z +ℤ m)
      → negsuc 0 ≤ℤ m
      → m ≤ℤ pos 1
      → (update r q p).0.count ≡ r.count +ℤ m
  update-count r p q z m h room at next lo hi =
      let c = read_state p.level_a p.level_b in
      let u = update-circle r q p h (ground arith) in
      let step = circle_move-mod4 r.previous_state c z m at next lo hi in
      u.1
      ∙ ap (λ x. r.count +ℤ limited r.count x) step
      ∙ ap (λ x. r.count +ℤ x) (limited_free r.count m lo hi room)

  -- The count is the shaft's way: from a remembered state that agrees with the shaft's position, while
  -- the shaft moves by at most one position between two polls, and the count is far enough from the
  -- limits of int32 for the polls that come, the count changes by exactly as much as the position, so
  -- that a turn of four positions counts four, one way or the other.
  pub run-position :
      (r : RotaryEncoder) (ps : List (Poll × EventQueue api)) (from to : ℤ)
      → r.previous_state < 4
      → pos_part r.count + neg_part r.count + length ps < 2 ^ 31
      → phase r.previous_state ≡ mod4 from
      → Way from ps to
      → (run r ps).count +ℤ from ≡ r.count +ℤ to
  unfolding run
  run-position r [] from to h room at arrived = refl
  run-position r ((p, q) ∷ ps) from to h room at (moves m lo hi next way) =
      let u = update-circle r q p h (ground arith) in
      let count = update-count r p q from m h (omega arith) at next lo hi in
      let size = step_size r.count m lo hi in
      let rest =
        run-position (update r q p).0 ps (from +ℤ m) to (rw u.0 (read_state-lt p.level_a p.level_b))
          (rw count (omega (arith, size))) (rw u.0 next) way in
      moved_by _ r.count from m to (rest ∙ ap (λ x. x +ℤ to) count)
