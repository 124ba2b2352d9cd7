-- ===== src/Drivers/Encoder/Phase.antt =====
-- What the transition table means: the four states stand in a circle, 00, 10, 11, 01, and the count
-- follows the shaft's place in that circle.
use iot_visual_management_sy.Prelude.{
  ℕ, zero, suc, ◌+◌, ◌%◌, ◌<◌, ◌≡◌, refl, sym, ◌==◌, ℤ, pos, negsuc, ◌+ℤ◌, ◌≤ℤ◌, +ℤ-zero, ltb, Bool,
  true, eqb_ℤ_iff, arith, if◌then◌else◌, Bool-cases, inl, inr,
}
use iot_visual_management_sy.Rtos.{QueueApi}
use iot_visual_management_sy.EventQueue.{EventQueue}
use iot_visual_management_sy.Drivers.Encoder.{
  RotaryEncoder, Poll, read_state, movement, saturated, update, moved, observe,
}

-- The place of a state in the circle.
abbrev pub phase : ℕ → ℕ
phase zero = 0
phase (suc zero) = 3
phase (suc (suc zero)) = 1
phase _ = 2

-- One step round the circle, either way; anything else is no movement.
abbrev pub circle_move : ℕ → ℕ → ℤ
circle_move p c =
    if phase c == (phase p + 1) % 4
    then pos 1
    else if phase p == (phase c + 1) % 4
    then negsuc 0
    else pos 0

-- To check every state.
below_four {ℓ} : (P : ℕ → Type ℓ) → P 0 → P 1 → P 2 → P 3 → (n : ℕ) → n < 4 → P n
below_four P a b c d zero h = a
below_four P a b c d (suc zero) h = b
below_four P a b c d (suc (suc zero)) h = c
below_four P a b c d (suc (suc (suc zero))) h = d
below_four P a b c d (suc (suc (suc (suc n)))) h = absurd (omega arith)

pub read_state-lt : (a b : ℕ) → read_state a b < 4
unfolding read_state
read_state-lt a b = ground arith

-- The table is the circle: each of its sixteen entries is the direct step between two states, and
-- 0 for no step or a jump of two.
pub movement-circle : (p c : ℕ) → p < 4 → c < 4 → movement p c ≡ circle_move p c
unfolding movement
movement-circle p c h k = at_p p h c k
  where
    at_p : (p : ℕ) → p < 4 → (c : ℕ) → c < 4 → movement p c ≡ circle_move p c
    at_p =
        below_four (λ p. (c : ℕ) → c < 4 → movement p c ≡ circle_move p c)
          (below_four (λ c. movement 0 c ≡ circle_move 0 c) refl refl refl refl)
          (below_four (λ c. movement 1 c ≡ circle_move 1 c) refl refl refl refl)
          (below_four (λ c. movement 2 c ≡ circle_move 2 c) refl refl refl refl)
          (below_four (λ c. movement 3 c ≡ circle_move 3 c) refl refl refl refl)

-- Whether a value is one of int32, from -2147483648 to 2147483647.
abbrev pub fits_int32 : ℤ → Bool
fits_int32 (pos n) = ltb n 2147483648
fits_int32 (negsuc n) = ltb n 2147483648

-- The step that the count takes: none where it would leave int32.
unfoldable pub limited : ℤ → ℤ → ℤ
limited count m = if fits_int32 (count +ℤ m) then m else pos 0

limited-zero : (count : ℤ) → limited count (pos 0) ≡ pos 0
unfolding limited
limited-zero count = ground arith

-- The code's test stops the count exactly where the step would leave int32.
saturated-limited :
    (count m : ℤ)
    → fits_int32 count ≡ true
    → negsuc 0 ≤ℤ m
    → m ≤ℤ pos 1
    → (if saturated count m then pos 0 else m) ≡ limited count m
unfolding saturated limited ◌+ℤ◌
saturated-limited count m h lo hi = ground arith

pub circle_move_unit : (p c : ℕ) → (negsuc 0 ≤ℤ circle_move p c) × (circle_move p c ≤ℤ pos 1)
circle_move_unit p c = ground arith

circle_move_self : (c : ℕ) → c < 4 → circle_move c c ≡ pos 0
circle_move_self = below_four (λ c. circle_move c c ≡ pos 0) refl refl refl refl

module _ {api : QueueApi} where
  moved_lem :
      (r : RotaryEncoder) (q : EventQueue api) (c time : ℕ)
      → ((moved r q c time).0.previous_state ≡ c)
        × ((moved r q c time).0.count
            ≡ r.count
              +ℤ (if saturated r.count (movement r.previous_state c)
                  then pos 0
                  else movement r.previous_state c))
  unfolding moved
  moved_lem r q c time =
      ground (arith, +ℤ-zero r.count, eqb_ℤ_iff (movement r.previous_state c) (pos 0))

  observe_lem :
      (r : RotaryEncoder) (q : EventQueue api) (c time : ℕ)
      → r.previous_state < 4
      → c < 4
      → fits_int32 r.count ≡ true
      → ((observe r q c time).0.previous_state ≡ c)
        × ((observe r q c time).0.count
            ≡ r.count +ℤ limited r.count (circle_move r.previous_state c))
  unfolding observe
  observe_lem r q c time h k fits =
      let unit = circle_move_unit r.previous_state c in
      let table = movement-circle r.previous_state c h k in
      elim (Bool-cases (c == r.previous_state)) [
        | inl same ↦
            let e : r.previous_state ≡ c = ground arith in
            rw same
              (e, rw (e, circle_move_self c k) (rw (limited-zero r.count) (sym (+ℤ-zero r.count))))
        | inr other ↦
            let step =
              saturated-limited r.count (circle_move r.previous_state c) fits unit.0 unit.1 in
            rw (other, ← step, ← table) (moved_lem r q c time)
      ]

  -- One poll, whatever the levels, if the count is in int32: the new state is remembered, and the
  -- count changes by the shaft's step in the circle, or stays where that step would leave int32.
  pub update-circle :
      (r : RotaryEncoder) (q : EventQueue api) (p : Poll)
      → r.previous_state < 4
      → fits_int32 r.count ≡ true
      → let c = read_state p.level_a p.level_b in
        ((update r q p).0.previous_state ≡ c)
        × ((update r q p).0.count ≡ r.count +ℤ limited r.count (circle_move r.previous_state c))
  unfolding update
  update-circle r q p h fits =
      observe_lem r q (read_state p.level_a p.level_b) p.time_us h
        (read_state-lt p.level_a p.level_b) fits
