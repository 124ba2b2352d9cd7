-- ===== src/Drivers/Encoder/Report.antt =====
-- What the encoder reports.
use iot_visual_management_sy.Prelude.{
  ℕ, ◌/◌, ◌≡◌, ltb, length, ℤ, pos, ◌+ℤ◌, eqb_ℤ, Bool, true, false, not, ◌&&◌, [], ◌∷◌, ◌++◌,
  append-nil, arith, Bool-cases, inl, inr, if◌then◌else◌, ◌==◌,
}
use iot_visual_management_sy.Event.{Event, blank, encoder_changed}
use iot_visual_management_sy.Rtos.{QueueApi}
use iot_visual_management_sy.EventQueue.{EventQueue}
use iot_visual_management_sy.EventQueue.Fifo.{contents, capacity, send_lem, Fits, send-Fits}
use iot_visual_management_sy.Drivers.Encoder.{
  RotaryEncoder, Poll, read_state, movement, saturated, publish_count, moved, observe, update,
}

abbrev pub count_event : RotaryEncoder → ℕ → Event
count_event r time_us = record blank {
  type = encoder_changed;
  source_id = r.source_id;
  value = r.count;
  timestamp_ms = time_us / 1000;
  sequence_id = 0;
}

moves_count : (c m : ℤ) → eqb_ℤ m (pos 0) ≡ false → eqb_ℤ (c +ℤ m) c ≡ false
unfolding ◌+ℤ◌
moves_count c m h = ground arith

same_count : (c : ℤ) → eqb_ℤ c c ≡ true
same_count c = ground arith

module _ {api : QueueApi} where
  -- The count moved, and the queue has room.
  abbrev pub tells : RotaryEncoder → ℤ → EventQueue api → Bool
  tells r before q = not (eqb_ℤ r.count before) && ltb (length (contents q)) (capacity q)

  moved_reports :
      (r : RotaryEncoder) (q : EventQueue api) (c time : ℕ)
      → let r' = (moved r q c time).0 in
        contents (moved r q c time).1
        ≡ contents q ++ (if tells r' r.count q then count_event r' time ∷ [] else [])
  unfolding moved publish_count
  moved_reports r q c time =
      let m = movement r.previous_state c in
      ground (
        arith,
        send_lem q (count_event (record r { previous_state = c; count = r.count +ℤ m }) time),
        append-nil (contents q),
        moves_count r.count m,
        same_count r.count,
      )

  -- A poll appends an event exactly if it changed the count and the queue has room; the event
  -- carries the new count. Otherwise the queue keeps its contents.
  pub update_reports :
      (r : RotaryEncoder) (q : EventQueue api) (p : Poll)
      → let r' = (update r q p).0 in
        contents (update r q p).1
        ≡ contents q ++ (if tells r' r.count q then count_event r' p.time_us ∷ [] else [])
  unfolding update observe
  update_reports r q p = elim (Bool-cases (read_state p.level_a p.level_b == r.previous_state)) [
    | inl still ↦ ground (arith, same_count r.count, append-nil (contents q))
    | inr other ↦ ground (arith, moved_reports r q (read_state p.level_a p.level_b) p.time_us)
  ]

  pub update_source :
      (r : RotaryEncoder) (q : EventQueue api) (p : Poll) → (update r q p).0.source_id ≡ r.source_id
  unfolding update observe moved
  update_source r q p = ground arith

  -- A poll sends one event or none.
  pub update-Fits :
      (r : RotaryEncoder) (q : EventQueue api) (p : Poll) (n : ℕ)
      → Fits n q
      → Fits n (update r q p).1
  unfolding update observe moved publish_count
  update-Fits r q p n h =
      let c = read_state p.level_a p.level_b in
      let m = movement r.previous_state c in
      elim (Bool-cases (c == r.previous_state)) [
        | inl still ↦ rw still h
        | inr other ↦ elim (Bool-cases (eqb_ℤ m (pos 0))) [
          | inl jump ↦ rw (other, jump) h
          | inr step ↦ elim (Bool-cases (saturated r.count m)) [
            | inl end ↦ rw (other, step, end) h
            | inr free ↦ rw (other, step, free) (send-Fits q _ n h)
          ]
        ]
      ]
