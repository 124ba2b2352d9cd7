-- ===== src/Application/Beats.antt =====
-- The heartbeats of the task's loop: when they are made, over any number of rounds.
use iot_visual_management_sy.Prelude.{
  ℕ, ◌+◌, ◌/◌, ◌≤◌, ◌<◌, ◌≡◌, ◌≢◌, ◌∙◌, ap, refl, ◌==◌, not, u64_mod, sub64-exact, next32, ℤ, Bool,
  true, false, List, [], ◌∷◌, Bytes, arith, Bool-cases, inl, inr, if◌then◌else◌,
}
use iot_visual_management_sy.Rtos.{MutexApi, QueueApi}
use iot_visual_management_sy.EventQueue
use iot_visual_management_sy.Uplink.{Uplink}
use iot_visual_management_sy.Application.{
  Application, Task, Round, heartbeat_event, heartbeat_due, process_received, retry_and_beat,
  run_round, process_event, restore, flush_if_any,
}
use iot_visual_management_sy.Application.Lit.{
  flush_if_any-SameManagers, publish_or_buffer-SameManagers,
}

-- Rounds, by their times and whether they make a heartbeat: a heartbeat is made exactly in the rounds
-- at least 30000 ms after the one before.
abbrev pub Timely : ℕ → List (ℕ × Bool) → Type 0
Timely last [] = Unit {0}
Timely last ((now, true) ∷ rs) = (last + 30000 ≤ now) × Timely now rs
Timely last ((now, false) ∷ rs) = (now < last + 30000) × Timely last rs

-- The timer does not run backwards, and fits 64 bits.
abbrev pub Chronological : {api : QueueApi} → ℕ → List (Round api) → Type 0
Chronological before [] = Unit {0}
Chronological before (r ∷ rs) =
    (before ≤ r.time_us / 1000) × (r.time_us / 1000 < u64_mod) × Chronological (r.time_us / 1000) rs

next32-ne : (n : ℕ) → next32 n ≢ n
next32-ne n h = omega (arith, h)

module _ {u : Uplink} {m : MutexApi} (device_id : Bytes) where
  heartbeat_number :
      (a : Application u m) (now : ℕ) (free_heap : ℤ)
      → (process_event device_id a (heartbeat_event now free_heap)).next_sequence_id
        ≡ next32 a.next_sequence_id
  unfolding process_event restore
  heartbeat_number a now free_heap = (publish_or_buffer-SameManagers device_id _ _).number

  retry_and_beat-number :
      (t : Task u m) (now : ℕ) (free_heap : ℤ)
      → (retry_and_beat device_id t now free_heap).application.next_sequence_id ≡ (
          if heartbeat_due now t.last_heartbeat_ms
          then next32 t.application.next_sequence_id
          else t.application.next_sequence_id)
  retry_and_beat-number t now free_heap =
      let a = flush_if_any device_id t.application in
      let same = (flush_if_any-SameManagers device_id t.application).number in
      elim (Bool-cases (heartbeat_due now t.last_heartbeat_ms)) [
        | inl due ↦ rw due (heartbeat_number a now free_heap ∙ ap next32 same)
        | inr early ↦ rw early same
      ]

module _ {u : Uplink} {m : MutexApi} {api : QueueApi} (device_id : Bytes) where
  -- The round gives out a sequence number beyond that of the event that it received: that of the
  -- heartbeat, the only event that it makes itself.
  pub made_own : Task u m → Round api → Bool
  made_own t r =
      let received = process_received device_id t.application (EventQueue.receive r.queue).0 in
      not ((run_round device_id t r).0.application.next_sequence_id == received.next_sequence_id)

  -- The times of the rounds, in milliseconds, and whether each makes a heartbeat.
  pub beats : Task u m → List (Round api) → List (ℕ × Bool)
  beats t [] = []
  beats t (r ∷ rs) = (r.time_us / 1000, made_own t r) ∷ beats (run_round device_id t r).0 rs

  last_heartbeat :
      (t : Task u m) (r : Round api)
      → (run_round device_id t r).0.last_heartbeat_ms ≡ (
          if heartbeat_due (r.time_us / 1000) t.last_heartbeat_ms
          then r.time_us / 1000
          else t.last_heartbeat_ms)
  unfolding run_round
  last_heartbeat t r = elim (Bool-cases (heartbeat_due (r.time_us / 1000) t.last_heartbeat_ms)) [
    | inl due ↦ rw due refl
    | inr early ↦ rw early refl
  ]

  made_own-due :
      (t : Task u m) (r : Round api)
      → made_own t r ≡ heartbeat_due (r.time_us / 1000) t.last_heartbeat_ms
  unfolding made_own run_round
  made_own-due t r =
      let received = process_received device_id t.application (EventQueue.receive r.queue).0 in
      let number =
        retry_and_beat-number device_id (record t { application = received }) (r.time_us / 1000)
          r.free_heap in
      elim (Bool-cases (heartbeat_due (r.time_us / 1000) t.last_heartbeat_ms)) [
        | inl due ↦ ground (arith, number, next32-ne received.next_sequence_id)
        | inr early ↦ ground (arith, number)
      ]

  beats-Timely :
      (t : Task u m) (rs : List (Round api)) (before : ℕ)
      → t.last_heartbeat_ms ≤ before
      → Chronological before rs
      → Timely t.last_heartbeat_ms (beats t rs)
  unfolding beats
  beats-Timely t [] before past order = tt
  beats-Timely t (r ∷ rs) before past order =
      let now = r.time_us / 1000 in
      let next = beats-Timely (run_round device_id t r).0 rs now in
      let last = last_heartbeat t r in
      let own = made_own-due t r in
      elim (Bool-cases (heartbeat_due now t.last_heartbeat_ms)) [
        | inl due ↦
            let same : (run_round device_id t r).0.last_heartbeat_ms ≡ now = rw due at last in
            rw (own, due)
              (
                ground (arith, sub64-exact now t.last_heartbeat_ms),
                rw same at (next (omega (arith, same)) order.2),
              )
        | inr early ↦
            let same : (run_round device_id t r).0.last_heartbeat_ms ≡ t.last_heartbeat_ms =
              rw early at last in
            rw (own, early)
              (
                ground (arith, sub64-exact now t.last_heartbeat_ms),
                rw same at (next (omega (arith, same)) order.2),
              )
      ]

  -- In a run whose timer does not go backwards, a heartbeat is made exactly in the rounds that lie at
  -- least 30000 ms after the heartbeat before, the first after the start value of `lastHeartbeatMs`. A
  -- round makes one exactly if it gives out a sequence number beyond that of the event that it
  -- received.
  pub beats_spaced :
      (t : Task u m) (rs : List (Round api))
      → Chronological t.last_heartbeat_ms rs
      → Timely t.last_heartbeat_ms (beats t rs)
  beats_spaced t rs order = beats-Timely t rs t.last_heartbeat_ms (omega arith) order
