-- ===== src/Drivers/Digital/Debounce.antt =====
-- What the debounce promises over a run of polls: a report only of a level that has been steady, a
-- report for every steady change, and alternating reports.
use iot_visual_management_sy.Prelude.{
  ℕ, ◌+◌, ◌≤◌, ◌<◌, ◌≡◌, ◌≢◌, refl, ◌∙◌, sub64-exact, u64_mod, Bool, true, false, differ, List, [],
  ◌∷◌, ◌++◌, All, All-mono, arith, Bool-cases, inl, inr, if◌then◌else◌,
}
use iot_visual_management_sy.Rtos.{QueueApi}
use iot_visual_management_sy.EventQueue.{EventQueue}
use iot_visual_management_sy.Drivers.Digital.{DigitalInput, Poll, raw, to_ms, watch, due, update}
use iot_visual_management_sy.Drivers.Digital.Update.{tries, reports, update_lem}

-- A level that was read, with its time in milliseconds.
pub record Sample : Type 0 where
  pub level : Bool
  pub time : ℕ

abbrev pub sample : Poll → Sample
sample p = record { level = raw p.level; time = to_ms p.time_us }

-- The driver's timer stands for the samples seen, newest first, the last of them at `now`.
pub record Tracks (d : DigitalInput) (seen : List Sample) (now : ℕ) : Type 0 where
  pub past : d.last_change_time_ms ≤ now
  pub earlier : All (λ s. s.time ≤ now) seen
  pub steady : All (λ s. d.last_change_time_ms < s.time → s.level ≡ d.last_raw_state) seen

module _ (b : Bool) (now now' : ℕ) where
  steady_again :
      (last : ℕ) (was : Bool) (seen : List Sample)
      → now ≤ now'
      → All (λ s. s.time ≤ now) seen
      → All (λ s. now' < s.time → s.level ≡ b) seen
  steady_again last was [] h e = tt
  steady_again last was (s ∷ seen) h e =
      ((λ p. absurd (omega arith)), steady_again last was seen h e.1)

  later :
      (seen : List Sample)
      → now ≤ now'
      → All (λ s. s.time ≤ now) seen
      → All (λ s. s.time ≤ now') seen
  later seen h = All-mono (λ s. s.time ≤ now) (λ s. s.time ≤ now') seen (λ s k. omega arith)

  pub watch-Tracks :
      (d : DigitalInput) (seen : List Sample)
      → now ≤ now'
      → Tracks d seen now
      → Tracks (watch d b now') (record { level = b; time = now' } ∷ seen) now'
  unfolding watch
  watch-Tracks d seen h t = elim (Bool-cases (differ b d.last_raw_state)) [
    | inl changed ↦ rw changed (record {
      past = omega arith;
      earlier = (omega arith, later seen h t.earlier);
      steady = ((λ _. refl), steady_again 0 b seen h t.earlier);
    })
    | inr same ↦ rw same (record {
      past = omega (arith, t.past);
      earlier = (omega arith, later seen h t.earlier);
      steady = ((λ _. ground arith), t.steady);
    })
  ]

-- Every sample within the debounce time before `now` has the level `b`.
abbrev pub Settled : ℕ → Bool → ℕ → List Sample → Type 0
Settled debounce b now = All λ s. now < s.time + debounce → s.level ≡ b

pub due-Settled :
    (d : DigitalInput) (b : Bool) (now : ℕ) (seen : List Sample)
    → now < u64_mod
    → Tracks d seen now
    → d.last_raw_state ≡ b
    → due d b now ≡ true
    → Settled d.debounce_ms b now seen
unfolding due
due-Settled d b now seen word t e h =
    let long : d.debounce_ms + d.last_change_time_ms ≤ now =
      ground (arith, sub64-exact now d.last_change_time_ms t.past word) in
    All-mono _ (λ s. now < s.time + d.debounce_ms → s.level ≡ b) seen (λ s k p. k (omega arith) ∙ e)
      t.steady

pub retag :
    (d : DigitalInput) (seen : List Sample) (now : ℕ) (done b : Bool)
    → Tracks d seen now
    → Tracks
        (if done then record d { stable_state = b; initial_event_pending = false } else d)
        seen
        now
retag d seen now true b t = record { past = t.past; earlier = t.earlier; steady = t.steady }
retag d seen now false b t = t

tries_change :
    (d : DigitalInput) (p : Poll)
    → d.initial_event_pending ≡ false
    → tries d p ≡ true
    → raw p.level ≢ d.stable_state
unfolding due watch
tries_change d p h e = ground arith

pub watch_keeps :
    (d : DigitalInput) (b : Bool) (now : ℕ)
    → ((watch d b now).stable_state ≡ d.stable_state)
      × ((watch d b now).initial_event_pending ≡ d.initial_event_pending)
      × ((watch d b now).debounce_ms ≡ d.debounce_ms)
      × ((watch d b now).last_raw_state ≡ b)
unfolding watch
watch_keeps d b now = ground arith

-- Alternation: each report differs from the one before it.
abbrev pub Alternates : Bool → List Bool → Type 0
Alternates before [] = Unit {0}
Alternates before (b ∷ bs) = (b ≢ before) × Alternates b bs

module _ {api : QueueApi} where
  -- The samples that polls take, newest first, on top of those before.
  pub seen_after : List Sample → List (Poll × EventQueue api) → List Sample
  seen_after seen [] = seen
  seen_after seen ((p, q) ∷ ps) = seen_after (sample p ∷ seen) ps

  -- A run of polls. Each finds the queue as the other tasks left it.
  unfoldable pub run : DigitalInput → List (Poll × EventQueue api) → DigitalInput
  run d [] = d
  run d ((p, q) ∷ ps) = run (update d q p).0 ps

  -- The levels whose events entered the queue, oldest first.
  pub reported : DigitalInput → List (Poll × EventQueue api) → List Bool
  reported d [] = []
  reported d ((p, q) ∷ ps) =
      let later = reported (update d q p).0 ps in
      if reports d q p then raw p.level ∷ later else later

  -- The timer does not run backwards, and fits 64 bits.
  abbrev pub Chronological : ℕ → List (Poll × EventQueue api) → Type 0
  Chronological now [] = Unit {0}
  Chronological now ((p, q) ∷ ps) =
      (now ≤ to_ms p.time_us) × (to_ms p.time_us < u64_mod) × Chronological (to_ms p.time_us) ps

  update-Tracks :
      (d : DigitalInput) (p : Poll) (q : EventQueue api) (seen : List Sample) (now : ℕ)
      → now ≤ to_ms p.time_us
      → Tracks d seen now
      → Tracks (update d q p).0 (sample p ∷ seen) (to_ms p.time_us)
  update-Tracks d p q seen now h t =
      let w = watch-Tracks (raw p.level) now (to_ms p.time_us) d seen h t in
      rw (update_lem d q p).0
        (retag _ (sample p ∷ seen) (to_ms p.time_us) (reports d q p) (raw p.level) w)

  -- Once the initial report is out, every report differs from the one before: a press is reported
  -- only after a release, and the other way round.
  pub reported-Alternates :
      (d : DigitalInput) (ps : List (Poll × EventQueue api))
      → d.initial_event_pending ≡ false
      → Alternates d.stable_state (reported d ps)
  unfolding reported
  reported-Alternates d [] h = tt
  reported-Alternates d ((p, q) ∷ ps) h =
      let u = (update_lem d q p).0 in
      let w = watch_keeps d (raw p.level) (to_ms p.time_us) in
      let next = reported-Alternates (update d q p).0 ps in
      elim (Bool-cases (reports d q p)) [
        | inl done ↦
            let stable : (update d q p).0.stable_state ≡ raw p.level = rw (u, done) in
            let told : (update d q p).0.initial_event_pending ≡ false = rw (u, done) in
            rw done (tries_change d p h (ground arith), rw stable at (next told))
        | inr idle ↦
            let stable : (update d q p).0.stable_state ≡ d.stable_state = rw (u, idle) w.0 in
            let told : (update d q p).0.initial_event_pending ≡ false = rw (u, idle) (w.1 ∙ h) in
            rw idle (rw stable at (next told))
      ]

  pub run-Tracks :
      (d : DigitalInput) (ps : List (Poll × EventQueue api)) (seen : List Sample) (now : ℕ)
      → Chronological now ps
      → Tracks d seen now
      → (last : ℕ) × Tracks (run d ps) (seen_after seen ps) last
        × ((p : Poll) (q : EventQueue api)
            → Chronological now (ps ++ (p, q) ∷ [])
            → last ≤ to_ms p.time_us)
  unfolding run seen_after
  run-Tracks d [] seen now c t = (now, t, λ p q g. g.0)
  run-Tracks d ((p, q) ∷ ps) seen now c t =
      let r =
        run-Tracks (update d q p).0 ps (sample p ∷ seen) (to_ms p.time_us) c.2
          (update-Tracks d p q seen now c.0 t) in
      (r.0, r.1, λ p' q' g. r.2 p' q' g.2)
