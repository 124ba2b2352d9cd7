-- ===== src/System/Track.antt =====
-- The values of a source on their way: what MQTT took, what the buffer holds and what waits in the
-- queue end with the value that the input reported.
use iot_visual_management_sy.Prelude.{
  ℕ, ◌/◌, ◌≡◌, ◌≢◌, refl, ap, sym, subst, ◌∙◌, ℤ, false, List, [], ◌∷◌, ◌++◌, All, Option, none,
  some, Bytes, arith, Bool-cases, inl, inr,
}
use iot_visual_management_sy.Event.{Event}
use iot_visual_management_sy.Rtos.{QueueApi, MutexApi}
use iot_visual_management_sy.EventQueue.{EventQueue}
use iot_visual_management_sy.EventQueue.Fifo.{contents, of_option, receive_lem}
use iot_visual_management_sy.Uplink.{Uplink, Message}
use iot_visual_management_sy.Application.{
  Application, Task, Round, should_publish, flush_if_any, process_event, process_received,
  retry_and_beat, run_round, heartbeat_event, heartbeat_due,
}
use iot_visual_management_sy.Application.Offer.{Unserializable}
use iot_visual_management_sy.Application.Flush.{flush_if_any-Flushed}
use iot_visual_management_sy.Application.Process.{process_event_lem}
use iot_visual_management_sy.Application.Holds.{Holds, told, Flushed-Holds, Processed-Holds}
use iot_visual_management_sy.Application.Converge.{told_after}
use iot_visual_management_sy.System.Emission.{sources, FromSource, Emits}

pub told_after-append :
    (j : ℕ) (v : Option ℤ) (xs ys : List Event)
    → told_after j v (xs ++ ys) ≡ told_after j (told_after j v xs) ys
unfolding told_after
told_after-append j v [] ys = refl
told_after-append j v (x ∷ xs) ys = told_after-append j (told j v x) xs ys

told_after-other :
    (j source : ℕ) (v : Option ℤ) (es : List Event)
    → source ≢ j
    → All (λ e. e.source_id ≡ source) es
    → told_after j v es ≡ v
unfolding told_after
told_after-other j source v [] n own = refl
told_after-other j source v (e ∷ es) n (at, own) =
    ap (λ x. told_after j x es) (ground (arith, at)) ∙ told_after-other j source v es n own

told_after-silent :
    (j : ℕ) (v : Option ℤ) (es : List Event)
    → All (λ e. should_publish e.type ≡ false) es
    → told_after j v es ≡ v
unfolding told_after
told_after-silent j v [] h = refl
told_after-silent j v (e ∷ es) (h, hs) = rw h (told_after-silent j v es hs)

module _ {u : Uplink} {m : MutexApi} {api : QueueApi} (device_id : Bytes)
    (before : List Message) where
  -- The last value of `j` that was told: in the events whose messages MQTT took since `before`,
  -- followed by those buffered and those that wait.
  pub record Tracks (j : ℕ) (value : Option ℤ) (q : EventQueue api) (a : Application u m)
      : Type 0 where
    pub so_far : Option ℤ
    pub holds : Holds device_id sources j before so_far a
    pub waiting : told_after j so_far (contents q) ≡ value

  Tracks-more :
      (j : ℕ) (v v' : Option ℤ) (q q' : EventQueue api) (a : Application u m) (es : List Event)
      → contents q' ≡ contents q ++ es
      → told_after j v es ≡ v'
      → Tracks j v q a
      → Tracks j v' q' a
  Tracks-more j v v' q q' a es at told_es t = record {
    so_far = t.so_far;
    holds = t.holds;
    waiting =
        ap (told_after j t.so_far) at
        ∙ told_after-append j t.so_far (contents q) es
        ∙ ap (λ x. told_after j x es) t.waiting
        ∙ told_es;
  }

  pub Tracks-own :
      (j : ℕ) (v v' : Option ℤ) (q q' : EventQueue api) (a : Application u m)
      → Emits j v v' q q'
      → Tracks j v q a
      → Tracks j v' q' a
  Tracks-own j v v' q q' a e = Tracks-more j v v' q q' a e.events e.added e.tells_after

  pub Tracks-other :
      (j source : ℕ) (v x x' : Option ℤ) (q q' : EventQueue api) (a : Application u m)
      → source ≢ j
      → Emits source x x' q q'
      → Tracks j v q a
      → Tracks j v q' a
  Tracks-other j source v x x' q q' a n e =
      Tracks-more j v v q q' a e.events e.added (told_after-other j source v e.events n e.own)

  pub Tracks-silent :
      (j : ℕ) (v : Option ℤ) (q q' : EventQueue api) (a : Application u m) (es : List Event)
      → contents q' ≡ contents q ++ es
      → All (λ e. should_publish e.type ≡ false) es
      → Tracks j v q a
      → Tracks j v q' a
  Tracks-silent j v q q' a es at h = Tracks-more j v v q q' a es at (told_after-silent j v es h)

  -- A change behind the application that keeps what was handed over.
  pub Tracks-world :
      (j : ℕ) (v : Option ℤ) (q : EventQueue api) (a : Application u m) (w : u.World)
      → u.handed w ≡ u.handed a.world
      → Tracks j v q a
      → Tracks j v q (record a { world = w })
  Tracks-world j v q a w same t = record {
    so_far = t.so_far;
    holds = record {
      sent = t.holds.sent;
      handed = same ∙ t.holds.handed;
      last = t.holds.last;
      valid = t.holds.valid;
      physical = t.holds.physical;
      fits = t.holds.fits;
    };
    waiting = t.waiting;
  }

  module _ (sure : (e : Event) → ¬ Unserializable u device_id e) where
    received-Tracks :
        (j : ℕ) (v : Option ℤ) (q q' : EventQueue api) (a : Application u m) (o : Option Event)
        → contents q ≡ of_option o ++ contents q'
        → All FromSource (contents q)
        → Tracks j v q a
        → Tracks j v q' (process_received device_id a o)
    unfolding told_after
    received-Tracks j v q q' a none at sound t = record {
      so_far = t.so_far;
      holds = t.holds;
      waiting = rw at at t.waiting;
    }
    received-Tracks j v q q' a (some e) at sound t =
        let sound' : All FromSource (e ∷ contents q') = subst (All FromSource) at sound in
        record {
          so_far = told j t.so_far e;
          holds =
              Processed-Holds device_id sources j before sure t.so_far a _ e (λ h. inr (sound'.0 h))
                (process_event_lem device_id a e t.holds.valid.ready) t.holds;
          waiting = ap (told_after j t.so_far) (sym at) ∙ t.waiting;
        }

    flush_if_any-Tracks :
        (j : ℕ) (v : Option ℤ) (q : EventQueue api) (a : Application u m)
        → Tracks j v q a
        → Tracks j v q (flush_if_any device_id a)
    flush_if_any-Tracks j v q a t = record {
      so_far = t.so_far;
      holds =
          Flushed-Holds device_id sources j before sure t.so_far a _
            (flush_if_any-Flushed device_id a t.holds.valid.ready) t.holds;
      waiting = t.waiting;
    }

    heartbeat-Tracks :
        (j : ℕ) (v : Option ℤ) (q : EventQueue api) (a : Application u m) (now : ℕ) (free_heap : ℤ)
        → j ≢ 0
        → Tracks j v q a
        → Tracks j v q (process_event device_id a (heartbeat_event now free_heap))
    heartbeat-Tracks j v q a now free_heap n t =
        let e = heartbeat_event now free_heap in
        let same : told j t.so_far e ≡ t.so_far = ground arith in
        record {
          so_far = t.so_far;
          holds =
              subst (λ x. Holds device_id sources j before x (process_event device_id a e)) same
                (Processed-Holds device_id sources j before sure t.so_far a _ e
                  (λ h. inl (refl, ground arith))
                  (process_event_lem device_id a e t.holds.valid.ready) t.holds);
          waiting = t.waiting;
        }

    retry_and_beat-Tracks :
        (j : ℕ) (v : Option ℤ) (q : EventQueue api) (t : Task u m) (now : ℕ) (free_heap : ℤ)
        → j ≢ 0
        → Tracks j v q t.application
        → Tracks j v q (retry_and_beat device_id t now free_heap).application
    retry_and_beat-Tracks j v q t now free_heap n h =
        let flushed = flush_if_any-Tracks j v q t.application h in
        elim (Bool-cases (heartbeat_due now t.last_heartbeat_ms)) [
          | inl due ↦ rw due (heartbeat-Tracks j v q _ now free_heap n flushed)
          | inr early ↦ rw early flushed
        ]

    pub run_round-Tracks :
        (j : ℕ) (v : Option ℤ) (t : Task u m) (r : Round api)
        → j ≢ 0
        → All FromSource (contents r.queue)
        → Tracks j v r.queue t.application
        → Tracks j v (run_round device_id t r).1 (run_round device_id t r).0.application
    unfolding run_round
    run_round-Tracks j v t r n sound h =
        let received =
          received-Tracks j v r.queue _ t.application _ (receive_lem r.queue).0 sound h in
        retry_and_beat-Tracks j v _ _ (r.time_us / 1000) r.free_heap n received
