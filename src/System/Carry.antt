-- ===== src/System/Carry.antt =====
-- The queue and the values of the three inputs that are told for sure, on their way together.
use iot_visual_management_sy.Prelude.{
  ℕ, ◌≡◌, subst, none, some, ◌∷◌, All-mono, ℤ, List, ◌++◌, All, All-append, Option, Bytes, arith,
}
use iot_visual_management_sy.Config.{event_queue_size}
use iot_visual_management_sy.Event.{Event}
use iot_visual_management_sy.Rtos.{QueueApi, MutexApi}
use iot_visual_management_sy.EventQueue.{EventQueue}
use iot_visual_management_sy.EventQueue.Fifo.{contents, of_option, receive_lem, Fits, receive-Fits}
use iot_visual_management_sy.EventQueue
use iot_visual_management_sy.Uplink.{Uplink, Message}
use iot_visual_management_sy.Application.{Application, Task, Round, run_round}
use iot_visual_management_sy.Application.Offer.{Unserializable}
use iot_visual_management_sy.Mqtt.Quiet.{Quiet}
use iot_visual_management_sy.System.Emission.{FromSource, Emits}
use iot_visual_management_sy.System.Track.{
  Tracks, Tracks-own, Tracks-other, Tracks-silent, Tracks-world, run_round-Tracks,
}

more_sound :
    {api : QueueApi} (q q' : EventQueue api) (es : List Event)
    → contents q' ≡ contents q ++ es
    → All FromSource es
    → All FromSource (contents q)
    → All FromSource (contents q')
more_sound q q' es at new old = rw at (All-append FromSource (contents q) es old new)

rest_sound :
    {api : QueueApi} (q q' : EventQueue api) (o : Option Event)
    → contents q ≡ of_option o ++ contents q'
    → All FromSource (contents q)
    → All FromSource (contents q')
rest_sound q q' none at sound = rw at at sound
rest_sound q q' (some e) at sound =
    let sound' : All FromSource (e ∷ contents q') = subst (All FromSource) at sound in sound'.1

module _ {u : Uplink} {m : MutexApi} {api : QueueApi} (device_id : Bytes) where
  run_round_sound :
      (task : Task u m) (r : Round api)
      → All FromSource (contents r.queue)
      → All FromSource (contents (run_round device_id task r).1)
  unfolding run_round
  run_round_sound task r sound =
      rest_sound r.queue (EventQueue.receive r.queue).1 (EventQueue.receive r.queue).0
        (receive_lem r.queue).0 sound

  run_round-Fits :
      (task : Task u m) (r : Round api) (n : ℕ)
      → Fits n r.queue
      → Fits n (run_round device_id task r).1
  unfolding run_round
  run_round-Fits task r n h = receive-Fits r.queue n h

module _ {u : Uplink} {m : MutexApi} {api : QueueApi} (device_id : Bytes)
    (before : List Message) where
  -- The queue is sound, and the three values of `b`, `t` and `a` are on their way.
  pub record Carries (b t v : Option ℤ) (q : EventQueue api) (a : Application u m) : Type 0 where
    pub fits : Fits event_queue_size q
    pub sound : All FromSource (contents q)
    pub button : Tracks device_id before 1 b q a
    pub toggle : Tracks device_id before 2 t q a
    pub analog : Tracks device_id before 4 v q a

  pub Carries-button :
      (b b' t v : Option ℤ) (q q' : EventQueue api) (a : Application u m)
      → Emits 1 b b' q q'
      → Carries b t v q a
      → Carries b' t v q' a
  Carries-button b b' t v q q' a e c = record {
    fits = e.fits event_queue_size c.fits;
    sound = more_sound q q' e.events e.added e.sound c.sound;
    button = Tracks-own device_id before 1 b b' q q' a e c.button;
    toggle = Tracks-other device_id before 2 1 t b b' q q' a (omega arith) e c.toggle;
    analog = Tracks-other device_id before 4 1 v b b' q q' a (omega arith) e c.analog;
  }

  pub Carries-toggle :
      (b t t' v : Option ℤ) (q q' : EventQueue api) (a : Application u m)
      → Emits 2 t t' q q'
      → Carries b t v q a
      → Carries b t' v q' a
  Carries-toggle b t t' v q q' a e c = record {
    fits = e.fits event_queue_size c.fits;
    sound = more_sound q q' e.events e.added e.sound c.sound;
    button = Tracks-other device_id before 1 2 b t t' q q' a (omega arith) e c.button;
    toggle = Tracks-own device_id before 2 t t' q q' a e c.toggle;
    analog = Tracks-other device_id before 4 2 v t t' q q' a (omega arith) e c.analog;
  }

  pub Carries-encoder :
      (b t v x x' : Option ℤ) (q q' : EventQueue api) (a : Application u m)
      → Emits 3 x x' q q'
      → Carries b t v q a
      → Carries b t v q' a
  Carries-encoder b t v x x' q q' a e c = record {
    fits = e.fits event_queue_size c.fits;
    sound = more_sound q q' e.events e.added e.sound c.sound;
    button = Tracks-other device_id before 1 3 b x x' q q' a (omega arith) e c.button;
    toggle = Tracks-other device_id before 2 3 t x x' q q' a (omega arith) e c.toggle;
    analog = Tracks-other device_id before 4 3 v x x' q q' a (omega arith) e c.analog;
  }

  pub Carries-analog :
      (b t v v' : Option ℤ) (q q' : EventQueue api) (a : Application u m)
      → Emits 4 v v' q q'
      → Carries b t v q a
      → Carries b t v' q' a
  Carries-analog b t v v' q q' a e c = record {
    fits = e.fits event_queue_size c.fits;
    sound = more_sound q q' e.events e.added e.sound c.sound;
    button = Tracks-other device_id before 1 4 b v v' q q' a (omega arith) e c.button;
    toggle = Tracks-other device_id before 2 4 t v v' q q' a (omega arith) e c.toggle;
    analog = Tracks-own device_id before 4 v v' q q' a e c.analog;
  }

  pub Carries-notice :
      (b t v : Option ℤ) (q q' : EventQueue api) (a : Application u m)
      → Quiet q q'
      → (Fits event_queue_size q → Fits event_queue_size q')
      → Carries b t v q a
      → Carries b t v q' a
  Carries-notice b t v q q' a n fits c = record {
    fits = fits c.fits;
    sound =
        more_sound q q' n.added n.all
          (All-mono _ FromSource n.added (λ e local h. absurd (ground arith)) n.not_sent) c.sound;
    button = Tracks-silent device_id before 1 b q q' a n.added n.all n.not_sent c.button;
    toggle = Tracks-silent device_id before 2 t q q' a n.added n.all n.not_sent c.toggle;
    analog = Tracks-silent device_id before 4 v q q' a n.added n.all n.not_sent c.analog;
  }

  pub Carries-world :
      (b t v : Option ℤ) (q : EventQueue api) (a : Application u m) (w : u.World)
      → u.handed w ≡ u.handed a.world
      → Carries b t v q a
      → Carries b t v q (record a { world = w })
  Carries-world b t v q a w same c = record {
    fits = c.fits;
    sound = c.sound;
    button = Tracks-world device_id before 1 b q a w same c.button;
    toggle = Tracks-world device_id before 2 t q a w same c.toggle;
    analog = Tracks-world device_id before 4 v q a w same c.analog;
  }

  pub Carries-round :
      (sure : (e : Event) → ¬ Unserializable u device_id e)
      → (b t v : Option ℤ) (task : Task u m) (r : Round api)
      → Carries b t v r.queue task.application
      → Carries b t v (run_round device_id task r).1 (run_round device_id task r).0.application
  Carries-round sure b t v task r c = record {
    fits = run_round-Fits device_id task r event_queue_size c.fits;
    sound = run_round_sound device_id task r c.sound;
    button = run_round-Tracks device_id before sure 1 b task r (omega arith) c.sound c.button;
    toggle = run_round-Tracks device_id before sure 2 t task r (omega arith) c.sound c.toggle;
    analog = run_round-Tracks device_id before sure 4 v task r (omega arith) c.sound c.analog;
  }
