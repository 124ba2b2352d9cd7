-- ===== src/Application/Flush.antt =====
-- `flushOfflineEvents`: it takes events off the front only, in order, hands each to MQTT or drops it
-- if it cannot be serialized, and ends.
use iot_visual_management_sy.Prelude.{
  ℕ, zero, suc, ◌<◌, ◌≡◌, ◌⊎◌, refl, sym, ap, ◌∙◌, is_nil, length, Bool, true, false, List, [], ◌∷◌,
  ◌++◌, map, append-nil, append_assoc, Option, none, some, Bytes, arith, inl, inr, Bool-cases,
  List-cases,
}
use iot_visual_management_sy.Event.{Event}
use iot_visual_management_sy.Rtos.{MutexApi}
use iot_visual_management_sy.Store.Pure.{Ready, Ready-events, peek_lem, pop_lem, empty_lem}
use iot_visual_management_sy.Uplink.{Uplink}
use iot_visual_management_sy.Application.{
  Application, offer, flush_round, flush_loop, flush_offline_events, flush_if_any,
}
use iot_visual_management_sy.Application.Offer.{
  text_of, Unserializable, no_text, taken, refused, offer_lem, Drain, stop, send, drop,
}

is_nil_lem : (es : List Event) → is_nil es ≡ true → es ≡ []
is_nil_lem es h = ground arith

module _ {u : Uplink} {m : MutexApi} (device_id : Bytes) where
  -- The application with the given events buffered, and the given world.
  abbrev pub with : Application u m → List Event → u.World → Application u m
  with a es w = record a { offline_store = record a.offline_store { events = es }; world = w }

  -- What a flush does: it drains the buffer, and hands over the messages of the events sent, after
  -- what was handed over before. All else stays.
  pub record Flushed (a b : Application u m) : Type 0 where
    pub sent : List Event
    pub drain : Drain u device_id a.offline_store.events sent b.offline_store.events
    pub handed : u.handed b.world ≡ u.handed a.world ++ map (text_of u device_id) sent
    pub rest : b ≡ with a b.offline_store.events b.world

  pub Flushed-refl : (a : Application u m) → Flushed a a
  Flushed-refl a = record {
    sent = [];
    drain = stop;
    handed = sym (append-nil (u.handed a.world));
    rest = refl;
  }

  pub round_nil :
      (a : Application u m)
      → Ready a.offline_store
      → a.offline_store.events ≡ []
      → flush_round device_id a ≡ (a, false)
  unfolding flush_round
  round_nil a r h = ground (arith, peek_lem a.offline_store r)

  abbrev pub after : Application u m → List Event → Option Bool × u.World → Application u m × Bool
  after a rest (none, w) = (with a rest w, true)
  after a rest (some true, w) = (with a rest w, true)
  after a rest (some false, w) = (record a { world = w }, false)

  pub round_cons :
      (a : Application u m) (e : Event) (es : List Event)
      → Ready a.offline_store
      → a.offline_store.events ≡ e ∷ es
      → flush_round device_id a ≡ after a es (offer u device_id e a.world)
  unfolding flush_round
  round_cons a e es r h = ground (arith, peek_lem a.offline_store r, pop_lem a.offline_store r)

  -- One event sent or dropped, and the flush of the others.
  Flushed-send :
      (a b : Application u m) (e : Event) (es : List Event) (w : u.World)
      → a.offline_store.events ≡ e ∷ es
      → u.handed w ≡ u.handed a.world ++ text_of u device_id e ∷ []
      → Flushed (with a es w) b
      → Flushed a b
  Flushed-send a b e es w at took f = record {
    sent = e ∷ f.sent;
    drain = rw at (send f.drain);
    handed =
        f.handed
        ∙ ap (λ h. h ++ map (text_of u device_id) f.sent) took
        ∙ append_assoc (u.handed a.world) (text_of u device_id e ∷ []) _;
    rest = f.rest;
  }

  Flushed-drop :
      (a b : Application u m) (e : Event) (es : List Event) (w : u.World)
      → a.offline_store.events ≡ e ∷ es
      → Unserializable u device_id e
      → u.handed w ≡ u.handed a.world
      → Flushed (with a es w) b
      → Flushed a b
  Flushed-drop a b e es w at fails kept f = record {
    sent = f.sent;
    drain = rw at (drop fails f.drain);
    handed = f.handed ∙ ap (λ h. h ++ map (text_of u device_id) f.sent) kept;
    rest = f.rest;
  }

  Flushed-world :
      (a : Application u m) (w : u.World)
      → u.handed w ≡ u.handed a.world
      → Flushed a (record a { world = w })
  Flushed-world a w same = record {
    sent = [];
    drain = stop;
    handed = same ∙ sym (append-nil (u.handed a.world));
    rest = refl;
  }

  Flushed-after_world :
      (a b : Application u m) (w : u.World)
      → u.handed w ≡ u.handed a.world
      → Flushed (record a { world = w }) b
      → Flushed a b
  Flushed-after_world a b w same f = record {
    sent = f.sent;
    drain = f.drain;
    handed = f.handed ∙ ap (λ h. h ++ map (text_of u device_id) f.sent) same;
    rest = f.rest;
  }

  -- The loop ends because there is nothing left, or because MQTT refused the event at the front.
  abbrev pub Ended : Application u m → Type 0
  Ended b =
      (b.offline_store.events ≡ [])
      ⊎ ((e : Event) × (es : List Event) × (w : u.World) × (b.offline_store.events ≡ e ∷ es)
          × ((offer u device_id e w).0 ≡ some false))

  pub loop_end :
      (fuel : ℕ) (a b : Application u m)
      → flush_round device_id a ≡ (b, false)
      → flush_loop device_id (suc fuel) a ≡ b
  unfolding flush_loop
  loop_end fuel a b h = ground arith

  pub loop_again :
      (fuel : ℕ) (a b : Application u m)
      → flush_round device_id a ≡ (b, true)
      → flush_loop device_id (suc fuel) a ≡ flush_loop device_id fuel b
  unfolding flush_loop
  loop_again fuel a b h = ground arith

  pub flush_loop_lem :
      (fuel : ℕ) (a : Application u m)
      → Ready a.offline_store
      → length a.offline_store.events < fuel
      → Flushed a (flush_loop device_id fuel a) × Ended (flush_loop device_id fuel a)
  flush_loop_lem zero a r h = absurd (omega arith)
  flush_loop_lem (suc fuel) a r h = elim (List-cases a.offline_store.events) [
    | inl nothing ↦ rw (loop_end fuel a a (round_nil a r nothing)) (Flushed-refl a, inl nothing)
    | inr (e, es, at) ↦
        let o = offer u device_id e a.world in
        let ready = Ready-events a.offline_store es r in
        let more = flush_loop_lem fuel (with a es o.1) ready (omega (arith, ap length at)) in
        let round = round_cons a e es r at in
        elim (offer_lem u device_id e a.world) [
          | no_text p fails kept ↦
              rw (loop_again fuel a (with a es o.1) (ground (arith, round)))
                (Flushed-drop a _ e es o.1 at fails kept more.0, more.1)
          | taken p took ↦
              rw (loop_again fuel a (with a es o.1) (ground (arith, round)))
                (Flushed-send a _ e es o.1 at took more.0, more.1)
          | refused p kept ↦
              rw (loop_end fuel a (record a { world = o.1 }) (ground (arith, round)))
                (Flushed-world a o.1 kept, inr (e, es, a.world, at, p))
        ]
  ]

  -- With the mutex of the buffer free, `flushOfflineEvents` drains the buffer from the front and
  -- hands over what it sends, in order. If the station is connected it goes on until nothing is
  -- left or MQTT refuses the front event; if not, the buffer stays as it was.
  pub flush_lem :
      (a : Application u m)
      → Ready a.offline_store
      → Flushed a (flush_offline_events device_id a)
        × ((((u.is_connected a.world).0 ≡ true) × Ended (flush_offline_events device_id a))
            ⊎ (((u.is_connected a.world).0 ≡ false)
                × ((flush_offline_events device_id a).offline_store ≡ a.offline_store)))
  unfolding flush_offline_events
  flush_lem a r =
      let a1 = record a { world = (u.is_connected a.world).1 } in
      let kept = u.handed-is_connected a.world in
      let loop =
        flush_loop_lem (suc (length a.offline_store.events)) a1
          (record { handle = r.handle; created = r.created; free = r.free }) (omega arith) in
      elim (Bool-cases (u.is_connected a.world).0) [
        | inl connected ↦
            rw connected
              (Flushed-after_world a _ (u.is_connected a.world).1 kept loop.0, inl (refl, loop.1))
        | inr not_connected ↦ rw not_connected (Flushed-world a _ kept, inr (refl, refl))
      ]

  pub flush_if_any-Flushed :
      (a : Application u m) → Ready a.offline_store → Flushed a (flush_if_any device_id a)
  unfolding flush_if_any
  flush_if_any-Flushed a r =
      rw (empty_lem a.offline_store r) (elim (Bool-cases (is_nil a.offline_store.events)) [
        | inl nothing ↦ rw nothing (Flushed-refl a)
        | inr some_left ↦ rw some_left (flush_lem a r).0
      ])

  -- As far as the connection allows: the flush went on until nothing was left or MQTT refused the
  -- front event, or the station is not connected and the buffer stays as it was.
  abbrev pub Exhausted : Application u m → Application u m → Type 0
  Exhausted a b =
      Ended b ⊎ (((u.is_connected a.world).0 ≡ false) × (b.offline_store ≡ a.offline_store))

  pub flush_if_any-Exhausted :
      (a : Application u m) → Ready a.offline_store → Exhausted a (flush_if_any device_id a)
  unfolding flush_if_any
  flush_if_any-Exhausted a r =
      rw (empty_lem a.offline_store r) (elim (Bool-cases (is_nil a.offline_store.events)) [
        | inl nothing ↦ rw nothing (inl (inl (is_nil_lem a.offline_store.events nothing)))
        | inr some_left ↦ rw some_left (elim (flush_lem a r).1 [
          | inl (up, ended) ↦ inl ended
          | inr (down, same) ↦ inr (down, same)
        ])
      ])
