-- ===== src/EventQueue/Fifo.antt =====
-- What the event queue keeps: first in, first out, within its capacity, and nothing after a refusal.
use iot_visual_management_sy.Prelude.{
  ℕ, ◌≤◌, ◌≡◌, sym, List, [], ◌∷◌, ◌++◌, Option, none, some, arith, length, append-nil,
  append_assoc, length-append, ap, ◌∙◌, ltb, inl, inr, Option-cases, List-cases, ◌↔◌, if◌then◌else◌,
}
use iot_visual_management_sy.Event.{Event}
use iot_visual_management_sy.Rtos.{QueueApi}
use iot_visual_management_sy.EventQueue.{EventQueue, create, send, receive}

-- A call of one of the two sides of the queue.
pub data Call : Type 0 where
  sends : Event → Call
  receives : Call

-- What a history of calls accepted and handed out, oldest first.
pub record Traffic : Type 0 where
  pub accepted : List Event
  pub handed : List Event

abbrev pub of_option : Option Event → List Event
of_option none = []
of_option (some e) = e ∷ []

length-of_option-le : (o : Option Event) (xs : List Event) → length xs ≤ length (of_option o ++ xs)
length-of_option-le none xs = omega arith
length-of_option-le (some e) xs = omega arith

module _ {api : QueueApi} where
  -- The events that wait, oldest first.
  unfoldable pub contents : EventQueue api → List Event
  contents q = elim q.handle [ none ↦ [] | some h ↦ api.items h ]

  unfoldable pub capacity : EventQueue api → ℕ
  capacity q = elim q.handle [ none ↦ 0 | some h ↦ api.capacity h ]

  -- A send is accepted exactly while there is room, and appends; a refused one changes nothing.
  pub send_lem :
      (q : EventQueue api) (e : Event)
      → ((send q e).0 ≡ ltb (length (contents q)) (capacity q))
        × (contents (send q e).1 ≡ contents q ++ (if (send q e).0 then e ∷ [] else []))
        × (capacity (send q e).1 ≡ capacity q)
  unfolding send contents capacity
  send_lem q e = elim (Option-cases q.handle) [
    | inl null ↦ ground arith
    | inr (h, at) ↦ ground (
      arith,
      api.send_room h e,
      api.send_full h e,
      api.capacity-send h e,
      append-nil (api.items h),
    )
  ]

  -- A receive hands out the oldest event and removes it; on an empty queue it changes nothing.
  pub receive_lem :
      (q : EventQueue api)
      → (contents q ≡ of_option (receive q).0 ++ contents (receive q).1)
        × (((receive q).0 ≡ none) ↔ (contents q ≡ []))
        × (capacity (receive q).1 ≡ capacity q)
  unfolding receive contents capacity
  receive_lem q = elim (Option-cases q.handle) [
    | inl null ↦ ground arith
    | inr (h, at) ↦ elim (List-cases (api.items h)) [
      | inl empty ↦ ground (arith, api.receive_empty h, api.capacity-receive h)
      | inr (e, rest, front) ↦ ground (arith, api.receive_front h e rest, api.capacity-receive h)
    ]
  ]

  abbrev pub Fits : ℕ → EventQueue api → Type 0
  Fits n q = (capacity q ≡ n) × (length (contents q) ≤ n)

  pub send-Fits : (q : EventQueue api) (e : Event) (n : ℕ) → Fits n q → Fits n (send q e).1
  send-Fits q e n h =
      rw ((send_lem q e).1, (send_lem q e).2, (send_lem q e).0)
        (ground (arith, length-append (contents q) (e ∷ []), length-append (contents q) []))

  pub receive-Fits : (q : EventQueue api) (n : ℕ) → Fits n q → Fits n (receive q).1
  receive-Fits q n h = (
    (receive_lem q).2 ∙ h.0,
    omega (
      arith,
      ap length (receive_lem q).0,
      length-of_option-le (receive q).0 (contents (receive q).1),
    ),
  )

  note : EventQueue api → Traffic → Call → EventQueue api × Traffic
  note q t (sends e) =
      let (sent, q') = send q e in
      (q', record t { accepted = t.accepted ++ (if sent then e ∷ [] else []) })
  note q t receives =
      let (event, q') = receive q in (q', record t { handed = t.handed ++ of_option event })

  -- The calls in the order in which the tasks make them.
  pub run : EventQueue api → Traffic → List Call → EventQueue api × Traffic
  unfolding note
  run q t [] = (q, t)
  run q t (c ∷ cs) = let (q', t') = note q t c in run q' t' cs

  abbrev pub Balanced : EventQueue api → Traffic → Type 0
  Balanced q t = t.accepted ≡ t.handed ++ contents q

  note-Balanced :
      (q : EventQueue api) (t : Traffic) (c : Call)
      → Balanced q t
      → Balanced (note q t c).0 (note q t c).1
  unfolding note
  note-Balanced q t (sends e) h = rw ((send_lem q e).1, h) (append_assoc t.handed (contents q) _)
  note-Balanced q t receives h = rw (h, (receive_lem q).0) (sym (append_assoc t.handed _ _))

  run-Balanced :
      (q : EventQueue api) (t : Traffic) (cs : List Call)
      → Balanced q t
      → Balanced (run q t cs).0 (run q t cs).1
  unfolding run
  run-Balanced q t [] h = h
  run-Balanced q t (c ∷ cs) h =
      run-Balanced (note q t c).0 (note q t c).1 cs (note-Balanced q t c h)

  note-Fits :
      (q : EventQueue api) (t : Traffic) (c : Call) (n : ℕ) → Fits n q → Fits n (note q t c).0
  unfolding note
  note-Fits q t (sends e) n h = send-Fits q e n h
  note-Fits q t receives n h = receive-Fits q n h

  run-Fits :
      (q : EventQueue api) (t : Traffic) (cs : List Call) (n : ℕ) → Fits n q → Fits n (run q t cs).0
  unfolding run
  run-Fits q t [] n h = h
  run-Fits q t (c ∷ cs) n h = run-Fits (note q t c).0 (note q t c).1 cs n (note-Fits q t c n h)

module _ (api : QueueApi) where
  -- From a new queue of `n` slots, whatever the calls: what was handed out, followed by what still
  -- waits, is exactly what was accepted, in that order, and at most `n` events wait.
  pub run-create_fifo :
      (n : ℕ) (cs : List Call) (h : api.Handle)
      → api.create n ≡ some h
      → let r = run {api = api} (create n) (record { accepted = []; handed = [] }) cs in
        (r.1.accepted ≡ r.1.handed ++ contents r.0) × Fits n r.0
  unfolding create contents capacity
  run-create_fifo n cs h made = (
    run-Balanced (create n) _ cs (ground (arith, api.create_empty n h made)),
    run-Fits (create n) _ cs n (ground (arith, api.create_empty n h made)),
  )
