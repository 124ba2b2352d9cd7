-- ===== src/Store/Outage.antt =====
-- A long outage: with physical sources only, the backlog is bounded by their number, whatever the
-- number of events, and nothing is ever refused.
use iot_visual_management_sy.Prelude.{
  ℕ, zero, suc, ◌≤◌, ◌≡◌, ◌≢◌, ◌∙◌, subst, true, List, [], ◌∷◌, some, arith, length, All,
  All-append, inl, inr, Bool-cases, List-cases,
}
use iot_visual_management_sy.Event.{Event}
use iot_visual_management_sy.Rtos.{MutexApi}
use iot_visual_management_sy.Store.{Store, create, push}
use iot_visual_management_sy.Store.Pure.{
  kept, pop_lem, peek_lem, clear_lem, size_lem, empty_lem, full_lem, coalesced_lem,
}
use iot_visual_management_sy.Store.Coalesce.{
  OnePerSource, Absent, length-kept, kept-Absent, kept-OnePerSource, All-kept,
}
use iot_visual_management_sy.Store.Invariant.{
  Call, pushes, pops, peeks, clears, sizes, empties, fulls, counts, step, run, IsValid,
  step-IsValid, create-IsValid, create_fields, capacity-run,
}
use iot_visual_management_sy.Store.Push.{push_outcome, push_refuses}

-- One of the sources 1 to `k`. The station has four: button, toggle, encoder and analog.
abbrev pub IsPhysical : ℕ → Event → Type 0
IsPhysical k e = (e.source_id ≢ 0) × (e.source_id ≤ k)

abbrev AllPhysical : ℕ → List Event → Type 0
AllPhysical k = All (IsPhysical k)

lower : (k : ℕ) (es : List Event) → AllPhysical (suc k) es → Absent (suc k) es → AllPhysical k es
lower k [] h a = tt
lower k (e ∷ es) h a = ((h.0.0, omega arith), lower k es h.1 a.1)

pub length-le-sources :
    (k : ℕ) (es : List Event) → OnePerSource es → AllPhysical k es → length es ≤ k
length-le-sources zero [] u h = omega arith
length-le-sources zero (e ∷ es) u h = absurd (omega arith)
length-le-sources (suc k) es u h =
    let n : suc k ≢ 0 = omega arith in
    let fewer = length-le-sources k (kept (suc k) es) (kept-OnePerSource (suc k) es n u) (
      lower k (kept (suc k) es) (All-kept (IsPhysical (suc k)) (suc k) es h)
        (kept-Absent (suc k) es n u)) in
    ground (arith, fewer, length-kept (suc k) es)

abbrev pub OnlyPhysical : ℕ → Call → Type 0
OnlyPhysical k (pushes e) = IsPhysical k e
OnlyPhysical k _ = Unit {0}

module _ {api : MutexApi} (k : ℕ) where
  step-AllPhysical :
      (s : Store api) (c : Call)
      → IsValid s
      → OnlyPhysical k c
      → AllPhysical k s.events
      → AllPhysical k (step s c).events
  unfolding step
  step-AllPhysical s (pushes e) v p h =
      let rest = All-kept (IsPhysical k) e.source_id s.events h in
      elim (push_outcome s v e) [
        | inl (full, r) ↦ rw (step, r) rest
        | inr (room, r) ↦ rw (step, r) (All-append (IsPhysical k) _ (e ∷ []) rest (p, tt))
      ]
  step-AllPhysical s pops v p h =
      rw (step, pop_lem s v.ready)
        (elim (List-cases s.events) [
          | inl nothing ↦ rw nothing h
          | inr (e, rest, at) ↦ rw at (subst (AllPhysical k) at h).1
        ])
  step-AllPhysical s peeks v p h = rw (step, peek_lem s v.ready) h
  step-AllPhysical s clears v p h = rw (step, clear_lem s v.ready) tt
  step-AllPhysical s sizes v p h = rw (step, size_lem s v.ready) h
  step-AllPhysical s empties v p h = rw (step, empty_lem s v.ready) h
  step-AllPhysical s fulls v p h = rw (step, full_lem s v.ready) h
  step-AllPhysical s counts v p h = rw (step, coalesced_lem s v.ready) h

  run-AllPhysical :
      (s : Store api) (cs : List Call)
      → IsValid s
      → All (OnlyPhysical k) cs
      → AllPhysical k s.events
      → IsValid (run s cs) × AllPhysical k (run s cs).events
  unfolding run
  run-AllPhysical s [] v p h = (v, h)
  run-AllPhysical s (c ∷ cs) v p h =
      run-AllPhysical (step s c) cs (step-IsValid s c v) p.1 (step-AllPhysical s c v p.0 h)

  -- A full buffer of physical events holds one of every source, so there is one to replace.
  pub push_accepted :
      (s : Store api) (e : Event)
      → IsValid s
      → AllPhysical k s.events
      → k ≤ s.capacity
      → IsPhysical k e
      → (push s e).0 ≡ true
  push_accepted s e v h fits p = elim (Bool-cases (push s e).0) [
    | inl accepted ↦ accepted
    | inr refused ↦
        let why = (push_refuses s v e).0.0 refused in
        elim why.1 [
          | inl sys ↦ absurd (p.0 sys)
          | inr absent ↦
              let more =
                length-le-sources k (e ∷ s.events) ((λ _. absent), v.one_per_source) (p, h) in
              absurd (omega arith)
        ]
  ]

module _ (api : MutexApi) (k : ℕ) where
  -- After any calls that push events of the sources 1 to `k` only, on a new store of at least `k`
  -- slots: at most `k` events are buffered, however many were pushed, and the next push of such an
  -- event is accepted.
  pub outage_bounded :
      (n : ℕ) (m : api.Handle) (cs : List Call) (e : Event)
      → api.create ≡ some m
      → k ≤ n
      → All (OnlyPhysical k) cs
      → IsPhysical k e
      → (length (run (create {api = api} n) cs).events ≤ k)
        × ((push (run (create {api = api} n) cs) e).0 ≡ true)
  outage_bounded n m cs e made fits only p =
      let s = run (create {api = api} n) cs in
      let start = create {api = api} n in
      let valid = create-IsValid {api = api} n m made in
      let h = run-AllPhysical k start cs valid only (rw (create_fields api n).1 tt) in
      let size = capacity-run start cs valid ∙ (create_fields api n).0 in
      let few = length-le-sources k s.events h.0.one_per_source h.1 in
      (few, push_accepted k s e h.0 h.1 (omega arith) p)
