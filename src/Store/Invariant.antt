-- ===== src/Store/Invariant.antt =====
-- The buffer after any calls: bounded, at most one event of a physical source, the mutex free.
use iot_visual_management_sy.Prelude.{
  ℕ, ◌≤◌, ◌≡◌, ◌≢◌, refl, sym, ◌∙◌, ap, subst, ℕ_discrete, List, [], ◌∷◌, ◌++◌, some, arith, length,
  leb, length-append, inl, inr, Bool-cases, List-cases,
}
use iot_visual_management_sy.Event.{Event}
use iot_visual_management_sy.Rtos.{MutexApi}
use iot_visual_management_sy.Store.{
  Store, create, push, pop, peek, clear, size, empty, full, coalesced,
}
use iot_visual_management_sy.Store.Pure.{
  Ready, kept, push_lem, pop_lem, peek_lem, clear_lem, size_lem, empty_lem, full_lem, coalesced_lem,
}
use iot_visual_management_sy.Store.Coalesce.{
  OnePerSource, Absent, length-kept, kept-Absent, kept-OnePerSource, OnePerSource-snoc,
}

pub data Call : Type 0 where
  pushes : Event → Call
  pops peeks clears sizes empties fulls counts : Call

abbrev KeptValid : ℕ → List Event → Type 0
KeptValid source es = OnePerSource (kept source es) × (source ≢ 0 → Absent source (kept source es))

kept-valid : (source : ℕ) (es : List Event) → OnePerSource es → KeptValid source es
kept-valid source es u = elim (ℕ_discrete source 0) [
  | yes sys ↦ subst (λ k. KeptValid k es) (sym sys) (u, λ n. absurd (n refl))
  | no n ↦ (kept-OnePerSource source es n u, λ _. kept-Absent source es n u)
]

module _ {api : MutexApi} where
  unfoldable pub step : Store api → Call → Store api
  step s (pushes e) = (push s e).1
  step s pops = (pop s).1
  step s peeks = (peek s).1
  step s clears = clear s
  step s sizes = (size s).1
  step s empties = (empty s).1
  step s fulls = (full s).1
  step s counts = (coalesced s).1

  unfoldable pub run : Store api → List Call → Store api
  run s [] = s
  run s (c ∷ cs) = run (step s c) cs

  pub record IsValid (s : Store api) : Type 0 where
    pub ready : Ready s
    pub bounded : length s.events ≤ s.capacity
    pub one_per_source : OnePerSource s.events

  pub with_events :
      (s : Store api)
      → Ready s
      → (es : List Event) (n : ℕ) → length es ≤ s.capacity
      → OnePerSource es
      → IsValid (record s { events = es; coalesced_count = n })
  with_events s r es n b u = record {
    ready = record { handle = r.handle; created = r.created; free = r.free };
    bounded = b;
    one_per_source = u;
  }

  pub push-IsValid : (s : Store api) (e : Event) → IsValid s → IsValid (push s e).1
  push-IsValid s e v =
      let k = kept-valid e.source_id s.events v.one_per_source in
      let es = kept e.source_id s.events in
      rw (push_lem s v.ready e) (elim (Bool-cases (leb s.capacity (length es))) [
        | inl full ↦ rw full (
            with_events s v.ready es _ (omega (arith, v.bounded, length-kept e.source_id s.events))
              k.0)
        | inr room ↦ rw room (
            with_events s v.ready (es ++ e ∷ []) _ (ground (arith, length-append es (e ∷ [])))
              (OnePerSource-snoc es e k.0 k.1))
      ])

  pub pop-IsValid : (s : Store api) → IsValid s → IsValid (pop s).1
  pop-IsValid s v = rw (pop_lem s v.ready) (elim (List-cases s.events) [
    | inl none_left ↦ rw none_left v
    | inr (e, rest, at) ↦ rw at (
        with_events s v.ready rest _ (omega (arith, v.bounded, ap length at))
          (subst OnePerSource at v.one_per_source).1)
  ])

  pub step-IsValid : (s : Store api) (c : Call) → IsValid s → IsValid (step s c)
  unfolding step
  step-IsValid s (pushes e) v = push-IsValid s e v
  step-IsValid s pops v = pop-IsValid s v
  step-IsValid s peeks v = rw (step, peek_lem s v.ready) v
  step-IsValid s clears v =
      rw (step, clear_lem s v.ready) (with_events s v.ready [] 0 (omega arith) tt)
  step-IsValid s sizes v = rw (step, size_lem s v.ready) v
  step-IsValid s empties v = rw (step, empty_lem s v.ready) v
  step-IsValid s fulls v = rw (step, full_lem s v.ready) v
  step-IsValid s counts v = rw (step, coalesced_lem s v.ready) v

  run-IsValid : (s : Store api) (cs : List Call) → IsValid s → IsValid (run s cs)
  unfolding run
  run-IsValid s [] v = v
  run-IsValid s (c ∷ cs) v = run-IsValid (step s c) cs (step-IsValid s c v)

  capacity-step : (s : Store api) (c : Call) → IsValid s → (step s c).capacity ≡ s.capacity
  unfolding step
  capacity-step s (pushes e) v = ground (arith, push_lem s v.ready e)
  capacity-step s pops v = ground (arith, pop_lem s v.ready)
  capacity-step s peeks v = ground (arith, peek_lem s v.ready)
  capacity-step s clears v = ground (arith, clear_lem s v.ready)
  capacity-step s sizes v = ground (arith, size_lem s v.ready)
  capacity-step s empties v = ground (arith, empty_lem s v.ready)
  capacity-step s fulls v = ground (arith, full_lem s v.ready)
  capacity-step s counts v = ground (arith, coalesced_lem s v.ready)

  pub capacity-run : (s : Store api) (cs : List Call) → IsValid s → (run s cs).capacity ≡ s.capacity
  unfolding run
  capacity-run s [] v = refl
  capacity-run s (c ∷ cs) v = capacity-run (step s c) cs (step-IsValid s c v) ∙ capacity-step s c v

  pub create-IsValid :
      (n : ℕ) (m : api.Handle) → api.create ≡ some m → IsValid (create {api = api} n)
  unfolding create
  create-IsValid n m made = record {
    ready = record { handle = m; created = made; free = api.create_free m made };
    bounded = omega arith;
    one_per_source = tt;
  }

module _ (api : MutexApi) where
  pub create_fields :
      (n : ℕ) → ((create {api = api} n).capacity ≡ n) × ((create {api = api} n).events ≡ [])
  unfolding create
  create_fields n = (refl, refl)

  -- After any calls on a new store: its events are within the capacity that it was made with, no
  -- physical source has two of them, and the mutex is free again.
  pub run-create-IsValid :
      (n : ℕ) (m : api.Handle) (cs : List Call)
      → api.create ≡ some m
      → IsValid (run (create {api = api} n) cs) × ((run (create {api = api} n) cs).capacity ≡ n)
  run-create-IsValid n m cs made =
      let v = create-IsValid {api = api} n m made in
      (
        run-IsValid (create {api = api} n) cs v,
        capacity-run (create {api = api} n) cs v ∙ (create_fields n).0,
      )
