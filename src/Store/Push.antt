-- ===== src/Store/Push.antt =====
-- What `push` does to a buffer in good order: when it refuses, what it supersedes, what it leaves.
use iot_visual_management_sy.Prelude.{
  ℕ, ◌≤◌, ◌<◌, ◌≡◌, ◌≢◌, refl, ap, ◌∙◌, ◌&&◌, append-nil, ℕ_discrete, true, false, List, [], ◌∷◌,
  ◌++◌, some, arith, length, leb, ◌==◌, All, next32, ◌⊎◌, ◌↔◌, inl, inr, Bool-cases, if◌then◌else◌,
}
use iot_visual_management_sy.Event.{Event}
use iot_visual_management_sy.Rtos.{MutexApi}
use iot_visual_management_sy.Store.{Store, push}
use iot_visual_management_sy.Store.Pure.{kept, superseded, push_lem}
use iot_visual_management_sy.Store.Coalesce.{
  Unmatched, kept-Unmatched, superseded-Unmatched, Ascending, find, system, length-kept,
  kept-Absent, kept-induction_all, kept-Ascending, All-kept, Ascending-snoc, find-kept_ne,
  find-append, find-Absent, system-kept, system-append,
}
use iot_visual_management_sy.Store.Invariant.{IsValid}

module _ {api : MutexApi} (s : Store api) (v : IsValid s) (e : Event) where
  -- The two outcomes, with the condition that chose.
  abbrev es : List Event
  es = kept e.source_id s.events

  abbrev counted : ℕ
  counted = if superseded e.source_id s.events then next32 s.coalesced_count else s.coalesced_count

  pub push_outcome :
      ((s.capacity ≤ length es)
        × (push s e ≡ (false, record s { events = es; coalesced_count = counted })))
      ⊎ ((length es < s.capacity)
          × (push s e ≡ (true, record s { events = es ++ e ∷ []; coalesced_count = counted })))
  push_outcome = rw (push_lem s v.ready e) (elim (Bool-cases (leb s.capacity (length es))) [
    | inl full ↦ rw full (inl (ground arith, refl))
    | inr room ↦ rw room (inr (ground arith, refl))
  ])

  -- On a valid store, `push` refuses an event exactly if the buffer is full and the event replaces
  -- nothing: it comes from the system source, or no event of its source is buffered. A refusal
  -- changes nothing.
  pub push_refuses :
      (((push s e).0 ≡ false) ↔ ((s.capacity ≤ length s.events) × Unmatched e.source_id s.events))
      × (((push s e).0 ≡ true) ⊎ ((push s e).1 ≡ s))
  push_refuses = elim push_outcome [
    | inl (full, p) ↦
        let none_superseded : superseded e.source_id s.events ≡ false =
          ground (arith, v.bounded, full, length-kept e.source_id s.events) in
        let free = (superseded-Unmatched e.source_id s.events).0 none_superseded in
        (
          (
            λ _. (omega (arith, v.bounded, full, length-kept e.source_id s.events), free),
            λ _. ap (λ r. r.0) p,
          ),
          inr (
              ap (λ r. r.1) p ∙ (λ i. record s {
                events = kept-Unmatched e.source_id s.events free i;
                coalesced_count =
                    (if none_superseded i then next32 s.coalesced_count else s.coalesced_count);
              })),
        )
    | inr (room, p) ↦ (
      (
        λ refused. cc (p, refused),
        λ h. absurd (
            ground (
              arith,
              room,
              h.0,
              (superseded-Unmatched e.source_id s.events).1 h.1,
              length-kept e.source_id s.events,
            )),
      ),
      inl (ap (λ r. r.0) p),
    )
  ]

  -- The latest value wins: after an accepted push on a valid store the buffered event of a
  -- physical source is the pushed one if it is of that source, and is otherwise what it was.
  pub find-push :
      (j : ℕ)
      → j ≢ 0
      → (push s e).0 ≡ true
      → find j (push s e).1.events ≡ (if j == e.source_id then some e else find j s.events)
  unfolding find
  find-push j n accepted = elim push_outcome [
    | inl (full, p) ↦ cc (p, accepted)
    | inr (room, p) ↦ elim (ℕ_discrete j e.source_id) [
      | yes same ↦ ground (
        arith,
        p,
        find-append j es (e ∷ []),
        find-Absent j es
            (rw same (kept-Absent e.source_id s.events (λ z. n (same ∙ z)) v.one_per_source)),
      )
      | no other ↦
          ground (arith, p, find-append j es (e ∷ []), find-kept_ne e.source_id j s.events other)
    ]
  ]

  -- On a valid store, events of the system source are never superseded: an accepted one is added
  -- at the end, and any other push leaves them and their order as they were.
  pub system-push :
      system (push s e).1.events
      ≡ system s.events ++ (if (push s e).0 && e.source_id == 0 then e ∷ [] else [])
  unfolding system
  system-push = elim push_outcome [
    | inl (full, p) ↦
        ground (arith, p, system-kept e.source_id s.events, append-nil (system s.events))
    | inr (room, p) ↦ ground (
      arith,
      p,
      system-kept e.source_id s.events,
      system-append es (e ∷ []),
      append-nil (system s.events),
    )
  ]

  -- On a valid store, sequence IDs still rise along the buffer after a push whose ID is above all
  -- of them.
  pub push-Ascending :
      Ascending s.events
      → All (λ x. x.sequence_id < e.sequence_id) s.events
      → Ascending (push s e).1.events
  push-Ascending up below =
      let rest =
        kept-induction_all e.source_id Ascending (λ n xs. kept-Ascending e.source_id xs n) s.events
          up in
      elim push_outcome [
        | inl (full, p) ↦ rw p rest
        | inr (room, p) ↦ rw p (Ascending-snoc es e rest (All-kept _ e.source_id s.events below))
      ]
