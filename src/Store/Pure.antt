-- ===== src/Store/Pure.antt =====
-- With its mutex created and free, each operation of the store is a plain function of the buffer
-- that leaves the mutex as it found it.
use iot_visual_management_sy.Prelude.{
  ℕ, ◌≡◌, Bool, true, false, List, [], ◌∷◌, ◌++◌, none, some, arith, leb, length, is_nil, ◌==◌,
  next32, if◌then◌else◌,
}
use iot_visual_management_sy.Event.{Event}
use iot_visual_management_sy.Rtos.{MutexApi}
use iot_visual_management_sy.Store.{
  Store, system_source_id, erase_source, push, pop, peek, clear, size, empty, full, coalesced,
}

-- The events that `push` keeps, and whether one was superseded.
abbrev pub kept : ℕ → List Event → List Event
kept source es =
    if source == system_source_id
    then es
    else elim (erase_source source es) [ none ↦ es | some rest ↦ rest ]

abbrev pub superseded : ℕ → List Event → Bool
superseded source es =
    if source == system_source_id
    then false
    else elim (erase_source source es) [ none ↦ false | some rest ↦ true ]

module _ {api : MutexApi} where
  -- The mutex was created and nobody holds it.
  pub record Ready (s : Store api) : Type 0 where
    pub handle : api.Handle
    pub created : s.mutex ≡ some handle
    pub free : api.is_free handle ≡ true

  pub Ready-events : (s : Store api) (es : List Event) → Ready s → Ready (record s { events = es })
  Ready-events s es r = record { handle = r.handle; created = r.created; free = r.free }

  -- `push` without the lock.
  abbrev pub push_plain : Store api → Event → Bool × Store api
  push_plain s e =
      let es = kept e.source_id s.events in
      let n =
        if superseded e.source_id s.events then next32 s.coalesced_count else s.coalesced_count in
      let s' = record s { events = es; coalesced_count = n } in
      if leb s.capacity (length es)
      then (false, s')
      else (true, record s' { events = es ++ e ∷ [] })

  module _ (s : Store api) (r : Ready s) where
    pub size_lem : size s ≡ (length s.events, s)
    unfolding size
    size_lem = ground (arith, api.take_free r.handle, api.give-take r.handle)

    pub push_lem : (e : Event) → push s e ≡ push_plain s e
    unfolding push
    push_lem e = ground (arith, api.take_free r.handle, api.give-take r.handle)

    pub pop_lem :
        pop s ≡ elim s.events [ [] ↦ (none, s) | e ∷ rest ↦ (some e, record s { events = rest }) ]
    unfolding pop
    pop_lem = ground (arith, api.take_free r.handle, api.give-take r.handle)

    pub peek_lem : peek s ≡ (elim s.events [ [] ↦ none | e ∷ rest ↦ some e ], s)
    unfolding peek
    peek_lem = ground (arith, api.take_free r.handle, api.give-take r.handle)

    pub clear_lem : clear s ≡ record s { events = []; coalesced_count = 0 }
    unfolding clear
    clear_lem = ground (arith, api.take_free r.handle, api.give-take r.handle)

    pub empty_lem : empty s ≡ (is_nil s.events, s)
    unfolding empty
    empty_lem = ground (arith, api.take_free r.handle, api.give-take r.handle)

    pub full_lem : full s ≡ (leb s.capacity (length s.events), s)
    unfolding full
    full_lem = ground (arith, api.take_free r.handle, api.give-take r.handle)

    pub coalesced_lem : coalesced s ≡ (s.coalesced_count, s)
    unfolding coalesced
    coalesced_lem = ground (arith, api.take_free r.handle, api.give-take r.handle)
