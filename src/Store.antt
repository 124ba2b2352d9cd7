-- ===== src/Store.antt =====
-- firmware/main/storage/OfflineEventStore.cpp: the bounded buffer of events that MQTT could not take.
pub mod Pure
pub mod Coalesce
pub mod Invariant
pub mod Push
pub mod Outage
pub mod Thins
mod Examples
use iot_visual_management_sy.Prelude.{
  ℕ, ◌==◌, Bool, true, false, List, [], ◌∷◌, ◌++◌, Option, none, some, leb, length, is_nil, next32,
  if◌then◌else◌,
}
use iot_visual_management_sy.Event.{Event}
use iot_visual_management_sy.Rtos.{MutexApi}

abbrev pub system_source_id : ℕ
system_source_id = 0

pub record Store (api : MutexApi) : Type 0 where
  pub capacity : ℕ  -- size_t, 32 bits
  pub events : List Event
  pub coalesced_count : ℕ  -- size_t, 32 bits
  pub mutex : Option api.Handle

module _ {api : MutexApi} where
  unfoldable pub create : ℕ → Store api
  create capacity = record {
    capacity = capacity;
    events = [];
    coalesced_count = 0;
    mutex = api.create;
  }

  -- The destructor deletes the mutex and clears the handle.
  pub destroy : Store api → Store api
  destroy s = record s { mutex = none }

  unfoldable pub lock : Store api → Bool × Store api
  lock s = elim s.mutex [
    | none ↦ (false, s)
    | some m ↦ let (taken, m') = api.take m in (taken, record s { mutex = some m' })
  ]

  unfoldable pub unlock : Store api → Store api
  unlock s = elim s.mutex [ none ↦ s | some m ↦ record s { mutex = some (api.give m) } ]

-- The loop of `push`: the first event of the source is erased, and the loop ends there. `none` when
-- no event matched.
unfoldable pub erase_source : ℕ → List Event → Option (List Event)
erase_source source [] = none
erase_source source (it ∷ rest) =
    let later = erase_source source rest in
    if it.source_id == source
    then some rest
    else elim later [ none ↦ none | some rest' ↦ some (it ∷ rest') ]

module _ {api : MutexApi} where
  unfoldable pub coalesce : Store api → Event → Store api
  coalesce s event =
      if event.source_id == system_source_id
      then s
      else elim (erase_source event.source_id s.events) [
        | none ↦ s
        | some rest ↦ record s { events = rest; coalesced_count = next32 s.coalesced_count }
      ]

  -- The body of `push` after the lock, up to the unlocks.
  unfoldable pub append_event : Store api → Event → Bool × Store api
  append_event s event =
      if leb s.capacity (length s.events)
      then (false, s)
      else (true, record s { events = s.events ++ event ∷ [] })

  unfoldable pub push : Store api → Event → Bool × Store api
  unfolding lock unlock coalesce append_event
  push s event =
      let (locked, s1) = lock s in
      if locked
      then (let (done, s2) = append_event (coalesce s1 event) event in (done, unlock s2))
      else (false, s1)

  -- `none` stands for the result false, where the caller's event is left as it was.
  front : Store api → Option Event
  front s = elim s.events [ [] ↦ none | event ∷ rest ↦ some event ]

  pop_front : Store api → Store api
  pop_front s = elim s.events [ [] ↦ s | event ∷ rest ↦ record s { events = rest } ]

  unfoldable pub pop : Store api → Option Event × Store api
  unfolding lock unlock front pop_front
  pop s =
      let (locked, s1) = lock s in if locked then (front s1, unlock (pop_front s1)) else (none, s1)

  unfoldable pub peek : Store api → Option Event × Store api
  unfolding lock unlock front
  peek s = let (locked, s1) = lock s in if locked then (front s1, unlock s1) else (none, s1)

  pub clear : Store api → Store api
  unfolding lock unlock
  clear s =
      let (locked, s1) = lock s in
      if locked then unlock (record s1 { events = []; coalesced_count = 0 }) else s1

  -- The observers take the lock too, so they return the store.
  unfoldable pub size : Store api → ℕ × Store api
  unfolding lock unlock
  size s = let (locked, s1) = lock s in if locked then (length s1.events, unlock s1) else (0, s1)

  unfoldable pub empty : Store api → Bool × Store api
  unfolding lock unlock
  empty s =
      let (locked, s1) = lock s in if locked then (is_nil s1.events, unlock s1) else (true, s1)

  pub full : Store api → Bool × Store api
  unfolding lock unlock
  full s =
      let (locked, s1) = lock s in
      if locked then (leb s1.capacity (length s1.events), unlock s1) else (true, s1)

  unfoldable pub coalesced : Store api → ℕ × Store api
  unfolding lock unlock
  coalesced s =
      let (locked, s1) = lock s in if locked then (s1.coalesced_count, unlock s1) else (0, s1)
