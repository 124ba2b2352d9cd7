-- ===== src/Application/LastValue.antt =====
-- The last value of a source in a list of events, and what a push does to it.
use iot_visual_management_sy.Prelude.{
  ℕ, ◌≡◌, ◌≢◌, refl, sym, ap, ◌∙◌, ◌==◌, ℤ, List, [], ◌∷◌, ◌++◌, append_assoc, Option, none, some,
  arith, Bool-cases, inl, inr, if◌then◌else◌,
}
use iot_visual_management_sy.Event.{Event}
use iot_visual_management_sy.Store.{erase_source}
use iot_visual_management_sy.Store.Pure.{kept}

-- The value of the last event of a source.
unfoldable pub last_value : ℕ → List Event → Option ℤ
last_value j [] = none
last_value j (e ∷ es) = elim (last_value j es) [
  | none ↦ if e.source_id == j then some e.value else none
  | some v ↦ some v
]

-- The same, one event later.
abbrev pub later_value : ℕ → Option ℤ → Event → Option ℤ
later_value j v e = if e.source_id == j then some e.value else v

pub last_value-snoc :
    (j : ℕ) (xs : List Event) (e : Event)
    → last_value j (xs ++ e ∷ []) ≡ later_value j (last_value j xs) e
unfolding last_value
last_value-snoc j [] e = ground arith
last_value-snoc j (x ∷ xs) e = ground (arith, last_value-snoc j xs e)

last_value-kept :
    (j s : ℕ) (es : List Event) → s ≢ 0 → j ≢ s → last_value j (kept s es) ≡ last_value j es
unfolding last_value erase_source
last_value-kept j s [] n h = ground arith
last_value-kept j s (e ∷ es) n h = ground (arith, last_value-kept j s es n h)

last_value-prefix :
    (j : ℕ) (xs es fs : List Event)
    → last_value j es ≡ last_value j fs
    → last_value j (xs ++ es) ≡ last_value j (xs ++ fs)
unfolding last_value
last_value-prefix j [] es fs h = h
last_value-prefix j (x ∷ xs) es fs h = ground (arith, last_value-prefix j xs es fs h)

-- A new event behind what was kept of the buffer: its value, or the one from before.
pub last_value-pushed :
    (j : ℕ) (xs es : List Event) (e : Event)
    → e.source_id ≢ 0
    → last_value j (xs ++ (kept e.source_id es ++ e ∷ []))
      ≡ later_value j (last_value j (xs ++ es)) e
last_value-pushed j xs es e n =
    ap (last_value j) (sym (append_assoc xs (kept e.source_id es) (e ∷ [])))
    ∙ last_value-snoc j (xs ++ kept e.source_id es) e
    ∙ elim (Bool-cases (e.source_id == j)) [
      | inl hit ↦ rw hit refl
      | inr miss ↦ rw miss (
          last_value-prefix j xs (kept e.source_id es) es
            (last_value-kept j e.source_id es n (ground arith)))
    ]
