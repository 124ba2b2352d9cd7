-- ===== src/Store/Coalesce.antt =====
-- What `push` keeps of the buffered events: everything but the older event of the same source.
use iot_visual_management_sy.Prelude.{
  ℕ, ◌+◌, ◌≡◌, ◌≢◌, false, ◌⊎◌, ◌↔◌, ℕ_discrete, refl, sym, subst, ◌∙◌, ◌<◌, inl, inr, Bool-cases,
  All-append, List, [], ◌∷◌, ◌++◌, Option, none, some, arith, length, ◌==◌, All, if◌then◌else◌,
}
use iot_visual_management_sy.Event.{Event}
use iot_visual_management_sy.Store.{erase_source}
use iot_visual_management_sy.Store.Pure.{kept, superseded}

-- No event of the source is buffered.
abbrev pub Absent : ℕ → List Event → Type 0
Absent source = All λ e. e.source_id ≢ source

-- At most one buffered event for each physical source.
abbrev pub OnePerSource : List Event → Type 0
OnePerSource [] = Unit {0}
OnePerSource (e ∷ es) = (e.source_id ≢ 0 → Absent e.source_id es) × OnePerSource es

-- Sequence IDs rise along the buffer.
abbrev pub Ascending : List Event → Type 0
Ascending [] = Unit {0}
Ascending (e ∷ es) = All (λ x. e.sequence_id < x.sequence_id) es × Ascending es

-- The buffered value of a source.
unfoldable pub find : ℕ → List Event → Option Event
find source [] = none
find source (e ∷ es) = if e.source_id == source then some e else find source es

-- The buffered events of the system source, which are never coalesced.
unfoldable pub system : List Event → List Event
system [] = []
system (e ∷ es) = if e.source_id == 0 then e ∷ system es else system es

pub kept-cons :
    (source : ℕ) (e : Event) (es : List Event)
    → source ≢ 0
    → kept source (e ∷ es) ≡ (if e.source_id == source then es else e ∷ kept source es)
unfolding erase_source
kept-cons source e es h = ground arith

-- Nothing is superseded exactly if the source is the system's, or none of its events is buffered.
abbrev pub Unmatched : ℕ → List Event → Type 0
Unmatched source es = (source ≡ 0) ⊎ Absent source es

pub superseded-physical :
    (source : ℕ) (es : List Event) → source ≢ 0 → (superseded source es ≡ false) ↔ Absent source es
unfolding erase_source
superseded-physical source [] n = (λ _. tt, λ _. ground arith)
superseded-physical source (e ∷ es) n = (
  ground (arith, superseded-physical source es n),
  ground (arith, superseded-physical source es n),
)

pub superseded-Unmatched :
    (source : ℕ) (es : List Event) → (superseded source es ≡ false) ↔ Unmatched source es
superseded-Unmatched source es = elim (ℕ_discrete source 0) [
  | yes sys ↦ (λ _. inl sys, λ _. ground arith)
  | no n ↦ (
    λ h. inr ((superseded-physical source es n).0 h),
    λ u. elim u [ inl sys ↦ absurd (n sys) | inr a ↦ (superseded-physical source es n).1 a ],
  )
]

pub kept-Unmatched : (source : ℕ) (es : List Event) → Unmatched source es → kept source es ≡ es
unfolding erase_source
kept-Unmatched source es u = ground (arith, (superseded-Unmatched source es).1 u)

pub length-kept :
    (source : ℕ) (es : List Event)
    → length (kept source es) + (if superseded source es then 1 else 0) ≡ length es
unfolding erase_source
length-kept source [] = ground arith
length-kept source (e ∷ es) = ground (arith, length-kept source es)

module _ {κ} (P : Event → Type κ) (source : ℕ) where
  pub All-kept : (es : List Event) → All P es → All P (kept source es)
  unfolding erase_source
  All-kept [] h = ground arith
  All-kept (e ∷ es) h = ground (arith, All-kept es h.1)

module _ (source : ℕ) where
  pub kept-Absent :
      (es : List Event) → source ≢ 0 → OnePerSource es → Absent source (kept source es)
  unfolding erase_source
  kept-Absent [] h u = ground arith
  kept-Absent (e ∷ es) h u = rw (kept-cons source e es h) (ground (arith, kept-Absent es h u.1))

  -- A property of lists that the tail inherits, and that survives the erasure of a later entry.
  kept-induction {κ} :
      (P : List Event → Type κ)
      → ((e : Event) (es : List Event) → P (e ∷ es) → P es)
      → ((e : Event) (es : List Event) → P (e ∷ es) → P (kept source es) → P (e ∷ kept source es))
      → (es : List Event) → source ≢ 0
      → P es
      → P (kept source es)
  unfolding erase_source
  kept-induction P tail skip [] n h = ground arith
  kept-induction P tail skip (e ∷ es) n h = elim (Bool-cases (e.source_id == source)) [
    | inl hit ↦ rw (kept-cons source e es n, hit) (tail e es h)
    | inr miss ↦
        rw (kept-cons source e es n, miss)
          (skip e es h (kept-induction P tail skip es n (tail e es h)))
  ]

  pub kept-OnePerSource :
      (es : List Event) → source ≢ 0 → OnePerSource es → OnePerSource (kept source es)
  kept-OnePerSource =
      kept-induction OnePerSource (λ e es u. u.1)
        (λ e es u r.
          ((λ n. All-kept (λ (x : Event). x.source_id ≢ e.source_id) source es (u.0 n)), r))

  pub kept-Ascending : (es : List Event) → source ≢ 0 → Ascending es → Ascending (kept source es)
  kept-Ascending =
      kept-induction Ascending (λ e es a. a.1)
        (λ e es a r. (All-kept (λ (x : Event). e.sequence_id < x.sequence_id) source es a.0, r))

  pub find-kept_ne : (j : ℕ) (es : List Event) → j ≢ source → find j (kept source es) ≡ find j es
  unfolding erase_source find
  find-kept_ne j [] n = ground arith
  find-kept_ne j (e ∷ es) n = ground (arith, find-kept_ne j es n)

  pub kept-induction_all {κ} :
      (P : List Event → Type κ)
      → ((n : source ≢ 0) (es : List Event) → P es → P (kept source es))
      → (es : List Event) → P es
      → P (kept source es)
  kept-induction_all P physical es h = elim (ℕ_discrete source 0) [
    | yes sys ↦ subst P (sym (kept-Unmatched source es (inl sys))) h
    | no n ↦ physical n es h
  ]

  pub system-kept : (es : List Event) → system (kept source es) ≡ system es
  unfolding erase_source system
  system-kept [] = ground arith
  system-kept (e ∷ es) = ground (arith, system-kept es)

pub Ascending-snoc :
    (es : List Event) (e : Event)
    → Ascending es
    → All (λ x. x.sequence_id < e.sequence_id) es
    → Ascending (es ++ e ∷ [])
Ascending-snoc [] e a h = ground arith
Ascending-snoc (x ∷ es) e a h = (
  All-append (λ y. x.sequence_id < y.sequence_id) es (e ∷ []) a.0 (h.0, tt),
  Ascending-snoc es e a.1 h.1,
)

pub OnePerSource-snoc :
    (es : List Event) (e : Event)
    → OnePerSource es
    → (e.source_id ≢ 0 → Absent e.source_id es)
    → OnePerSource (es ++ e ∷ [])
OnePerSource-snoc [] e u h = ground arith
OnePerSource-snoc (x ∷ es) e u h = (
  λ n.
      All-append (λ y. y.source_id ≢ x.source_id) es (e ∷ []) (u.0 n)
        ((λ p. (h (λ z. n (sym p ∙ z))).0 (sym p)), tt),
  OnePerSource-snoc es e u.1 (λ n. (h n).1),
)

pub find-append :
    (j : ℕ) (xs ys : List Event)
    → find j (xs ++ ys) ≡ elim (find j xs) [ none ↦ find j ys | some e ↦ some e ]
unfolding find
find-append j [] ys = refl
find-append j (x ∷ xs) ys = ground (arith, find-append j xs ys)

pub find-Absent : (j : ℕ) (es : List Event) → Absent j es → find j es ≡ none
unfolding find
find-Absent j [] h = refl
find-Absent j (x ∷ xs) h = ground (arith, find-Absent j xs h.1)

pub system-append : (xs ys : List Event) → system (xs ++ ys) ≡ system xs ++ system ys
unfolding system
system-append [] ys = refl
system-append (x ∷ xs) ys = ground (arith, system-append xs ys)
