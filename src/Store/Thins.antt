-- ===== src/Store/Thins.antt =====
-- Lists of events that lose entries and keep their order: what survives such a loss, also behind
-- a common prefix.
use iot_visual_management_sy.Prelude.{
  ℕ, ◌<◌, ◌≡◌, List, [], ◌∷◌, ◌++◌, All, All-append, All-mono, ◌+◌, arith,
}
use iot_visual_management_sy.Event.{Event}
use iot_visual_management_sy.Store.Pure.{kept}
use iot_visual_management_sy.Store.Coalesce.{
  Ascending, All-kept, kept-Ascending, kept-induction_all, Ascending-snoc,
}

-- Whatever holds of every event of the first list holds of every event of the second, and the
-- second ascends if the first does.
pub record Thins (es fs : List Event) : Type 1 where
  pub all : (P : Event → Type 0) → All P es → All P fs
  pub ascending : Ascending es → Ascending fs

pub Thins-refl : (es : List Event) → Thins es es
Thins-refl es = record { all = λ P h. h; ascending = λ h. h }

pub Thins-trans : {es fs gs : List Event} → Thins es fs → Thins fs gs → Thins es gs
Thins-trans s t = record {
  all = λ P h. t.all P (s.all P h);
  ascending = λ h. t.ascending (s.ascending h);
}

pub Thins-drop : (e : Event) {es fs : List Event} → Thins es fs → Thins (e ∷ es) fs
Thins-drop e t = record { all = λ P h. t.all P h.1; ascending = λ h. t.ascending h.1 }

pub Thins-cons : (e : Event) {es fs : List Event} → Thins es fs → Thins (e ∷ es) (e ∷ fs)
Thins-cons e t = record {
  all = λ P h. (h.0, t.all P h.1);
  ascending = λ h. (t.all (λ x. e.sequence_id < x.sequence_id) h.0, t.ascending h.1);
}

pub Thins-prefix :
    (xs : List Event) {es fs : List Event} → Thins es fs → Thins (xs ++ es) (xs ++ fs)
Thins-prefix [] t = t
Thins-prefix (x ∷ xs) t = Thins-cons x (Thins-prefix xs t)

pub Thins-kept : (source : ℕ) (es : List Event) → Thins es (kept source es)
Thins-kept source es = record {
  all = λ P. All-kept P source es;
  ascending = kept-induction_all source Ascending (λ n xs. kept-Ascending source xs n) es;
}

-- A list that ascends with all its IDs below `n`.
pub record AscendsBelow (n : ℕ) (es : List Event) : Type 0 where
  pub ascending : Ascending es
  pub below : All (λ x. x.sequence_id < n) es

pub AscendsBelow-Thins :
    {n : ℕ} {es fs : List Event} → Thins es fs → AscendsBelow n es → AscendsBelow n fs
AscendsBelow-Thins {n} t h = record {
  ascending = t.ascending h.ascending;
  below = t.all (λ x. x.sequence_id < n) h.below;
}

-- A new event takes the next number.
pub AscendsBelow-snoc :
    (n : ℕ) (es : List Event) (e : Event)
    → e.sequence_id ≡ n
    → AscendsBelow n es
    → AscendsBelow (n + 1) (es ++ e ∷ [])
AscendsBelow-snoc n es e at h = record {
  ascending = Ascending-snoc es e h.ascending (rw at h.below);
  below = All-append _ es (e ∷ []) (All-mono _ _ es (λ x k. omega arith) h.below) (omega arith, tt);
}

pub AscendsBelow-more : {n : ℕ} (es : List Event) → AscendsBelow n es → AscendsBelow (n + 1) es
AscendsBelow-more es h = record {
  ascending = h.ascending;
  below = All-mono _ _ es (λ x k. omega arith) h.below;
}
