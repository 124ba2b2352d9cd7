-- ===== src/System/Pending.antt =====
-- A command that waits in the queue: how many events it is away from, and what it will make of the
-- output.
use iot_visual_management_sy.Prelude.{
  ℕ, suc, ◌≡◌, ◌≤◌, refl, sym, ap, ◌∙◌, length, nonzero, Bool, List, [], ◌∷◌, ◌++◌, append_assoc,
  All, All-append, Option, none, some, Bytes, arith, List-cases, inl, inr,
}
use iot_visual_management_sy.Event.{Event}
use iot_visual_management_sy.EventQueue.Fifo.{contents, of_option}
use iot_visual_management_sy.StateManager.{StateManager}
use iot_visual_management_sy.StateManager
use iot_visual_management_sy.StateManager.Latest.{handle_all}
use iot_visual_management_sy.Rtos.{QueueApi}
use iot_visual_management_sy.Serializer.Command.{Command, output, state}
use iot_visual_management_sy.Cjson.{CjsonApi}
use iot_visual_management_sy.EventQueue.{EventQueue}
use iot_visual_management_sy.System.Silent.{IsSilent, Adds}

-- Handling the first events makes the output `v`, there are at most `k` of them, and the events behind
-- them say nothing of the output.
pub record Pending (v : Bool) (k : ℕ) (s : StateManager) (es : List Event) : Type 0 where
  pub ahead : List Event
  pub behind : List Event
  pub at : es ≡ ahead ++ behind
  pub near : length ahead ≤ k
  pub value : (handle_all s ahead).output_state ≡ v
  pub silent : All IsSilent behind

silent_output :
    (s : StateManager) (e : Event)
    → IsSilent e
    → (StateManager.handle_event s e).output_state ≡ s.output_state
unfolding StateManager.handle_event
silent_output s e h = ground arith

pub Pending-received :
    (v : Bool) (k : ℕ) (s : StateManager) (ahead behind : List Event) (o : Option Event)
    (rest : List Event)
    → ahead ++ behind ≡ of_option o ++ rest
    → (o ≡ none → ahead ++ behind ≡ [])
    → length ahead ≤ suc k
    → (handle_all s ahead).output_state ≡ v
    → All IsSilent behind
    → Pending v k (handle_all s (of_option o)) rest
unfolding handle_all
Pending-received v k s [] behind none rest at empty near value silent = record {
  ahead = [];
  behind = behind;
  at = sym at;
  near = omega arith;
  value = value;
  silent = silent;
}
Pending-received v k s (e ∷ es) behind none rest at empty near value silent =
    absurd (ground (arith, empty refl))
Pending-received v k s [] [] (some e') rest at empty near value silent = absurd (ground arith)
Pending-received v k s [] (b ∷ bs) (some e') rest at empty near value silent =
    let same : b ≡ e' = ground arith in
    record {
      ahead = [];
      behind = bs;
      at = ground arith;
      near = omega arith;
      value =
          ap (λ x. (StateManager.handle_event s x).output_state) (sym same)
          ∙ silent_output s b silent.0
          ∙ value;
      silent = silent.1;
    }
Pending-received v k s (e ∷ es) behind (some e') rest at empty near value silent =
    let same : e ≡ e' = ground arith in
    record {
      ahead = es;
      behind = behind;
      at = ground arith;
      near = omega (arith, near);
      value =
          ap (λ x. (handle_all (StateManager.handle_event s x) es).output_state) (sym same) ∙ value;
      silent = silent;
    }

pub Pending-zero :
    (v : Bool) (s : StateManager) (es : List Event) → Pending v 0 s es → s.output_state ≡ v
unfolding handle_all
Pending-zero v s es p = elim (List-cases p.ahead) [
  | inl nothing ↦ ap (λ xs. (handle_all s xs).output_state) (sym nothing) ∙ p.value
  | inr (x, xs, one) ↦ absurd (ground (arith, p.near))
]

pub Pending-Adds :
    {api : QueueApi} (v : Bool) (k : ℕ) (s : StateManager) (q q' : EventQueue api)
    → Adds q q'
    → Pending v k s (contents q)
    → Pending v k s (contents q')
Pending-Adds v k s q q' a h = record {
  ahead = h.ahead;
  behind = h.behind ++ a.added;
  at = a.at ∙ ap (λ es. es ++ a.added) h.at ∙ append_assoc h.ahead h.behind a.added;
  near = h.near;
  value = h.value;
  silent = All-append IsSilent h.behind a.added h.silent a.silent;
}

Command-output_state :
    (json : CjsonApi) (s : StateManager) (payload : Bytes) (time_us : ℕ) (h : json.Heap) (e : Event)
    → Command json payload time_us h e
    → (StateManager.handle_event s e).output_state ≡ nonzero e.value
unfolding StateManager.handle_event
Command-output_state json s payload time_us h e c =
    rw c.object.event (elim c.object.names [ output n t ↦ rw t refl | state n t ↦ rw t refl ])

pub handle_all-Command :
    {json : CjsonApi} (s : StateManager) (es : List Event) (payload : Bytes) (time_us : ℕ)
    (h : json.Heap) (e : Event)
    → Command json payload time_us h e
    → (handle_all s (es ++ e ∷ [])).output_state ≡ nonzero e.value
unfolding handle_all
handle_all-Command {json} s [] payload time_us h e c =
    Command-output_state json s payload time_us h e c
handle_all-Command {json} s (x ∷ es) payload time_us h e c =
    handle_all-Command (StateManager.handle_event s x) es payload time_us h e c
