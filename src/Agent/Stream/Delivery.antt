-- ===== src/Agent/Stream/Delivery.antt =====
-- agent/deepagent.go, `Stream`: what the reader has got.
use mathlib.Core.Option
use mathlib.Core.Option.{some-injective}
use mathlib.Core.Path.{subst}
use deepagent.Base.{
  ◌≤◌, ◌≡◌, ◌⊎◌, inl, inr, refl, ◌∙◌, sym, arith, some, Bool, true, false, List, [], ◌∷◌, ◌++◌,
  length, length-append, append_assoc, append-nil, Option-cases,
}
use deepagent.Agent.Types.{Input, Event}
use deepagent.Agent.Graph.{Graph, Run}
use deepagent.Agent.Graph.Rules.{Outcome}
use deepagent.Agent.Stream.Last.{outcome_event, run-last_event}
use deepagent.Agent.Stream.{
  Stream, opened, Move, send, close, receive, capacity, sends, closes, receives,
  run_with_event_sink, events, step, steps, is_done,
}

-- What is received, buffered and still to be sent are together the events, in order; the buffer
-- keeps to its capacity; the channel is closed only when everything is sent.
pub record IsOrderly (all : List Event) (s : Stream) : Type 0 where
  pub in_order : s.got ++ (s.buffer ++ s.todo) ≡ all
  pub bounded : length s.buffer ≤ capacity
  pub sent : (s.closed ≡ false) ⊎ (s.todo ≡ [])

opened-IsOrderly : (all : List Event) → IsOrderly all (opened all)
opened-IsOrderly all = record { in_order = refl; bounded = omega arith; sent = inl refl }

move_one :
    (got buffer todo : List Event) (e : Event)
    → (got ++ e ∷ []) ++ (buffer ++ todo) ≡ got ++ (e ∷ buffer ++ todo)
move_one got buffer todo e = simp (append_assoc)

send_one :
    (got buffer todo : List Event) (e : Event)
    → got ++ ((buffer ++ e ∷ []) ++ todo) ≡ got ++ (buffer ++ e ∷ todo)
send_one got buffer todo e = simp (append_assoc)

sends-IsOrderly :
    (all todo : List Event) (s s' : Stream)
    → s.todo ≡ todo
    → IsOrderly all s
    → sends todo s ≡ some s'
    → IsOrderly all s'
sends-IsOrderly all [] s s' same h e = cc
sends-IsOrderly all (x ∷ todo) s s' same h e = record {
  in_order = ground (arith, h.in_order, send_one s.got s.buffer todo x);
  bounded = ground (arith, h.bounded, length-append s.buffer (x ∷ []));
  sent = ground (arith, h.sent);
}

closes-IsOrderly :
    (all todo : List Event) (s s' : Stream)
    → s.todo ≡ todo
    → IsOrderly all s
    → closes todo s ≡ some s'
    → IsOrderly all s'
closes-IsOrderly all [] s s' same h e = record {
  in_order = ground (arith, h.in_order);
  bounded = ground (arith, h.bounded);
  sent = ground (arith, h.sent);
}
closes-IsOrderly all (x ∷ todo) s s' same h e = cc

receives-IsOrderly :
    (all buffer : List Event) (s s' : Stream)
    → s.buffer ≡ buffer
    → IsOrderly all s
    → receives buffer s ≡ some s'
    → IsOrderly all s'
receives-IsOrderly all [] s s' same h e = cc
receives-IsOrderly all (x ∷ buffer) s s' same h e = record {
  in_order = ground (arith, h.in_order, move_one s.got buffer s.todo x);
  bounded = ground (arith, h.bounded);
  sent = ground (arith, h.sent);
}

step-IsOrderly :
    (all : List Event) (m : Move) (s s' : Stream)
    → IsOrderly all s
    → step m s ≡ some s'
    → IsOrderly all s'
unfolding step
step-IsOrderly all send s s' h e = sends-IsOrderly all s.todo s s' refl h e
step-IsOrderly all close s s' h e = closes-IsOrderly all s.todo s s' refl h e
step-IsOrderly all receive s s' h e = receives-IsOrderly all s.buffer s s' refl h e

steps-IsOrderly :
    (all : List Event) (moves : List Move) (s s' : Stream)
    → IsOrderly all s
    → steps moves s ≡ some s'
    → IsOrderly all s'
unfolding steps Option.bind
steps-IsOrderly all [] s s' h e = subst (IsOrderly all) (some-injective _ _ e) h
steps-IsOrderly all (m ∷ moves) s s' h e = elim (Option-cases (step m s)) [
  | inl stuck ↦ cc
  | inr (next, moved) ↦
      steps-IsOrderly all moves next s' (step-IsOrderly all m s next h moved) (rw moved at e)
]

-- Whatever the order in which the goroutine and the reader make their moves, what is received,
-- buffered and still to be sent are together the events in order, and at most 32 are buffered.
pub steps-opened :
    (all : List Event) (moves : List Move) (s : Stream)
    → steps moves (opened all) ≡ some s
    → IsOrderly all s
steps-opened all moves s = steps-IsOrderly all moves (opened all) s (opened-IsOrderly all)

drained :
    (got buffer todo all : List Event) (closed : Bool)
    → got ++ (buffer ++ todo) ≡ all
    → (closed ≡ false) ⊎ (todo ≡ [])
    → is_done (record { todo = todo; buffer = buffer; got = got; closed = closed }) ≡ true
    → got ≡ all
drained got (x ∷ buffer) todo all closed order sent e = cc
drained got [] todo all closed order (inl open_yet) e = cc
drained got [] todo all closed order (inr nothing) e = sym (append-nil got) ∙ rw nothing at order

-- Whatever the order of the moves, a reader whose loop over the channel is over has got all the
-- events of the run in order, and the last of them is the final answer, or the error, that the run
-- returns.
pub stream-Delivers :
    {W : Type 0} (g : Graph W) (input : Input) (w : W) (out : Outcome) (r : Run W)
    (moves : List Move) (s : Stream)
    → run_with_event_sink g input w ≡ some (out, r)
    → steps moves (opened (events r)) ≡ some s
    → is_done s ≡ true
    → (s.got ≡ events r) × (before : List Event) × (s.got ≡ before ++ outcome_event out ∷ [])
stream-Delivers g input w out r moves s ran moved over =
    let h = steps-opened (events r) moves s moved in
    let all = drained s.got s.buffer s.todo (events r) s.closed h.in_order h.sent over in
    let (before, last) = run-last_event g input w out r ran in (all, before, all ∙ last)
