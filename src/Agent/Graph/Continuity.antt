-- ===== src/Agent/Graph/Continuity.antt =====
-- agent/graph.go: a later run on a thread goes on where an earlier one ended.
use mathlib.Core.Option
use mathlib.Core.Path.{subst}
use deepagent.Base.{◌≡◌, refl, ◌∙◌, ◌⊎◌, inl, inr, Option, some, List, [], ◌∷◌, ◌++◌, arith}
use deepagent.Base.Text.{Str}
use deepagent.Agent.Types.{Result, ok, err, Input, ToolCall, State, Output, AgentError, Event}
use deepagent.Agent.Graph.{Graph, Run, emit}
use deepagent.Agent.Graph.Outcome.{EndsWell, run-EndsWell}
use deepagent.Agent.Graph.Rules.{AfterTurn, request_of, run_rule}
use deepagent.Agent.Graph.Turns.{save_state, finish, take_turn, conclude, begin, run, start_state}

-- What is relied on of the checkpointer for a thread: a state that was just saved is loaded.
pub record LoadsSaved {W : Type 0} (g : Graph W) (thread : Str) : Type 0 where
  pub load_save : (s : State) (w : W) → (g.load thread (g.save thread s w)).0 ≡ ok (some s)

module _ {W : Type 0} (g : Graph W) (thread request : Str) where
  -- After an answer the world is the one that the last save left, of the state with the messages of
  -- the answer.
  abbrev SavedLast : Output ⊎ AgentError → Run W → Type 0
  SavedLast (inl out) r =
      (before : W) × (r.world ≡ g.save thread r.state before) × (r.state.messages ≡ out.messages)
  SavedLast (inr e) r = Unit

  emit-SavedLast :
      (out : Output) (e : Event) (r : Run W)
      → SavedLast (inl out) r
      → SavedLast (inl out) (emit g e r)
  unfolding emit
  emit-SavedLast out e r (before, saved, same) = (before, ground arith, ground arith)

  finish-SavedLast :
      (content : Str) (r : Run W)
      → SavedLast (inl (finish g thread request content r).0) (finish g thread request content r).1
  unfolding finish save_state
  finish-SavedLast content r =
      emit-SavedLast (finish g thread request content r).0 _ _ (_, refl, refl)

  take_turn-SavedLast :
      (reply : Result (Str × List ToolCall)) (r : Run W)
      → AfterTurn (λ _. Unit) SavedLast (take_turn g thread request (reply, r))
  unfolding take_turn
  take_turn-SavedLast (err e) r = tt
  take_turn-SavedLast (ok (c ∷ content, [])) r = finish-SavedLast (c ∷ content) r
  take_turn-SavedLast (ok (content, tcs)) r = tt

  conclude-SavedLast :
      (d : (Output ⊎ AgentError) × Run W)
      → SavedLast d.0 d.1
      → SavedLast d.0 (conclude g thread request d).1
  unfolding conclude
  conclude-SavedLast (inl out, r) h = h
  conclude-SavedLast (inr e, r) h = tt

run-SavedLast :
    {W : Type 0} (g : Graph W) (input : Input) (w : W) (out : Output ⊎ AgentError) (r : Run W)
    → run g input w ≡ some (out, r)
    → SavedLast g input.thread_id (request_of g input w) out r
run-SavedLast {W} g input w out r =
    let thread = input.thread_id in
    let request = request_of g input w in
    run_rule g input w (λ _. Unit) (SavedLast g thread request) (SavedLast g thread request)
      (λ r _ h. take_turn-SavedLast g thread request _ _) (λ r _ h. tt)
      (λ d h. conclude-SavedLast g thread request d h) (λ e _. tt) (λ o _. tt)

begin-Loaded :
    {W : Type 0} (g : Graph W) (thread request : Str) (input : Input)
    (found : Result (Option State)) (w : W) (out : Output) (r : Run W)
    → Option.map (conclude g thread request) (begin g thread request input (found, w))
      ≡ some (inl out, r)
    → (o : Option State) × (found ≡ ok o)
unfolding begin conclude
begin-Loaded g thread request input (err e) w out r h = cc
begin-Loaded g thread request input (ok o) w out r h = (o, refl)

-- A run that answered had loaded the state of its thread, or had found none.
pub run-Loaded :
    {W : Type 0} (g : Graph W) (input : Input) (w : W) (out : Output) (r : Run W)
    → run g input w ≡ some (inl out, r)
    → (o : Option State) × ((g.load input.thread_id w).0 ≡ ok o)
unfolding run
run-Loaded g input w out r ran =
    begin-Loaded g input.thread_id (request_of g input w) input (g.load input.thread_id w).0
      (g.load input.thread_id w).1 out r ran

-- On a checkpointer that loads what was just saved for the thread: after a run that answered, a run on
-- the same thread starts from the messages of that answer followed by its own input, and ends well
-- from there, as a final answer whose messages begin with these, or with an error whose cause is named.
pub run-Continues :
    {W : Type 0} (g : Graph W) (first second : Input) (w : W) (out : Output) (r : Run W)
    (out' : Output ⊎ AgentError) (r' : Run W)
    → LoadsSaved g first.thread_id
    → run g first w ≡ some (inl out, r)
    → second.thread_id ≡ first.thread_id
    → run g second r.world ≡ some (out', r')
    → EndsWell
        (record r.state { messages = out.messages ++ second.messages })
        out'
        r'.actions
        r'.state
unfolding start_state
run-Continues g first second w out r out' r' law ran same ran' =
    let (before, saved, messages) = run-SavedLast g first w (inl out) r ran in
    let loaded : (g.load second.thread_id r.world).0 ≡ ok (some r.state) =
      (λ i. (g.load (same i) (saved i)).0) ∙ law.load_save r.state before in
    subst
      (λ ms.
        EndsWell (record r.state { messages = ms ++ second.messages }) out' r'.actions r'.state)
      messages (run-EndsWell g second r.world (some r.state) out' r' loaded ran')
