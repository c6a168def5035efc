-- ===== src/Agent/Graph/Outcome.antt =====
-- agent/graph.go: how a run ends.
use mathlib.Core.Path.{subst}
use deepagent.Base.{
  ℕ, suc, ◌≤◌, ◌≡◌, ◌≢◌, refl, ap, ◌⊎◌, inl, inr, Bool, true, false, Option, none, some, List, [],
  ◌∷◌, ◌++◌, arith, le→ltb, ◌∙◌, append_assoc, append-nil, sym,
}
use deepagent.Base.Text.{Str, lit}
use deepagent.Agent.Types.{
  Result, ok, err, Input, ToolCall, State, Message, Output, AgentError, Action, Event, Code,
  checkpoint_load, llm_invoke, max_iterations, RunSummary,
}
use deepagent.Agent.Graph.{Graph, Run, act, emit}
use deepagent.Agent.Graph.Answers.{
  emit-state, say-state, call_model-messages, continue_turn-IsAnswered,
}
use deepagent.Agent.Graph.Accounts.{invocations}
use deepagent.Agent.Graph.Rules.{AfterTurn, request_of, run_rule}
use deepagent.Agent.Graph.Turns.{
  call_model, say, save_state, finish, continue_turn, take_turn, max_rounds, loop, conclude, begin,
  give_up, load_failed, run, initial, start_state,
}

-- The conversation `t` begins with that of `s`.
pub record Extends (s t : State) : Type 0 where
  pub added : List Message
  pub grown : t.messages ≡ s.messages ++ added

Extends-add :
    {s t : State} (more : List Message) (u : State)
    → Extends s t
    → u.messages ≡ t.messages ++ more
    → Extends s u
Extends-add {s} more u h e = record {
  added = h.added ++ more;
  grown = e ∙ ap (λ (ms : List Message). ms ++ more) h.grown ∙ append_assoc s.messages h.added more;
}

-- The state in which the checkpointer was last told to save.
abbrev pub last_saved : List Action → Option State
last_saved [] = none
last_saved (Action.saved _ s ∷ older) = some s
last_saved (_ ∷ older) = last_saved older

-- Whether the latest question to the model failed.
abbrev pub model_failed : List Action → Bool
model_failed [] = false
model_failed (Action.logged_model _ _ none ∷ older) = false
model_failed (Action.logged_model _ _ (some _) ∷ older) = true
model_failed (_ ∷ older) = model_failed older

abbrev pub FailsFor : Code → List Action → State → Type 0
FailsFor checkpoint_load actions s = ⊥
FailsFor llm_invoke actions s = model_failed actions ≡ true
FailsFor max_iterations actions s = max_rounds ≤ s.iteration

-- How a run from the conversation `start` may end. A final answer is not empty, it is the last
-- message, said by the assistant, and the state that holds it is the one that was saved last. An
-- error says that the latest question to the model failed, or that the rounds are used up.
abbrev pub EndsWell : State → Output ⊎ AgentError → List Action → State → Type 0
EndsWell start (inl out) actions s =
    (before : List Message) × (out.final ≢ [])
    × (out.messages
        ≡ start.messages ++ before ++ record { role = lit "assistant"; content = out.final } ∷ [])
    × (s.messages ≡ out.messages)
    × (s.final ≡ out.final)
    × (last_saved actions ≡ some s)
EndsWell start (inr e) actions s = Extends start s × FailsFor e.code actions s

module _ {W : Type 0} (g : Graph W) (thread request : Str) (start : State) where
  abbrev Started : Run W → Type 0
  Started r = Extends start r.state

  abbrev Ended : Output ⊎ AgentError → Run W → Type 0
  Ended out r = EndsWell start out r.actions r.state

  call_model-Started : (r : Run W) → Started r → Started (call_model g thread request r).1
  call_model-Started r h =
      Extends-add [] _ h (call_model-messages g thread request r ∙ sym (append-nil _))

  continue_turn-Started :
      (content : Str) (tcs : List ToolCall) (r : Run W)
      → Started r
      → Started (continue_turn g thread request content tcs r)
  continue_turn-Started content tcs r h =
      let k = continue_turn-IsAnswered g thread request content tcs r in
      Extends-add (record { role = lit "assistant"; content = content } ∷ k.answers) _ h
        (k.grown ∙ append_assoc r.state.messages _ _)

  -- the last steps of `finish`, from any run that holds the answer
  close_answer :
      (content : Str) (out : Output) (before : List Message) (r : Run W)
      → content ≢ []
      → out.final ≡ content
      → out.messages ≡ r.state.messages
      → r.state.messages
        ≡ start.messages ++ before ++ record { role = lit "assistant"; content = content } ∷ []
      → r.state.final ≡ content
      → Ended (inl out) (emit g (Event.final out) (save_state g thread request r))
  unfolding emit save_state
  close_answer content out before r said final same grown closed =
      let whole : out.messages
          ≡ start.messages
            ++ before
            ++ record { role = lit "assistant"; content = out.final } ∷ [] =
        rw (final, same, grown) in
      (before, (λ e. said (sym final ∙ e)), whole, ground arith, ground arith, ground arith)

  finish-Ended :
      (c : ℕ) (content : Str) (r : Run W)
      → Started r
      → Ended
          (inl (finish g thread request (c ∷ content) r).0)
          (finish g thread request (c ∷ content) r).1
  unfolding finish emit save_state say
  finish-Ended c content r h =
      let shown = say g thread request (c ∷ content) r in
      close_answer (c ∷ content) _ h.added
        (record shown { state = record shown.state { final = c ∷ content } }) (λ e. cc) refl refl
        (rw (say-state g thread request (c ∷ content) r, h.grown) refl) refl

  -- the log of the question says whether it failed
  call_model-failed :
      (e : Str) (r : Run W)
      → (call_model g thread request r).0 ≡ err e
      → model_failed (call_model g thread request r).1.actions ≡ true
  unfolding call_model
  call_model-failed e r h = ground arith

  take_turn-Ended :
      (reply : Result (Str × List ToolCall)) (r : Run W)
      → ((e : Str) → reply ≡ err e → model_failed r.actions ≡ true)
      → Started r
      → AfterTurn Started Ended (take_turn g thread request (reply, r))
  unfolding take_turn
  take_turn-Ended (err e) r failed h = (h, failed e refl)
  take_turn-Ended (ok (c ∷ content, [])) r failed h = finish-Ended c content r h
  take_turn-Ended (ok (content, tcs)) r failed h = continue_turn-Started content tcs r h

  turn-Ended :
      (r : Run W)
      → Started r
      → AfterTurn Started Ended (take_turn g thread request (call_model g thread request r))
  turn-Ended r h = take_turn-Ended _ _ (λ e. call_model-failed e r) (call_model-Started r h)

  emit-FailsFor :
      (c : Code) (e : Event) (r : Run W)
      → FailsFor c r.actions r.state
      → FailsFor c (emit g e r).actions (emit g e r).state
  unfolding emit
  emit-FailsFor checkpoint_load e r h = absurd h
  emit-FailsFor llm_invoke e r h = ground arith
  emit-FailsFor max_iterations e r h = ground arith

  summed-FailsFor :
      (c : Code) (s : RunSummary) (r : Run W)
      → FailsFor c r.actions r.state
      → FailsFor c (Action.logged_summary s ∷ r.actions) r.state
  summed-FailsFor checkpoint_load s r h = h
  summed-FailsFor llm_invoke s r h = h
  summed-FailsFor max_iterations s r h = h

  conclude-Ended :
      (d : (Output ⊎ AgentError) × Run W)
      → Ended d.0 d.1
      → Ended d.0 (conclude g thread request d).1
  unfolding conclude act
  conclude-Ended (inl out, r) h = h
  conclude-Ended (inr e, r) h = (
    subst (λ (s : State). Extends start s) (sym (emit-state g thread request _ _)) h.0,
    emit-FailsFor e.code _ _ (summed-FailsFor e.code _ r h.1),
  )

module _ {W : Type 0} (g : Graph W) (input : Input) (w : W) where
  -- The run fails with this error, and neither asked the model nor saved anything.
  abbrev pub FailsIdle : AgentError → Option ((Output ⊎ AgentError) × Run W) → Type 0
  FailsIdle e result =
      (r : Run W) × (result ≡ some (inr e, r))
      × (invocations r.actions ≡ 0)
      × (last_saved r.actions ≡ none)

  fails_idle :
      (e : AgentError) (s : State)
      → FailsIdle e (
          some (
            conclude g input.thread_id
              (request_of g input w)
              (inr e, initial input.thread_id (g.load input.thread_id w).1 s)))
  unfolding conclude emit act
  fails_idle e s = (_, refl, ground arith, ground arith)

  begin_failed :
      (e : Str) (found : Result (Option State))
      → found ≡ err e
      → begin g input.thread_id (request_of g input w) input (found, (g.load input.thread_id w).1)
        ≡ some (
          inr (load_failed g input.thread_id (request_of g input w) e),
          initial input.thread_id
              (g.load input.thread_id w).1
              (start_state g input.thread_id (request_of g input w) input none),
        )
  unfolding begin
  begin_failed e found p = rw p

  loop_full :
      (fuel : ℕ) (r : Run W)
      → max_rounds ≤ r.state.iteration
      → loop g input.thread_id (request_of g input w) (suc fuel) r
        ≡ some (inr (give_up g input.thread_id (request_of g input w)), r)
  unfolding loop
  loop_full fuel r h = rw (le→ltb r.state.iteration max_rounds h, loop)

  begin_full :
      (s : State) (found : Result (Option State))
      → found ≡ ok (some s)
      → max_rounds ≤ s.iteration
      → begin g input.thread_id (request_of g input w) input (found, (g.load input.thread_id w).1)
        ≡ some (
          inr (give_up g input.thread_id (request_of g input w)),
          initial input.thread_id
              (g.load input.thread_id w).1
              (start_state g input.thread_id (request_of g input w) input (some s)),
        )
  unfolding begin
  begin_full s found p h = rw p (loop_full 20 _ h)

ok-injective : {A : Type 0} {a b : A} → ok a ≡ ok b → a ≡ b
ok-injective e = cc

-- A run whose checkpoint can be loaded, and is `found`, ends in one of two ways. A final answer is
-- not empty; the answer's messages are those of the loaded conversation with the input, then what
-- was added, then the answer by the assistant; and the state that holds them was saved last. Or
-- the error says that the latest question to the model failed, or that twenty rounds are used up,
-- and the conversation still begins with the loaded one.
pub run-EndsWell :
    {W : Type 0} (g : Graph W) (input : Input) (w : W) (found : Option State)
    (out : Output ⊎ AgentError) (r : Run W)
    → (g.load input.thread_id w).0 ≡ ok found
    → run g input w ≡ some (out, r)
    → EndsWell
        (start_state g input.thread_id (request_of g input w) input found)
        out
        r.actions
        r.state
unfolding give_up
run-EndsWell {W} g input w found out r loaded =
    let thread = input.thread_id in
    let request = request_of g input w in
    let start = start_state g thread request input found in
    run_rule g input w (λ r. Extends start r.state) (λ out r. EndsWell start out r.actions r.state)
      (λ out r. EndsWell start out r.actions r.state)
      (λ r _ h. turn-Ended g thread request start r h) (λ r full h. (h, full))
      (λ d h. conclude-Ended g thread request start d h) (λ e failed. cc (loaded, failed))
      (λ o same.
        subst (λ (o : Option State). Extends start (start_state g thread request input o))
          (ok-injective (sym loaded ∙ same)) (record { added = []; grown = sym (append-nil _) }))

-- Where the checkpoint cannot be loaded, the run ends with that error, and neither asks the model
-- nor saves anything.
pub run-load_error :
    {W : Type 0} (g : Graph W) (input : Input) (w : W) (e : Str)
    → (g.load input.thread_id w).0 ≡ err e
    → FailsIdle g input w (load_failed g input.thread_id (request_of g input w) e) (run g input w)
unfolding run
run-load_error g input w e failed =
    rw (begin_failed g input w e _ failed) (fails_idle g input w _ _)

-- The rounds are counted over the life of a thread: once its checkpoint stands at iteration
-- twenty, every later run on the thread fails, and neither asks the model nor saves anything.
pub run-exhausted :
    {W : Type 0} (g : Graph W) (input : Input) (w : W) (s : State)
    → (g.load input.thread_id w).0 ≡ ok (some s)
    → max_rounds ≤ s.iteration
    → FailsIdle g input w (give_up g input.thread_id (request_of g input w)) (run g input w)
unfolding run
run-exhausted g input w s loaded full =
    rw (begin_full g input w s _ loaded full) (fails_idle g input w _ _)
