-- ===== src/Agent/Graph/Rules.antt =====
-- agent/graph.go: the rule for the loop and for a run. `P` holds between turns and `Q` of the
-- outcome with the run that it leaves.
use mathlib.Core.Path.{subst}
use mathlib.Core.Option
use mathlib.Core.Option.{some-injective}
use deepagent.Base.{
  ℕ, zero, suc, ◌≤◌, ◌<◌, ◌≡◌, refl, ◌⊎◌, inl, inr, Option, none, some, ltb, ltb→lt, Bool-cases,
  arith,
}
use deepagent.Base.Text.{Str}
use deepagent.Agent.Types.{Result, ok, err, Input, State, Output, AgentError}
use deepagent.Agent.Graph.{Graph, Run, new_request_id}
use deepagent.Agent.Graph.Turns.{
  call_model, take_turn, max_rounds, advance, give_up, loop, conclude, load_failed, start_state,
  initial, enough, begin, run,
}

abbrev pub Outcome : Type 0
Outcome = Output ⊎ AgentError

-- what a turn leaves: an outcome, or a run to go on with
abbrev pub AfterTurn :
    {W : Type 0} → (Run W → Type 0) → (Outcome → Run W → Type 0) → Option Outcome × Run W → Type 0
AfterTurn P Q (some o, r) = Q o r
AfterTurn P Q (none, r) = P r

abbrev Done : Type 0 → Type 0
Done W = Outcome × Run W

module _ {W : Type 0} (Q : Outcome → Run W → Type 0) where
  transfer : {d e : Done W} → Q d.0 d.1 → some d ≡ some e → Q e.0 e.1
  transfer q p = subst (λ (d : Done W). Q d.0 d.1) (some-injective _ _ p) q

module _ {W : Type 0} (g : Graph W) (thread request : Str) (P : Run W → Type 0)
    (Q : Outcome → Run W → Type 0) where
  advance_rule :
      (k : Run W → Option (Done W)) (verdict : Option Outcome) (r : Run W) {d : Done W}
      → AfterTurn P Q (verdict, r)
      → ((r2 : Run W) → P r2 → k r2 ≡ some d → Q d.0 d.1)
      → advance g thread request k (verdict, r) ≡ some d
      → Q d.0 d.1
  unfolding advance
  advance_rule k (some o) r q next e = transfer Q q e
  advance_rule k none r p next e = next r p e

  module _
      (turn : (r : Run W)
        → r.state.iteration < max_rounds
        → P r
        → AfterTurn P Q (take_turn g thread request (call_model g thread request r)))
      (stop : (r : Run W)
        → max_rounds ≤ r.state.iteration
        → P r
        → Q (inr (give_up g thread request)) r) where
    pub loop_rule :
        (fuel : ℕ) (r : Run W) {d : Done W}
        → P r
        → loop g thread request fuel r ≡ some d
        → Q d.0 d.1
    unfolding loop
    loop_rule zero r h e = cc
    loop_rule (suc fuel) r h e = elim (Bool-cases (ltb r.state.iteration max_rounds)) [
      | inl more ↦
          advance_rule (loop g thread request fuel) _ _ (turn r (ltb→lt _ _ more) h)
            (λ r2 h2. loop_rule fuel r2 h2) (rw (more, loop) at e)
      | inr full ↦ transfer Q (stop r (ground arith) h) (rw (full, loop) at e)
    ]

    begin_rule :
        (input : Input) (found : Result (Option State)) (w : W) {d : Done W}
        → ((e : Str)
            → found ≡ err e
            → Q
                (inr (load_failed g thread request e))
                (initial thread w (start_state g thread request input none)))
        → ((o : Option State)
            → found ≡ ok o
            → P (initial thread w (start_state g thread request input o)))
        → begin g thread request input (found, w) ≡ some d
        → Q d.0 d.1
    unfolding begin
    begin_rule input (err e) w failed start q = transfer Q (failed e refl) q
    begin_rule input (ok found) w failed start q = loop_rule enough _ (start found refl) q

module _ {W : Type 0} (g : Graph W) (input : Input) (w : W) where
  -- the id of the request
  abbrev pub request_of : Str
  request_of = new_request_id input.thread_id (g.now w)

  module _ (P : Run W → Type 0) (Q R : Outcome → Run W → Type 0)
      (turn : (r : Run W)
        → r.state.iteration < max_rounds
        → P r
        → AfterTurn P Q
            (take_turn g input.thread_id request_of (call_model g input.thread_id request_of r)))
      (stop : (r : Run W)
        → max_rounds ≤ r.state.iteration
        → P r
        → Q (inr (give_up g input.thread_id request_of)) r)
      (close : (d : Outcome × Run W)
        → Q d.0 d.1
        → R d.0 (conclude g input.thread_id request_of d).1) where
    pub run_rule :
        {d : Outcome × Run W}
        → ((e : Str)
            → (g.load input.thread_id w).0 ≡ err e
            → Q (inr (load_failed g input.thread_id request_of e)) (
                initial input.thread_id
                  (g.load input.thread_id w).1
                  (start_state g input.thread_id request_of input none)))
        → ((o : Option State)
            → (g.load input.thread_id w).0 ≡ ok o
            → P (
                initial input.thread_id
                  (g.load input.thread_id w).1
                  (start_state g input.thread_id request_of input o)))
        → run g input w ≡ some d
        → R d.0 d.1
    unfolding run
    run_rule {d} failed start e =
        let (result, began, same) = (Option.map-eq-some_iff _ _).0 e in
        subst (λ (d : Outcome × Run W). R d.0 d.1) same
          (close_lem result (
            begin_rule g input.thread_id request_of P Q turn stop input (g.load input.thread_id w).0
              (g.load input.thread_id w).1 failed start began))
      where
        close_lem :
            (d : Outcome × Run W)
            → Q d.0 d.1
            → R
                (conclude g input.thread_id request_of d).0
                (conclude g input.thread_id request_of d).1
        close_lem (inl o, r) q = close (inl o, r) q
        close_lem (inr o, r) q = close (inr o, r) q
