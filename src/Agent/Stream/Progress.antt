-- ===== src/Agent/Stream/Progress.antt =====
-- agent/deepagent.go, `Stream`: the stream ends when it is read, and stays open when it is not.
use mathlib.Core.Option
use mathlib.Core.Option.{some-injective}
use deepagent.Base.{
  ℕ, ◌+◌, ◌*◌, ◌≤◌, ◌<◌, ◌≡◌, ◌≢◌, ◌⊎◌, inl, inr, refl, ap, ◌∙◌, sym, arith, some, Bool, true,
  false, List, [], ◌∷◌, ◌++◌, length, length-append, Option-cases, if◌then◌else◌,
}
use deepagent.Agent.Types.{Event}
use deepagent.Agent.Stream.Delivery.{steps-opened}
use deepagent.Agent.Stream.{
  Stream, opened, Move, send, close, receive, capacity, sends, closes, receives, step, steps,
  is_done,
}

-- How many moves are left: each event is sent and received, and the channel is closed.
abbrev pub left : Stream → ℕ
left s = 2 * length s.todo + length s.buffer + (if s.closed then 0 else 1)

sends-left :
    (todo : List Event) (s s' : Stream)
    → s.todo ≡ todo
    → sends todo s ≡ some s'
    → left s ≡ left s' + 1
sends-left [] s s' same e = cc
sends-left (x ∷ todo) s s' same e = ground (arith, length-append s.buffer (x ∷ []))

closes-left :
    (todo : List Event) (s s' : Stream)
    → s.todo ≡ todo
    → closes todo s ≡ some s'
    → left s ≡ left s' + 1
closes-left [] s s' same e = ground arith
closes-left (x ∷ todo) s s' same e = cc

receives-left :
    (buffer : List Event) (s s' : Stream)
    → s.buffer ≡ buffer
    → receives buffer s ≡ some s'
    → left s ≡ left s' + 1
receives-left [] s s' same e = cc
receives-left (x ∷ buffer) s s' same e = ground arith

step-left : (m : Move) (s s' : Stream) → step m s ≡ some s' → left s ≡ left s' + 1
unfolding step
step-left send s s' e = sends-left s.todo s s' refl e
step-left close s s' e = closes-left s.todo s s' refl e
step-left receive s s' e = receives-left s.buffer s s' refl e

steps-left :
    (moves : List Move) (s s' : Stream) → steps moves s ≡ some s' → left s ≡ left s' + length moves
unfolding steps Option.bind
steps-left [] s s' e = ground arith
steps-left (m ∷ moves) s s' e = elim (Option-cases (step m s)) [
  | inl stuck ↦ cc
  | inr (next, moved) ↦
      omega (arith, step-left m s next moved, steps-left moves next s' (rw moved at e))
]

abbrev pub HasMove : Stream → Type 0
HasMove s = (is_done s ≡ true) ⊎ ((m : Move) × (s' : Stream) × (step m s ≡ some s'))

stream-HasMove :
    (todo buffer got : List Event) (closed : Bool)
    → HasMove (record { todo = todo; buffer = buffer; got = got; closed = closed })
unfolding step
stream-HasMove todo (x ∷ buffer) got closed = inr (receive, _, refl)
stream-HasMove (x ∷ todo) [] got closed = inr (send, _, refl)
stream-HasMove [] [] got true = inl refl
stream-HasMove [] [] got false = inr (close, _, refl)

-- Whatever the order of the moves, each of them brings the stream of `n` events nearer to its end:
-- of the `2 * n + 1` moves that there are in all, `left` ones remain; and until the reader's loop
-- is over, the goroutine or the reader can move.
pub stream-Ends :
    (all : List Event) (moves : List Move) (s : Stream)
    → steps moves (opened all) ≡ some s
    → (length moves + left s ≡ 2 * length all + 1) × HasMove s
stream-Ends all moves s moved = (
  omega (arith, steps-left moves (opened all) s moved),
  stream-HasMove s.todo s.buffer s.got s.closed,
)

-- The reader makes no move.
abbrev pub Unread : List Move → Type 0
Unread [] = Unit
Unread (send ∷ moves) = Unread moves
Unread (close ∷ moves) = Unread moves
Unread (receive ∷ moves) = ⊥

sends-got : (todo : List Event) (s s' : Stream) → sends todo s ≡ some s' → s'.got ≡ s.got
sends-got [] s s' e = cc
sends-got (x ∷ todo) s s' e = ground arith

closes-got : (todo : List Event) (s s' : Stream) → closes todo s ≡ some s' → s'.got ≡ s.got
closes-got [] s s' e = ground arith
closes-got (x ∷ todo) s s' e = cc

steps-got :
    (moves : List Move) (s s' : Stream) → Unread moves → steps moves s ≡ some s' → s'.got ≡ s.got
unfolding steps step Option.bind
steps-got [] s s' quiet e = ap (λ (s : Stream). s.got) (sym (some-injective _ _ e))
steps-got (receive ∷ moves) s s' quiet e = absurd quiet
steps-got (send ∷ moves) s s' quiet e = elim (Option-cases (step send s)) [
  | inl stuck ↦ cc
  | inr (next, moved) ↦
      steps-got moves next s' quiet (rw moved at e) ∙ sends-got s.todo s next moved
]
steps-got (close ∷ moves) s s' quiet e = elim (Option-cases (step close s)) [
  | inl stuck ↦ cc
  | inr (next, moved) ↦
      steps-got moves next s' quiet (rw moved at e) ∙ closes-got s.todo s next moved
]

full :
    (todo buffer : List Event) (all : List Event)
    → buffer ++ todo ≡ all
    → length buffer ≤ capacity
    → capacity < length all
    → todo ≢ []
full todo buffer all order few many nothing =
    omega (arith, ap length order, length-append buffer todo, ap length nothing)

-- A run of more than 32 events that nobody reads never closes its channel: in every order of the
-- goroutine's moves some event is still to be sent.
pub stream-Unread :
    (all : List Event) (moves : List Move) (s : Stream)
    → capacity < length all
    → Unread moves
    → steps moves (opened all) ≡ some s
    → (s.todo ≢ []) × (s.closed ≡ false)
stream-Unread all moves s many quiet moved =
    let h = steps-opened all moves s moved in
    let nothing = steps-got moves (opened all) s quiet moved in
    let order : s.buffer ++ s.todo ≡ all = rw nothing at h.in_order in
    let waiting = full s.todo s.buffer all order h.bounded many in
    (waiting, elim h.sent [ inl open_yet ↦ open_yet | inr sent ↦ absurd (waiting sent) ])
