-- ===== src/Tools/Sandbox/Words.antt =====
-- tools/builtin/sandbox.go: the words of a trimmed command, and why `parts[0]` does not panic.
use deepagent.Base.{
  ℕ, ◌≡◌, ◌≢◌, refl, arith, inl, inr, Bool, true, false, not, Option, none, some, List, [], ◌∷◌,
  any, All, Bool-cases,
}
use deepagent.Base.Text.{
  Str, contains_any, is_empty, is_space, trim_right, trim_left, trim, trim_space, keep_right,
  push_head, split_by, drop_empty, fields, one_of,
}
use deepagent.Agent.Types.{Result, ok, err}
use deepagent.Tools.Sandbox.{ExecuteConfig, Command, Host, Shell}
use deepagent.Tools.Sandbox.Execute.{
  Executed, panicked, unsafe_syntax, run_built, run_prepared, run_checked, run_parts, execute,
  report,
}

-- Something of the text is not to be cut.
abbrev HasInk : (ℕ → Bool) → Str → Type 0
HasInk p s = any (λ c. not (p c)) s ≡ true

keep_right-HasInk :
    (p : ℕ → Bool) (c : ℕ) (t : Str)
    → (t ≢ [] → HasInk p t)
    → keep_right (p c) c t ≢ []
    → HasInk p (keep_right (p c) c t)
keep_right-HasInk p c (d ∷ t) h solid = let later = h (λ e. cc) in ground (arith, later)
keep_right-HasInk p c [] h solid = elim (Bool-cases (p c)) [
  | inl space ↦ absurd (solid (rw space refl))
  | inr ink ↦ rw (ink, ink) refl
]

trim_right-HasInk : (p : ℕ → Bool) (s : Str) → trim_right p s ≢ [] → HasInk p (trim_right p s)
unfolding trim_right
trim_right-HasInk p [] solid = absurd (solid refl)
trim_right-HasInk p (c ∷ s) solid =
    keep_right-HasInk p c (trim_right p s) (trim_right-HasInk p s) solid

trim_left-HasInk : (p : ℕ → Bool) (s : Str) → HasInk p s → HasInk p (trim_left p s)
unfolding trim_left
trim_left-HasInk p [] h = cc
trim_left-HasInk p (c ∷ s) h = elim (Bool-cases (p c)) [
  | inl space ↦ rw space (trim_left-HasInk p s (rw space at h))
  | inr ink ↦ rw ink h
]

keep_right-solid : (drop : Bool) (c : ℕ) (t : Str) → t ≢ [] → keep_right drop c t ≢ []
keep_right-solid drop c [] h = absurd (h refl)
keep_right-solid drop c (d ∷ t) h = λ e. cc

keep_right-kept : (c : ℕ) (t : Str) → keep_right false c t ≢ []
keep_right-kept c [] e = cc
keep_right-kept c (d ∷ t) e = cc

trim_right-solid : (p : ℕ → Bool) (s : Str) → HasInk p s → trim_right p s ≢ []
unfolding trim_right
trim_right-solid p [] h = cc
trim_right-solid p (c ∷ s) h = elim (Bool-cases (p c)) [
  | inl space ↦ keep_right-solid (p c) c (trim_right p s) (trim_right-solid p s (rw space at h))
  | inr ink ↦ rw ink (keep_right-kept c (trim_right p s))
]

-- Trimming again leaves something of what trimming left.
pub trim_space-solid : (s : Str) → is_empty (trim_space s) ≡ false → trim_space (trim_space s) ≢ []
unfolding trim
trim_space-solid s h = trim_right-solid is_space (trim_left is_space (trim_space s)) (
    trim_left-HasInk is_space (trim_space s)
      (trim_right-HasInk is_space (trim_left is_space s) (λ e. ground (arith))))

push_head-solid : (c : ℕ) (ws : List Str) → drop_empty (push_head c ws) ≢ []
push_head-solid c [] e = cc
push_head-solid c (w ∷ ws) e = cc

split_by-solid : (p : ℕ → Bool) (s : Str) → HasInk p s → drop_empty (split_by p s) ≢ []
unfolding split_by
split_by-solid p [] h = cc
split_by-solid p (c ∷ s) h = elim (Bool-cases (p c)) [
  | inl space ↦ rw space (split_by-solid p s (rw space at h))
  | inr ink ↦ rw ink (push_head-solid c (split_by p s))
]

-- A trimmed text that is not empty has a word.
fields-solid : (s : Str) → is_empty (trim_space s) ≡ false → fields (trim_space s) ≢ []
unfolding fields trim
fields-solid s h =
    split_by-solid is_space (trim_space s)
      (trim_right-HasInk is_space (trim_left is_space s) (λ e. ground (arith)))

-- No word of the text has a code point of `chars`.
abbrev pub Free : Str → Str → Type 0
Free chars w = contains_any w chars ≡ false

push_head-Free :
    (chars : Str) (c : ℕ) (ws : List Str)
    → one_of chars c ≡ false
    → All (Free chars) ws
    → All (Free chars) (push_head c ws)
unfolding contains_any
push_head-Free chars c [] h _ = (rw h refl, tt)
push_head-Free chars c (w ∷ ws) h (free, rest) = (rw (h, free) refl, rest)

split_by-Free : (p : ℕ → Bool) (chars s : Str) → Free chars s → All (Free chars) (split_by p s)
unfolding split_by contains_any
split_by-Free p chars [] h = (refl, tt)
split_by-Free p chars (c ∷ s) h =
    let later = split_by-Free p chars s (ground arith) in
    elim (Bool-cases (p c)) [
      | inl space ↦ rw space (refl, later)
      | inr ink ↦ rw ink (push_head-Free chars c (split_by p s) (ground arith) later)
    ]

drop_empty-Free :
    (chars : Str) (ws : List Str) → All (Free chars) ws → All (Free chars) (drop_empty ws)
drop_empty-Free chars [] h = tt
drop_empty-Free chars ([] ∷ ws) (_, h) = drop_empty-Free chars ws h
drop_empty-Free chars ((c ∷ w) ∷ ws) (free, h) = (free, drop_empty-Free chars ws h)

-- The words of a text have none of the code points that the text has not.
pub fields-Free : (chars s : Str) → Free chars s → All (Free chars) (fields s)
unfolding fields
fields-Free chars s h = drop_empty-Free chars _ (split_by-Free is_space chars s h)

module _ {W : Type 0} (h : Host W) (c : ExecuteConfig) where
  abbrev Returns : Executed → Type 0
  Returns r = r ≢ panicked

  run_built-Returns : (r : Result Command) (s : Shell W) → Returns (run_built h c r s).0
  unfolding run_built report
  run_built-Returns (err e) s p = cc
  run_built-Returns (ok command) s p = cc

  run_prepared-Returns :
      (name : Str) (args : List Str) (r : Option Str × Shell W)
      → Returns (run_prepared h c name args r).0
  unfolding run_prepared
  run_prepared-Returns name args (some e, s) = λ p. cc
  run_prepared-Returns name args (none, s) = run_built-Returns _ s

  run_checked-Returns :
      (o : Option Str) (name : Str) (args : List Str) (s : Shell W)
      → Returns (run_checked h c o name args s).0
  unfolding run_checked
  run_checked-Returns (some e) name args s = λ p. cc
  run_checked-Returns none name args s = run_prepared-Returns name args _

  run_parts-Returns :
      (parts : List Str) (s : Shell W) → parts ≢ [] → Returns (run_parts h c parts s).0
  unfolding run_parts
  run_parts-Returns [] s solid = absurd (solid refl)
  run_parts-Returns (name ∷ args) s solid = run_checked-Returns _ name args s

  -- `Execute` returns on every text: `parts[0]` is there whenever it is read.
  pub execute-Returns : (text : Str) (s : Shell W) → (execute h c text s).0 ≢ panicked
  unfolding execute
  execute-Returns text s = elim (Bool-cases (is_empty (trim_space text))) [
    | inl blank ↦ rw blank (λ p. cc)
    | inr solid ↦ elim (Bool-cases (contains_any (trim_space text) unsafe_syntax)) [
      | inl bad ↦ rw (solid, bad) (λ p. cc)
      | inr good ↦ rw (solid, good) (run_parts-Returns _ s (fields-solid text solid))
    ]
  ]
