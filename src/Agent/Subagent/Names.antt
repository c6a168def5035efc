-- ===== src/Agent/Subagent/Names.antt =====
-- agent/subagent.go: the name of the result file is fresh, is found, and is a plain file name.
use mathlib.Core.List.{append_cancel_left, append_cancel_right}
use deepagent.Base.{
  ℕ, zero, suc, ◌+◌, ◌≤◌, ◌<◌, ◌≡◌, ◌≢◌, refl, ◌∙◌, arith, inl, inr, true, false, none, some, List,
  [], ◌∷◌, ◌++◌, length, if◌then◌else◌, Bool-cases, Option-cases,
}
use deepagent.Base.Text.{Str, lit, str_eq, str_eq_iff}
use deepagent.Base.Decimal.{itoa, itoa-injective}
use deepagent.Agent.Subagent.{
  is_taken, plain_name, numbered_name, next_numbered, max_rounds, name_within, next_name,
}

numbered_name-injective :
    (base : Str) (i j : ℕ) → numbered_name base i ≡ numbered_name base j → i ≡ j
numbered_name-injective base i j e = itoa-injective i j (
    append_cancel_right (itoa i) (itoa j) (lit ".md") (
      append_cancel_left (lit "_") _ _
        (append_cancel_left base _ _ (append_cancel_left (lit "subagent_") _ _ e))))

plain_name-ne-numbered_name : (base : Str) (i : ℕ) → plain_name base ≢ numbered_name base i
plain_name-ne-numbered_name base i e =
    let tails : lit ".md" ≡ lit "_" ++ (itoa i ++ lit ".md") =
      append_cancel_left base _ _ (append_cancel_left (lit "subagent_") _ _ e) in
    cc

next_numbered-fresh :
    (base : Str) (existing : List Str) (rounds i : ℕ) (name : Str)
    → next_numbered base existing rounds i ≡ some name
    → is_taken existing name ≡ false
unfolding next_numbered
next_numbered-fresh base existing zero i name h = cc
next_numbered-fresh base existing (suc rounds) i name h =
    elim (Bool-cases (is_taken existing (numbered_name base i))) [
      | inl taken ↦ next_numbered-fresh base existing rounds (i + 1) name (rw taken at h)
      | inr free ↦ ground (arith)
    ]

-- the list without the name
remove : Str → List Str → List Str
remove name [] = []
remove name (x ∷ xs) = let rest = remove name xs in if str_eq x name then rest else x ∷ rest

remove-length_le : (name : Str) (xs : List Str) → length (remove name xs) ≤ length xs
unfolding remove
remove-length_le name [] = omega arith
remove-length_le name (x ∷ xs) = ground (arith, remove-length_le name xs)

remove-length :
    (name : Str) (xs : List Str) → is_taken xs name ≡ true → length (remove name xs) < length xs
unfolding remove
remove-length name [] h = cc
remove-length name (x ∷ xs) h = ground (arith, remove-length name xs, remove-length_le name xs)

is_taken-remove :
    (name other : Str) (xs : List Str)
    → name ≢ other
    → is_taken (remove name xs) other ≡ is_taken xs other
unfolding remove
is_taken-remove name other [] h = refl
is_taken-remove name other (x ∷ xs) h =
    ground (arith, is_taken-remove name other xs h, str_eq_iff x name, str_eq_iff x other)

next_numbered-remove :
    (base : Str) (xs : List Str) (name : Str) (rounds i : ℕ)
    → ((j : ℕ) → i ≤ j → name ≢ numbered_name base j)
    → next_numbered base (remove name xs) rounds i ≡ next_numbered base xs rounds i
unfolding next_numbered
next_numbered-remove base xs name zero i h = refl
next_numbered-remove base xs name (suc rounds) i h =
    let same = is_taken-remove name (numbered_name base i) xs (h i (omega arith)) in
    let rest = next_numbered-remove base xs name rounds (i + 1) (λ j le. h j (omega arith)) in
    ground (arith, same, rest)

-- When all the candidates are taken, the list is as long as they are many.
next_numbered-none :
    (base : Str) (rounds i : ℕ) (xs : List Str)
    → next_numbered base xs rounds i ≡ none
    → rounds ≤ length xs
unfolding next_numbered
next_numbered-none base zero i xs h = omega arith
next_numbered-none base (suc rounds) i xs h =
    elim (Bool-cases (is_taken xs (numbered_name base i))) [
      | inl taken ↦
          let name = numbered_name base i in
          let later = rw taken at h in
          let apart : (j : ℕ) → i + 1 ≤ j → name ≢ numbered_name base j =
            λ j le e. absurd (omega (arith, numbered_name-injective base i j e)) in
          let fewer =
            next_numbered-none base rounds (i + 1) (remove name xs)
              (next_numbered-remove base xs name rounds (i + 1) apart ∙ later) in
          omega (arith, fewer, remove-length name xs taken)
      | inr free ↦ ground (arith)
    ]

-- A name that is given is not one of the existing ones.
name_within-fresh :
    (rounds : ℕ) (base : Str) (existing : List Str) (name : Str)
    → name_within rounds base existing ≡ some name
    → is_taken existing name ≡ false
unfolding name_within
name_within-fresh rounds base existing name h =
    elim (Bool-cases (is_taken existing (plain_name base))) [
      | inl taken ↦ next_numbered-fresh base existing rounds 2 name (rw taken at h)
      | inr free ↦ ground (arith)
    ]

name_within-none :
    (rounds : ℕ) (base : Str) (existing : List Str)
    → name_within rounds base existing ≡ none
    → rounds < length existing
unfolding name_within
name_within-none rounds base existing h = elim (Bool-cases (is_taken existing (plain_name base))) [
  | inl taken ↦
      let name = plain_name base in
      let fewer = next_numbered-none base rounds 2 (remove name existing) (
        next_numbered-remove base existing name rounds 2
          (λ j le. plain_name-ne-numbered_name base j)
        ∙ rw taken at h) in
      omega (arith, fewer, remove-length name existing taken)
  | inr free ↦ ground (arith)
]

-- With fewer than 9999 files there is always a name for the result, and it is the name of none of
-- them.
pub next_name-IsFree :
    (base : Str) (existing : List Str)
    → length existing < 9999
    → (name : Str) × (next_name base existing ≡ some name) × (is_taken existing name ≡ false)
unfolding next_name
next_name-IsFree base existing few = elim (Option-cases (name_within max_rounds base existing)) [
  | inl missing ↦ absurd (omega (arith, name_within-none max_rounds base existing missing))
  | inr (name, found) ↦ (name, found, name_within-fresh max_rounds base existing name found)
]
