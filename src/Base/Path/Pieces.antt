-- ===== src/Base/Path/Pieces.antt =====
-- path/filepath: a cleaned path has the components that it was made of.
use mathlib.Core.List.{reverse, reverse-cons}
use deepagent.Base.{
  ℕ, ◌≡◌, refl, ap, sym, subst, ◌∙◌, Bool, true, false, List, [], ◌∷◌, ◌++◌, Bool-cases, inl, inr,
  All, All-append, any, arith,
}
use deepagent.Base.Text.{Str, lit, is_empty, str_eq, split_by}
use deepagent.Base.Path.{
  is_slash, named_parts, parts, is_abs, resolve, resolved, joined, or_dot, render, clean, join, up,
}
use deepagent.Base.Path.Laws.{split_by-cons, split_by-one, parts-join, IsDown, join-IsDown}

-- A component: it has no slash, and is neither empty nor a dot.
abbrev pub IsPiece : Str → Type 0
IsPiece w = (any is_slash w ≡ false) × (is_empty w ≡ false) × (str_eq w (lit ".") ≡ false)

abbrev IsOne : Str → Type 0
IsOne w = any is_slash w ≡ false

split_by-IsOne : (s : Str) → All IsOne (split_by is_slash s)
unfolding split_by
split_by-IsOne [] = (refl, tt)
split_by-IsOne (c ∷ s) =
    let rest = split_by-IsOne s in
    let (w, ws, e) = split_by-cons is_slash s in
    elim (Bool-cases (is_slash c)) [
      | inl cuts ↦ rw cuts (refl, rest)
      | inr keeps ↦
          let (first, others) = subst (All IsOne) e rest in
          rw (keeps, e) (rw (keeps, first) refl, others)
    ]

named_parts-IsPiece : (ws : List Str) → All IsOne ws → All IsPiece (named_parts ws)
unfolding named_parts
named_parts-IsPiece [] h = tt
named_parts-IsPiece (w ∷ ws) (one, h) =
    let rest = named_parts-IsPiece ws h in
    elim (Bool-cases (is_empty w)) [
      | inl blank ↦ rw blank rest
      | inr solid ↦ elim (Bool-cases (str_eq w (lit "."))) [
        | inl dot ↦ rw (solid, dot) rest
        | inr named ↦ rw (solid, named) ((one, solid, named), rest)
      ]
    ]

pub parts-IsPiece : (s : Str) → All IsPiece (parts s)
unfolding parts split_by
parts-IsPiece s = named_parts-IsPiece (split_by is_slash s) (split_by-IsOne s)

up-IsPiece : (r : Bool) (stack : List Str) → All IsPiece stack → All IsPiece (up r stack)
unfolding str_eq
up-IsPiece true [] h = tt
up-IsPiece false [] h = ((refl, refl, refl), tt)
up-IsPiece r (w ∷ ws) (this, h) = elim (Bool-cases (str_eq w (lit ".."))) [
  | inl steps ↦ rw steps ((refl, refl, refl), (this, h))
  | inr down ↦ rw down h
]

resolve-IsPiece :
    (r : Bool) (stack ws : List Str)
    → All IsPiece stack
    → All IsPiece ws
    → All IsPiece (resolve r stack ws)
unfolding resolve
resolve-IsPiece r stack [] h k = h
resolve-IsPiece r stack (w ∷ ws) h (this, k) = elim (Bool-cases (str_eq w (lit ".."))) [
  | inl steps ↦ rw steps (resolve-IsPiece r (up r stack) ws (up-IsPiece r stack h) k)
  | inr down ↦ rw down (resolve-IsPiece r (w ∷ stack) ws (this, h) k)
]

All-reverse : (xs : List Str) → All IsPiece xs → All IsPiece (reverse xs)
All-reverse [] h = tt
All-reverse (x ∷ xs) (this, h) =
    subst (All IsPiece) (sym (reverse-cons x xs))
      (All-append IsPiece (reverse xs) (x ∷ []) (All-reverse xs h) (this, tt))

pub resolved-IsPiece : (r : Bool) (s : Str) → All IsPiece (resolved r (parts s))
resolved-IsPiece r s = All-reverse _ (resolve-IsPiece r [] (parts s) tt (parts-IsPiece s))

pub parts-one : (w : Str) → IsPiece w → parts w ≡ w ∷ []
unfolding parts named_parts
parts-one w (one, solid, named) = rw (split_by-one w one) (rw (solid, named) refl)

pub parts-nil : parts [] ≡ []
unfolding parts split_by
parts-nil = refl

parts-dot : parts (lit ".") ≡ []
unfolding parts str_eq split_by
parts-dot = refl

parts-joined : (ws : List Str) → All IsPiece ws → parts (joined ws) ≡ ws
unfolding joined
parts-joined [] h = parts-nil
parts-joined (w ∷ []) (this, h) = parts-one w this
parts-joined (w ∷ v ∷ ws) (this, h) =
    parts-join w (joined (v ∷ ws)) ∙ (λ i. parts-one w this i ++ parts-joined (v ∷ ws) h i)

parts-or_dot : (r : Bool) (s : Str) → parts (or_dot r s) ≡ parts s
parts-or_dot true s = parts-join [] s ∙ ap (λ ws. ws ++ parts s) parts-nil
parts-or_dot false [] = parts-dot ∙ sym parts-nil
parts-or_dot false (c ∷ s) = refl

-- The components of a path that is made of components are these.
pub parts-render : (r : Bool) (ws : List Str) → All IsPiece ws → parts (render r ws) ≡ ws
unfolding render
parts-render r ws h = parts-or_dot r (joined ws) ∙ parts-joined ws h

-- It is absolute if it was made so.
pub is_abs-render : (r : Bool) (ws : List Str) → All IsPiece ws → is_abs (render r ws) ≡ r
unfolding render joined
is_abs-render true ws h = refl
is_abs-render false [] h = refl
is_abs-render false ([] ∷ ws) ((one, solid, named), h) = cc
is_abs-render false ((c ∷ w) ∷ []) ((one, solid, named), h) = ground arith
is_abs-render false ((c ∷ w) ∷ v ∷ ws) ((one, solid, named), h) = ground arith

-- The components of a cleaned path, and of a path joined to one whose components do not step up.
pub parts-clean : (s : Str) → parts (clean s) ≡ resolved (is_abs s) (parts s)
unfolding clean
parts-clean s = parts-render (is_abs s) _ (resolved-IsPiece (is_abs s) s)

pub is_abs-clean : (s : Str) → is_abs (clean s) ≡ is_abs s
unfolding clean
is_abs-clean s = is_abs-render (is_abs s) _ (resolved-IsPiece (is_abs s) s)

module _ (c : ℕ) (root b : Str) (down : All IsDown (parts b)) where
  behind-IsPiece : All IsPiece (resolved (is_abs (c ∷ root)) (parts (c ∷ root)) ++ parts b)
  behind-IsPiece =
      All-append IsPiece _ (parts b) (resolved-IsPiece (is_abs (c ∷ root)) (c ∷ root))
        (parts-IsPiece b)

  pub parts-join_down :
      parts (join (c ∷ root) b) ≡ resolved (is_abs (c ∷ root)) (parts (c ∷ root)) ++ parts b
  parts-join_down =
      ap parts (join-IsDown c root b down) ∙ parts-render (is_abs (c ∷ root)) _ behind-IsPiece

  pub is_abs-join_down : is_abs (join (c ∷ root) b) ≡ is_abs (c ∷ root)
  is_abs-join_down =
      ap is_abs (join-IsDown c root b down) ∙ is_abs-render (is_abs (c ∷ root)) _ behind-IsPiece
