-- ===== src/Base/Path/Laws.antt =====
-- path/filepath: the components of cleaned and of joined paths.
use mathlib.Core.List.{reverse, reverse-cons, append_cancel_left, append_cancel_right}
use deepagent.Base.{
  ℕ, ◌≡◌, ◌≢◌, refl, ap, sym, subst, ◌∙◌, Bool, true, false, List, [], ◌∷◌, ◌++◌, if◌then◌else◌,
  Bool-cases, inl, inr, All, any, arith, append_assoc, append-nil,
}
use deepagent.Base.Text.{Str, lit, str_eq, contains_any, split_by, push_head}
use deepagent.Base.Path.{
  is_slash, named_parts, parts, is_abs, resolve, resolved, joined, or_dot, render, clean, join, up,
}

pub split_by-cons : (p : ℕ → Bool) (s : Str) → (w : Str) × (ws : List Str) × (split_by p s ≡ w ∷ ws)
unfolding split_by
split_by-cons p [] = ([], [], refl)
split_by-cons p (c ∷ s) =
    let (w, ws, e) = split_by-cons p s in
    elim (Bool-cases (p c)) [
      | inl cuts ↦ ([], split_by p s, rw cuts refl)
      | inr keeps ↦ (c ∷ w, ws, rw (keeps, e) refl)
    ]

push_head-append :
    (c : ℕ) (w : Str) (ws vs : List Str) → push_head c ((w ∷ ws) ++ vs) ≡ push_head c (w ∷ ws) ++ vs
push_head-append c w ws vs = refl

-- A text is cut at a code point in it just as its two sides are.
split_by-append :
    (p : ℕ → Bool) (a : Str) (c : ℕ) (b : Str)
    → p c ≡ true
    → split_by p (a ++ (c ∷ b)) ≡ split_by p a ++ split_by p b
unfolding split_by
split_by-append p [] c b cuts = rw cuts refl
split_by-append p (x ∷ a) c b cuts =
    let rest = split_by-append p a c b cuts in
    let (w, ws, e) = split_by-cons p a in
    elim (Bool-cases (p x)) [
      | inl here ↦ rw (here, rest) refl
      | inr there ↦ rw (there, rest, e) refl
    ]

named_parts-append : (xs ys : List Str) → named_parts (xs ++ ys) ≡ named_parts xs ++ named_parts ys
unfolding named_parts
named_parts-append [] ys = refl
named_parts-append (x ∷ xs) ys = ground (arith, named_parts-append xs ys)

pub parts-join : (a b : Str) → parts (a ++ (lit "/" ++ b)) ≡ parts a ++ parts b
unfolding parts
parts-join a b =
    ap named_parts (split_by-append is_slash a 47 b refl)
    ∙ named_parts-append (split_by is_slash a) (split_by is_slash b)

-- Not a step up.
abbrev pub IsDown : Str → Type 0
IsDown w = str_eq w (lit "..") ≡ false

resolve-append :
    (r : Bool) (stack xs ys : List Str)
    → resolve r stack (xs ++ ys) ≡ resolve r (resolve r stack xs) ys
unfolding resolve
resolve-append r stack [] ys = refl
resolve-append r stack (x ∷ xs) ys =
    resolve-append r (if str_eq x (lit "..") then up r stack else x ∷ stack) xs ys

-- Components that do not step up are put behind those that are there.
resolve-IsDown :
    (r : Bool) (stack ws : List Str)
    → All IsDown ws
    → reverse (resolve r stack ws) ≡ reverse stack ++ ws
unfolding resolve
resolve-IsDown r stack [] h = sym (append-nil (reverse stack))
resolve-IsDown r stack (w ∷ ws) (down, h) = rw down (
    resolve-IsDown r (w ∷ stack) ws h
    ∙ ap (λ (xs : List Str). xs ++ ws) (reverse-cons w stack)
    ∙ append_assoc (reverse stack) (w ∷ []) ws)

pub resolved-append :
    (r : Bool) (xs ys : List Str) → All IsDown ys → resolved r (xs ++ ys) ≡ resolved r xs ++ ys
resolved-append r xs ys h =
    ap reverse (resolve-append r [] xs ys) ∙ resolve-IsDown r (resolve r [] xs) ys h

-- A path whose components do not step up is joined to the root by putting them behind the root's.
pub join-IsDown :
    (c : ℕ) (root b : Str)
    → All IsDown (parts b)
    → join (c ∷ root) b
      ≡ render (is_abs (c ∷ root)) (resolved (is_abs (c ∷ root)) (parts (c ∷ root)) ++ parts b)
unfolding join clean
join-IsDown c root b h =
    let r = is_abs (c ∷ root) in
    ap (λ ws. render r (resolved r ws)) (parts-join (c ∷ root) b)
    ∙ ap (render r) (resolved-append r (parts (c ∷ root)) (parts b) h)

-- A text without a slash is one piece.
pub split_by-one : (s : Str) → any is_slash s ≡ false → split_by is_slash s ≡ s ∷ []
unfolding split_by
split_by-one [] h = refl
split_by-one (c ∷ s) h = elim (Bool-cases (is_slash c)) [
  | inl cuts ↦ cc (rw cuts at h)
  | inr keeps ↦ rw (keeps, split_by-one s (rw keeps at h)) refl
]

pub any-slash : (s : Str) → contains_any s (lit "/\\") ≡ false → any is_slash s ≡ false
unfolding contains_any
any-slash [] h = refl
any-slash (c ∷ s) h = ground (arith, any-slash s)

any-append :
    (s t : Str) → any is_slash s ≡ false → any is_slash t ≡ false → any is_slash (s ++ t) ≡ false
any-append [] t h k = k
any-append (c ∷ s) t h k = ground (arith, any-append s t)

-- The name of a file with the suffix of JSON.
abbrev pub json_name : Str → Str
json_name t = t ++ lit ".json"

json_name-solid : (t : Str) → str_eq (json_name t) [] ≡ false
unfolding str_eq
json_name-solid [] = refl
json_name-solid (c ∷ t) = refl

pub json_name-IsDown : (t : Str) → IsDown (json_name t)
unfolding str_eq
json_name-IsDown [] = refl
json_name-IsDown (c ∷ []) = ground arith
json_name-IsDown (c ∷ d ∷ t) = ground (arith, json_name-solid t)

json_name-named : (t : Str) → str_eq (json_name t) (lit ".") ≡ false
unfolding str_eq
json_name-named [] = refl
json_name-named (c ∷ t) = ground (arith, json_name-solid t)

pub parts-json_name :
    (t : Str) → contains_any t (lit "/\\") ≡ false → parts (json_name t) ≡ json_name t ∷ []
unfolding parts named_parts
parts-json_name t h =
    let one = split_by-one (json_name t) (any-append t (lit ".json") (any-slash t h) refl) in
    ap named_parts one ∙ alone t
  where
    alone : (t : Str) → named_parts (json_name t ∷ []) ≡ json_name t ∷ []
    alone [] = rw (json_name-named []) refl
    alone (c ∷ t) = rw (json_name-named (c ∷ t)) refl

joined-last : (ws : List Str) (a b : Str) → joined (ws ++ a ∷ []) ≡ joined (ws ++ b ∷ []) → a ≡ b
unfolding joined
joined-last [] a b e = e
joined-last (w ∷ []) a b e =
    append_cancel_left (lit "/") a b (append_cancel_left w (lit "/" ++ a) (lit "/" ++ b) e)
joined-last (w ∷ v ∷ ws) a b e = joined-last (v ∷ ws) a b (
    append_cancel_left (lit "/") _ _ (
      append_cancel_left w (lit "/" ++ joined ((v ∷ ws) ++ a ∷ []))
        (lit "/" ++ joined ((v ∷ ws) ++ b ∷ [])) e))

joined-solid : (ws : List Str) (t : Str) → joined (ws ++ json_name t ∷ []) ≢ []
unfolding joined
joined-solid [] [] e = cc
joined-solid [] (c ∷ t) e = cc
joined-solid ([] ∷ []) t e = cc
joined-solid ([] ∷ v ∷ ws) t e = cc
joined-solid ((c ∷ w) ∷ []) t e = cc
joined-solid ((c ∷ w) ∷ v ∷ ws) t e = cc

or_dot-injective : (r : Bool) (s t : Str) → s ≢ [] → t ≢ [] → or_dot r s ≡ or_dot r t → s ≡ t
or_dot-injective true s t h k e = append_cancel_left (lit "/") s t e
or_dot-injective false [] t h k e = absurd (h refl)
or_dot-injective false (c ∷ s) [] h k e = absurd (k refl)
or_dot-injective false (c ∷ s) (d ∷ t) h k e = e

-- Names without a separator have files of their own in a directory.
pub join-json_name :
    (dir t t' : Str)
    → dir ≢ []
    → contains_any t (lit "/\\") ≡ false
    → contains_any t' (lit "/\\") ≡ false
    → join dir (json_name t) ≡ join dir (json_name t')
    → t ≡ t'
unfolding render
join-json_name [] t t' full h h' e = absurd (full refl)
join-json_name (c ∷ dir) t t' full h h' e =
    let r = is_abs (c ∷ dir) in
    let ws = resolved r (parts (c ∷ dir)) in
    let one = parts-json_name t h in
    let one' = parts-json_name t' h' in
    let left =
      join-IsDown c dir (json_name t) (subst (All IsDown) (sym one) (json_name-IsDown t, tt)) in
    let right =
      join-IsDown c dir (json_name t') (subst (All IsDown) (sym one') (json_name-IsDown t', tt)) in
    let same : render r (ws ++ json_name t ∷ []) ≡ render r (ws ++ json_name t' ∷ []) =
      ap (λ p. render r (ws ++ p)) (sym one)
      ∙ sym left
      ∙ e
      ∙ right
      ∙ ap (λ p. render r (ws ++ p)) one' in
    append_cancel_right t t' (lit ".json") (
      joined-last ws (json_name t) (json_name t')
        (or_dot-injective r _ _ (joined-solid ws t) (joined-solid ws t') same))
