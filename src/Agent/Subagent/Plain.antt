-- ===== src/Agent/Subagent/Plain.antt =====
-- agent/subagent.go: the name of the result file is one path component that cannot climb.
use deepagent.Base.{
  ℕ, zero, suc, ◌+◌, ◌/◌, ◌%◌, ◌≡◌, refl, ap, subst, arith, inl, inr, Bool, true, false, ◌||◌, some,
  List, [], ◌∷◌, ◌++◌, ◌==◌, take, all, Bool-cases, append_assoc,
}
use deepagent.Base.Text.{
  Str, lit, has_prefix, contains, contains_any, trim_left, keep_right, trim_right, trim, to_lower,
  trim_space,
}
use deepagent.Base.Decimal.{digits, itoa}
use deepagent.Agent.Subagent.{
  Unicode, is_ascii_word, is_dash, is_taken, plain_name, numbered_name, next_numbered, max_rounds,
  name_within, next_name, slug_from, slugify, cut, fallback, base_name,
}

-- An ASCII letter or digit, a dash or an underscore.
abbrev pub is_plain : ℕ → Bool
is_plain c = is_ascii_word c || c == 45 || c == 95

abbrev IsPlain : Str → Type 0
IsPlain s = all is_plain s ≡ true

IsPlain-append : (s t : Str) → IsPlain s → IsPlain t → IsPlain (s ++ t)
IsPlain-append [] t h k = k
IsPlain-append (c ∷ s) t h k = ground (arith, IsPlain-append s t)

IsPlain-trim_left : (p : ℕ → Bool) (s : Str) → IsPlain s → IsPlain (trim_left p s)
unfolding trim_left
IsPlain-trim_left p [] h = h
IsPlain-trim_left p (c ∷ s) h = ground (arith, IsPlain-trim_left p s)

IsPlain-keep_right :
    (b : Bool) (c : ℕ) (s : Str) → is_plain c ≡ true → IsPlain s → IsPlain (keep_right b c s)
IsPlain-keep_right b c [] h k = ground (arith)
IsPlain-keep_right b c (d ∷ s) h k = ground (arith)

IsPlain-trim_right : (p : ℕ → Bool) (s : Str) → IsPlain s → IsPlain (trim_right p s)
unfolding trim_right
IsPlain-trim_right p [] h = h
IsPlain-trim_right p (c ∷ s) h =
    IsPlain-keep_right (p c) c (trim_right p s) (ground arith)
      (IsPlain-trim_right p s (ground arith))

IsPlain-trim : (p : ℕ → Bool) (s : Str) → IsPlain s → IsPlain (trim p s)
unfolding trim
IsPlain-trim p s h = IsPlain-trim_right p (trim_left p s) (IsPlain-trim_left p s h)

IsPlain-take : (n : ℕ) (s : Str) → IsPlain s → IsPlain (take n s)
IsPlain-take zero s h = refl
IsPlain-take (suc n) [] h = refl
IsPlain-take (suc n) (c ∷ s) h = ground (arith, IsPlain-take n s)

IsPlain-slug_from : (u : Unicode) (b : Bool) (s : Str) → IsPlain (slug_from u b s)
unfolding slug_from
IsPlain-slug_from u b [] = refl
IsPlain-slug_from u b (c ∷ s) =
    ground (arith, IsPlain-slug_from u b s, IsPlain-slug_from u false s, IsPlain-slug_from u true s)

IsPlain-cut : (s : Str) → IsPlain s → IsPlain (cut s)
IsPlain-cut s h = ground (arith, IsPlain-trim is_dash (take 40 s) (IsPlain-take 40 s h))

IsPlain-fallback : (s : Str) → IsPlain s → IsPlain (fallback s)
IsPlain-fallback [] h = refl
IsPlain-fallback (c ∷ s) h = h

IsPlain-base_name : (u : Unicode) (d : Str) → IsPlain (base_name u d)
unfolding base_name slugify
IsPlain-base_name u d =
    let text = trim_space (to_lower u.lower d) in
    let slug = slug_from u false text in
    IsPlain-cut (fallback (trim is_dash slug)) (
      IsPlain-fallback (trim is_dash slug)
        (IsPlain-trim is_dash slug (IsPlain-slug_from u false text)))

IsPlain-digits : (fuel n : ℕ) (acc : Str) → IsPlain acc → IsPlain (digits fuel n acc)
unfolding digits
IsPlain-digits zero n acc h = h
IsPlain-digits (suc fuel) n acc h =
    ground (arith, IsPlain-digits fuel (n / 10) ((48 + n % 10) ∷ acc) (ground (arith)))

IsPlain-itoa : (n : ℕ) → IsPlain (itoa n)
unfolding itoa
IsPlain-itoa n = IsPlain-digits (suc n) n [] refl

-- A plain text with the suffix of the files.
IsPlain-md :
    (s : Str)
    → IsPlain s
    → (contains_any (s ++ lit ".md") (lit "/\\") ≡ false)
      × (contains (s ++ lit ".md") (lit "..") ≡ false)
unfolding contains_any contains has_prefix
IsPlain-md [] h = (refl, refl)
IsPlain-md (c ∷ s) h = ground (arith, IsPlain-md s)

abbrev pub IsFileName : Str → Type 0
IsFileName name = (contains_any name (lit "/\\") ≡ false) × (contains name (lit "..") ≡ false)

plain_name-IsFileName : (base : Str) → IsPlain base → IsFileName (plain_name base)
plain_name-IsFileName base h =
    IsPlain-md (lit "subagent_" ++ base) (IsPlain-append (lit "subagent_") base refl h)

grouped : (a b c d : Str) → ((a ++ b) ++ c) ++ d ≡ a ++ (b ++ (c ++ d))
grouped a b c d = simp (append_assoc)

numbered_name-IsFileName : (base : Str) (i : ℕ) → IsPlain base → IsFileName (numbered_name base i)
numbered_name-IsFileName base i h =
    let front = lit "subagent_" ++ base ++ lit "_" ++ itoa i in
    subst IsFileName
      (ap (λ (t : Str). lit "subagent_" ++ t) (grouped base (lit "_") (itoa i) (lit ".md")))
      (IsPlain-md front (
        IsPlain-append (lit "subagent_" ++ base ++ lit "_") (itoa i)
          (IsPlain-append (lit "subagent_" ++ base) (lit "_")
            (IsPlain-append (lit "subagent_") base refl h) refl)
          (IsPlain-itoa i)))

next_numbered-IsFileName :
    (base : Str) (existing : List Str) (rounds i : ℕ) (name : Str)
    → IsPlain base
    → next_numbered base existing rounds i ≡ some name
    → IsFileName name
unfolding next_numbered
next_numbered-IsFileName base existing zero i name h e = cc
next_numbered-IsFileName base existing (suc rounds) i name h e =
    elim (Bool-cases (is_taken existing (numbered_name base i))) [
      | inl taken ↦ next_numbered-IsFileName base existing rounds (i + 1) name h (rw taken at e)
      | inr free ↦
          let is_it : some (numbered_name base i) ≡ some name = rw free at e in
          subst IsFileName (cc) (numbered_name-IsFileName base i h)
    ]

name_within-IsFileName :
    (rounds : ℕ) (base : Str) (existing : List Str) (name : Str)
    → IsPlain base
    → name_within rounds base existing ≡ some name
    → IsFileName name
unfolding name_within
name_within-IsFileName rounds base existing name h e =
    elim (Bool-cases (is_taken existing (plain_name base))) [
      | inl taken ↦ next_numbered-IsFileName base existing rounds 2 name h (rw taken at e)
      | inr free ↦
          let is_it : some (plain_name base) ≡ some name = rw free at e in
          subst IsFileName (cc) (plain_name-IsFileName base h)
    ]

-- The name of the result file has no separator and no `..`, whatever the description says.
pub next_name-IsFileName :
    (u : Unicode) (description : Str) (existing : List Str) (name : Str)
    → next_name (base_name u description) existing ≡ some name
    → IsFileName name
unfolding next_name
next_name-IsFileName u description existing name e =
    name_within-IsFileName max_rounds (base_name u description) existing name
      (IsPlain-base_name u description) e
