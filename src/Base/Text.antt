-- ===== src/Base/Text.antt =====
-- A Go string that is valid UTF-8, as the list of its code points, with what the program uses of
-- the package `strings`. `len` counts bytes.
use Prim.Native.Nat.{ℕ, ◌+◌}
use Prim.Native.Char.{code}
use Prim.Native.String.{String}
use mathlib.Core.Path.{◌≡◌, refl}
use mathlib.Core.Logic.{◌↔◌}
use mathlib.Core.Bool.{Bool, true, false, ◌&&◌, ◌||◌}
use mathlib.Core.List.{List, [], ◌∷◌}
use native.Mathlib.Omega.{arith}
use deepagent.Base.Tests.{ltb, leb, ◌==◌, if◌then◌else◌}
use deepagent.Base.Lists.{any}

abbrev pub Str : Type 0
Str = List ℕ

-- A literal of the source.
abbrev pub lit : String → Str
lit String.[] = []
lit (String.◌∷◌ c s) = code c ∷ lit s

-- `a == b` on strings.
unfoldable pub str_eq : Str → Str → Bool
str_eq [] [] = true
str_eq (a ∷ s) (b ∷ t) = a == b && str_eq s t
str_eq _ _ = false

pub str_eq_iff : (s t : Str) → (str_eq s t ≡ true) ↔ (s ≡ t)
unfolding str_eq
str_eq_iff [] [] = ground arith
str_eq_iff (a ∷ s) (b ∷ t) = ground (arith, str_eq_iff s t)
str_eq_iff [] (b ∷ t) = ground arith
str_eq_iff (a ∷ s) [] = ground arith

pub str_eq_refl : (s : Str) → str_eq s s ≡ true
str_eq_refl s = (str_eq_iff s s).1 refl

-- `s == ""`
abbrev pub is_empty : Str → Bool
is_empty [] = true
is_empty (_ ∷ _) = false

-- The bytes of a code point in UTF-8.
abbrev pub rune_len : ℕ → ℕ
rune_len c = if ltb c 0x80 then 1 else if ltb c 0x800 then 2 else if ltb c 0x10000 then 3 else 4

-- `len(s)`
unfoldable pub len : Str → ℕ
len [] = 0
len (c ∷ s) = rune_len c + len s

-- `strings.HasPrefix(s, p)`
unfoldable pub has_prefix : Str → Str → Bool
has_prefix s [] = true
has_prefix [] (_ ∷ _) = false
has_prefix (a ∷ s) (b ∷ p) = a == b && has_prefix s p

-- `strings.Contains(s, p)`
unfoldable pub contains : Str → Str → Bool
unfolding has_prefix
contains [] p = has_prefix [] p
contains (c ∷ s) p = has_prefix (c ∷ s) p || contains s p

abbrev pub one_of : Str → ℕ → Bool
one_of chars c = any (λ d. c == d) chars

-- `strings.ContainsAny(s, chars)`
unfoldable pub contains_any : Str → Str → Bool
contains_any [] chars = false
contains_any (c ∷ s) chars = one_of chars c || contains_any s chars

-- `unicode.IsSpace`: the ASCII spaces, U+0085, U+00A0 and the category Z.
unfoldable pub is_space : ℕ → Bool
is_space c =
    leb 9 c && leb c 13
    || c == 32
    || c == 0x85
    || c == 0xA0
    || c == 0x1680
    || leb 0x2000 c && leb c 0x200a
    || c == 0x2028
    || c == 0x2029
    || c == 0x202f
    || c == 0x205f
    || c == 0x3000

-- `strings.TrimLeftFunc` and `strings.TrimRightFunc`.
unfoldable pub trim_left : (ℕ → Bool) → Str → Str
trim_left p [] = []
trim_left p (c ∷ s) = let rest = trim_left p s in if p c then rest else c ∷ s

-- drops the end of the text where `p` holds
abbrev pub keep_right : Bool → ℕ → Str → Str
keep_right drop c (d ∷ s) = c ∷ d ∷ s
keep_right drop c [] = if drop then [] else c ∷ []

unfoldable pub trim_right : (ℕ → Bool) → Str → Str
trim_right p [] = []
trim_right p (c ∷ s) = keep_right (p c) c (trim_right p s)

unfoldable pub trim : (ℕ → Bool) → Str → Str
unfolding trim_left trim_right
trim p s = trim_right p (trim_left p s)

-- `strings.TrimSpace(s)`
abbrev pub trim_space : Str → Str
trim_space = trim is_space

-- Cuts a text at the code points where `p` holds: what is before the first cut, and the rest.
abbrev pub push_head : ℕ → List Str → List Str
push_head c [] = (c ∷ []) ∷ []
push_head c (w ∷ ws) = (c ∷ w) ∷ ws

unfoldable pub split_by : (ℕ → Bool) → Str → List Str
split_by p [] = [] ∷ []
split_by p (c ∷ s) = let rest = split_by p s in if p c then [] ∷ rest else push_head c rest

abbrev pub drop_empty : List Str → List Str
drop_empty [] = []
drop_empty ([] ∷ ws) = drop_empty ws
drop_empty ((c ∷ w) ∷ ws) = (c ∷ w) ∷ drop_empty ws

-- `strings.Fields(s)`
unfoldable pub fields : Str → List Str
unfolding split_by is_space
fields s = drop_empty (split_by is_space s)

-- `strings.ToLower(s)`; `lower` is the rule beyond ASCII.
abbrev pub to_lower : (ℕ → ℕ) → Str → Str
to_lower lower [] = []
to_lower lower (c ∷ s) =
    (if ltb c 128 then (if leb 65 c && leb c 90 then c + 32 else c) else lower c) ∷ to_lower lower s

-- `strings.HasSuffix(s, suffix)` and `strings.TrimSuffix(s, suffix)` for a suffix of one code point.
abbrev pub ends_in : ℕ → Str → Bool
ends_in d [] = false
ends_in d (c ∷ []) = c == d
ends_in d (_ ∷ c ∷ s) = ends_in d (c ∷ s)

abbrev pub drop_last : Str → Str
drop_last [] = []
drop_last (c ∷ []) = []
drop_last (c ∷ d ∷ s) = c ∷ drop_last (d ∷ s)
