-- ===== src/Base/Path.antt =====
-- What the program uses of path/filepath on Unix: a path by its components.
pub mod Laws
pub mod Pieces
use mathlib.Core.Bool.{Bool, true, false}
use mathlib.Core.List.{List, [], ◌∷◌, ◌++◌, reverse}
use Prim.Native.Nat.{ℕ}
use deepagent.Base.Tests.{◌==◌, if◌then◌else◌}
use deepagent.Base.Text.{Str, lit, str_eq, split_by, is_empty}

abbrev pub is_slash : ℕ → Bool
is_slash c = c == 47

-- The components that count: neither empty nor a dot.
unfoldable pub named_parts : List Str → List Str
named_parts [] = []
named_parts (w ∷ ws) =
    let rest = named_parts ws in
    if is_empty w then rest else if str_eq w (lit ".") then rest else w ∷ rest

unfoldable pub parts : Str → List Str
unfolding named_parts
parts path = named_parts (split_by is_slash path)

-- `filepath.IsAbs`
abbrev pub is_abs : Str → Bool
is_abs [] = false
is_abs (c ∷ s) = is_slash c

-- A step up from the components that are there, the deepest first.
abbrev pub up : Bool → List Str → List Str
up rooted [] = if rooted then [] else lit ".." ∷ []
up rooted (w ∷ ws) = if str_eq w (lit "..") then lit ".." ∷ w ∷ ws else ws

unfoldable pub resolve : Bool → List Str → List Str → List Str
resolve rooted stack [] = stack
resolve rooted stack (w ∷ ws) =
    resolve rooted (if str_eq w (lit "..") then up rooted stack else w ∷ stack) ws

-- The components of the cleaned path, in order.
abbrev pub resolved : Bool → List Str → List Str
resolved rooted ws = reverse (resolve rooted [] ws)

unfoldable pub joined : List Str → Str
joined [] = []
joined (w ∷ []) = w
joined (w ∷ more) = w ++ (lit "/" ++ joined more)

abbrev pub or_dot : Bool → Str → Str
or_dot true s = lit "/" ++ s
or_dot false [] = lit "."
or_dot false (c ∷ s) = c ∷ s

-- The path with these components.
unfoldable pub render : Bool → List Str → Str
unfolding joined
render rooted ws = or_dot rooted (joined ws)

-- `filepath.Clean`
unfoldable pub clean : Str → Str
unfolding render resolve parts
clean path = render (is_abs path) (resolved (is_abs path) (parts path))

-- `filepath.Join` of two paths that are not empty
unfoldable pub join : Str → Str → Str
unfolding clean
join a b = clean (a ++ (lit "/" ++ b))
