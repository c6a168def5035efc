-- ===== src/Memory/Files/Paths.antt =====
-- memory/store.go: names that are accepted have files of their own.
use mathlib.Core.List.{append_cancel_left, append_cancel_right}
use deepagent.Base.{
  ◌≡◌, ◌≢◌, refl, ap, ◌∙◌, sym, subst, arith, inl, inr, Bool, true, false, none, List, [], ◌∷◌,
  ◌++◌, Bool-cases, All, All-append, append_assoc, append-nil,
}
use deepagent.Base.Text.{Str, lit, str_eq, str_eq_iff, contains, contains_any, has_prefix, split_by}
use deepagent.Base.Path.{
  named_parts, joined, parts, is_abs, resolve, resolved, render, or_dot, clean, join,
}
use deepagent.Base.Path.Laws.{
  IsDown, json_name, any-slash, json_name-IsDown, parts-json_name, resolved-append,
}
use deepagent.Base.Path.Pieces.{
  IsPiece, parts-one, parts-nil, parts-clean, is_abs-clean, parts-join_down, is_abs-join_down,
}
use deepagent.Memory.Files.{join_any, validate_path_component}

-- A name that is accepted has no separator.
pub accepted-plain :
    (quote : Str → Str) (t what : Str)
    → validate_path_component quote t what ≡ none
    → contains_any t (lit "/\\") ≡ false
unfolding validate_path_component contains_any
accepted-plain quote [] what h = refl
accepted-plain quote (c ∷ t) what h = ground arith

dot-refused : (quote : Str → Str) (what : Str) → validate_path_component quote (lit ".") what ≢ none
unfolding validate_path_component contains_any contains has_prefix str_eq split_by named_parts
    joined
dot-refused quote what h = cc

dots-refused :
    (quote : Str → Str) (what : Str) → validate_path_component quote (lit "..") what ≢ none
unfolding validate_path_component contains_any contains has_prefix str_eq
dots-refused quote what h = cc

accepted-named :
    (quote : Str → Str) (t what refused : Str)
    → validate_path_component quote refused what ≢ none
    → validate_path_component quote t what ≡ none
    → str_eq t refused ≡ false
accepted-named quote t what refused bars h = elim (Bool-cases (str_eq t refused)) [
  | inl same ↦ absurd (
      bars (
        subst (λ n. validate_path_component quote n what ≡ none) ((str_eq_iff t refused).0 same) h))
  | inr other ↦ other
]

-- The components of a name: none if it is empty.
abbrev pub pieces_of : Str → List Str
pieces_of [] = []
pieces_of (c ∷ t) = (c ∷ t) ∷ []

module _ (quote : Str → Str) (what : Str) where
  parts-accepted :
      (t : Str)
      → validate_path_component quote t what ≡ none
      → (parts t ≡ pieces_of t) × All IsPiece (pieces_of t) × All IsDown (pieces_of t)
  parts-accepted [] h = (parts-nil, tt, tt)
  parts-accepted (c ∷ t) h =
      let piece : IsPiece (c ∷ t) = (
        any-slash (c ∷ t) (accepted-plain quote (c ∷ t) what h),
        refl,
        accepted-named quote (c ∷ t) what (lit ".") (dot-refused quote what) h,
      ) in
      let down = accepted-named quote (c ∷ t) what (lit "..") (dots-refused quote what) h in
      (parts-one (c ∷ t) piece, (piece, tt), (down, tt))

or_dot-solid : (r : Bool) (s : Str) → or_dot r s ≢ []
or_dot-solid true s e = cc
or_dot-solid false [] e = cc
or_dot-solid false (c ∷ s) e = cc

render-solid : (r : Bool) (ws : List Str) → render r ws ≢ []
unfolding render
render-solid r ws = or_dot-solid r _

clean-solid : (s : Str) → clean s ≢ []
unfolding clean
clean-solid s = render-solid (is_abs s) (resolved (is_abs s) (parts s))

join_any-solid : (dir namespace : Str) → dir ≢ [] → join_any dir namespace ≢ []
unfolding join
join_any-solid [] namespace full = absurd (full refl)
join_any-solid (c ∷ dir) [] full = clean-solid (c ∷ dir)
join_any-solid (c ∷ dir) (d ∷ namespace) full =
    clean-solid ((c ∷ dir) ++ (lit "/" ++ (d ∷ namespace)))

join_any-json_name :
    (base key : Str) → base ≢ [] → join_any base (json_name key) ≡ join base (json_name key)
join_any-json_name [] key full = absurd (full refl)
join_any-json_name (c ∷ base) [] full = refl
join_any-json_name (c ∷ base) (d ∷ key) full = refl

-- What stands of a directory: whether it is absolute, and its components.
abbrev rooted : Str → List Str
rooted dir = resolved (is_abs dir) (parts dir)

module _ (quote : Str → Str) (what : Str) where
  parts-namespace :
      (dir namespace : Str)
      → dir ≢ []
      → validate_path_component quote namespace what ≡ none
      → (parts (join_any dir namespace) ≡ rooted dir ++ pieces_of namespace)
        × (is_abs (join_any dir namespace) ≡ is_abs dir)
  parts-namespace [] namespace full h = absurd (full refl)
  parts-namespace (c ∷ dir) [] full h =
      (parts-clean (c ∷ dir) ∙ sym (append-nil _), is_abs-clean (c ∷ dir))
  parts-namespace (c ∷ dir) (d ∷ namespace) full h =
      let (one, piece, down) = parts-accepted quote what (d ∷ namespace) h in
      let steps = subst (All IsDown) (sym one) down in
      (
        parts-join_down c dir (d ∷ namespace) steps ∙ ap (λ ws. rooted (c ∷ dir) ++ ws) one,
        is_abs-join_down c dir (d ∷ namespace) steps,
      )

parts-key :
    (base key : Str)
    → base ≢ []
    → contains_any key (lit "/\\") ≡ false
    → parts (join_any base (json_name key)) ≡ rooted base ++ json_name key ∷ []
parts-key [] key full plain = absurd (full refl)
parts-key (c ∷ base) key full plain =
    let one = parts-json_name key plain in
    ap parts (join_any-json_name (c ∷ base) key full)
    ∙ parts-join_down c base (json_name key)
        (subst (All IsDown) (sym one) (json_name-IsDown key, tt))
    ∙ ap (λ ws. rooted (c ∷ base) ++ ws) one

-- The components of the file of a key in a namespace.
parts-path :
    (quote : Str → Str) (dir namespace key what : Str)
    → dir ≢ []
    → validate_path_component quote namespace what ≡ none
    → contains_any key (lit "/\\") ≡ false
    → parts (join_any (join_any dir namespace) (json_name key))
      ≡ resolved (is_abs dir) (rooted dir) ++ (pieces_of namespace ++ json_name key ∷ [])
parts-path quote dir namespace key what full h plain =
    let (these, absolute) = parts-namespace quote what dir namespace full h in
    let (one, piece, down) = parts-accepted quote what namespace h in
    parts-key (join_any dir namespace) key (join_any-solid dir namespace full) plain
    ∙ (λ i. resolved (absolute i) (these i) ++ json_name key ∷ [])
    ∙ ap (λ ws. ws ++ json_name key ∷ [])
        (resolved-append (is_abs dir) (rooted dir) (pieces_of namespace) down)
    ∙ append_assoc (resolved (is_abs dir) (rooted dir)) (pieces_of namespace) (json_name key ∷ [])

-- The file of a key in a namespace is absolute just when the directory is.
is_abs-key :
    (base key : Str)
    → base ≢ []
    → contains_any key (lit "/\\") ≡ false
    → is_abs (join_any base (json_name key)) ≡ is_abs base
is_abs-key [] key full plain = absurd (full refl)
is_abs-key (c ∷ base) key full plain =
    let one = parts-json_name key plain in
    ap is_abs (join_any-json_name (c ∷ base) key full)
    ∙ is_abs-join_down c base (json_name key)
        (subst (All IsDown) (sym one) (json_name-IsDown key, tt))

-- A path below the directory: `ws` are its components behind those of the directory.
pub record IsAt (dir : Str) (ws : List Str) (path : Str) : Type 0 where
  pub root : is_abs path ≡ is_abs dir
  pub at : parts path ≡ parts dir ++ ws
  pub down : All IsDown ws

resolved-down : (r : Bool) (ws : List Str) → All IsDown ws → resolved r ws ≡ ws
unfolding resolve
resolved-down r ws steps = resolved-append r [] ws steps

module _ (quote : Str → Str) (what dir namespace : Str) (steps : All IsDown (parts dir)) where
  pub directory-IsAt :
      dir ≢ []
      → validate_path_component quote namespace what ≡ none
      → IsAt dir (pieces_of namespace) (join_any dir namespace)
  directory-IsAt full h =
      let (these, absolute) = parts-namespace quote what dir namespace full h in
      let (one, piece, down) = parts-accepted quote what namespace h in
      record {
        root = absolute;
        at = these ∙ ap (λ ws. ws ++ pieces_of namespace) (resolved-down (is_abs dir) _ steps);
        down = down;
      }

  pub file-IsAt :
      (key : Str)
      → dir ≢ []
      → validate_path_component quote namespace what ≡ none
      → contains_any key (lit "/\\") ≡ false
      → IsAt dir
          (pieces_of namespace ++ json_name key ∷ [])
          (join_any (join_any dir namespace) (json_name key))
  file-IsAt key full h plain =
      let (these, absolute) = parts-namespace quote what dir namespace full h in
      let (one, piece, down) = parts-accepted quote what namespace h in
      let once = resolved-down (is_abs dir) (parts dir) steps in
      record {
        root =
            is_abs-key (join_any dir namespace) key (join_any-solid dir namespace full) plain
            ∙ absolute;
        at =
            parts-path quote dir namespace key what full h plain
            ∙ ap (λ ws. ws ++ (pieces_of namespace ++ json_name key ∷ []))
                (ap (resolved (is_abs dir)) once ∙ once);
        down =
            All-append IsDown (pieces_of namespace) (json_name key ∷ []) down
              (json_name-IsDown key, tt);
      }

-- A directory for a namespace is neither a file of a namespace that has a name nor below one.
pub not-below :
    (namespace namespace' file : Str) (more : List Str)
    → namespace' ≢ []
    → pieces_of namespace ≢ (pieces_of namespace' ++ file ∷ []) ++ more
not-below [] [] file more named h = named refl
not-below [] (d ∷ n') file more named h = cc
not-below (c ∷ n) [] file more named h = named refl
not-below (c ∷ n) (d ∷ n') file more named h = cc

pub pieces-injective :
    (n n' : Str) (a b : Str) → pieces_of n ++ a ∷ [] ≡ pieces_of n' ++ b ∷ [] → (n ≡ n') × (a ≡ b)
pieces-injective [] [] a b e = (refl, cc)
pieces-injective [] (d ∷ n') a b e = cc
pieces-injective (c ∷ n) [] a b e = cc
pieces-injective (c ∷ n) (d ∷ n') a b e = (cc, cc)

-- Names that are accepted have a file of their own.
pub path-injective :
    (quote : Str → Str) (dir namespace key namespace' key' what : Str)
    → dir ≢ []
    → validate_path_component quote namespace what ≡ none
    → validate_path_component quote namespace' what ≡ none
    → contains_any key (lit "/\\") ≡ false
    → contains_any key' (lit "/\\") ≡ false
    → join_any (join_any dir namespace) (json_name key)
      ≡ join_any (join_any dir namespace') (json_name key')
    → (namespace ≡ namespace') × (key ≡ key')
path-injective quote dir namespace key namespace' key' what full h h' plain plain' e =
    let (same, names) = pieces-injective namespace namespace' (json_name key) (json_name key') (
      append_cancel_left (resolved (is_abs dir) (rooted dir)) _ _ (
        sym (parts-path quote dir namespace key what full h plain)
        ∙ ap parts e
        ∙ parts-path quote dir namespace' key' what full h' plain')) in
    (same, append_cancel_right key key' (lit ".json") names)
