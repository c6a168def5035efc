-- ===== src/Tools/Files/Disk/Below.antt =====
-- tools/builtin/fs/disk.go, `safePath`: the path that is used lies below the root.
use deepagent.Base.{
  ℕ, ◌≡◌, ◌≢◌, refl, ap, subst, ◌∙◌, Bool, false, List, [], ◌∷◌, ◌++◌, Bool-cases, inl, inr, All,
  arith,
}
use deepagent.Base.Text.{Str, lit, str_eq, str_eq_iff, is_empty, contains, has_prefix, split_by}
use deepagent.Base.Path.Pieces.{parts-join_down, is_abs-join_down}
use deepagent.Base.Path.Laws.{split_by-cons, IsDown}
use deepagent.Base.Path.{is_slash, named_parts, parts, is_abs, resolved, clean, join}
use deepagent.Agent.Types.{ok}
use deepagent.Tools.Files.Disk.{or_here, is_refused, safe_path}

-- The first piece of a text starts as the text does.
split_by-first :
    (p : ℕ → Bool) (s : Str) (d : ℕ) (w : Str) (ws : List Str)
    → split_by p s ≡ (d ∷ w) ∷ ws
    → (t : Str) × (s ≡ d ∷ t)
unfolding split_by
split_by-first p [] d w ws e = cc
split_by-first p (x ∷ s) d w ws e =
    let (w', ws', e') = split_by-cons p s in
    elim (Bool-cases (p x)) [
      | inl cuts ↦ cc (rw cuts at e)
      | inr keeps ↦
          let whole : (x ∷ w') ∷ ws' ≡ (d ∷ w) ∷ ws = rw (keeps, e') at e in
          let same : x ≡ d = cc in (s, ap (λ (y : ℕ). y ∷ s) same)
    ]

-- A code point before a piece makes no `..` where it makes none before the text.
before_piece :
    (p : ℕ → Bool) (c : ℕ) (w : Str) (ws : List Str) (s : Str)
    → split_by p s ≡ w ∷ ws
    → contains (c ∷ s) (lit "..") ≡ false
    → contains w (lit "..") ≡ false
    → contains (c ∷ w) (lit "..") ≡ false
unfolding contains has_prefix
before_piece p c [] ws s e h hw = ground arith
before_piece p c (d ∷ w) ws s e h hw =
    let (t, starts) = split_by-first p s d w ws e in
    let h' : contains (c ∷ d ∷ t) (lit "..") ≡ false = rw starts at h in ground (arith, h', hw)

-- A piece of a text without `..` has none.
split_by-contains :
    (p : ℕ → Bool) (s : Str)
    → contains s (lit "..") ≡ false
    → All (λ w. contains w (lit "..") ≡ false) (split_by p s)
unfolding split_by contains has_prefix
split_by-contains p [] h = (refl, tt)
split_by-contains p (c ∷ s) h =
    let (w, ws, e) = split_by-cons p s in
    let rest = rw e at (split_by-contains p s (ground arith)) in
    elim (Bool-cases (p c)) [
      | inl cuts ↦ rw cuts (refl, rw e rest)
      | inr keeps ↦ rw (keeps, e) (before_piece p c w ws s e h rest.0, rest.1)
    ]

contains-IsDown : (w : Str) → contains w (lit "..") ≡ false → IsDown w
unfolding contains has_prefix
contains-IsDown w h = elim (Bool-cases (str_eq w (lit ".."))) [
  | inl same ↦
      let is_it : w ≡ lit ".." = (str_eq_iff w (lit "..")).0 same in
      let bad : contains (lit "..") (lit "..") ≡ false =
        subst (λ t. contains t (lit "..") ≡ false) is_it h in
      cc
  | inr other ↦ other
]

named_parts-IsDown :
    (ws : List Str) → All (λ w. contains w (lit "..") ≡ false) ws → All IsDown (named_parts ws)
unfolding named_parts
named_parts-IsDown [] h = tt
named_parts-IsDown (w ∷ ws) (hw, h) =
    let rest = named_parts-IsDown ws h in
    elim (Bool-cases (is_empty w)) [
      | inl blank ↦ rw blank rest
      | inr given ↦ rw given (elim (Bool-cases (str_eq w (lit "."))) [
        | inl dot ↦ rw dot rest
        | inr name ↦ rw name (contains-IsDown w hw, rest)
      ])
    ]

parts-IsDown : (s : Str) → contains s (lit "..") ≡ false → All IsDown (parts s)
unfolding parts
parts-IsDown s h = named_parts-IsDown (split_by is_slash s) (split_by-contains is_slash s h)

safe_at :
    (root path full : Str)
    → safe_path root path ≡ ok full
    → (contains (clean (or_here path)) (lit "..") ≡ false)
      × (full ≡ join root (clean (or_here path)))
unfolding safe_path
safe_at root path full h = elim (Bool-cases (is_refused root (clean (or_here path)))) [
  | inl refused ↦ cc (rw refused at h)
  | inr accepted ↦
      let same : ok (join root (clean (or_here path))) ≡ ok full = rw accepted at h in
      (ground arith, cc)
]

-- Whatever path a tool is given, for a root that has a name: when the path is accepted, the components
-- of the one that is used are those of the cleaned root and behind them others none of which is `..`,
-- and it is absolute just when the root is; so it lies in the root or below it.
pub safe_path-IsDown :
    (root path full : Str)
    → root ≢ []
    → safe_path root path ≡ ok full
    → (more : List Str) × (is_abs full ≡ is_abs root)
      × (parts full ≡ resolved (is_abs root) (parts root) ++ more)
      × All IsDown more
safe_path-IsDown [] path full solid h = absurd (solid refl)
safe_path-IsDown (c ∷ root) path full solid h =
    let (plain, same) = safe_at (c ∷ root) path full h in
    let cleaned = clean (or_here path) in
    let down = parts-IsDown cleaned plain in
    (
      parts cleaned,
      ap is_abs same ∙ is_abs-join_down c root cleaned down,
      ap parts same ∙ parts-join_down c root cleaned down,
      down,
    )
