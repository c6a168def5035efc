-- ===== src/Tools/Sandbox/Images.antt =====
-- tools/builtin/sandbox.go: which container images are allowed.
use deepagent.Base.{
  ℕ, ◌≡◌, ◌≢◌, ◌↔◌, ap, subst, sym, Bool-cases, ◌∙◌, ◌⊎◌, inl, inr, refl, arith, Bool, true, false,
  List, [], ◌∷◌, ◌++◌, if◌then◌else◌,
}
use deepagent.Base.Text.{
  Str, is_empty, str_eq, str_eq_iff, has_prefix, ends_in, drop_last, trim_space,
}

-- one entry of the list, without its spaces: a pattern that ends in `*`, or an image
unfoldable pub entry_allows : Str → Str → Bool
entry_allows image allowed =
    if is_empty allowed
    then false
    else if ends_in 42 allowed
    then has_prefix image (drop_last allowed)
    else str_eq image allowed

unfoldable pub image_allowed : Str → List Str → Bool
unfolding entry_allows
image_allowed image [] = false
image_allowed image (allowed ∷ rest) =
    if entry_allows image (trim_space allowed) then true else image_allowed image rest

has_prefix_iff : (s p : Str) → (has_prefix s p ≡ true) ↔ ((r : Str) × (s ≡ p ++ r))
unfolding has_prefix
has_prefix_iff s [] = ((λ h. (s, refl)), λ h. refl)
has_prefix_iff [] (b ∷ p) = ((λ h. cc), λ (r, e). cc)
has_prefix_iff (a ∷ s) (b ∷ p) = (
  (λ h. let (r, e) = (has_prefix_iff s p).0 (ground arith) in (r, ground (arith, e))),
  λ (r, e). let later = (has_prefix_iff s p).1 (r, ground (arith, e)) in ground (arith, later),
)

drop_last-snoc : (p : Str) (d : ℕ) → drop_last (p ++ d ∷ []) ≡ p
drop_last-snoc [] d = refl
drop_last-snoc (c ∷ []) d = refl
drop_last-snoc (b ∷ c ∷ p) d = ap (λ t. b ∷ t) (drop_last-snoc (c ∷ p) d)

ends_in-snoc : (p : Str) (d : ℕ) → ends_in d (p ++ d ∷ []) ≡ true
ends_in-snoc [] d = ground arith
ends_in-snoc (c ∷ []) d = ground arith
ends_in-snoc (b ∷ c ∷ p) d = ends_in-snoc (c ∷ p) d

ends_in-split : (s : Str) (d : ℕ) → ends_in d s ≡ true → s ≡ drop_last s ++ d ∷ []
ends_in-split [] d h = cc
ends_in-split (c ∷ []) d h = ground arith
ends_in-split (b ∷ c ∷ s) d h = ap (λ t. b ∷ t) (ends_in-split (c ∷ s) d h)

-- The image is the entry, or the entry is a pattern and the image starts like it.
abbrev pub Matches : Str → Str → Type 0
Matches image allowed =
    (allowed ≢ [])
    × (((image ≡ allowed) × (ends_in 42 allowed ≡ false))
        ⊎ ((p : Str) × (rest : Str) × (allowed ≡ p ++ 42 ∷ []) × (image ≡ p ++ rest)))

entry_allows-star :
    (image allowed : Str)
    → allowed ≢ []
    → ends_in 42 allowed ≡ true
    → entry_allows image allowed ≡ has_prefix image (drop_last allowed)
unfolding entry_allows
entry_allows-star image [] solid ends = absurd (solid refl)
entry_allows-star image (c ∷ s) solid ends = rw ends refl

entry_allows-Matches :
    (image allowed : Str) → entry_allows image allowed ≡ true → Matches image allowed
unfolding entry_allows
entry_allows-Matches image [] h = cc
entry_allows-Matches image (c ∷ s) h = elim (Bool-cases (ends_in 42 (c ∷ s))) [
  | inl ends ↦
      let (rest, e) = (has_prefix_iff image (drop_last (c ∷ s))).0 (ground arith) in
      ((λ p. cc), inr (drop_last (c ∷ s), rest, ends_in-split (c ∷ s) 42 ends, e))
  | inr plain ↦ ((λ p. cc), inl ((str_eq_iff image (c ∷ s)).0 (ground arith), plain))
]

Matches-entry_allows :
    (image allowed : Str) → Matches image allowed → entry_allows image allowed ≡ true
unfolding entry_allows
Matches-entry_allows image [] (solid, _) = absurd (solid refl)
Matches-entry_allows image (c ∷ s) (solid, inl (same, plain)) =
    rw plain ((str_eq_iff image (c ∷ s)).1 same)
Matches-entry_allows image (c ∷ s) (solid, inr (p, rest, e, start)) =
    entry_allows-star image (c ∷ s) solid
      (subst (λ t. ends_in 42 t ≡ true) (sym e) (ends_in-snoc p 42))
    ∙ subst (λ t. has_prefix image (drop_last t) ≡ true) (sym e)
        (subst (λ t. has_prefix image t ≡ true) (sym (drop_last-snoc p 42))
          ((has_prefix_iff image p).1 (rest, start)))

-- Some entry of the list, without the spaces around it, matches the image.
abbrev pub IsListed : Str → List Str → Type 0
IsListed image allowlist =
    (before : List Str) × (entry : Str) × (after : List Str) × (allowlist ≡ before ++ entry ∷ after)
    × Matches image (trim_space entry)

IsListed-later :
    (image allowed : Str) (rest : List Str) → IsListed image rest → IsListed image (allowed ∷ rest)
IsListed-later image allowed rest (before, entry, after, e, matches) =
    (allowed ∷ before, entry, after, ap (λ t. allowed ∷ t) e, matches)

IsListed-image_allowed :
    (image : Str) (before : List Str) (entry : Str) (after : List Str)
    → Matches image (trim_space entry)
    → image_allowed image (before ++ entry ∷ after) ≡ true
unfolding image_allowed
IsListed-image_allowed image [] entry after matches =
    rw (Matches-entry_allows image (trim_space entry) matches) refl
IsListed-image_allowed image (b ∷ before) entry after matches =
    let later = IsListed-image_allowed image before entry after matches in ground (arith, later)

image_allowed-IsListed :
    (image : Str) (l : List Str) → image_allowed image l ≡ true → IsListed image l
unfolding image_allowed
image_allowed-IsListed image [] h = cc
image_allowed-IsListed image (allowed ∷ rest) h =
    elim (Bool-cases (entry_allows image (trim_space allowed))) [
      | inl fits ↦ ([], allowed, rest, refl, entry_allows-Matches image (trim_space allowed) fits)
      | inr other ↦
          IsListed-later image allowed rest (image_allowed-IsListed image rest (ground arith))
    ]

-- An image is allowed just when some entry of the list, trimmed and not empty, is the image itself
-- without a final `*`, or is a beginning of the image followed by `*`.
pub image_allowed_iff :
    (image : Str) (allowlist : List Str)
    → (image_allowed image allowlist ≡ true) ↔ IsListed image allowlist
image_allowed_iff image allowlist = (
  image_allowed-IsListed image allowlist,
  λ (before, entry, after, e, matches).
      subst (λ l. image_allowed image l ≡ true) (sym e)
        (IsListed-image_allowed image before entry after matches),
)

-- An image matches itself as an entry, even one that ends in `*`.
pub image-Matches_itself : (image : Str) → image ≢ [] → Matches image image
image-Matches_itself image solid = elim (Bool-cases (ends_in 42 image)) [
  | inl ends ↦ (
    solid,
    inr (drop_last image, 42 ∷ [], ends_in-split image 42 ends, ends_in-split image 42 ends),
  )
  | inr plain ↦ (solid, inl (refl, plain))
]
