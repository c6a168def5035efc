-- ===== src/Memory/Tests.antt =====
-- A small store.
use deepagent.Base.{ℕ, ◌≡◌, refl, some, [], ◌∷◌}
use deepagent.Base.Text.{lit, str_eq}
use deepagent.Memory.{Store, get, put}

abbrev one_result : Store ℕ
one_result = (lit "t", (lit "last", 1) ∷ []) ∷ []

overwritten : get (put one_result (lit "t") (lit "last") 2) (lit "t") (lit "last") ≡ some 2
unfolding get put str_eq
overwritten = refl
