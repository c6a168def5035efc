-- ===== src/Memory.antt =====
-- memory/redis_inmemory.go: the in-memory store, a map of namespaces to maps of keys. A map is the
-- list of its entries, in the order of Go's visit.
pub mod Contract
pub mod Redis
pub mod Files
pub mod Sqlite
mod Tests
use deepagent.Base.{
  ◌≡◌, refl, ap, ◌∙◌, sym, arith, inl, inr, Bool, true, false, ◌&&◌, ◌||◌, Option, none, some, List,
  [], ◌∷◌, if◌then◌else◌, any, Bool-cases,
}
use deepagent.Base.Text.{Str, str_eq, str_eq_iff, str_eq_refl}

module _ {A : Type 0} where
  -- `m[key]` and `m[key] = a`
  unfoldable pub find : List (Str × A) → Str → Option A
  find [] key = none
  find ((k, a) ∷ rest) key = if str_eq k key then some a else find rest key

  unfoldable pub insert : List (Str × A) → Str → A → List (Str × A)
  insert [] key a = (key, a) ∷ []
  insert ((k, b) ∷ rest) key a =
      let later = insert rest key a in if str_eq k key then (k, a) ∷ rest else (k, b) ∷ later

  unfoldable pub keys : List (Str × A) → List Str
  keys [] = []
  keys ((k, a) ∷ rest) = k ∷ keys rest

  pub find-insert :
      (m : List (Str × A)) (key : Str) (a : A) (other : Str)
      → find (insert m key a) other ≡ (if str_eq key other then some a else find m other)
  unfolding find insert
  find-insert [] key a other = refl
  find-insert ((k, b) ∷ rest) key a other =
      let later = find-insert rest key a other in
      ground (arith, later, str_eq_iff k key, str_eq_iff k other, str_eq_iff key other)

  abbrev pub is_some : Option A → Bool
  is_some none = false
  is_some (some a) = true

  keys-find :
      (m : List (Str × A)) (key : Str) → any (λ k. str_eq k key) (keys m) ≡ is_some (find m key)
  unfolding find keys
  keys-find [] key = refl
  keys-find ((k, a) ∷ rest) key = let later = keys-find rest key in ground (arith, later)

abbrev pub Store : Type 0 → Type 0
Store V = List (Str × List (Str × V))

module _ {V : Type 0} where
  -- the entries of a namespace, none if it is not there
  abbrev entries : Option (List (Str × V)) → List (Str × V)
  entries none = []
  entries (some ns) = ns

  unfoldable pub get : Store V → Str → Str → Option V
  unfolding find
  get s namespace key = find (entries (find s namespace)) key

  unfoldable pub put : Store V → Str → Str → V → Store V
  unfolding find insert
  put s namespace key value = insert s namespace (insert (entries (find s namespace)) key value)

  unfoldable pub list : Store V → Str → List Str
  unfolding find keys
  list s namespace = keys (entries (find s namespace))

  -- After a put, a get at the same namespace and key finds the value, and any other get finds what
  -- it found before.
  pub get-put :
      (s : Store V) (namespace key : Str) (value : V) (namespace' key' : Str)
      → get (put s namespace key value) namespace' key' ≡ (
          if str_eq namespace namespace' && str_eq key key'
          then some value
          else get s namespace' key')
  unfolding get put
  get-put s namespace key value namespace' key' =
      let written = insert (entries (find s namespace)) key value in
      let outer = find-insert s namespace written namespace' in
      let inner = find-insert (entries (find s namespace)) key value key' in
      elim (Bool-cases (str_eq namespace namespace')) [
        | inl same ↦
            let at : find (insert s namespace written) namespace' ≡ some written =
              rw same at outer in
            let there : find s namespace ≡ find s namespace' =
              ap (find s) ((str_eq_iff namespace namespace').0 same) in
            rw same (
              ap (λ o. find (entries o) key') at
              ∙ inner
              ∙ ap (λ o. if str_eq key key' then some value else find (entries o) key') there)
        | inr other ↦
            let at : find (insert s namespace written) namespace' ≡ find s namespace' =
              rw other at outer in
            rw other (ap (λ o. find (entries o) key') at)
      ]

  -- The listed keys of a namespace are just those at which a get finds something.
  pub list-get :
      (s : Store V) (namespace key : Str)
      → any (λ k. str_eq k key) (list s namespace) ≡ is_some (get s namespace key)
  unfolding list get
  list-get s namespace key = keys-find (entries (find s namespace)) key
