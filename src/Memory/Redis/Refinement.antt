-- ===== src/Memory/Redis/Refinement.antt =====
-- memory/redis_store.go against memory/redis_inmemory.go: the store on a server behaves as the map
-- of maps, for namespaces without a colon.
use deepagent.Base.{
  ℕ, ◌≡◌, ◌≢◌, refl, ap, ◌∙◌, sym, arith, inl, inr, Bool, true, false, ◌&&◌, none, some, List, [],
  ◌∷◌, ◌==◌, if◌then◌else◌, Bool-cases,
}
use deepagent.Base.Text.{Str, str_eq, str_eq_iff}
use deepagent.Agent.Types.{Result, ok, err}
use deepagent.Memory
use deepagent.Memory.Contract.{
  StoreOps, IsStore, PutCall, puts, puts_to_map, Accepted, reads-if, get-Refines,
}
use deepagent.Memory.Redis.{Client, Codec, redis_key, as_found, read, redis_get, write, redis_put}

-- What the store relies on of the server: a `Set` that returns no error is read back, and leaves the
-- other keys.
pub record IsMap {W : Type 0} (client : Client W) : Type 0 where
  pub get_set :
      (key text other : Str) (w : W)
      → (client.set key text w).0 ≡ none
      → client.get other (client.set key text w).1
        ≡ (if str_eq key other then ok (some text) else client.get other w)

-- And of JSON, for the values that are stored: they are read back.
pub record ReadsBack {V : Type 0} (codec : Codec V) : Type 0 where
  pub reads_back :
      (value : V) (text : Str) → codec.marshal value ≡ ok text → codec.unmarshal text ≡ ok value

abbrev pub no_colon : Str → Bool
no_colon [] = true
no_colon (c ∷ s) = if c == 58 then false else no_colon s

-- the first code point, 0 where there is none, and the others
abbrev first : Str → ℕ
first [] = 0
first (c ∷ s) = c

abbrev tail : Str → Str
tail [] = []
tail (c ∷ s) = s

colon_first : (c : ℕ) (n k : Str) → no_colon (c ∷ n) ≡ true → c ≢ 58
colon_first c n k h e = ground arith

rest_no_colon : (c : ℕ) (n : Str) → no_colon (c ∷ n) ≡ true → no_colon n ≡ true
rest_no_colon c n h = ground arith

redis_key-injective :
    (n n' k k' : Str)
    → no_colon n ≡ true
    → no_colon n' ≡ true
    → redis_key n k ≡ redis_key n' k'
    → (n ≡ n') × (k ≡ k')
unfolding redis_key
redis_key-injective [] [] k k' h h' e = (refl, cc)
redis_key-injective [] (c ∷ n') k k' h h' e = absurd (colon_first c n' k' h' (sym (ap first e)))
redis_key-injective (c ∷ n) [] k k' h h' e = absurd (colon_first c n k h (ap first e))
redis_key-injective (c ∷ n) (c' ∷ n') k k' h h' e =
    let rest : redis_key n k ≡ redis_key n' k' = ap tail e in
    let (same, same') =
      redis_key-injective n n' k k' (rest_no_colon c n h) (rest_no_colon c' n' h') rest in
    let heads : c ≡ c' = ap first e in (λ i. heads i ∷ same i, same')

differ : (s t : Str) → s ≢ t → str_eq s t ≡ false
differ s t h = elim (Bool-cases (str_eq s t)) [
  | inl same ↦ absurd (h ((str_eq_iff s t).0 same))
  | inr other ↦ other
]

apart : (s t : Str) → str_eq s t ≡ false → s ≢ t
apart s t h e = let same = (str_eq_iff s t).1 e in cc (h, same)

str_eq-redis_key :
    (n n' k k' : Str)
    → no_colon n ≡ true
    → no_colon n' ≡ true
    → str_eq (redis_key n k) (redis_key n' k') ≡ (str_eq n n' && str_eq k k')
str_eq-redis_key n n' k k' h h' = elim (Bool-cases (str_eq n n')) [
  | inl same ↦ elim (Bool-cases (str_eq k k')) [
    | inl same' ↦
        let whole : redis_key n k ≡ redis_key n' k' =
          λ i. redis_key ((str_eq_iff n n').0 same i) ((str_eq_iff k k').0 same' i) in
        rw (same, same') ((str_eq_iff (redis_key n k) (redis_key n' k')).1 whole)
    | inr other ↦
        rw (same, other)
          (differ (redis_key n k) (redis_key n' k')
            (λ e. apart k k' other (redis_key-injective n n' k k' h h' e).1))
  ]
  | inr other ↦ rw other (
      differ (redis_key n k) (redis_key n' k')
        (λ e. apart n n' other (redis_key-injective n n' k k' h h' e).0))
]

-- A namespace without a colon, and any key.
abbrev pub plain_names : Str → Str → Bool
plain_names namespace key = no_colon namespace

module _ {W V : Type 0} (client : Client W) (codec : Codec V) where
  abbrev pub redis_store : StoreOps W V
  redis_store = record { get = redis_get client codec; put = redis_put client codec }

  -- A put that returns no error has set the text of the value.
  write-none :
      (key : Str) (marshalled : Result Str) (w : W)
      → (write client codec key marshalled w).0 ≡ none
      → (text : Str) × (marshalled ≡ ok text)
        × ((client.set key text w).0 ≡ none)
        × ((write client codec key marshalled w).1 ≡ (client.set key text w).1)
  write-none key (err e) w h = cc
  write-none key (ok text) w h = (text, refl, h, refl)

  -- On a server that behaves as a map, and with JSON that reads back what it wrote, the store keeps
  -- the promise of a store at the namespaces without a colon.
  pub redis_store-IsStore : IsMap client → ReadsBack codec → IsStore plain_names redis_store
  unfolding redis_put redis_get redis_key
  redis_store-IsStore map_like json = record {
    get_put = λ namespace key value namespace' key' w plain plain' done.
        let k = redis_key namespace key in
        let k' = redis_key namespace' key' in
        let (text, marshalled, set_ok, after) = write-none k (codec.marshal value) w done in
        let moved : client.get k' (write client codec k (codec.marshal value) w).1
            ≡ (if str_eq k k' then ok (some text) else client.get k' w) =
          ap (client.get k') after ∙ map_like.get_set k text k' w set_ok in
        ap (read client codec) moved
        ∙ reads-if (read client codec) (str_eq k k')
            (str_eq namespace namespace' && str_eq key key') text value (client.get k' w)
            (str_eq-redis_key namespace namespace' key key' plain plain')
            (ap (as_found client codec) (json.reads_back value text marshalled));
  }

  -- On a server that behaves as a map, and with JSON that reads back what it wrote: from an empty
  -- server, after any sequence of puts at namespaces without a colon of which none
  -- returns an error, a get at such a namespace returns just what a get at the map of maps returns
  -- after the same puts.
  pub redis_get-Refines :
      (map_like : IsMap client) (json : ReadsBack codec)
      (calls : List (PutCall plain_names redis_store)) (w : W)
      → ((key : Str) → client.get key w ≡ ok none)
      → Accepted plain_names redis_store calls w
      → (namespace key : Str) → no_colon namespace ≡ true
      → redis_get client codec namespace key (puts plain_names redis_store calls w)
        ≡ ok (Memory.get (puts_to_map plain_names redis_store calls []) namespace key)
  unfolding redis_get
  redis_get-Refines map_like json calls w nothing accepted namespace key plain =
      get-Refines plain_names redis_store (redis_store-IsStore map_like json) calls w
        (λ n k _. ap (read client codec) (nothing (redis_key n k))) accepted namespace key plain
