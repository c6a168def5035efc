-- ===== src/Memory/Contract.antt =====
-- memory/store.go, `Store`: the interface, what its stores promise, and that a store which keeps the
-- promise behaves as the map of maps of memory/redis_inmemory.go.
use deepagent.Base.{
  ◌≡◌, refl, ap, ◌∙◌, sym, Bool, true, false, ◌&&◌, Option, none, some, List, [], ◌∷◌,
  if◌then◌else◌,
}
use deepagent.Base.Text.{Str, str_eq}
use deepagent.Agent.Types.{Result, ok}
use deepagent.Memory
use deepagent.Memory.{Store, get-put}

-- `Get` and `Put` of the interface.
pub record StoreOps (W V : Type 0) : Type 0 where
  pub get : Str → Str → W → Result (Option V)
  pub put : Str → Str → V → W → Option Str × W

-- At the namespaces and keys that are meant, after a put that returns no error a get at the same namespace
-- and key returns the value, and any other get returns what it returned before.
pub record IsStore {W V : Type 0} (meant : Str → Str → Bool) (ops : StoreOps W V) : Type 0 where
  pub get_put :
      (namespace key : Str) (value : V) (namespace' key' : Str) (w : W)
      → meant namespace key ≡ true
      → meant namespace' key' ≡ true
      → (ops.put namespace key value w).0 ≡ none
      → ops.get namespace' key' (ops.put namespace key value w).1 ≡ (
          if str_eq namespace namespace' && str_eq key key'
          then ok (some value)
          else ops.get namespace' key' w)

-- What is read of a text that was just written, or of what stood there before.
pub reads-if :
    {V : Type 0} (reads : Result (Option Str) → Result (Option V)) (b b' : Bool) (text : Str)
    (value : V) (before : Result (Option Str))
    → b ≡ b'
    → reads (ok (some text)) ≡ ok (some value)
    → reads (if b then ok (some text) else before) ≡ (if b' then ok (some value) else reads before)
reads-if reads true true text value before e back = back
reads-if reads true false text value before e back = cc
reads-if reads false true text value before e back = cc
reads-if reads false false text value before e back = refl

module _ {W V : Type 0} (meant : Str → Str → Bool) (ops : StoreOps W V) where
  -- A sequence of puts, on the store and on the map of maps.
  abbrev pub PutCall : Type 0
  PutCall = (namespace : Str) × (key : Str) × V

  abbrev pub puts : List PutCall → W → W
  puts [] w = w
  puts ((namespace, key, value) ∷ calls) w = puts calls (ops.put namespace key value w).1

  abbrev pub puts_to_map : List PutCall → Store V → Store V
  puts_to_map [] s = s
  puts_to_map ((namespace, key, value) ∷ calls) s =
      puts_to_map calls (Memory.put s namespace key value)

  -- The namespaces and keys are meant, and no put returns an error.
  abbrev pub Accepted : List PutCall → W → Type 0
  Accepted [] w = Unit
  Accepted ((namespace, key, value) ∷ calls) w =
      (meant namespace key ≡ true)
      × ((ops.put namespace key value w).0 ≡ none)
      × Accepted calls (ops.put namespace key value w).1

  -- The store answers as the map of maps does.
  abbrev pub Simulates : W → Store V → Type 0
  Simulates w s =
      (namespace key : Str)
      → meant namespace key ≡ true
      → ops.get namespace key w ≡ ok (Memory.get s namespace key)

  ok-if :
      (b : Bool) (value : V) (before : Result (Option V)) (found : Option V)
      → before ≡ ok found
      → (if b then ok (some value) else before) ≡ ok (if b then some value else found)
  ok-if true value before found h = refl
  ok-if false value before found h = h

  put-Simulates :
      (law : IsStore meant ops) (namespace key : Str) (value : V) (w : W) (s : Store V)
      → meant namespace key ≡ true
      → (ops.put namespace key value w).0 ≡ none
      → Simulates w s
      → Simulates (ops.put namespace key value w).1 (Memory.put s namespace key value)
  put-Simulates law namespace key value w s good done h namespace' key' good' =
      law.get_put namespace key value namespace' key' w good good' done
      ∙ ok-if (str_eq namespace namespace' && str_eq key key') value _ _ (h namespace' key' good')
      ∙ ap ok (sym (get-put s namespace key value namespace' key'))

  puts-Simulates :
      (law : IsStore meant ops) (calls : List PutCall) (w : W) (s : Store V)
      → Accepted calls w
      → Simulates w s
      → Simulates (puts calls w) (puts_to_map calls s)
  puts-Simulates law [] w s accepted h = h
  puts-Simulates law ((namespace, key, value) ∷ calls) w s (good, done, later) h =
      puts-Simulates law calls _ _ later (put-Simulates law namespace key value w s good done h)

  -- From an empty store, after any sequence of puts at namespaces and keys that are meant, of
  -- which none returns an error, a get at such ones returns just what a get at the map of maps returns
  -- after the same puts.
  pub get-Refines :
      (law : IsStore meant ops) (calls : List PutCall) (w : W)
      → ((namespace key : Str) → meant namespace key ≡ true → ops.get namespace key w ≡ ok none)
      → Accepted calls w
      → (namespace key : Str) → meant namespace key ≡ true
      → ops.get namespace key (puts calls w) ≡ ok (Memory.get (puts_to_map calls []) namespace key)
  unfolding Memory.get Memory.find
  get-Refines law calls w nothing accepted namespace key good =
      puts-Simulates law calls w [] accepted nothing namespace key good
