-- ===== src/Memory/Redis/Tests.antt =====
-- A server that is a list of its entries, and the theorems about the store on it.
use deepagent.Base.{
  ◌≡◌, refl, ap, ◌∙◌, Bool, true, false, Option, none, some, List, [], ◌∷◌, if◌then◌else◌,
}
use deepagent.Base.Text.{Str, lit, str_eq, has_prefix, contains, trim, is_space}
use deepagent.Agent.Types.{ok, err}
use deepagent.Memory
use deepagent.Memory.{find, insert, find-insert}
use deepagent.Memory.Redis.{
  Client, Codec, Connection, new_redis_store, redis_get, redis_put, redis_list, redis_key,
}
use deepagent.Memory.Contract.{PutCall, puts, puts_to_map}
use deepagent.Memory.Redis.Refinement.{
  IsMap, ReadsBack, plain_names, redis_store, redis_get-Refines,
}

abbrev Server : Type 0
Server = List (Str × Str)

abbrev server : Client Server
server = record {
  get = λ key w. ok (find w key);
  set = λ key text w. (none, insert w key text);
  scan = λ cursor pattern w. ok (lit "t:last" ∷ [], 0);
}

-- The values are texts.
abbrev texts : Codec Str
texts = record { marshal = λ value. ok value; unmarshal = λ text. ok text }

if_ok :
    (b : Bool) (text : Str) (o : Option Str)
    → ok (if b then some text else o) ≡ (if b then ok (some text) else ok o)
if_ok true text o = refl
if_ok false text o = refl

server-IsMap : IsMap server
server-IsMap = record {
  get_set = λ key text other w done.
      ap ok (find-insert w key text other) ∙ if_ok (str_eq key other) text (find w other);
}

texts-ReadsBack : ReadsBack texts
texts-ReadsBack = record { reads_back = λ value text same. cc }

nothing : (key : Str) → server.get key [] ≡ ok none
unfolding find
nothing key = refl

abbrev two_puts : List (PutCall plain_names (redis_store server texts))
two_puts = (lit "t", lit "last", lit "1") ∷ (lit "t", lit "last", lit "2") ∷ []

both :
    redis_get server texts
      (lit "t")
      (lit "last")
      (puts plain_names (redis_store server texts) two_puts [])
    ≡ ok (some (lit "2"))
unfolding redis_get redis_put redis_key find insert str_eq
both = refl

listed : redis_list server texts 1 (lit "t") [] ≡ some (ok (lit "last" ∷ []))
unfolding redis_list has_prefix
listed = refl

redis_get-Refines_example :
    redis_get server texts
      (lit "t")
      (lit "last")
      (puts plain_names (redis_store server texts) two_puts [])
    ≡ ok (
        Memory.get
          (puts_to_map plain_names (redis_store server texts) two_puts [])
          (lit "t")
          (lit "last"))
unfolding redis_put
redis_get-Refines_example =
    redis_get-Refines server texts server-IsMap texts-ReadsBack two_puts [] nothing
      (refl, refl, (refl, refl, tt)) (lit "t") (lit "last") refl

-- A colon in the namespace mixes two namespaces: what is put in `a:b` at `k` is found in `a` at
-- `b:k`.
mixed :
    redis_get server texts
      (lit "a")
      (lit "b:k")
      (puts plain_names (redis_store server texts) ((lit "a:b", lit "k", lit "1") ∷ []) [])
    ≡ ok (some (lit "1"))
unfolding redis_get redis_put redis_key find insert str_eq
mixed = refl

-- A server that does not answer: the connection is closed, and the error returned. The world counts
-- what was closed.
abbrev silent : Connection (List Str)
silent = record {
  client = record {
    get = λ key w. ok none;
    set = λ key text w. (none, w);
    scan = λ cursor pattern w. ok ([], 0);
  };
  ping = λ w. (some (lit "refused"), w);
  close = λ w. (none, lit "closed" ∷ w);
}

refused :
    new_redis_store (λ url. err (lit "bad url")) (λ address. silent) (lit "cache:6379") []
    ≡ (err (lit "refused"), lit "closed" ∷ [])
unfolding new_redis_store contains has_prefix trim is_space
refused = refl
