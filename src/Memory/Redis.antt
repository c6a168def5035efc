-- ===== src/Memory/Redis.antt =====
-- memory/redis_store.go: the store on a Redis server. The client is a record of operations of the
-- server, and JSON one of two functions.
pub mod Refinement
mod Tests
use deepagent.Base.{ℕ, zero, suc, Option, none, some, List, [], ◌∷◌, ◌++◌, map, ◌==◌, if◌then◌else◌}
use deepagent.Base.Text.{Str, lit, has_prefix, is_empty, trim_space, contains}
use deepagent.Agent.Types.{Result, ok, err}

-- `Get` (`none` is `redis.Nil`), `Set` without expiry, and `Scan` with a cursor and a pattern.
pub record Client (W : Type 0) : Type 0 where
  pub get : Str → W → Result (Option Str)
  pub set : Str → Str → W → Option Str × W
  pub scan : ℕ → Str → W → Result (List Str × ℕ)

pub record Codec (V : Type 0) : Type 0 where
  pub marshal : V → Result Str
  pub unmarshal : Str → Result V

-- A `redis.Client` with what is called at its start and its end.
pub record Connection (W : Type 0) : Type 0 where
  pub client : Client W
  pub ping : W → Option Str × W
  pub close : W → Option Str × W

module _ {W : Type 0} where
  -- after `Ping`
  abbrev pub pinged : Connection W → Option Str × W → Result (Connection W) × W
  pinged conn (some e, w) = (err e, (conn.close w).1)
  pinged conn (none, w) = (ok conn, w)

  abbrev pub reached : Result (Connection W) → W → Result (Connection W) × W
  reached (err e) w = (err e, w)
  reached (ok conn) w = pinged conn (conn.ping w)

  -- `newRedisStore`; `of_url` is `redis.ParseURL` and `of_address` the options of an address, each
  -- with `redis.NewClient`
  unfoldable pub new_redis_store :
      (of_url : Str → Result (Connection W)) (of_address : Str → Connection W)
      → Str
      → W
      → Result (Connection W) × W
  new_redis_store of_url of_address dsn w =
      let address : Str =
        if is_empty (trim_space dsn) then lit "redis://localhost:6379/0" else dsn in
      reached (if contains address (lit "://") then of_url address else ok (of_address address)) w

  -- `redisStore.Close`
  unfoldable pub redis_close : Option (Connection W) → W → Option Str × W
  redis_close none w = (none, w)
  redis_close (some conn) w = conn.close w

-- `redisStore.key`
unfoldable pub redis_key : Str → Str → Str
redis_key namespace key = namespace ++ (lit ":" ++ key)

-- `strings.TrimPrefix(s, prefix)`
abbrev pub drop_as : Str → Str → Str
drop_as [] s = s
drop_as (_ ∷ prefix) [] = []
drop_as (_ ∷ prefix) (_ ∷ s) = drop_as prefix s

abbrev pub trim_prefix : Str → Str → Str
trim_prefix prefix s = if has_prefix s prefix then drop_as prefix s else s

module _ {W V : Type 0} (client : Client W) (codec : Codec V) where
  abbrev pub as_found : Result V → Result (Option V)
  as_found (err e) = err e
  as_found (ok v) = ok (some v)

  abbrev pub read : Result (Option Str) → Result (Option V)
  read (err e) = err e
  read (ok none) = ok none
  read (ok (some text)) = as_found (codec.unmarshal text)

  unfoldable pub redis_get : Str → Str → W → Result (Option V)
  unfolding redis_key
  redis_get namespace key w = read (client.get (redis_key namespace key) w)

  abbrev pub write : Str → Result Str → W → Option Str × W
  write key (err e) w = (some e, w)
  write key (ok data_of) w = client.set key data_of w

  unfoldable pub redis_put : Str → Str → V → W → Option Str × W
  unfolding redis_key
  redis_put namespace key value w = write (redis_key namespace key) (codec.marshal value) w

  -- the keys of a batch, and those of the following ones
  abbrev pub and_then : Str → List Str → Option (Result (List Str)) → Option (Result (List Str))
  and_then prefix batch none = none
  and_then prefix batch (some (err e)) = some (err e)
  and_then prefix batch (some (ok keys)) = some (ok (map (trim_prefix prefix) batch ++ keys))

  abbrev pub scanned :
      (ℕ → Option (Result (List Str))) → Str → Result (List Str × ℕ) → Option (Result (List Str))
  scanned next_batch prefix (err e) = some (err e)
  scanned next_batch prefix (ok (batch, next)) =
      let rest = and_then prefix batch (next_batch next) in
      if next == 0 then some (ok (map (trim_prefix prefix) batch)) else rest

  -- the loop over the cursor, on fuel; `none` means that the fuel ran out
  unfoldable pub scan_from : ℕ → Str → W → ℕ → Option (Result (List Str))
  scan_from zero prefix w cursor = none
  scan_from (suc fuel) prefix w cursor =
      scanned (scan_from fuel prefix w) prefix (client.scan cursor (prefix ++ lit "*") w)

  unfoldable pub redis_list : ℕ → Str → W → Option (Result (List Str))
  unfolding scan_from
  redis_list fuel namespace w = scan_from fuel (namespace ++ lit ":") w 0
