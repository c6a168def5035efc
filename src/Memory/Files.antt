-- ===== src/Memory/Files.antt =====
-- memory/store.go and memory/memory_store_factory.go: the store on disk, and the choice of a store.
pub mod Paths
pub mod RoundTrip
pub mod Refinement
mod Tests
use deepagent.Base.{
  Bool, true, false, ◌||◌, not, Option, none, some, List, [], ◌∷◌, ◌++◌, if◌then◌else◌,
}
use deepagent.Base.Text.{Str, lit, str_eq, is_empty, contains, contains_any, has_prefix, trim_space}
use deepagent.Base.Path.{is_abs, clean, join}
use deepagent.Agent.Types.{Result, ok, err}
use deepagent.Memory.Redis.{Codec}

-- The package os: `none` is an error for which `os.IsNotExist` holds. An entry of a directory has a
-- name, and may be a directory itself; `mkdir_all` drops its error.
pub record Os (W : Type 0) : Type 0 where
  pub read_file : Str → W → Result (Option Str)
  pub write_file : Str → Str → W → Option Str × W
  pub mkdir_all : Str → W → W
  pub read_dir : Str → W → Result (Option (List (Str × Bool)))

-- `filepath.Join`, which passes over what is empty
abbrev pub join_any : Str → Str → Str
join_any a b =
    if is_empty a
    then (if is_empty b then [] else clean b)
    else if is_empty b
    then clean a
    else join a b

-- `validatePathComponent`; `quote` is `%q`
unfoldable pub validate_path_component : (quote : Str → Str) → Str → Str → Option Str
unfolding clean
validate_path_component quote v what =
    let unsafe : Option Str = some (lit "unsafe " ++ (what ++ (lit ": " ++ quote v))) in
    let cleaned = clean v in
    if is_empty v
    then none
    else if is_abs v
    then some (what ++ lit " must not be an absolute path")
    else if contains_any v (lit "/\\") || contains v (lit "..")
    then unsafe
    else if str_eq cleaned (lit ".") || (str_eq cleaned (lit "..") || has_prefix cleaned (lit ".."))
    then unsafe
    else none

abbrev pub first_error : Option Str → Option Str → Option Str
first_error (some e) o = some e
first_error none o = o

-- `if !e.IsDir()`
unfoldable pub file_names : List (Str × Bool) → List Str
file_names [] = []
file_names ((name, is_dir) ∷ entries) =
    let rest = file_names entries in if is_dir then rest else name ∷ rest

module _ {W V : Type 0} (os : Os W) (codec : Codec V) (quote : Str → Str) (dir : Str) where
  unfoldable pub path_of : Str → Str → Str
  unfolding join
  path_of namespace key = join_any (join_any dir namespace) (key ++ lit ".json")

  abbrev pub checked : Str → Str → Option Str
  checked namespace key =
      first_error (validate_path_component quote namespace (lit "namespace"))
        (validate_path_component quote key (lit "key"))

  abbrev pub parsed : Result V → Result (Option V)
  parsed (err e) = err e
  parsed (ok v) = ok (some v)

  abbrev pub value_in : Result (Option Str) → Result (Option V)
  value_in (err e) = err e
  value_in (ok none) = ok none
  value_in (ok (some text)) = parsed (codec.unmarshal text)

  abbrev pub get_checked : Option Str → Str → W → Result (Option V)
  get_checked (some e) path w = err e
  get_checked none path w = value_in (os.read_file path w)

  unfoldable pub file_get : Str → Str → W → Result (Option V)
  unfolding path_of validate_path_component
  file_get namespace key w = get_checked (checked namespace key) (path_of namespace key) w

  abbrev pub written : Str → Result Str → W → Option Str × W
  written path (err e) w = (some e, w)
  written path (ok text) w = os.write_file path text w

  abbrev pub put_checked : Option Str → Str → Str → V → W → Option Str × W
  put_checked (some e) namespace key value w = (some e, w)
  put_checked none namespace key value w =
      written (path_of namespace key) (codec.marshal value)
        (os.mkdir_all (join_any dir namespace) w)

  unfoldable pub file_put : Str → Str → V → W → Option Str × W
  unfolding path_of validate_path_component
  file_put namespace key value w = put_checked (checked namespace key) namespace key value w

  abbrev pub names_in : Result (Option (List (Str × Bool))) → Result (List Str)
  names_in (err e) = err e
  names_in (ok none) = ok []
  names_in (ok (some entries)) = ok (file_names entries)

  abbrev pub list_checked : Option Str → Str → W → Result (List Str)
  list_checked (some e) namespace w = err e
  list_checked none namespace w = names_in (os.read_dir (join_any dir namespace) w)

  unfoldable pub file_list : Str → W → Result (List Str)
  unfolding validate_path_component file_names join
  file_list namespace w =
      list_checked (validate_path_component quote namespace (lit "namespace")) namespace w

-- The stores that there are, with the directory or the address.
pub data StoreKind : Type 0 where
  file sqlite redis : Str → StoreKind
  redis_inmemory : StoreKind

-- `NewFileMemoryStore`
abbrev pub directory : Str → Str
directory dir = if is_empty dir then lit "./.memory" else dir

-- The store that `NewMemoryStore` makes, before a connection is tried.
unfoldable pub new_memory_store : Str → Str → Result StoreKind
new_memory_store kind dsn =
    if is_empty kind || str_eq kind (lit "file")
    then ok (file (directory dsn))
    else if str_eq kind (lit "sqlite")
    then ok (sqlite dsn)
    else if str_eq kind (lit "redis")
    then ok (redis dsn)
    else if str_eq kind (lit "redis-inmemory") || str_eq kind (lit "redis-inmem")
    then ok redis_inmemory
    else err (lit "unknown memory backend kind: " ++ kind)
