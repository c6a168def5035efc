-- ===== src/Memory/Sqlite/Tests.antt =====
-- A database that is a map of maps, and the store in it.
use deepagent.Base.{
  ◌≡◌, refl, ap, ◌∙◌, Bool, true, false, ◌&&◌, Option, none, some, List, [], ◌∷◌, if◌then◌else◌,
}
use deepagent.Base.Text.{Str, lit, str_eq}
use deepagent.Agent.Types.{Result, ok, err}
use deepagent.Memory
use deepagent.Memory.{Store, get-put, list}
use deepagent.Memory.Contract.{PutCall, puts, puts_to_map}
use deepagent.Memory.Redis.{Codec}
use deepagent.Memory.Redis.Refinement.{ReadsBack}
use deepagent.Memory.Sqlite.{
  Database, get_statement, new_sqlite_store, sqlite_get, sqlite_put, sqlite_list, scan_keys,
}
use deepagent.Memory.Sqlite.Refinement.{IsTable, any_names, sqlite_store, sqlite_get-Refines}

abbrev rows_of : List Str → List (Result Str)
rows_of [] = []
rows_of (k ∷ ks) = ok k ∷ rows_of ks

-- What the statements do with other numbers of arguments does not matter.
abbrev inserted : List Str → Store Str → Option Str × Store Str
inserted (namespace ∷ key ∷ text ∷ []) w = (none, Memory.put w namespace key text)
inserted _ w = (none, w)

abbrev selected : List Str → Store Str → Result (Option Str)
selected (namespace ∷ key ∷ []) w = ok (Memory.get w namespace key)
selected _ w = ok none

abbrev keys_in : List Str → Store Str → Result (List (Result Str))
keys_in (namespace ∷ []) w = ok (rows_of (Memory.list w namespace))
keys_in _ w = ok []

abbrev database : Database (Store Str)
database = record {
  exec = λ statement args w. inserted args w;
  query_row = λ statement args w. selected args w;
  query = λ statement args w. keys_in args w;
  close = λ w. (none, w);
}

-- The values are texts.
abbrev texts : Codec Str
texts = record { marshal = λ value. ok value; unmarshal = λ text. ok text }

if_ok :
    (b : Bool) (text : Str) (o : Option Str)
    → ok (if b then some text else o) ≡ (if b then ok (some text) else ok o)
if_ok true text o = refl
if_ok false text o = refl

database-IsTable : IsTable database
database-IsTable = record {
  select_insert = λ namespace key text namespace' key' w done.
      ap ok (get-put w namespace key text namespace' key')
      ∙ if_ok (str_eq namespace namespace' && str_eq key key') text (Memory.get w namespace' key');
}

texts-ReadsBack : ReadsBack texts
texts-ReadsBack = record { reads_back = λ value text same. cc }

nothing :
    (namespace key : Str) → database.query_row get_statement (namespace ∷ key ∷ []) [] ≡ ok none
unfolding Memory.get Memory.find
nothing namespace key = refl

abbrev two_puts : List (PutCall any_names (sqlite_store database texts))
two_puts = (lit "t", lit "a", lit "1") ∷ (lit "t", lit "b", lit "2") ∷ []

listed :
    sqlite_list database texts (lit "t") (puts any_names (sqlite_store database texts) two_puts [])
    ≡ ok (lit "a" ∷ lit "b" ∷ [])
unfolding sqlite_list sqlite_put Memory.put Memory.list str_eq
listed = refl

-- A row that cannot be scanned ends the list with its error.
bad_row : scan_keys (ok (lit "a") ∷ err (lit "scan") ∷ []) ≡ err (lit "scan")
unfolding scan_keys
bad_row = refl

-- The name of the file where none is given.
default_name :
    (new_sqlite_store
      (λ dsn w. (if str_eq dsn (lit "memory.db") then ok database else err dsn, w))
      []
      []).0
    ≡ ok database
unfolding new_sqlite_store str_eq
default_name = refl

sqlite_get-Refines_example :
    sqlite_get database texts
      (lit "t")
      (lit "b")
      (puts any_names (sqlite_store database texts) two_puts [])
    ≡ ok (
        Memory.get
          (puts_to_map any_names (sqlite_store database texts) two_puts [])
          (lit "t")
          (lit "b"))
unfolding sqlite_put
sqlite_get-Refines_example =
    sqlite_get-Refines database texts database-IsTable texts-ReadsBack two_puts [] nothing
      (refl, refl, (refl, refl, tt)) (lit "t") (lit "b")
