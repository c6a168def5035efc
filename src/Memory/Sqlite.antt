-- ===== src/Memory/Sqlite.antt =====
-- memory/sqlite_store.go: the store in a database. The driver is a record of functions, JSON one of
-- two.
pub mod Refinement
mod Tests
use deepagent.Base.{Option, none, some, List, [], ◌∷◌, ◌++◌, if◌then◌else◌}
use deepagent.Base.Text.{Str, lit, is_empty}
use deepagent.Agent.Types.{Result, ok, err}
use deepagent.Memory.Redis.{Codec}

-- The package database/sql with the driver: a statement with its arguments, the row of a query
-- (`none` is `sql.ErrNoRows`), the rows of a query with what `Scan` makes of each up to where `Next`
-- stops, and the close.
pub record Database (W : Type 0) : Type 0 where
  pub exec : Str → List Str → W → Option Str × W
  pub query_row : Str → List Str → W → Result (Option Str)
  pub query : Str → List Str → W → Result (List (Result Str))
  pub close : W → Option Str × W

-- the statements of the store
abbrev pub create_statement : Str
create_statement =
    lit "CREATE TABLE IF NOT EXISTS memory (namespace TEXT, key TEXT, value BLOB, "
    ++ lit "PRIMARY KEY(namespace,key))"

abbrev pub get_statement : Str
get_statement = lit "SELECT value FROM memory WHERE namespace = ? AND key = ?"

abbrev pub put_statement : Str
put_statement =
    lit "INSERT INTO memory(namespace,key,value) VALUES(?,?,?) ON CONFLICT(namespace,key) "
    ++ lit "DO UPDATE SET value=excluded.value"

abbrev pub list_statement : Str
list_statement = lit "SELECT key FROM memory WHERE namespace = ?"

module _ {W : Type 0} where
  abbrev pub created : Database W → Option Str × W → Result (Database W) × W
  created db (some e, w) = (err e, (db.close w).1)
  created db (none, w) = (ok db, w)

  abbrev pub opened_database : Result (Database W) × W → Result (Database W) × W
  opened_database (err e, w) = (err e, w)
  opened_database (ok db, w) = created db (db.exec create_statement [] w)

  -- `newSQLiteStore`; `open` is `sql.Open`
  unfoldable pub new_sqlite_store :
      (open_database : Str → W → Result (Database W) × W) → Str → W → Result (Database W) × W
  new_sqlite_store open_database dsn w =
      opened_database (open_database (if is_empty dsn then lit "memory.db" else dsn) w)

  -- `sqliteStore.Close`
  unfoldable pub sqlite_close : Option (Database W) → W → Option Str × W
  sqlite_close none w = (none, w)
  sqlite_close (some db) w = db.close w

-- the loop over the rows
unfoldable pub scan_keys : List (Result Str) → Result (List Str)
scan_keys [] = ok []
scan_keys (err e ∷ rows) = err e
scan_keys (ok k ∷ rows) = elim (scan_keys rows) [ ok keys ↦ ok (k ∷ keys) | err e ↦ err e ]

abbrev pub scanned_rows : Result (List (Result Str)) → Result (List Str)
scanned_rows (err e) = err e
scanned_rows (ok rows) = scan_keys rows

module _ {W V : Type 0} (db : Database W) (codec : Codec V) where
  abbrev pub scanned_value : Result V → Result (Option V)
  scanned_value (err e) = err e
  scanned_value (ok v) = ok (some v)

  abbrev pub from_row : Result (Option Str) → Result (Option V)
  from_row (err e) = err e
  from_row (ok none) = ok none
  from_row (ok (some text)) = scanned_value (codec.unmarshal text)

  unfoldable pub sqlite_get : Str → Str → W → Result (Option V)
  sqlite_get namespace key w = from_row (db.query_row get_statement (namespace ∷ key ∷ []) w)

  abbrev pub stored : Str → Str → Result Str → W → Option Str × W
  stored namespace key (err e) w = (some e, w)
  stored namespace key (ok text) w = db.exec put_statement (namespace ∷ key ∷ text ∷ []) w

  unfoldable pub sqlite_put : Str → Str → V → W → Option Str × W
  sqlite_put namespace key value w = stored namespace key (codec.marshal value) w

  unfoldable pub sqlite_list : Str → W → Result (List Str)
  unfolding scan_keys
  sqlite_list namespace w = scanned_rows (db.query list_statement (namespace ∷ []) w)
