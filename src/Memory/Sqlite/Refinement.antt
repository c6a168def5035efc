-- ===== src/Memory/Sqlite/Refinement.antt =====
-- memory/sqlite_store.go against memory/redis_inmemory.go: the store in a database behaves as the
-- map of maps.
use deepagent.Base.{
  ◌≡◌, refl, ap, ◌∙◌, Bool, true, ◌&&◌, none, some, List, [], ◌∷◌, ◌++◌, if◌then◌else◌,
}
use deepagent.Base.Text.{Str, lit, str_eq}
use deepagent.Agent.Types.{Result, ok, err}
use deepagent.Memory
use deepagent.Memory.Contract.{
  StoreOps, IsStore, PutCall, puts, puts_to_map, Accepted, reads-if, get-Refines,
}
use deepagent.Memory.Redis.{Codec}
use deepagent.Memory.Redis.Refinement.{ReadsBack}
use deepagent.Memory.Sqlite.{
  Database, get_statement, put_statement, scanned_value, from_row, sqlite_get, stored, sqlite_put,
}

-- What the store relies on of SQL, on a database in which the table with its primary key was made: an
-- insert that updates the value where the namespace and the key are already there, and returns no
-- error, is selected again by them, and leaves the other rows.
abbrev insert_or_update : Str
insert_or_update =
    lit "INSERT INTO memory(namespace,key,value) VALUES(?,?,?) ON CONFLICT(namespace,key) "
    ++ lit "DO UPDATE SET value=excluded.value"

abbrev select_one : Str
select_one = lit "SELECT value FROM memory WHERE namespace = ? AND key = ?"

pub record IsTable {W : Type 0} (db : Database W) : Type 0 where
  pub select_insert :
      (namespace key text namespace' key' : Str) (w : W)
      → (db.exec insert_or_update (namespace ∷ key ∷ text ∷ []) w).0 ≡ none
      → db.query_row select_one
          (namespace' ∷ key' ∷ [])
          (db.exec insert_or_update (namespace ∷ key ∷ text ∷ []) w).1
        ≡ (if str_eq namespace namespace' && str_eq key key'
            then ok (some text)
            else db.query_row select_one (namespace' ∷ key' ∷ []) w)

abbrev pub any_names : Str → Str → Bool
any_names namespace key = true

module _ {W V : Type 0} (db : Database W) (codec : Codec V) where
  abbrev pub sqlite_store : StoreOps W V
  sqlite_store = record { get = sqlite_get db codec; put = sqlite_put db codec }

  -- A put that returns no error has stored the text of the value.
  stored-none :
      (namespace key : Str) (marshalled : Result Str) (w : W)
      → (stored db codec namespace key marshalled w).0 ≡ none
      → (text : Str) × (marshalled ≡ ok text)
        × ((db.exec put_statement (namespace ∷ key ∷ text ∷ []) w).0 ≡ none)
        × ((stored db codec namespace key marshalled w).1
            ≡ (db.exec put_statement (namespace ∷ key ∷ text ∷ []) w).1)
  stored-none namespace key (err e) w h = cc
  stored-none namespace key (ok text) w h = (text, refl, h, refl)

  -- On a database with the table, and with JSON that reads back what it wrote, the store keeps the
  -- promise of a store at every namespace.
  pub sqlite_store-IsStore : IsTable db → ReadsBack codec → IsStore any_names sqlite_store
  unfolding sqlite_put sqlite_get
  sqlite_store-IsStore table json = record {
    get_put = λ namespace key value namespace' key' w _ _ done.
        let (text, marshalled, upserted, after) =
          stored-none namespace key (codec.marshal value) w done in
        let same = str_eq namespace namespace' && str_eq key key' in
        ap (from_row db codec) (
          ap (db.query_row get_statement (namespace' ∷ key' ∷ [])) after
          ∙ table.select_insert namespace key text namespace' key' w upserted)
        ∙ reads-if (from_row db codec) same same text value
            (db.query_row get_statement (namespace' ∷ key' ∷ []) w) refl
            (ap (scanned_value db codec) (json.reads_back value text marshalled));
  }

  -- On a database with the table, where the two statements do what SQL says, and with JSON that reads
  -- back what it wrote: from an empty table,
  -- after any sequence of puts of which none returns an error, a get returns just what a get at the
  -- map of maps returns after the same puts.
  pub sqlite_get-Refines :
      (table : IsTable db) (json : ReadsBack codec) (calls : List (PutCall any_names sqlite_store))
      (w : W)
      → ((namespace key : Str) → db.query_row get_statement (namespace ∷ key ∷ []) w ≡ ok none)
      → Accepted any_names sqlite_store calls w
      → (namespace key : Str)
      → sqlite_get db codec namespace key (puts any_names sqlite_store calls w)
        ≡ ok (Memory.get (puts_to_map any_names sqlite_store calls []) namespace key)
  unfolding sqlite_get
  sqlite_get-Refines table json calls w nothing accepted namespace key =
      get-Refines any_names sqlite_store (sqlite_store-IsStore table json) calls w
        (λ n k _. ap (from_row db codec) (nothing n k)) accepted namespace key refl
