-- ===== src/DbExplorer/Tree/Ready.antt =====
-- What happens to the tree as requests come back in any order.
use condui.Prelude.{
  lookup, false, String, true, false, ◌||◌, none, some, List, ◌∷◌, ◌++◌, ◌≡◌, refl, any,
}
use condui.DbExplorer.{[], Explorer, schema_key, connect, disconnect}
use condui.DbExplorer.Tree.{
  requests, has_answer, Request, list_databases, list_tables, toggle_db, toggle_schema, Reply,
  answered, is_open, is_loaded, wanted,
}
use condui.DbExplorer.Tree.Answers.{same}

-- What happens with databases of one type, `nt`: the tree is clicked only while it is shown, with
-- a connection, and the form only without one; `pending` is what has not come back.
pub record World : Type 0 where
  pub explorer : Explorer
  pub pending : List Request

pub data Step (nt : String) : World → World → Type 0 where
  connects :
      {e : Explorer} {rs : List Request} (id : String)
      → e.connection ≡ none
      → Step nt
          (record { explorer = e; pending = rs })
          (record { explorer = connect id nt e; pending = list_databases ∷ rs })
  disconnects :
      {e : Explorer} {rs : List Request} (id : String)
      → e.connection ≡ some id
      → Step nt
          (record { explorer = e; pending = rs })
          (record { explorer = disconnect e; pending = rs })
  toggles_db :
      {e : Explorer} {rs : List Request} (id db : String)
      → e.connection ≡ some id
      → Step nt
          (record { explorer = e; pending = rs })
          (record { explorer = (toggle_db db e).0; pending = (toggle_db db e).1 ++ rs })
  toggles_schema :
      {e : Explorer} {rs : List Request} (id db schema : String)
      → e.connection ≡ some id
      → Step nt
          (record { explorer = e; pending = rs })
          (record {
            explorer = (toggle_schema db schema e).0;
            pending = (toggle_schema db schema e).1 ++ rs;
          })
  answers :
      {e : Explorer} (xs : List Request) (r : Request) (ys : List Request) (a : Reply)
      → Step nt
          (record { explorer = e; pending = xs ++ r ∷ ys })
          (record { explorer = answered r a e; pending = xs ++ ys })

pub data Reach (nt : String) (w : World) : World → Type 0 where
  here : Reach nt w w
  next : {u v : World} → Reach nt w u → Step nt u v → Reach nt w v

-- Every database that is open has its schemas or tables, or has asked for them; none is open
-- without a connection.
pub record IsReady (nt : String) (w : World) : Type 0 where
  pub closed :
      w.explorer.connection ≡ none → (db : String) → is_open w.explorer.expanded_dbs db ≡ false
  pub typed : (id : String) → w.explorer.connection ≡ some id → w.explorer.nt_type ≡ nt
  pub loaded :
      (db : String)
      → is_open w.explorer.expanded_dbs db ≡ true
      → (is_loaded w.explorer (wanted nt db) || any (same (wanted nt db)) w.pending) ≡ true

-- A schema that is open stays so through a disconnect, which forgets its tables: after the next
-- connection it is shown open and without tables, and the click that would load them asks for
-- nothing, since it closes it.
pub disconnect_keeps_schema :
    (id nt db schema : String) (e : Explorer)
    → is_open e.expanded_schemas (schema_key db schema) ≡ true
    → (is_open (connect id nt (disconnect e)).expanded_schemas (schema_key db schema) ≡ true)
      × (is_loaded (connect id nt (disconnect e)) (list_tables db schema) ≡ false)
      × ((toggle_schema db schema (connect id nt (disconnect e))).1 ≡ [])
unfolding connect disconnect toggle_schema is_loaded has_answer requests lookup
disconnect_keeps_schema id nt db schema e h = (h, refl, rw h refl)
