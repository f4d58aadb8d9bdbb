-- ===== src/DbExplorer/Tree.antt =====
-- The tree of databases, schemas and tables: what a click asks for, and what an answer fills in.
pub mod Answers
pub mod Ready
use condui.Prelude.{
  true, false, String, Bool, false, not, none, some, List, [], ◌∷◌, str_eq, if◌then◌else◌, Dict,
  lookup, insert, is_some,
}
use condui.DbExplorer.{Option, Explorer, schema_key}

pub data Request : Type 0 where
  list_databases : Request
  list_schemas : String → Request
  list_tables : String → String → Request

abbrev or_closed : Option Bool → Bool
or_closed none = false
or_closed (some b) = b

-- `!!m[k]`
unfoldable pub is_open : Dict Bool → String → Bool
unfolding lookup
is_open m k = or_closed (lookup k m)

-- what the click of a database would ask for, and whether it has the answer already
pub wanted : String → String → Request
wanted nt db = if str_eq nt "postgresql" then list_schemas db else list_tables db ""

has_answer : Dict (List String) → Dict (List String) → Request → Bool
unfolding lookup schema_key
has_answer schemas tables list_databases = false
has_answer schemas tables (list_schemas db) = is_some (lookup db schemas)
has_answer schemas tables (list_tables db schema) = is_some (lookup (schema_key db schema) tables)

pub is_loaded : Explorer → Request → Bool
unfolding has_answer
is_loaded e r = has_answer e.schemas e.tables r

-- what a click asks for that finds its row open or closed
pub requests : Bool → Explorer → Request → List Request
unfolding is_loaded
requests true e r = []
requests false e r = if is_loaded e r then [] else r ∷ []

-- `toggleDb` up to its await
pub toggle_db : String → Explorer → Explorer × List Request
unfolding insert is_open wanted requests
toggle_db db e = (
  record e { expanded_dbs = insert db (not (is_open e.expanded_dbs db)) e.expanded_dbs },
  requests (is_open e.expanded_dbs db) e (wanted e.nt_type db),
)

-- `toggleSchema` up to its await
pub toggle_schema : String → String → Explorer → Explorer × List Request
unfolding insert is_open requests schema_key
toggle_schema db schema e =
    let k = schema_key db schema in
    (
      record e {
        expanded_schemas = insert k (not (is_open e.expanded_schemas k)) e.expanded_schemas;
      },
      requests (is_open e.expanded_schemas k) e (list_tables db schema),
    )

pub data Reply : Type 0 where
  items : List String → Reply
  no_value : Reply
  failure : Reply

or_empty : Reply → List String
or_empty (items xs) = xs
or_empty no_value = []
or_empty failure = []

-- The rest of both, and what the effect does with its answer.
pub answered : Request → Reply → Explorer → Explorer
unfolding insert schema_key or_empty
answered list_databases (items dbs) e = record e { databases = dbs }
answered list_databases no_value e = record e { databases = [] }
answered list_databases failure e = e
answered (list_schemas db) r e = record e { schemas = insert db (or_empty r) e.schemas }
answered (list_tables db schema) r e = record e {
  tables = insert (schema_key db schema) (or_empty r) e.tables;
}
