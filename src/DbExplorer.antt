-- ===== src/DbExplorer.antt =====
-- The explorer of a database: components/DbExplorer.jsx. The backend's calls are requests, and
-- what comes back is an answer; text in lower case is a parameter.
pub mod Tree
pub mod Query
mod Tests
use condui.Prelude.{
  String, Bool, true, false, not, ◌||◌, Option, none, some, List, [], ◌∷◌, ◌≡◌, refl, str_eq,
  if◌then◌else◌, Dict, str_append,
}
use condui.Prelude.Text.{codes, includes_text}

pub record Table : Type 0 where
  pub db : String
  pub schema : String
  pub table : String

-- An answer to a query: an error, or rows of cells, a cell of `none` being NULL.
pub record Grid : Type 0 where
  pub error : Option String
  pub columns : List String
  pub rows : List (List (Option String))

pub data Pane : Type 0 where
  sql_pane data_pane structure_pane : Pane

-- `nt_type` is the normalized type, and a pair of a database and a schema is one key of
-- `expanded_schemas` and of `tables`.
pub record Explorer : Type 0 where
  pub connection : Option String
  pub nt_type : String
  pub databases : List String
  pub expanded_dbs : Dict Bool
  pub schemas : Dict (List String)
  pub expanded_schemas : Dict Bool
  pub tables : Dict (List String)
  pub selected : Option Table
  pub columns : List String
  pub table_data : Option Grid
  pub current_db : String
  pub sql : String
  pub sql_result : Option Grid
  pub loading : Bool
  pub active_pane : Pane

-- `normalizeType` of a text in lower case
pub normalize : String → String
normalize l =
    let has = λ (s : String). includes_text (codes s) (codes l) in
    if has "postgres" || has "timescale"
    then "postgresql"
    else if has "mariadb"
    then "mariadb"
    else if has "mysql"
    then "mysql"
    else l

-- the user that the form starts with
pub default_user : String → String
default_user nt = if str_eq nt "postgresql" then "postgres" else "root"

pub record Form : Type 0 where
  pub user : String
  pub password : String
  pub error : String
  pub loading : Bool

-- `submit` of the form up to its await, and after the answer: an id or an error
pub submit : Form → Form
submit f = record f { loading = true; error = "" }

pub data Answer : Type 0 where
  connected : String → Answer
  failed : String → Answer

-- `onConnected`
pub connect : String → String → Explorer → Explorer
connect id nt e = record e { connection = some id; nt_type = nt }

pub submitted : String → Answer → Form × Explorer → Form × Explorer
unfolding connect
submitted nt (connected id) (f, e) = (record f { loading = false }, connect id nt e)
submitted nt (failed m) (f, e) = (record f { error = m; loading = false }, e)

-- `disconnect`
pub disconnect : Explorer → Explorer
disconnect e = record e {
  connection = none;
  databases = [];
  expanded_dbs = [];
  schemas = [];
  tables = [];
  selected = none;
  columns = [];
  table_data = none;
  sql_result = none;
}

pub schema_key : String → String → String
schema_key db schema = str_append db (str_append "\0" schema)
