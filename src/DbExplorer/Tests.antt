-- ===== src/DbExplorer/Tests.antt =====
-- Runs of the explorer, and the theorems at concrete states.
use condui.Prelude.{◌⊎◌, lookup, str_eq, lookup, ◌++◌, true, false, none, some, [], ◌∷◌, ◌≡◌, refl}
use condui.Prelude.Text.{includes_text, codes, is_empty, is_blank}
use condui.DbExplorer.{schema_key, Explorer, Table, Grid, sql_pane, connect, schema_key, normalize}
use condui.DbExplorer.Tree.{list_databases, toggle_db}
use condui.DbExplorer.Tree.Ready.{World}
use condui.DbExplorer.Query.{
  table, grid, failed, body, results, no_results, error, run_sql, sql_answered, key_down,
  run_sql_lem,
}

abbrev fresh : Explorer
fresh = record {
  connection = none;
  nt_type = "";
  databases = [];
  expanded_dbs = [];
  schemas = [];
  expanded_schemas = [];
  tables = [];
  selected = none;
  columns = [];
  table_data = none;
  current_db = "shop";
  sql = "SELECT 1";
  sql_result = none;
  loading = false;
  active_pane = sql_pane;
}

abbrev open_schema : Explorer
open_schema = record fresh { expanded_schemas = (schema_key "shop" "public", true) ∷ [] }

abbrev rows : Grid
rows = record { error = none; columns = "id" ∷ []; rows = (some "1" ∷ []) ∷ [] }

abbrev users : Table
users = record { db = "shop"; schema = "public"; table = "users" }

abbrev carts : Table
carts = record { db = "shop"; schema = "public"; table = "carts" }

normalize_run : (normalize "postgres:16" ≡ "postgresql") × (normalize "redis" ≡ "redis")
unfolding normalize includes_text
normalize_run = (refl, refl)

abbrev connected_world : World
connected_world = record {
  explorer = connect "c1" "postgresql" fresh;
  pending = list_databases ∷ [];
}

abbrev shop_world : World
shop_world = record {
  explorer = (toggle_db "shop" connected_world.explorer).0;
  pending = (toggle_db "shop" connected_world.explorer).1 ++ list_databases ∷ [];
}

run_sql_lem_example :
    ((str_eq "Enter" "Enter" ≡ true
        → (true ≡ true) ⊎ (false ≡ true)
        → key_down true false "Enter" fresh ≡ run_sql fresh)
      × (str_eq "Enter" "Enter" ≡ false → key_down true false "Enter" fresh ≡ (fresh, none))
      × (true ≡ false → false ≡ false → key_down true false "Enter" fresh ≡ (fresh, none)))
    × ((is_blank fresh.sql ≡ true → run_sql fresh ≡ (fresh, none))
        × (fresh.current_db ≡ "" → run_sql fresh ≡ (fresh, none))
        × (is_blank fresh.sql ≡ false
            → is_empty (codes fresh.current_db) ≡ false
            → run_sql fresh ≡ (
              record fresh { loading = true },
              some (record {
                connection = fresh.connection;
                db = fresh.current_db;
                sql = fresh.sql;
              }),
            )))
    × ((sql_answered (grid rows) (run_sql fresh).0).loading ≡ false)
    × ((sql_answered (failed "denied") (run_sql fresh).0).loading ≡ false)
    × (rows.error ≡ none
        → is_empty rows.columns ≡ false
        → body (sql_answered (grid rows) (run_sql fresh).0)
          ≡ results (table rows.columns rows.rows))
    × (rows.error ≡ none
        → rows.columns ≡ []
        → body (sql_answered (grid rows) (run_sql fresh).0) ≡ results no_results)
    × (rows.error ≡ some "denied"
        → is_empty (codes "denied") ≡ false
        → body (sql_answered (grid rows) (run_sql fresh).0) ≡ results (error "denied"))
    × (is_empty (codes "denied") ≡ false
        → body (sql_answered (failed "denied") (run_sql fresh).0) ≡ results (error "denied"))
run_sql_lem_example = run_sql_lem fresh rows "denied" "Enter" true false
