-- ===== src/DbExplorer/Query.antt =====
-- A table that is chosen, a query that is run, and how an answer is shown.
use condui.Prelude.{
  ◌⊎◌, inl, inr, String, Bool, true, false, not, ◌||◌, ◌&&◌, Option, none, some, List, [], ◌≡◌,
  refl, str_eq, if◌then◌else◌, str_append,
}
use condui.Prelude.Text.{codes, is_empty, is_blank}
use condui.DbExplorer.{Explorer, Table, Grid, sql_pane, data_pane, structure_pane, disconnect}

-- `DbQuery(connId, db, sql)`
pub record Query : Type 0 where
  pub connection : Option String
  pub db : String
  pub sql : String

-- what a query comes back with: a grid, or the error that it was rejected with
pub data Reply : Type 0 where
  grid : Grid → Reply
  failed : String → Reply

-- what the `catch` makes of it
pub or_error : Reply → Grid
or_error (grid g) = g
or_error (failed m) = record { error = some m; columns = []; rows = [] }

qualifier : String → String → String
qualifier schema table =
    if is_empty (codes schema)
    then str_append "`" (str_append table "`")
    else str_append "\"" (str_append schema (str_append "\".\"" (str_append table "\"")))

select : String → String → String → String
unfolding qualifier
select schema table limit =
    str_append "SELECT * FROM " (str_append (qualifier schema table) (str_append " LIMIT " limit))

-- `selectTable` up to its await: the query that it sends
pub select_table : Table → Explorer → Explorer × Query
unfolding select
select_table t e = (
  record e {
    selected = some t;
    current_db = t.db;
    sql = str_append (select t.schema t.table "100") ";";
    active_pane = data_pane;
    loading = true;
  },
  record { connection = e.connection; db = t.db; sql = select t.schema t.table "200" },
)

or_none : Option (List String) → List String
or_none none = []
or_none (some cs) = cs

-- The rest of it: the columns are `none` for an answer that failed or has no value.
pub table_answered : Option (List String) → Reply → Explorer → Explorer
unfolding or_error or_none
table_answered cs r e = record e {
  columns = or_none cs;
  table_data = some (or_error r);
  loading = false;
}

-- `runSql` up to its await, and the rest of it
pub run_sql : Explorer → Explorer × Option Query
unfolding is_blank
run_sql e = if is_blank e.sql || is_empty (codes e.current_db) then (e, none) else (
  record e { loading = true },
  some (record { connection = e.connection; db = e.current_db; sql = e.sql }),
)

pub sql_answered : Reply → Explorer → Explorer
unfolding or_error
sql_answered r e = record e {
  sql_result = some (or_error r);
  active_pane = sql_pane;
  loading = false;
}

-- `handleKeyDown`
pub key_down : Bool → Bool → String → Explorer → Explorer × Option Query
unfolding run_sql
key_down ctrl meta key e = if (ctrl || meta) && str_eq key "Enter" then run_sql e else (e, none)

-- `ResultGrid`: a hint, an error, no results, or a table with `none` for what is shown as NULL
pub data Shown : Type 0 where
  hint : Shown
  error : String → Shown
  no_results : Shown
  table : List String → List (List (Option String)) → Shown

has_error : Option String → Bool
has_error none = false
has_error (some m) = not (is_empty (codes m))

error_text : Option String → String
error_text none = ""
error_text (some m) = m

pub result_grid : Option Grid → Shown
unfolding has_error error_text
result_grid none = hint
result_grid (some g) =
    if has_error g.error
    then error (error_text g.error)
    else if is_empty g.columns
    then no_results
    else table g.columns g.rows

-- the body of the results
pub data Body : Type 0 where
  results : Shown → Body
  structure : List String → Body

pub body : Explorer → Body
unfolding result_grid
body e = elim e.active_pane [
  | sql_pane ↦ results (result_grid e.sql_result)
  | data_pane ↦ results (result_grid e.table_data)
  | structure_pane ↦ structure e.columns
]

or_intro : (a b : Bool) → (a ≡ true) ⊎ (b ≡ true) → (a || b) ≡ true
or_intro true b h = refl
or_intro false b (inl e) = cc
or_intro false b (inr e) = e

or_true : (b : Bool) → (b || true) ≡ true
or_true true = refl
or_true false = refl

-- A statement runs by Enter with Ctrl or Meta and by no other key. Without a text, or without a
-- database, nothing is sent and nothing changes; else the statement is sent as it was written, on
-- the connection and to the database that is chosen. What comes back is shown and ends the
-- waiting: an error with its text, rows with their columns, or that there are no results.
pub run_sql_lem :
    (e : Explorer) (g : Grid) (m key : String) (ctrl meta : Bool)
    → ((str_eq key "Enter" ≡ true
          → (ctrl ≡ true) ⊎ (meta ≡ true)
          → key_down ctrl meta key e ≡ run_sql e)
        × (str_eq key "Enter" ≡ false → key_down ctrl meta key e ≡ (e, none))
        × (ctrl ≡ false → meta ≡ false → key_down ctrl meta key e ≡ (e, none)))
      × ((is_blank e.sql ≡ true → run_sql e ≡ (e, none))
          × (e.current_db ≡ "" → run_sql e ≡ (e, none))
          × (is_blank e.sql ≡ false
              → is_empty (codes e.current_db) ≡ false
              → run_sql e ≡ (
                record e { loading = true },
                some (record { connection = e.connection; db = e.current_db; sql = e.sql }),
              )))
      × ((sql_answered (grid g) (run_sql e).0).loading ≡ false)
      × ((sql_answered (failed m) (run_sql e).0).loading ≡ false)
      × (g.error ≡ none
          → is_empty g.columns ≡ false
          → body (sql_answered (grid g) (run_sql e).0) ≡ results (table g.columns g.rows))
      × (g.error ≡ none
          → g.columns ≡ []
          → body (sql_answered (grid g) (run_sql e).0) ≡ results no_results)
      × (g.error ≡ some m
          → is_empty (codes m) ≡ false
          → body (sql_answered (grid g) (run_sql e).0) ≡ results (error m))
      × (is_empty (codes m) ≡ false
          → body (sql_answered (failed m) (run_sql e).0) ≡ results (error m))
unfolding body sql_answered run_sql key_down or_error result_grid has_error error_text
run_sql_lem e g m key ctrl meta = (
  (
    λ k h. rw (or_intro ctrl meta h, k) refl,
    λ k. when_not (ctrl || meta) (str_eq key "Enter") k,
    λ a b. rw (a, b) refl,
  ),
  (λ h. rw h refl, λ h. rw (h, or_true (is_blank e.sql)) refl, λ h k. rw (h, k) refl),
  refl,
  refl,
  λ h k. rw (h, k) refl,
  λ h k. rw (h, k) refl,
  λ h k. rw (h, k) refl,
  λ h. rw h refl,
)
  where
    when_not : (a b : Bool) → b ≡ false → (if a && b then run_sql e else (e, none)) ≡ (e, none)
    when_not true b h = rw h refl
    when_not false b h = refl

-- The answers of two tables may come in either order, and are taken as they come: the rows that
-- are shown for the table that is selected are then those of the one before. They are taken after
-- a disconnect as well, which had removed the rows.
pub table_answered_late :
    (t u : Table) (cs ds : Option (List String)) (a b : Grid) (e : Explorer)
    → ((table_answered cs
          (grid a)
          (table_answered ds (grid b) (select_table u (select_table t e).0).0)).selected
        ≡ some u)
      × (body (
            table_answered cs
              (grid a)
              (table_answered ds (grid b) (select_table u (select_table t e).0).0))
          ≡ results (result_grid (some a)))
      × ((disconnect (select_table t e).0).table_data ≡ none)
      × ((table_answered cs (grid a) (disconnect (select_table t e).0)).table_data ≡ some a)
unfolding body table_answered select_table disconnect or_error
table_answered_late t u cs ds a b e = (refl, refl, refl, refl)
