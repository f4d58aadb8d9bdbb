-- ===== src/DbExplorer/Tree/Answers.antt =====
-- What a click and an answer keep and load of the tree.
use condui.Prelude.{
  subst, false, not, ap, sym, if◌then◌else◌, ◌∙◌, Bool-cases, inl, inr, any-append, String, Bool,
  true, false, ◌||◌, ◌&&◌, some, List, ◌∷◌, ◌++◌, ◌≡◌, refl, str_eq, Dict, lookup, insert, is_some,
  if_intro, any, arith, eq_iff, lookup-insert, eq_refl,
}
use condui.DbExplorer.{[], Explorer, schema_key}
use condui.DbExplorer.Tree.{
  or_closed, has_answer, requests, Request, list_databases, list_schemas, list_tables, toggle_db,
  Reply, answered, is_open, is_loaded, wanted,
}

pub same : Request → Request → Bool
same list_databases list_databases = true
same (list_schemas a) (list_schemas b) = str_eq a b
same (list_tables a s) (list_tables b t) = str_eq a b && str_eq s t
same _ _ = false

same-wanted : (nt db : String) → same (wanted nt db) (wanted nt db) ≡ true
unfolding same wanted
same-wanted nt db = ground (arith, eq_refl db, eq_refl "")

-- Writing to a table keeps the keys that it has, and adds the one that is written.
has-insert :
    (k i : String) (v : List String) (m : Dict (List String))
    → is_some (lookup i m) ≡ true
    → is_some (lookup i (insert k v m)) ≡ true
has-insert k i v m h =
    rw (lookup-insert k i v m) (if_intro (λ o. is_some o ≡ true) (str_eq k i) (λ _. refl) (λ _. h))

insert-has :
    (k i : String) (v : List String) (m : Dict (List String))
    → i ≡ k
    → is_some (lookup i (insert k v m)) ≡ true
insert-has k i v m h = rw (lookup-insert k i v m, h, eq_refl k) refl

eq_of_str_eq : (a b : String) → str_eq a b ≡ true → a ≡ b
eq_of_str_eq a b h = ground (arith, eq_iff a b)

-- An answer keeps the tree as it is open, and what was loaded.
pub answered_keeps :
    (r : Request) (a : Reply) (e : Explorer)
    → ((answered r a e).connection ≡ e.connection)
      × ((answered r a e).nt_type ≡ e.nt_type)
      × ((answered r a e).expanded_dbs ≡ e.expanded_dbs)
unfolding answered
answered_keeps list_databases (Reply.items dbs) e = (refl, refl, refl)
answered_keeps list_databases Reply.no_value e = (refl, refl, refl)
answered_keeps list_databases Reply.failure e = (refl, refl, refl)
answered_keeps (list_schemas db) a e = (refl, refl, refl)
answered_keeps (list_tables db s) a e = (refl, refl, refl)

is_loaded-answered :
    (w r : Request) (a : Reply) (e : Explorer)
    → is_loaded e w ≡ true
    → is_loaded (answered r a e) w ≡ true
unfolding answered is_loaded has_answer
is_loaded-answered list_databases r a e h = cc
is_loaded-answered (list_schemas d) list_databases (Reply.items dbs) e h = h
is_loaded-answered (list_schemas d) list_databases Reply.no_value e h = h
is_loaded-answered (list_schemas d) list_databases Reply.failure e h = h
is_loaded-answered (list_schemas d) (list_schemas db) a e h = has-insert db d _ e.schemas h
is_loaded-answered (list_schemas d) (list_tables db s) a e h = h
is_loaded-answered (list_tables d t) list_databases (Reply.items dbs) e h = h
is_loaded-answered (list_tables d t) list_databases Reply.no_value e h = h
is_loaded-answered (list_tables d t) list_databases Reply.failure e h = h
is_loaded-answered (list_tables d t) (list_schemas db) a e h = h
is_loaded-answered (list_tables d t) (list_tables db s) a e h =
    has-insert (schema_key db s) (schema_key d t) _ e.tables h

-- What was asked for is loaded after its answer.
is_loaded-same :
    (w r : Request) (a : Reply) (e : Explorer)
    → same w r ≡ true
    → same w list_databases ≡ false
    → is_loaded (answered r a e) w ≡ true
unfolding answered is_loaded has_answer same
is_loaded-same list_databases r a e h k = cc
is_loaded-same (list_schemas d) list_databases a e h k = cc
is_loaded-same (list_schemas d) (list_schemas db) a e h k =
    insert-has db d _ e.schemas (eq_of_str_eq d db h)
is_loaded-same (list_schemas d) (list_tables db s) a e h k = cc
is_loaded-same (list_tables d t) list_databases a e h k = cc
is_loaded-same (list_tables d t) (list_schemas db) a e h k = cc
is_loaded-same (list_tables d t) (list_tables db s) a e h k =
    insert-has (schema_key db s) (schema_key d t) _ e.tables
      (ground (arith, eq_iff d db, eq_iff t s))

is_open-insert :
    (k i : String) (b : Bool) (m : Dict Bool)
    → is_open (insert k b m) i ≡ (if str_eq k i then b else is_open m i)
unfolding is_open
is_open-insert k i b m = ap or_closed (lookup-insert k i b m) ∙ by_cases (str_eq k i)
  where
    by_cases :
        (c : Bool)
        → or_closed (if c then some b else lookup i m) ≡ (if c then b else or_closed (lookup i m))
    by_cases true = refl
    by_cases false = refl

insert_same : (k : String) (b : Bool) (m : Dict Bool) → is_open (insert k b m) k ≡ b
insert_same k b m = rw (is_open-insert k k b m, eq_refl k) refl

insert_other :
    (k i : String) (b : Bool) (m : Dict Bool)
    → str_eq k i ≡ false
    → is_open (insert k b m) i ≡ is_open m i
insert_other k i b m h = rw (is_open-insert k i b m, h) refl

pub is_open_empty : (k : String) → is_open [] k ≡ false
unfolding is_open lookup
is_open_empty k = refl

not-true : (b : Bool) → not b ≡ true → b ≡ false
not-true b h = ground arith

pub or_any : (a b c : Bool) → (a || b) ≡ true → (b ≡ true → c ≡ true) → (a || c) ≡ true
or_any true b c h k = refl
or_any false b c h k = k h

or_true : (b : Bool) → (b || true) ≡ true
or_true true = refl
or_true false = refl

-- What is not loaded is asked for, and what was pending remains so.
pub any-requests :
    (b : Bool) (e : Explorer) (r w : Request) (rs : List Request)
    → (any (same w) rs ≡ true → any (same w) (requests b e r ++ rs) ≡ true)
      × (same r r ≡ true → (is_loaded e r || any (same r) (requests false e r ++ rs)) ≡ true)
unfolding requests
any-requests b e r w rs = (
  λ h. rw (any-append (same w) (requests b e r) rs, h) (or_true _),
  λ h.
      if_intro (λ x. (is_loaded e r || any (same r) (x ++ rs)) ≡ true) (is_loaded e r)
        (λ k. rw k refl) (λ k. rw h (or_true _)),
)

-- One click of a database keeps the others, and loads what it opens.
pub toggle_db_keeps :
    (nt db d : String) (e : Explorer) (rs : List Request)
    → e.nt_type ≡ nt
    → (is_open e.expanded_dbs d ≡ true
        → (is_loaded e (wanted nt d) || any (same (wanted nt d)) rs) ≡ true)
    → is_open (toggle_db db e).0.expanded_dbs d ≡ true
    → (is_loaded (toggle_db db e).0 (wanted nt d)
        || any (same (wanted nt d)) ((toggle_db db e).1 ++ rs))
      ≡ true
unfolding toggle_db is_loaded
toggle_db_keeps nt db d e rs t h o = elim (Bool-cases (str_eq db d)) [
  | inl k ↦
      subst
        (λ x.
          (is_loaded e (wanted nt x)
            || any (same (wanted nt x))
                (requests (is_open e.expanded_dbs db) e (wanted e.nt_type db) ++ rs))
          ≡ true)
        (eq_of_str_eq db d k)
        (opened (
          subst (λ x. is_open (insert db (not (is_open e.expanded_dbs db)) e.expanded_dbs) x ≡ true)
            (sym (eq_of_str_eq db d k)) o))
  | inr k ↦
      or_any _ _ _ (h (sym (insert_other db d _ e.expanded_dbs k) ∙ o))
        (any-requests (is_open e.expanded_dbs db) e (wanted e.nt_type db) (wanted nt d) rs).0
]
  where
    opened :
        is_open (insert db (not (is_open e.expanded_dbs db)) e.expanded_dbs) db ≡ true
        → (is_loaded e (wanted nt db)
            || any
                (same (wanted nt db))
                (requests (is_open e.expanded_dbs db) e (wanted e.nt_type db) ++ rs))
          ≡ true
    opened q =
        rw (not-true _ (sym (insert_same db _ e.expanded_dbs) ∙ q), t)
          ((any-requests false e (wanted nt db) (wanted nt db) rs).1 (same-wanted nt db))

same-wanted_db : (nt db : String) → same (wanted nt db) list_databases ≡ false
unfolding same wanted
same-wanted_db nt db =
    if_intro (λ r. same r list_databases ≡ false) (str_eq nt "postgresql") (λ _. refl) (λ _. refl)

-- What was loaded or pending is so after any answer.
pub answered_loads :
    (nt db : String) (e : Explorer) (xs : List Request) (r : Request) (ys : List Request)
    (a : Reply)
    → (is_loaded e (wanted nt db) || any (same (wanted nt db)) (xs ++ r ∷ ys)) ≡ true
    → (is_loaded (answered r a e) (wanted nt db) || any (same (wanted nt db)) (xs ++ ys)) ≡ true
answered_loads nt db e xs r ys a h = ground (
  arith,
  any-append (same (wanted nt db)) xs (r ∷ ys),
  any-append (same (wanted nt db)) xs ys,
  is_loaded-answered (wanted nt db) r a e,
  is_loaded-same (wanted nt db) r a e,
  same-wanted_db nt db,
  h,
)
