-- ===== src/Sessions/Valid.antt =====
-- The invariant of the session state, and what dropping a session keeps of it.
use condui.Prelude.{
  String, true, false, Option, none, some, List, [], ◌∷◌, ◌≡◌, arith, str_eq, eq_iff, if◌then◌else◌,
  Distinct, Dict, lookup, erase, lookup-erase,
}
use condui.Sessions.{Tab, Entry, App, is_some_id, has_tab, without, first_id, drop_session}

-- Tabs have different ids and the active one is open. A terminal is filed under the session that
-- it serves, and the only one in the visible area is the attached one.
pub record IsValid (s : App) : Type 0 where
  pub ids : Distinct (λ (t : Tab). t.id) s.tabs
  pub active : (k : String) → s.active ≡ some k → has_tab k s.tabs ≡ true
  pub routed : (k : String) (e : Entry) → lookup k s.terminals ≡ some e → e.session_id ≡ k
  pub one_visible :
      (k : String) (e : Entry)
      → lookup k s.terminals ≡ some e
      → e.visible ≡ true
      → s.attached ≡ some k

-- The terminals' part of the invariant, on its own.
pub record TerminalsAreValid (terminals : Dict Entry) (attached : Option String) : Type 0 where
  pub routed : (k : String) (e : Entry) → lookup k terminals ≡ some e → e.session_id ≡ k
  pub one_visible :
      (k : String) (e : Entry) → lookup k terminals ≡ some e → e.visible ≡ true → attached ≡ some k

pub has_tab-without :
    (k j : String) (ts : List Tab)
    → has_tab j (without k ts) ≡ (if str_eq k j then false else has_tab j ts)
has_tab-without k j [] = ground arith
has_tab-without k j (t ∷ ts) =
    ground (arith, has_tab-without k j ts, eq_iff t.id k, eq_iff t.id j, eq_iff k j)

pub has_tab-first : (ts : List Tab) (k : String) → first_id ts ≡ some k → has_tab k ts ≡ true
has_tab-first [] k e = cc
has_tab-first (t ∷ ts) k e = ground (arith, eq_iff t.id k)

pub drop_session-terminals :
    (k : String) (s : App)
    → TerminalsAreValid s.terminals s.attached
    → TerminalsAreValid (drop_session k s).terminals (drop_session k s).attached
unfolding drop_session
drop_session-terminals k s v = record {
  routed = λ j e h. ground (arith, v.routed j e, lookup-erase k j s.terminals);
  one_visible = λ j e h w. visible j e h w;
}
  where
    visible :
        (j : String) (e : Entry)
        → lookup j (erase k s.terminals) ≡ some e
        → e.visible ≡ true
        → (if is_some_id s.attached k then none else s.attached) ≡ some j
    visible j e h w =
        ground (arith, v.one_visible j e, lookup-erase k j s.terminals, eq_iff k j, eq_iff j k)
