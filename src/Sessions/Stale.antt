-- ===== src/Sessions/Stale.antt =====
-- What a handler does whose closure is older than the state: `confirmDeleteConnection`, which
-- awaits two calls of the backend, and two `handleCloseTab` of one render.
use condui.Prelude.{
  subst, Bool-cases, inl, inr, String, Bool, true, false, not, Option, none, some, List, [], ◌∷◌,
  ◌≡◌, ◌≢◌, refl, arith, eq_iff, eq_refl, if◌then◌else◌, filter, Distinct-filter,
}
use condui.ConnectionForm.{Protocol}
use condui.Sessions.{
  Tab, App, Seen, Session, Connection, connected, now, is_some_id, has_tab, find_tab, first_id,
  close_answer, open_answer, drop_session, show_tab, stop_connecting, tab_of,
}
use condui.Sessions.Valid.{IsValid, has_tab-first, has_tab-without}
use condui.Sessions.Open.{IsFresh}

-- `activeTabData?.connectionId === deleteTarget.id`
abbrev pub shows : Option Tab → String → Bool
shows none target = false
shows (some t) target = is_some_id t.connection_id target

unfoldable pub active_tab : Seen → Option Tab
active_tab seen = elim seen.active [ none ↦ none | some k ↦ find_tab k seen.tabs ]

abbrev pub of_others : String → List Tab → List Tab
of_others target ts = filter (λ t. not (is_some_id t.connection_id target)) ts

-- `confirmDeleteConnection` after the backend deleted the connection
pub delete_answer : Seen → String → App → App
unfolding active_tab
delete_answer seen target s = record s {
  tabs = of_others target seen.tabs;
  active =
      if shows (active_tab seen) target then first_id (of_others target seen.tabs) else s.active;
}

find_tab-others :
    (k target : String) (ts : List Tab)
    → has_tab k ts ≡ true
    → shows (find_tab k ts) target ≡ false
    → has_tab k (of_others target ts) ≡ true
find_tab-others k target [] h n = cc
find_tab-others k target (t ∷ ts) h n = ground (arith, find_tab-others k target ts, eq_iff t.id k)

has_tab-others :
    (k target : String) (ts : List Tab)
    → has_tab k ts ≡ false
    → has_tab k (of_others target ts) ≡ false
has_tab-others k target [] h = refl
has_tab-others k target (t ∷ ts) h = ground (arith, has_tab-others k target ts, eq_iff t.id k)

-- When no handler ran since the render, deleting a connection keeps the invariant and closes the
-- tabs of that connection only.
pub delete_answer-IsValid :
    (target : String) {s : App} → IsValid s → IsValid (delete_answer (now s) target s)
unfolding delete_answer active_tab
delete_answer-IsValid target {s} v = record {
  ids = Distinct-filter _ _ s.tabs v.ids;
  active = λ k e. kept s.active v.active k e;
  routed = v.routed;
  one_visible = v.one_visible;
}
  where
    kept :
        (a : Option String)
        → ((k : String) → a ≡ some k → has_tab k s.tabs ≡ true)
        → (k : String)
        → (if shows (active_tab (record { tabs = s.tabs; active = a })) target
            then first_id (of_others target s.tabs)
            else a)
          ≡ some k
        → has_tab k (of_others target s.tabs) ≡ true
    kept none h k e = cc
    kept (some i) h k e = elim (Bool-cases (shows (find_tab i s.tabs) target)) [
      | inl y ↦ has_tab-first (of_others target s.tabs) k (rw y at e)
      | inr n ↦
          let q : some i ≡ some k = rw n at e in
          let w : i ≡ k = cc in
          subst (λ j. has_tab j (of_others target s.tabs) ≡ true) w
            (find_tab-others i target s.tabs (h i refl) n)
    ]

-- Two tabs are closed from one render, the first tab of the list, which is active, and the tab
-- after it, and the backend answers for the second tab first: then the second tab is active and
-- is not open.
pub close_answer-stale :
    (a b : Tab) (rest : List Tab) (s : App)
    → s.tabs ≡ a ∷ b ∷ rest
    → s.active ≡ some a.id
    → a.id ≢ b.id
    → let r = close_answer (now s) a.id (close_answer (now s) b.id s) in
      (r.active ≡ some b.id) × (has_tab b.id r.tabs ≡ false)
unfolding close_answer drop_session
close_answer-stale a b rest s q act n = (
  rw (q, act, eq_refl) (ground (arith, eq_iff b.id a.id, eq_refl a.id)),
  rw (has_tab-without, has_tab-without, eq_refl) (ground (arith, eq_iff a.id b.id)),
)

-- A session that opens while the deletion of a connection is awaited is lost: its tab is not open
-- afterwards, though it is the active one unless the render showed the deleted connection.
pub delete_answer-stale :
    (c : Connection) (p : Protocol) (x : Session) (target : String) (s : App)
    → IsFresh x.id s
    → shows (active_tab (now s)) target ≡ false
    → let r = delete_answer (now s) target (open_answer false (now s) c p (connected x) s) in
      (r.active ≡ some x.id) × (has_tab x.id r.tabs ≡ false)
unfolding delete_answer open_answer show_tab stop_connecting tab_of
delete_answer-stale c p x target s fresh h = (rw h refl, has_tab-others x.id target s.tabs fresh)
