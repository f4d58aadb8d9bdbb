-- ===== src/Sessions/Open.antt =====
-- Opening sessions.
use condui.Prelude.{
  String, Bool, true, false, some, List, [], ◌∷◌, ◌++◌, map, ◌≡◌, ◌≢◌, refl, ap, sym, ◌∙◌, arith,
  eq_iff, if◌then◌else◌, any-append, All, Distinct, Distinct-concat, append_assoc, append-nil,
}
use condui.ConnectionForm.{Protocol, has_access, connection_key}
use condui.Sessions.{
  Tab, App, Seen, Session, Connection, Answer, connected, failed, now, has_tab, without,
  drop_session, close_call, close_each, close_others, show_tab, add_tab, open_answer, report,
  is_cancel, tab_of, connect_session, stop_connecting,
}
use condui.Sessions.Valid.{IsValid, TerminalsAreValid, drop_session-terminals}

-- No tab of the list has the id.
abbrev pub IsFresh : String → App → Type 0
IsFresh k s = has_tab k s.tabs ≡ false

All-fresh : (k : String) (ts : List Tab) → has_tab k ts ≡ false → All (λ (t : Tab). t.id ≢ k) ts
All-fresh k [] h = tt
All-fresh k (t ∷ ts) h = (λ e. ground (arith, eq_iff t.id k), All-fresh k ts (ground arith))

drop_session_frame :
    (k : String) (s : App)
    → ((drop_session k s).tabs ≡ s.tabs) × ((drop_session k s).calls ≡ s.calls)
unfolding drop_session
drop_session_frame k s = (refl, refl)

close_each_frame :
    (ts : List Tab) (s : App)
    → ((close_each ts s).tabs ≡ s.tabs)
      × ((close_each ts s).calls ≡ s.calls ++ map (λ (t : Tab). close_call (some t) t.id) ts)
      × (TerminalsAreValid s.terminals s.attached
          → TerminalsAreValid (close_each ts s).terminals (close_each ts s).attached)
unfolding close_each
close_each_frame [] s = (refl, sym (append-nil s.calls), λ v. v)
close_each_frame (t ∷ ts) s =
    let s' : App = record s { calls = s.calls ++ close_call (some t) t.id ∷ [] } in
    let (same, called, valid) = close_each_frame ts (drop_session t.id s') in
    (
      same ∙ (drop_session_frame t.id s').0,
      called
          ∙ ap (◌++ map (λ (u : Tab). close_call (some u) u.id) ts) (drop_session_frame t.id s').1
          ∙ append_assoc s.calls _ _,
      λ v. valid (drop_session-terminals t.id s' v),
    )

close_others_frame :
    (phone : Bool) (seen : Seen) (keep : String) (s : App)
    → ((close_others phone seen keep s).tabs ≡ s.tabs)
      × ((close_others phone seen keep s).calls
          ≡ s.calls
            ++ (if phone
                then map (λ (t : Tab). close_call (some t) t.id) (without keep seen.tabs)
                else []))
      × (TerminalsAreValid s.terminals s.attached
          → TerminalsAreValid
              (close_others phone seen keep s).terminals
              (close_others phone seen keep s).attached)
unfolding close_others
close_others_frame true seen keep s = close_each_frame (without keep seen.tabs) s
close_others_frame false seen keep s = (refl, sym (append-nil s.calls), λ v. v)

show_tab-IsValid :
    (phone : Bool) (seen : Seen) (tab : Tab) {s : App}
    → IsFresh tab.id s
    → IsValid s
    → IsValid (show_tab phone seen tab s)
unfolding show_tab
show_tab-IsValid phone seen tab {s} fresh v =
    let (same, called, keeps) = close_others_frame phone seen tab.id s in
    let t = keeps (record { routed = v.routed; one_visible = v.one_visible }) in
    record {
      ids = rw same (tabs_ids phone);
      active = λ k e. rw same (tabs_active phone k (cc));
      routed = t.routed;
      one_visible = t.one_visible;
    }
  where
    tabs_ids : (phone : Bool) → Distinct (λ (t : Tab). t.id) (add_tab phone s.tabs tab)
    tabs_ids true = (tt, tt)
    tabs_ids false = Distinct-concat _ s.tabs tab v.ids (All-fresh tab.id s.tabs fresh)

    tabs_active :
        (phone : Bool) (k : String) → tab.id ≡ k → has_tab k (add_tab phone s.tabs tab) ≡ true
    tabs_active true k e = ground (arith, eq_iff tab.id k)
    tabs_active false k e = rw any-append (ground (arith, eq_iff tab.id k))

-- Whatever the backend answers to a connect call, and whatever happened while it was awaited, the
-- invariant is kept, provided that a new session has an id that no tab has.
pub open_answer-IsValid :
    (phone : Bool) (seen : Seen) (c : Connection) (p : Protocol) (a : Answer) {s : App}
    → ((x : Session) → a ≡ connected x → IsFresh x.id s)
    → IsValid s
    → IsValid (open_answer phone seen c p a s)
unfolding open_answer report stop_connecting tab_of
open_answer-IsValid phone seen c p (connected x) {s} fresh v =
    let w = show_tab-IsValid phone seen (tab_of x (some c.id) c.name) {s = s} (fresh x refl) v in
    record { ids = w.ids; active = w.active; routed = w.routed; one_visible = w.one_visible }
open_answer-IsValid phone seen c p (failed m) {s} fresh v = on (is_cancel m)
  where
    on :
        (b : Bool)
        → IsValid
            (stop_connecting (connection_key c.id p) (if b then s else record s { error = some m }))
    on true = record {
      ids = v.ids;
      active = v.active;
      routed = v.routed;
      one_visible = v.one_visible;
    }
    on false = record {
      ids = v.ids;
      active = v.active;
      routed = v.routed;
      one_visible = v.one_visible;
    }

-- On a phone a session that opens becomes the only tab, and the backend is told to close the
-- session of every other tab, in order; elsewhere nothing is closed and the tab is the last one.
pub open_answer-connected :
    (phone : Bool) (c : Connection) (p : Protocol) (x : Session) (s : App)
    → ((open_answer phone (now s) c p (connected x) s).tabs
        ≡ add_tab phone s.tabs (tab_of x (some c.id) c.name))
      × ((open_answer phone (now s) c p (connected x) s).active ≡ some x.id)
      × ((open_answer phone (now s) c p (connected x) s).calls
          ≡ s.calls
            ++ (if phone
                then map (λ (t : Tab). close_call (some t) t.id) (without x.id s.tabs)
                else []))
unfolding open_answer show_tab stop_connecting tab_of
open_answer-connected phone c p x s =
    let (same, called, _) = close_others_frame phone (now s) x.id s in (rw same refl, refl, called)

-- A connect call of a connection that lacks the protocol is refused whatever the backend would
-- answer. A failure opens nothing and closes nothing: the tabs, the active one, the terminals and
-- the backend's calls stay, and its message is shown unless it tells of a cancellation.
pub open_answer-failed :
    (phone : Bool) (seen : Seen) (c : Connection) (p : Protocol) (unavailable m : String)
    (a : Answer) (s : App)
    → (has_access c.access p ≡ false → connect_session unavailable c p a ≡ failed unavailable)
      × ((open_answer phone seen c p (failed m) s).tabs ≡ s.tabs)
      × ((open_answer phone seen c p (failed m) s).active ≡ s.active)
      × ((open_answer phone seen c p (failed m) s).terminals ≡ s.terminals)
      × ((open_answer phone seen c p (failed m) s).calls ≡ s.calls)
      × ((open_answer phone seen c p (failed m) s).error
          ≡ (if is_cancel m then s.error else some m))
unfolding open_answer report stop_connecting connect_session
open_answer-failed phone seen c p unavailable m a s =
    (λ h. rw h refl, ground arith, ground arith, ground arith, ground arith, ground arith)
