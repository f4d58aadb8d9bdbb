-- ===== src/Sessions/Tests.antt =====
-- Runs of the session handlers, and the theorems at concrete states.
use mathlib.Core.Bool.{false≢true}
use condui.Prelude.{
  subst, arith, String, true, false, none, some, [], ◌∷◌, ◌≡◌, ◌≢◌, refl, eq_iff, lookup,
}
use condui.ConnectionForm.{is_desktop, ssh, vnc}
use condui.Window
use condui.Sessions.{
  remote, Tab, Session, Connection, Entry, App, connected, now, has_tab, find_tab, close_tab,
  close_answer, open_answer, close_vnc, close_session,
}
use condui.Sessions.Valid.{IsValid}
use condui.Sessions.Close.{close_answer-IsValid}
use condui.Sessions.Open.{IsFresh, open_answer-IsValid}
use condui.Sessions.Attach.{is_desktop_tab}
use condui.Sessions.Reconnect.{reconnect_answer, reconnect_answer-IsValid}
use condui.Sessions.Stale.{close_answer-stale}

abbrev shell_tab : Tab
shell_tab = record {
  id = "s1";
  kind = remote ssh;
  connection_id = some "c1";
  title = "db";
  home_path = some "/root";
  url = none;
  token = none;
  disconnected = false;
}

abbrev screen_tab : Tab
screen_tab = record shell_tab { id = "s2"; kind = remote vnc; connection_id = some "c2" }

abbrev terminal : Entry
terminal = record { session_id = "s1"; visible = true }

abbrev two_tabs : App
two_tabs = record {
  tabs = shell_tab ∷ screen_tab ∷ [];
  active = some "s1";
  paths = ("s1", "/srv") ∷ [];
  terminals = ("s1", terminal) ∷ [];
  attached = some "s1";
  connecting = [];
  choice = none;
  error = none;
  calls = [];
  windows = Window.init;
}

abbrev session : Session
session = record { id = "s3"; protocol = ssh; home_path = some "/root"; url = none; token = none }

abbrev server : Connection
server = record {
  id = "c1";
  name = "db";
  access = record {
    ssh_enabled = none;
    protocol = none;
    vnc = none;
    websocket = none;
    novnc = none;
    rdp = none;
  };
}

two_tabs-IsValid : IsValid two_tabs
unfolding lookup
two_tabs-IsValid = record {
  ids = (((λ e. ground (arith, eq_iff "s1" "s2")), tt), (tt, tt));
  active = λ k e. ground (arith, eq_iff "s1" k);
  routed = λ k e l. ground (arith, eq_iff "s1" k);
  one_visible = λ k e l w. ground (arith, eq_iff "s1" k);
}

-- The active tab is closed, and the first one that is left becomes active.
closed_first :
    ((close_tab "s1" two_tabs).active ≡ some "s2")
    × ((close_tab "s2" two_tabs).calls ≡ close_vnc "s2" ∷ [])
unfolding close_tab
closed_first = (refl, refl)

-- On a phone the session that opens is the only one.
opened_on_phone :
    (open_answer true (now two_tabs) server ssh (connected session) two_tabs).calls
    ≡ close_session "s1" ∷ close_vnc "s2" ∷ []
unfolding open_answer
opened_on_phone = refl

close_answer-IsValid_example : IsValid (close_answer (now two_tabs) "s1" two_tabs)
close_answer-IsValid_example = close_answer-IsValid "s1" two_tabs-IsValid (now two_tabs) refl refl

IsFresh-new : IsFresh "s3" two_tabs
IsFresh-new = refl

IsFresh-session : (x : Session) → connected session ≡ connected x → IsFresh x.id two_tabs
IsFresh-session x e = let q : session.id ≡ x.id = cc in subst (λ j. IsFresh j two_tabs) q refl

open_answer-IsValid_example :
    IsValid (open_answer true (now two_tabs) server ssh (connected session) two_tabs)
open_answer-IsValid_example =
    open_answer-IsValid true (now two_tabs) server ssh (connected session) IsFresh-session
      two_tabs-IsValid

no_screen :
    (k : String)
    → some "s1" ≡ some k
    → is_desktop_tab (find_tab k two_tabs.tabs) ≡ true
    → two_tabs.attached ≢ some k
unfolding is_desktop_tab is_desktop
no_screen k e =
    let q : "s1" ≡ k = cc in
    subst (λ j. is_desktop_tab (find_tab j two_tabs.tabs) ≡ true → two_tabs.attached ≢ some j) q
      (λ h. absurd (false≢true h))

reconnect_answer-IsValid_example :
    IsValid (reconnect_answer shell_tab "c1" ssh (connected session) two_tabs)
    × ((x : Session) (e : Entry)
        → connected session ≡ connected x
        → x.protocol ≡ ssh
        → lookup "s1" two_tabs.terminals ≡ some e
        → let r = reconnect_answer shell_tab "c1" ssh (connected session) two_tabs in
          (lookup x.id r.terminals ≡ some (record e { session_id = x.id }))
          × (lookup "s1" r.terminals ≡ none)
          × (two_tabs.attached ≡ some "s1" → r.attached ≡ some x.id)
          × (r.active ≡ some x.id))
reconnect_answer-IsValid_example =
    reconnect_answer-IsValid shell_tab "c1" ssh (connected session) refl IsFresh-session
      two_tabs-IsValid

other_id : shell_tab.id ≢ screen_tab.id
other_id e = ground (arith, eq_iff "s1" "s2")

close_answer-stale_example :
    let r = close_answer (now two_tabs) "s1" (close_answer (now two_tabs) "s2" two_tabs) in
    (r.active ≡ some "s2") × (has_tab "s2" r.tabs ≡ false)
close_answer-stale_example = close_answer-stale shell_tab screen_tab [] two_tabs refl refl other_id

other_session : shell_tab.id ≢ session.id
other_session e = ground (arith, eq_iff "s1" "s3")
