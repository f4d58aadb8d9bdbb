-- ===== src/Sessions.antt =====
-- ssh-gui/frontend/src/App.jsx: the tabs of the open sessions, their terminals and file-tree
-- paths, and the handlers that open, close, reconnect and delete. A handler that awaits the
-- backend is two functions, one for each side of the await; `Seen` is what its closure captured.
pub mod Valid
pub mod Close
pub mod Open
pub mod Reconnect
pub mod Attach
pub mod Stale
pub mod Connecting
mod Tests
use condui.Prelude.{
  ℕ, zero, suc, ◌+◌, ◌-◌, String, Bool, true, false, not, ◌&&◌, ◌||◌, Option, none, some, List, [],
  ◌∷◌, ◌++◌, map, str_eq, str_append, if◌then◌else◌, length, filter, find, any, Dict, lookup,
  insert, erase,
}
use condui.Prelude.Text.{codes, lower, includes_text}
use condui.ConnectionForm.{
  Protocol, ssh, vnc, novnc, rdp, protocols, name_of, Access, has_access, is_desktop,
  connection_key,
}
use condui.Window

pub data Kind : Type 0 where
  shell : Kind
  remote : Protocol → Kind

pub record Tab : Type 0 where
  pub id : String
  pub kind : Kind
  pub connection_id : Option String
  pub title : String
  pub home_path : Option String
  pub url : Option String
  pub token : Option String
  pub disconnected : Bool

-- what `connectSession` returns
pub record Session : Type 0 where
  pub id : String
  pub protocol : Protocol
  pub home_path : Option String
  pub url : Option String
  pub token : Option String

pub record Connection : Type 0 where
  pub id : String
  pub name : String
  pub access : Access

-- An entry of `terminalsRef`: `visible` says that its container stands in the visible terminal
-- area and not in the holding area.
pub record Entry : Type 0 where
  pub session_id : String
  pub visible : Bool

-- the calls to the backend that close or resize a session
pub data Call : Type 0 where
  close_rdp close_vnc close_session resize : String → Call

pub record Choice : Type 0 where
  pub connection : Connection
  pub protocol : Protocol
  pub session : Tab

pub record App : Type 0 where
  pub tabs : List Tab
  pub active : Option String
  pub paths : Dict String
  pub terminals : Dict Entry
  pub attached : Option String
  pub connecting : Dict ℕ
  pub choice : Option Choice
  pub error : Option String
  pub calls : List Call
  pub windows : Window.Store

-- the state of the render that made a handler
pub record Seen : Type 0 where
  pub tabs : List Tab
  pub active : Option String

abbrev pub now : App → Seen
now s = record { tabs = s.tabs; active = s.active }

abbrev pub is_some_id : Option String → String → Bool
is_some_id none k = false
is_some_id (some i) k = str_eq i k

abbrev pub has_tab : String → List Tab → Bool
has_tab k ts = any (λ t. str_eq t.id k) ts

abbrev pub find_tab : String → List Tab → Option Tab
find_tab k ts = find (λ t. str_eq t.id k) ts

abbrev pub without : String → List Tab → List Tab
without k ts = filter (λ t. not (str_eq t.id k)) ts

-- `remaining.length ? remaining[0].id : null`
abbrev pub first_id : List Tab → Option String
first_id [] = none
first_id (t ∷ _) = some t.id

-- The type of the tab decides how its session is closed.
pub close_call : Option Tab → String → Call
close_call none k = close_session k
close_call (some t) k = elim t.kind [
  | shell ↦ close_session k
  | remote p ↦ elim p [
    | ssh ↦ close_session k
    | vnc ↦ close_vnc k
    | novnc ↦ close_vnc k
    | rdp ↦ close_rdp k
  ]
]

-- What `handleCloseTab` and `closeOtherSessionsOnPhone` share: the terminal is disposed of, its
-- container leaves the page, and the session's path is forgotten.
pub drop_session : String → App → App
drop_session k s = record s {
  terminals = erase k s.terminals;
  attached = if is_some_id s.attached k then none else s.attached;
  paths = erase k s.paths;
}

-- `handleCloseTab` up to the answer of the backend, whose failure is only logged, and after it
pub close_request : Seen → String → App → App
unfolding close_call
close_request seen k s = record s { calls = s.calls ++ close_call (find_tab k seen.tabs) k ∷ [] }

pub close_answer : Seen → String → App → App
unfolding drop_session
close_answer seen k s =
    let d = drop_session k s in
    record d {
      windows = Window.close_session k s.windows;
      tabs = without k s.tabs;
      active = if is_some_id seen.active k then first_id (without k seen.tabs) else s.active;
    }

-- `handleCloseTab` with nothing in between
pub close_tab : String → App → App
unfolding close_request close_answer
close_tab k s = close_answer (now s) k (close_request (now s) k s)

-- `closeOtherSessionsOnPhone`, over the tabs that the handler captured
close_each : List Tab → App → App
unfolding close_call drop_session
close_each [] s = s
close_each (old ∷ rest) s =
    close_each rest
      (drop_session old.id (record s { calls = s.calls ++ close_call (some old) old.id ∷ [] }))

pub close_others : Bool → Seen → String → App → App
unfolding close_each
close_others phone seen keep s = if phone then close_each (without keep seen.tabs) s else s

abbrev pub add_tab : Bool → List Tab → Tab → List Tab
add_tab phone prev tab = if phone then tab ∷ [] else prev ++ tab ∷ []

-- `updateConnecting`
count_of : Option ℕ → ℕ
count_of none = 0
count_of (some n) = n

set_count : String → ℕ → Dict ℕ → Dict ℕ
set_count k zero m = erase k m
set_count k (suc n) m = insert k (suc n) m

pub update_connecting : String → Bool → Dict ℕ → Dict ℕ
unfolding count_of set_count
update_connecting k true m = set_count k (count_of (lookup k m) + 1) m
update_connecting k false m = set_count k (count_of (lookup k m) - 1) m

-- `/cancel/i.test(message)`
pub is_cancel : String → Bool
is_cancel m = includes_text (codes "cancel") (map lower (codes m))

-- the answer of the backend to a connect call
pub data Answer : Type 0 where
  connected : Session → Answer
  failed : String → Answer

-- `connectSession` throws before any call when the connection lacks the protocol.
pub connect_session : String → Connection → Protocol → Answer → Answer
connect_session unavailable c p answer =
    if has_access c.access p then answer else failed unavailable

pub tab_of : Session → Option String → String → Tab
tab_of session connection_id title = record {
  id = session.id;
  kind = remote session.protocol;
  connection_id = connection_id;
  title = title;
  home_path = session.home_path;
  url = session.url;
  token = session.token;
  disconnected = false;
}

abbrev is_protocol : Kind → Protocol → Bool
is_protocol shell p = str_eq "local" (name_of p)
is_protocol (remote q) p = str_eq (name_of q) (name_of p)

pub session_of : Connection → Protocol → List Tab → Option Tab
session_of c p ts = find (λ t. is_some_id t.connection_id c.id && is_protocol t.kind p) ts

-- What the first part of `handleOpenConnection` ends in: it is done, or it waits for the backend.
pub data Request : Type 0 where
  done : App → Request
  waits : App → Request

pub start_connecting : String → App → App
start_connecting k s = record s { connecting = update_connecting k true s.connecting }

open_found : Bool → Bool → Option Tab → Connection → Protocol → App → Request
unfolding start_connecting
open_found phone force none c p s = waits (start_connecting (connection_key c.id p) s)
open_found true force (some t) c p s = done (record s { active = some t.id })
open_found false true (some t) c p s = waits (start_connecting (connection_key c.id p) s)
open_found false false (some t) c p s =
    done (record s { choice = some (record { connection = c; protocol = p; session = t }) })

pub open_request : Bool → Seen → Connection → Bool → Protocol → App → Request
unfolding open_found session_of
open_request phone seen c force p s = open_found phone force (session_of c p seen.tabs) c p s

-- a new tab is shown, after the others are closed on a phone
pub show_tab : Bool → Seen → Tab → App → App
unfolding close_others
show_tab phone seen tab s =
    let d = close_others phone seen tab.id s in
    record d { tabs = add_tab phone d.tabs tab; active = some tab.id }

pub report : String → App → App
unfolding is_cancel
report m s = if is_cancel m then s else record s { error = some m }

-- `finally`
pub stop_connecting : String → App → App
stop_connecting k s = record s { connecting = update_connecting k false s.connecting }

pub open_answer : Bool → Seen → Connection → Protocol → Answer → App → App
unfolding show_tab report stop_connecting tab_of
open_answer phone seen c p (connected session) s =
    stop_connecting (connection_key c.id p)
      (show_tab phone seen (tab_of session (some c.id) c.name) s)
open_answer phone seen c p (failed m) s = stop_connecting (connection_key c.id p) (report m s)

-- `handleConnectVia`, after the await
pub via_answer : Bool → Seen → Connection → Connection → Answer → App → App
unfolding show_tab report stop_connecting tab_of
via_answer phone seen c jump (connected session) s = stop_connecting (connection_key c.id ssh) (
    show_tab phone seen
      (tab_of session (some c.id) (str_append c.name (str_append " via " jump.name))) s)
via_answer phone seen c jump (failed m) s = stop_connecting (connection_key c.id ssh) (report m s)

-- `handleOpenLocalTerminal`, after the await; here a cancelled start is reported too
pub local_answer : Bool → Seen → String → Answer → App → App
unfolding show_tab stop_connecting
local_answer phone seen title (connected session) s = stop_connecting "__local" (
    show_tab phone seen
      (record {
        id = session.id;
        kind = shell;
        connection_id = none;
        title = title;
        home_path = session.home_path;
        url = none;
        token = none;
        disconnected = false;
      })
      s)
local_answer phone seen title (failed m) s = stop_connecting "__local" (record s { error = some m })
