-- ===== src/Panel/Fetch.antt =====
-- What the panel loads: the effect that starts a tab's requests, and the answers of the backend.
pub mod Latest
use condui.Prelude.{
  ℕ, String, Bool, true, false, Option, none, some, List, [], ◌∷◌, ◌≡◌, ◌≢◌, refl, str_eq,
  str_append, if◌then◌else◌, if_intro, Dict, insert,
}
use condui.Prelude.Text.{codes, includes_text}
use condui.Panel.Tabs.{TabId, transfers, tunnels, ports, docker, virtualbox, databases}

-- A list as the backend answered it: `owner` is the session that was asked about, and a list that
-- was cleared has none.
pub record Listing : Type 0 where
  pub owner : Option String
  pub items : List String

abbrev pub nothing : Listing
nothing = record { owner = none; items = [] }

pub data Request : Type 0 where
  get_tunnels get_containers get_stats get_ports get_databases get_vms : Request

-- `busy` is the machine and action that is on its way, `sudo` the dialog for a password.
pub record Panel : Type 0 where
  pub containers : Listing
  pub ports : Listing
  pub databases : Listing
  pub vms : Listing
  pub stats : Dict String
  pub vbox_error : Option String
  pub sudo : Bool
  pub busy : Option String

-- the requests that the effect sends for a tab
pub first_requests : TabId → List Request
first_requests transfers = []
first_requests tunnels = get_tunnels ∷ []
first_requests ports = get_ports ∷ []
first_requests docker = get_containers ∷ get_stats ∷ []
first_requests virtualbox = get_vms ∷ []
first_requests databases = get_databases ∷ []

-- those that it repeats, with the milliseconds in between
pub intervals : TabId → List (Request × ℕ)
intervals transfers = []
intervals tunnels = []
intervals ports = (get_ports, 5000) ∷ []
intervals docker = (get_containers, 4000) ∷ (get_stats, 3000) ∷ []
intervals virtualbox = (get_vms, 8000) ∷ []
intervals databases = (get_databases, 10000) ∷ []

pub clear : Panel → Panel
clear p = record p {
  containers = nothing;
  ports = nothing;
  databases = nothing;
  vms = nothing;
  stats = [];
  vbox_error = none;
}

-- The effect: what is shown afterwards, what is asked for and what is repeated. Without a session,
-- or for a collapsed panel, it does nothing.
pub show_tab : Option String → Bool → TabId → Panel → Panel × List Request × List (Request × ℕ)
unfolding clear first_requests intervals
show_tab none collapsed tab p = (p, [], [])
show_tab (some session) collapsed tab p =
    if collapsed then (p, [], []) else (clear p, first_requests tab, intervals tab)

-- `none` is an answer without a value
pub data Answer : Type 0 where
  listed : Option (List String) → Answer
  failed : String → Answer

or_empty : Option (List String) → List String
or_empty none = []
or_empty (some items) = items

wants_sudo : String → Bool
wants_sudo m = includes_text (codes "SUDO_PASSWORD_REQUIRED") (codes m)

-- `dockerStats` by id; here an answer lists the ids, each with its own statistics
index_by_id : List String → Dict String → Dict String
index_by_id [] m = m
index_by_id (s ∷ ss) m = index_by_id ss (insert s s m)

set_stats : Option (List String) → Panel → Panel
unfolding index_by_id
set_stats none p = p
set_stats (some items) p = record p { stats = index_by_id items [] }

-- `fetchContainers`, `fetchStats`, `fetchPorts`, `fetchDatabases` and `fetchVMs` after the await of
-- a request about a session
pub receive : String → Request → Answer → Panel → Panel
unfolding or_empty wants_sudo set_stats
receive s get_tunnels a p = p
receive s get_containers (listed items) p = record p {
  containers = record { owner = some s; items = or_empty items };
}
receive s get_containers (failed m) p = if wants_sudo m then record p { sudo = true } else p
receive s get_stats (listed items) p = set_stats items p
receive s get_stats (failed m) p = p
receive s get_ports (listed items) p = record p {
  ports = record { owner = some s; items = or_empty items };
}
receive s get_ports (failed m) p = p
receive s get_databases (listed items) p = record p {
  databases = record { owner = some s; items = or_empty items };
}
receive s get_databases (failed m) p = p
receive s get_vms (listed items) p = record p {
  vms = record { owner = some s; items = or_empty items };
  vbox_error = none;
}
receive s get_vms (failed m) p = record p { vms = nothing; vbox_error = some m }

-- `handleToggleContainer`, `handleRestartContainer`: the action that the backend is asked for
abbrev pub toggle_action : String → String
toggle_action state = if str_eq state "running" then "stop" else "start"

-- `handleVMAction` up to its await, and at its end
pub start_vm_action : String → String → Panel → Panel
start_vm_action vm action p = record p { busy = some (str_append vm (str_append ":" action)) }

pub end_vm_action : Panel → Panel
end_vm_action p = record p { busy = none }

-- `handleSudoPasswordSubmit` after the password was set: what is asked for again
pub submit_sudo : Panel → Panel × List Request
submit_sudo p = (record p { sudo = false }, get_containers ∷ [])

-- What the panel does while one session is shown.
pub data Step (s : String) : Panel → Panel → Type 0 where
  receives : {p : Panel} (r : Request) (a : Answer) → Step s p (receive s r a p)
  shows :
      {p : Panel} (collapsed : Bool) (tab : TabId) → Step s p (show_tab (some s) collapsed tab p).0
  starts : {p : Panel} (vm action : String) → Step s p (start_vm_action vm action p)
  ends : {p : Panel} → Step s p (end_vm_action p)
  submits : {p : Panel} → Step s p (submit_sudo p).0

pub data Reach (s : String) (p : Panel) : Panel → Type 0 where
  here : Reach s p p
  next : {q r : Panel} → Reach s p q → Step s q r → Reach s p r

-- a list of the session, or one that was cleared
abbrev pub IsOf : String → Listing → Type 0
IsOf s l = (o : String) → l.owner ≡ some o → o ≡ s

-- Every list is of the session, and no machine is listed beside an error.
pub record IsShown (s : String) (p : Panel) : Type 0 where
  pub containers : IsOf s p.containers
  pub ports : IsOf s p.ports
  pub databases : IsOf s p.databases
  pub vms : IsOf s p.vms
  pub no_vms : (m : String) → p.vbox_error ≡ some m → p.vms ≡ nothing

clear-IsShown : (s : String) (p : Panel) → IsShown s (clear p)
unfolding clear
clear-IsShown s p = record {
  containers = λ o e. cc;
  ports = λ o e. cc;
  databases = λ o e. cc;
  vms = λ o e. cc;
  no_vms = λ m e. cc;
}

IsOf-session :
    (s : String) (items : List String) → IsOf s (record { owner = some s; items = items })
IsOf-session s items = λ o e. cc

receive-IsShown :
    (s : String) (r : Request) (a : Answer) {p : Panel} → IsShown s p → IsShown s (receive s r a p)
unfolding receive
receive-IsShown s get_tunnels a v = v
receive-IsShown s get_containers (listed items) v = record {
  containers = λ o e. cc;
  ports = v.ports;
  databases = v.databases;
  vms = v.vms;
  no_vms = v.no_vms;
}
receive-IsShown s get_containers (failed m) v =
    if_intro (IsShown s) (wants_sudo m)
      (λ _. record {
        containers = v.containers;
        ports = v.ports;
        databases = v.databases;
        vms = v.vms;
        no_vms = v.no_vms;
      })
      (λ _. v)
receive-IsShown s get_stats (listed none) v = v
receive-IsShown s get_stats (listed (some items)) v = record {
  containers = v.containers;
  ports = v.ports;
  databases = v.databases;
  vms = v.vms;
  no_vms = v.no_vms;
}
receive-IsShown s get_stats (failed m) v = v
receive-IsShown s get_ports (listed items) v = record {
  containers = v.containers;
  ports = λ o e. cc;
  databases = v.databases;
  vms = v.vms;
  no_vms = v.no_vms;
}
receive-IsShown s get_ports (failed m) v = v
receive-IsShown s get_databases (listed items) v = record {
  containers = v.containers;
  ports = v.ports;
  databases = λ o e. cc;
  vms = v.vms;
  no_vms = v.no_vms;
}
receive-IsShown s get_databases (failed m) v = v
receive-IsShown s get_vms (listed items) v = record {
  containers = v.containers;
  ports = v.ports;
  databases = v.databases;
  vms = λ o e. cc;
  no_vms = λ m e. cc;
}
receive-IsShown s get_vms (failed m) v = record {
  containers = v.containers;
  ports = v.ports;
  databases = v.databases;
  vms = λ o e. cc;
  no_vms = λ m e. refl;
}

Step-IsShown : {s : String} {p q : Panel} → Step s p q → IsShown s p → IsShown s q
unfolding show_tab start_vm_action end_vm_action submit_sudo
Step-IsShown {s} (receives r a) v = receive-IsShown s r a v
Step-IsShown {s} {p} (shows collapsed tab) v =
    if_intro (λ (r : Panel × List Request × List (Request × ℕ)). IsShown s r.0) collapsed (λ _. v)
      (λ _. clear-IsShown s p)
Step-IsShown (starts vm action) v = record {
  containers = v.containers;
  ports = v.ports;
  databases = v.databases;
  vms = v.vms;
  no_vms = v.no_vms;
}
Step-IsShown ends v = record {
  containers = v.containers;
  ports = v.ports;
  databases = v.databases;
  vms = v.vms;
  no_vms = v.no_vms;
}
Step-IsShown submits v = record {
  containers = v.containers;
  ports = v.ports;
  databases = v.databases;
  vms = v.vms;
  no_vms = v.no_vms;
}

-- While one session is shown, and every answer is about that session, the lists of containers,
-- ports, databases and machines are those of the session or empty, whatever is answered and in
-- whatever order, and no machine is listed beside an error.
pub Reach-IsShown : {s : String} {p q : Panel} → IsShown s p → Reach s p q → IsShown s q
Reach-IsShown v here = v
Reach-IsShown v (next r st) = Step-IsShown st (Reach-IsShown v r)

-- An answer about the session that was shown before is taken all the same: after another session
-- is shown in an open panel, a late answer lists the containers of the old one.
pub receive-stale :
    (old new : String) (tab : TabId) (items : List String) (p : Panel)
    → old ≢ new
    → let q =
        receive old get_containers (listed (some items)) (show_tab (some new) false tab p).0 in
      (q.containers ≡ record { owner = some old; items = items }) × ¬ IsShown new q
unfolding receive show_tab
receive-stale old new tab items p n = (refl, λ v. n (v.containers old refl))
