-- ===== src/Panel/Fetch/Latest.antt =====
-- Which answer each list of the panel shows, after any run of requests, answers and clicks.
use condui.Prelude.{
  ◌∙◌, if_intro, ap, String, Bool, true, false, Option, none, some, List, [], ◌∷◌, ◌≡◌, refl,
  if◌then◌else◌,
}
use condui.Panel.Tabs.{TabId}
use condui.Panel.Fetch.{
  wants_sudo, get_tunnels, get_stats, clear, or_empty, Panel, Request, get_containers, get_ports,
  get_databases, get_vms, Answer, listed, failed, receive, show_tab, start_vm_action, end_vm_action,
  submit_sudo, set_stats,
}

pub data Event : Type 0 where
  receives : String → Request → Answer → Event
  shows : Option String → Bool → TabId → Event
  starts : String → String → Event
  ends : Event
  submits : Event

unfoldable pub on_event : Event → Panel → Panel
on_event (receives s r a) p = receive s r a p
on_event (shows session collapsed tab) p = (show_tab session collapsed tab p).0
on_event (starts vm action) p = start_vm_action vm action p
on_event ends p = end_vm_action p
on_event submits p = (submit_sudo p).0

-- the events of a run, the newest first
unfoldable pub run : List Event → Panel → Panel
run [] p = p
run (e ∷ older) p = on_event e (run older p)

-- the lists of the panel
pub data Rows : Type 0 where
  containers ports databases vms : Rows

abbrev pub items_of : Rows → Panel → List String
items_of containers p = p.containers.items
items_of ports p = p.ports.items
items_of databases p = p.databases.items
items_of vms p = p.vms.items

abbrev pub request_of : Rows → Request → Bool
request_of containers get_containers = true
request_of ports get_ports = true
request_of databases get_databases = true
request_of vms get_vms = true
request_of _ _ = false

abbrev pub is_vms : Rows → Bool
is_vms vms = true
is_vms _ = false

-- what an answer says of a list, if anything: a failed one empties the machines only
abbrev pub said : Rows → Answer → Option (List String)
said k (listed none) = some []
said k (listed (some items)) = some items
said k (failed m) = if is_vms k then some [] else none

abbrev pub or_else : Option (List String) → List String → List String
or_else none xs = xs
or_else (some ys) xs = ys

-- what a list shows after a run: the newest answer to its request, unless the panel was opened for
-- a session or a tab since then
unfoldable pub latest : Rows → List Event → List String → List String
latest k [] start = start
latest k (receives s r a ∷ older) start =
    let before = latest k older start in
    if request_of k r then or_else (said k a) before else before
latest k (shows none collapsed tab ∷ older) start = latest k older start
latest k (shows (some s) collapsed tab ∷ older) start =
    let before = latest k older start in if collapsed then before else []
latest k (starts vm action ∷ older) start = latest k older start
latest k (ends ∷ older) start = latest k older start
latest k (submits ∷ older) start = latest k older start

same_stats :
    (k : Rows) (o : Option (List String)) (p : Panel) → items_of k (set_stats o p) ≡ items_of k p
unfolding set_stats
same_stats containers none p = refl
same_stats ports none p = refl
same_stats databases none p = refl
same_stats vms none p = refl
same_stats containers (some xs) p = refl
same_stats ports (some xs) p = refl
same_stats databases (some xs) p = refl
same_stats vms (some xs) p = refl

items-receive :
    (k : Rows) (s : String) (r : Request) (a : Answer) (p : Panel)
    → items_of k (receive s r a p)
      ≡ (if request_of k r then or_else (said k a) (items_of k p) else items_of k p)
unfolding receive or_empty
items-receive containers s get_tunnels a p = refl
items-receive containers s get_stats (listed o) p = same_stats containers o p
items-receive containers s get_stats (failed m) p = refl
items-receive containers s get_containers (listed none) p = refl
items-receive containers s get_containers (listed (some xs)) p = refl
items-receive containers s get_containers (failed m) p =
    if_intro (λ q. items_of containers q ≡ items_of containers p) (wants_sudo m) (λ _. refl)
      (λ _. refl)
items-receive containers s get_ports (listed none) p = refl
items-receive containers s get_ports (listed (some xs)) p = refl
items-receive containers s get_ports (failed m) p = refl
items-receive containers s get_databases (listed none) p = refl
items-receive containers s get_databases (listed (some xs)) p = refl
items-receive containers s get_databases (failed m) p = refl
items-receive containers s get_vms (listed none) p = refl
items-receive containers s get_vms (listed (some xs)) p = refl
items-receive containers s get_vms (failed m) p = refl
items-receive ports s get_tunnels a p = refl
items-receive ports s get_stats (listed o) p = same_stats ports o p
items-receive ports s get_stats (failed m) p = refl
items-receive ports s get_containers (listed none) p = refl
items-receive ports s get_containers (listed (some xs)) p = refl
items-receive ports s get_containers (failed m) p =
    if_intro (λ q. items_of ports q ≡ items_of ports p) (wants_sudo m) (λ _. refl) (λ _. refl)
items-receive ports s get_ports (listed none) p = refl
items-receive ports s get_ports (listed (some xs)) p = refl
items-receive ports s get_ports (failed m) p = refl
items-receive ports s get_databases (listed none) p = refl
items-receive ports s get_databases (listed (some xs)) p = refl
items-receive ports s get_databases (failed m) p = refl
items-receive ports s get_vms (listed none) p = refl
items-receive ports s get_vms (listed (some xs)) p = refl
items-receive ports s get_vms (failed m) p = refl
items-receive databases s get_tunnels a p = refl
items-receive databases s get_stats (listed o) p = same_stats databases o p
items-receive databases s get_stats (failed m) p = refl
items-receive databases s get_containers (listed none) p = refl
items-receive databases s get_containers (listed (some xs)) p = refl
items-receive databases s get_containers (failed m) p =
    if_intro (λ q. items_of databases q ≡ items_of databases p) (wants_sudo m) (λ _. refl)
      (λ _. refl)
items-receive databases s get_ports (listed none) p = refl
items-receive databases s get_ports (listed (some xs)) p = refl
items-receive databases s get_ports (failed m) p = refl
items-receive databases s get_databases (listed none) p = refl
items-receive databases s get_databases (listed (some xs)) p = refl
items-receive databases s get_databases (failed m) p = refl
items-receive databases s get_vms (listed none) p = refl
items-receive databases s get_vms (listed (some xs)) p = refl
items-receive databases s get_vms (failed m) p = refl
items-receive vms s get_tunnels a p = refl
items-receive vms s get_stats (listed o) p = same_stats vms o p
items-receive vms s get_stats (failed m) p = refl
items-receive vms s get_containers (listed none) p = refl
items-receive vms s get_containers (listed (some xs)) p = refl
items-receive vms s get_containers (failed m) p =
    if_intro (λ q. items_of vms q ≡ items_of vms p) (wants_sudo m) (λ _. refl) (λ _. refl)
items-receive vms s get_ports (listed none) p = refl
items-receive vms s get_ports (listed (some xs)) p = refl
items-receive vms s get_ports (failed m) p = refl
items-receive vms s get_databases (listed none) p = refl
items-receive vms s get_databases (listed (some xs)) p = refl
items-receive vms s get_databases (failed m) p = refl
items-receive vms s get_vms (listed none) p = refl
items-receive vms s get_vms (listed (some xs)) p = refl
items-receive vms s get_vms (failed m) p = refl

items-clear : (k : Rows) (p : Panel) → items_of k (clear p) ≡ []
unfolding clear
items-clear containers p = refl
items-clear ports p = refl
items-clear databases p = refl
items-clear vms p = refl

items-show_tab :
    (k : Rows) (s : String) (collapsed : Bool) (tab : TabId) (p : Panel)
    → items_of k (show_tab (some s) collapsed tab p).0 ≡ (if collapsed then items_of k p else [])
unfolding show_tab
items-show_tab k s true tab p = refl
items-show_tab k s false tab p = items-clear k p

items-no_session :
    (k : Rows) (collapsed : Bool) (tab : TabId) (p : Panel)
    → items_of k (show_tab none collapsed tab p).0 ≡ items_of k p
unfolding show_tab
items-no_session k collapsed tab p = refl

-- Clicks that change none of the lists.
items-click :
    (k : Rows) (vm action : String) (p : Panel)
    → (items_of k (start_vm_action vm action p) ≡ items_of k p)
      × (items_of k (end_vm_action p) ≡ items_of k p)
      × (items_of k (submit_sudo p).0 ≡ items_of k p)
unfolding start_vm_action end_vm_action submit_sudo
items-click containers vm action p = (refl, refl, refl)
items-click ports vm action p = (refl, refl, refl)
items-click databases vm action p = (refl, refl, refl)
items-click vms vm action p = (refl, refl, refl)

-- Whatever is shown, clicked and answered, about whatever session and in whatever order: the lists
-- of containers, ports, databases and machines each show what the newest answer to their own
-- request brought, or nothing if an open panel was shown anew for a session or a tab since then. A
-- failed answer empties the machines, and leaves the other lists as they were.
pub items-run :
    (k : Rows) (es : List Event) (p : Panel) → items_of k (run es p) ≡ latest k es (items_of k p)
unfolding run on_event latest
items-run k [] p = refl
items-run k (receives s r a ∷ older) p =
    items-receive k s r a (run older p)
    ∙ ap (λ xs. if request_of k r then or_else (said k a) xs else xs) (items-run k older p)
items-run k (shows none collapsed tab ∷ older) p =
    items-no_session k collapsed tab (run older p) ∙ items-run k older p
items-run k (shows (some s) collapsed tab ∷ older) p =
    items-show_tab k s collapsed tab (run older p)
    ∙ ap (λ xs. if collapsed then xs else []) (items-run k older p)
items-run k (starts vm action ∷ older) p =
    (items-click k vm action (run older p)).0 ∙ items-run k older p
items-run k (ends ∷ older) p = (items-click k "" "" (run older p)).1 ∙ items-run k older p
items-run k (submits ∷ older) p = (items-click k "" "" (run older p)).2 ∙ items-run k older p
