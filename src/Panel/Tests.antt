-- ===== src/Panel/Tests.antt =====
-- Runs of the panel, and the theorems at concrete events.
use condui.Prelude.{
  List, true, false, ◌||◌, if◌then◌else◌, arith, length, String, none, some, [], ◌∷◌, ◌≡◌, refl,
  lookup,
}
use condui.Prelude.Text.{is_empty, codes}
use condui.Panel.{Sort, sign, Transfer, Sign}
use condui.Panel.Tabs.{View, docked, docker}
use condui.Panel.Fetch.{Panel, nothing, get_vms, get_containers, failed, listed}
use condui.Panel.Fetch.Latest.{
  Event, receives, shows, run, items_of, containers, vms, latest, items-run,
}
use condui.Panel.Lists.{Port, Container, Machine, Database}
use condui.Panel.Dialog.{
  Tunnel, Dialog, typed, stored, save_call, open_edit, open_create, fill, edit_tunnel, add_tunnel,
  is_missing, parse_int, save_call-open,
}
use condui.Prelude.Int.{pos, negsuc}
use condui.Panel.Compare.{flip, sign-flip}

abbrev half : Transfer
half = record { id = "t1"; percent = 50; started_at = some 1000 }

abbrev whole : Transfer
whole = record { id = "t1"; percent = 100; started_at = none }

found : lookup "t1" (("t1", half) ∷ []) ≡ some half
unfolding lookup
found = refl

-- a comparison of texts that turns around: the shorter one comes first
abbrev by_length : String → String → Sign
by_length a b = sign (length (codes a)) (length (codes b))

by_length_flips : (a b : String) → by_length b a ≡ flip (by_length a b)
by_length_flips a b = sign-flip (length (codes a)) (length (codes b))

-- a panel on a desktop, with the tab of containers chosen but no Docker
abbrev view : View
view = record {
  selected = docker;
  mode = docked;
  docker_available = false;
  is_pro = false;
  phone = false;
  mobile = "";
}

abbrev panel : Panel
panel = record {
  containers = nothing;
  ports = nothing;
  databases = nothing;
  vms = nothing;
  stats = [];
  vbox_error = none;
  sudo = false;
  busy = none;
}

-- the newest event first: an answer about the machines fails after the containers were listed
abbrev panel_events : List Event
panel_events =
    receives "s1" get_vms (failed "none")
    ∷ receives "s1" get_containers (listed (some ("web" ∷ [])))
    ∷ shows (some "s1") false docker
    ∷ receives "s0" get_vms (listed (some ("old" ∷ [])))
    ∷ []

shown_lists :
    (items_of containers (run panel_events panel) ≡ "web" ∷ [])
    × (items_of vms (run panel_events panel) ≡ [])
unfolding latest
shown_lists = (items-run containers panel_events panel, items-run vms panel_events panel)

items-run_example :
    items_of containers (run panel_events panel)
    ≡ latest containers panel_events (items_of containers panel)
items-run_example = items-run containers panel_events panel

abbrev by_port : Sort
by_port = record { key = "port"; ascending = true }

abbrev ssh_port : Port
ssh_port = record {
  proto = "tcp";
  port = "22";
  number = some 22;
  address = "0.0.0.0";
  process = "sshd";
}

abbrev web_port : Port
web_port = record {
  proto = "tcp";
  port = "80";
  number = some 80;
  address = "::";
  process = "nginx";
}

abbrev web : Container
web = record {
  id = "c1";
  names = "web";
  image = "nginx";
  state = "running";
  status = "Up 2 hours";
  seconds = some 7200;
  ports = "80";
}

abbrev old : Container
old = record {
  id = "c2";
  names = "old";
  image = "nginx";
  state = "exited";
  status = "Exited";
  seconds = none;
  ports = "";
}

abbrev machine : Machine
machine = record { name = "vm"; state = "running"; fields = [] }

abbrev halted : Machine
halted = record { name = "test"; state = "poweroff"; fields = [] }

abbrev shop : Database
shop = record { name = "postgres"; port = "5432"; number = some 5432; fields = [] }

abbrev cart : Database
cart = record { name = "mysql"; port = "3306"; number = some 3306; fields = [] }

abbrev tunnel : Tunnel
tunnel = record {
  id = "t1";
  local_port = 8080;
  remote_host = "127.0.0.1";
  remote_port = 80;
  active = true;
}

abbrev dialog : Dialog
dialog = record {
  editing = some "t0";
  local_port = typed "1";
  remote_host = "";
  remote_port = typed "2";
  is_open = false;
  delete_target = none;
  alert = none;
}

save_call-open_example :
    (save_call (some "c1") (open_edit tunnel dialog)
      ≡ some (edit_tunnel "t1" (some (pos 8080)) "127.0.0.1" (some (pos 80))))
    × (save_call (some "c1") (fill (typed " 90") "db" (stored 5432) (open_create dialog)) ≡ (
        if is_missing (typed " 90") || is_empty (codes "db") || is_missing (stored 5432)
        then none
        else some (add_tunnel "c1" (parse_int (typed " 90")) "db" (parse_int (stored 5432)))))
save_call-open_example =
    save_call-open "c1" tunnel dialog (typed " 90") (stored 5432) "db" refl refl refl (ground arith)
      (ground arith)

parse_int_run :
    (parse_int (typed " 80x") ≡ some (pos 80))
    × (parse_int (typed "-1") ≡ some (negsuc 0))
    × (parse_int (typed "x") ≡ none)
unfolding parse_int
parse_int_run = (refl, refl, refl)
