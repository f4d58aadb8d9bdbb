-- ===== src/ConnectionForm.antt =====
-- ssh-gui/frontend/src/components/connections/connectionForm.js: which protocols a connection
-- offers, and the form that edits it.
pub mod Inherited
mod Tests
mod Offers
unfoldable pub use Offers.*
use condui.Prelude.{
  ℕ, String, Bool, true, false, not, ◌&&◌, ◌||◌, Option, none, some, List, [], ◌∷◌, str_eq,
  str_append, if◌then◌else◌, find,
}
use condui.Prelude.Int.{ℤ, pos}

pub record Reuse : Type 0 where
  pub user : Bool
  pub pass : Bool

abbrev pub no_reuse : Reuse
no_reuse = record { user = false; pass = false }

pub record Desktop : Type 0 where
  pub enabled : Bool
  pub port : JsNumber
  pub username : String
  pub password : Option String
  pub reuse : Reuse

pub record NoVnc : Type 0 where
  pub enabled : Bool
  pub url : String

pub record Rdp : Type 0 where
  pub desktop : Desktop
  pub resolution : String
  pub allow_untrusted : Bool
  pub disable_tls : Bool
  pub domain : String
  pub fingerprint : String

pub record Tunnel : Type 0 where
  pub id : String
  pub local_port : JsNumber
  pub remote_host : String
  pub remote_port : JsNumber

pub record Form : Type 0 where
  pub id : Option String
  pub name : String
  pub host : String
  pub port : JsNumber
  pub username : String
  pub auth_type : String
  pub password : Option String
  pub private_key_path : String
  pub passphrase : Option String
  pub folder_id : Option String
  pub color : String
  pub jump_host_id : Option String
  pub tunnels : List Tunnel
  pub ssh_enabled : Bool
  pub vnc : Desktop
  pub novnc : NoVnc
  pub rdp : Rdp

-- A connection that was saved; `none` is a field that it lacks.
pub record SavedDesktop : Type 0 where
  pub enabled : Option Bool
  pub port : Option JsNumber
  pub username : Option String
  pub password : Option String
  pub reuse_user : Option Bool
  pub reuse_pass : Option Bool

abbrev pub no_desktop : SavedDesktop
no_desktop = record {
  enabled = none;
  port = none;
  username = none;
  password = none;
  reuse_user = none;
  reuse_pass = none;
}

pub record SavedNoVnc : Type 0 where
  pub enabled : Option Bool
  pub url : Option String

pub record SavedRdp : Type 0 where
  pub desktop : SavedDesktop
  pub resolution : Option String
  pub allow_untrusted : Option Bool
  pub disable_tls : Option Bool
  pub domain : Option String
  pub fingerprint : Option String

pub record Saved : Type 0 where
  pub id : String
  pub name : Option String
  pub host : Option String
  pub port : Option JsNumber
  pub username : Option String
  pub auth_type : Option String
  pub password : Option String
  pub private_key_path : Option String
  pub passphrase : Option String
  pub folder_id : Option String
  pub color : Option String
  pub jump_host_id : Option String
  pub tunnels : Option (List Tunnel)
  pub ssh_enabled : Option Bool
  pub protocol : Option String
  pub vnc : Option SavedDesktop
  pub websocket : Option SavedNoVnc
  pub rdp : Option SavedRdp

abbrev pub bind {ℓ κ} : {A : Type ℓ} {B : Type κ} → Option A → (A → Option B) → Option B
bind none f = none
bind (some a) f = f a

unfoldable pub access_of_saved : Saved → Access
access_of_saved s = record {
  ssh_enabled = s.ssh_enabled;
  protocol = s.protocol;
  vnc = bind s.vnc (λ d. d.enabled);
  websocket = bind s.websocket (λ w. w.enabled);
  novnc = none;
  rdp = bind s.rdp (λ r. r.desktop.enabled);
}

unfoldable pub access_of_form : Form → Access
access_of_form f = record {
  ssh_enabled = some f.ssh_enabled;
  protocol = none;
  vnc = some f.vnc.enabled;
  websocket = some f.novnc.enabled;
  novnc = some f.novnc.enabled;
  rdp = some f.rdp.desktop.enabled;
}

-- `desktopConfig`; the password of a new connection is "", of a saved one `undefined`
desktop_config : Bool → SavedDesktop → JsNumber → Desktop
desktop_config is_saved d port = record {
  enabled = or_else d.enabled false;
  port = or_else d.port port;
  username = or_else d.username "";
  password = if is_saved then d.password else some "";
  reuse = record { user = or_else d.reuse_user false; pass = or_else d.reuse_pass false };
}

-- the loop at the end of `connectionForm`
limit_reuse : Bool → String → Desktop → Desktop
limit_reuse ssh_enabled auth_type d =
    if not ssh_enabled
    then record d { reuse = no_reuse }
    else if str_eq auth_type "password"
    then d
    else record d { reuse = record d.reuse { pass = false } }

limit_form : Form → Form
unfolding limit_reuse
limit_form f = record f {
  vnc = limit_reuse f.ssh_enabled f.auth_type f.vnc;
  rdp = record f.rdp { desktop = limit_reuse f.ssh_enabled f.auth_type f.rdp.desktop };
}

new_form : Form
unfolding desktop_config
new_form = record {
  id = none;
  name = "";
  host = "";
  port = whole (pos 22);
  username = "";
  auth_type = "password";
  password = some "";
  private_key_path = "";
  passphrase = some "";
  folder_id = some "";
  color = "#6b6490";
  jump_host_id = some "";
  tunnels = [];
  ssh_enabled = true;
  vnc = desktop_config false no_desktop (whole (pos 5900));
  novnc = record { enabled = false; url = "" };
  rdp = record {
    desktop = desktop_config false no_desktop (whole (pos 3389));
    resolution = "1920x1080";
    allow_untrusted = false;
    disable_tls = false;
    domain = "";
    fingerprint = "";
  };
}

saved_rdp : Option SavedRdp → Rdp
unfolding desktop_config
saved_rdp none = record {
  desktop = desktop_config true no_desktop (whole (pos 3389));
  resolution = "1920x1080";
  allow_untrusted = false;
  disable_tls = false;
  domain = "";
  fingerprint = "";
}
saved_rdp (some r) = record {
  desktop = desktop_config true r.desktop (whole (pos 3389));
  resolution = or_else r.resolution "1920x1080";
  allow_untrusted = or_else r.allow_untrusted false;
  disable_tls = or_else r.disable_tls false;
  domain = or_else r.domain "";
  fingerprint = or_else r.fingerprint "";
}

saved_novnc : Option SavedNoVnc → NoVnc
saved_novnc none = record { enabled = false; url = "" }
saved_novnc (some w) = record { enabled = or_else w.enabled false; url = or_else w.url "" }

saved_form : Saved → Form
unfolding has_ssh desktop_config saved_rdp saved_novnc
saved_form s = record {
  id = some s.id;
  name = or_else s.name "";
  host = or_else s.host "";
  port = or_else s.port (whole (pos 22));
  username = or_else s.username "";
  auth_type = or_else s.auth_type "password";
  password = s.password;
  private_key_path = or_else s.private_key_path "";
  passphrase = s.passphrase;
  folder_id = some (or_else s.folder_id "");
  color = or_else s.color "#6b6490";
  jump_host_id = some (or_else s.jump_host_id "");
  tunnels = or_else s.tunnels [];
  ssh_enabled = has_ssh (access_of_saved s);
  vnc = desktop_config true (or_else s.vnc no_desktop) (whole (pos 5900));
  novnc = saved_novnc s.websocket;
  rdp = saved_rdp s.rdp;
}

unfoldable pub connection_form : Option Saved → Form
unfolding limit_form new_form saved_form
connection_form none = limit_form new_form
connection_form (some s) = limit_form (saved_form s)
