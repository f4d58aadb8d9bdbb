-- ===== src/ConnectionModal.antt =====
-- ssh-gui/frontend/src/components/connections/ConnectionModal.jsx: the editor of a connection.
-- `parse_url` stands for the browser's `new URL`.
pub mod Stale
pub mod Save
mod Tests
use condui.Prelude.{
  ℕ, suc, ◌+◌, ◌-◌, ◌%◌, String, Bool, true, false, not, ◌&&◌, ◌||◌, Option, none, some, List, [],
  ◌∷◌, str_eq, ◌==◌, ltb, leb, if◌then◌else◌, length, any, filter,
}
use condui.Prelude.Int.{pos, negsuc}
use condui.Prelude.Text.{codes, trim, is_blank, lower, all}
use condui.ConnectionForm.{
  Protocol, ssh, vnc, novnc, rdp, protocols, name_of, JsNumber, whole, other, Access, has_access,
  default_protocol, Reuse, no_reuse, Desktop, NoVnc, Rdp, Tunnel, Form, access_of_form,
}

abbrev pub same : Protocol → Protocol → Bool
same p q = str_eq (name_of p) (name_of q)

-- The state of the editor that its handlers change: `success` and `answered` say whether a
-- protocol's test succeeded and whether its action shows a response.
pub record Modal : Type 0 where
  pub form : Form
  pub success : Protocol → Bool
  pub answered : Protocol → Bool
  pub save_answered : Bool

-- the calls `set(key, value)`
pub data Change : Type 0 where
  name host username auth_type private_key_path color : String → Change
  port : JsNumber → Change
  password passphrase folder_id jump_host_id : Option String → Change
  ssh_enabled : Bool → Change
  tunnels : List Tunnel → Change

-- `{ ...previous, [key]: value }`
assign : Change → Form → Form
assign (name v) f = record f { name = v }
assign (host v) f = record f { host = v }
assign (username v) f = record f { username = v }
assign (auth_type v) f = record f { auth_type = v }
assign (private_key_path v) f = record f { private_key_path = v }
assign (color v) f = record f { color = v }
assign (port v) f = record f { port = v }
assign (password v) f = record f { password = v }
assign (passphrase v) f = record f { passphrase = v }
assign (folder_id v) f = record f { folder_id = v }
assign (jump_host_id v) f = record f { jump_host_id = v }
assign (ssh_enabled v) f = record f { ssh_enabled = v }
assign (tunnels v) f = record f { tunnels = v }

-- what `set` does to the desktop part of "vnc" and of "rdp"
adjust : Change → Desktop → Desktop
adjust (ssh_enabled false) d = record d { reuse = no_reuse }
adjust (auth_type v) d =
    if str_eq v "private_key" then record d { reuse = record d.reuse { pass = false } } else d
adjust _ d = d

pub set_form : Change → Form → Form
unfolding assign adjust
set_form c f = record (assign c f) {
  vnc = adjust c f.vnc;
  rdp = record f.rdp { desktop = adjust c f.rdp.desktop };
}

-- the key is one of the list whose change invalidates the SSH test
touches_ssh : Change → Bool
touches_ssh (name _) = false
touches_ssh (color _) = false
touches_ssh (folder_id _) = false
touches_ssh (tunnels _) = false
touches_ssh _ = true

touches_desktop : Change → Desktop → Bool
touches_desktop (host _) d = true
touches_desktop (ssh_enabled _) d = true
touches_desktop (auth_type _) d = true
touches_desktop (username _) d = d.reuse.user
touches_desktop (password _) d = d.reuse.pass
touches_desktop _ d = false

-- `form` is the form of the render that made the handler.
touches : Change → Form → Protocol → Bool
unfolding touches_ssh touches_desktop
touches c form ssh = touches_ssh c
touches c form vnc = touches_desktop c form.vnc
touches c form novnc = false
touches c form rdp = touches_desktop c form.rdp.desktop

-- `invalidate`, for each protocol that a test selects
invalidate : (Protocol → Bool) → Modal → Modal
invalidate hit m = record m {
  success = λ p. if hit p then false else m.success p;
  answered = λ p. if hit p then false else m.answered p;
}

pub set : Change → Modal → Modal
unfolding set_form touches invalidate
set c m =
    invalidate (touches c m.form) (record m { form = set_form c m.form; save_answered = false })

-- the calls `setDesktop(protocol, key, value)`
pub data DesktopChange : Type 0 where
  enabled : Bool → DesktopChange
  port : JsNumber → DesktopChange
  username : String → DesktopChange
  password : Option String → DesktopChange
  reuse : Reuse → DesktopChange

pub data RdpChange : Type 0 where
  desktop : DesktopChange → RdpChange
  resolution domain fingerprint : String → RdpChange
  allow_untrusted disable_tls : Bool → RdpChange

pub data AccessChange : Type 0 where
  vnc_field : DesktopChange → AccessChange
  rdp_field : RdpChange → AccessChange
  novnc_enabled : Bool → AccessChange
  novnc_url : String → AccessChange

assign_desktop : DesktopChange → Desktop → Desktop
assign_desktop (enabled v) d = record d { enabled = v }
assign_desktop (port v) d = record d { port = v }
assign_desktop (username v) d = record d { username = v }
assign_desktop (password v) d = record d { password = v }
assign_desktop (reuse v) d = record d { reuse = v }

assign_rdp : RdpChange → Rdp → Rdp
unfolding assign_desktop
assign_rdp (desktop c) r = record r { desktop = assign_desktop c r.desktop }
assign_rdp (resolution v) r = record r { resolution = v }
assign_rdp (domain v) r = record r { domain = v }
assign_rdp (fingerprint v) r = record r { fingerprint = v }
assign_rdp (allow_untrusted v) r = record r { allow_untrusted = v }
assign_rdp (disable_tls v) r = record r { disable_tls = v }

pub set_desktop : AccessChange → Modal → Modal
unfolding invalidate assign_desktop assign_rdp
set_desktop (vnc_field c) m =
    invalidate (same Protocol.vnc) (record m {
      form = record m.form { vnc = assign_desktop c m.form.vnc };
      save_answered = false;
    })
set_desktop (rdp_field c) m =
    invalidate (same Protocol.rdp)
      (record m { form = record m.form { rdp = assign_rdp c m.form.rdp }; save_answered = false })
set_desktop (novnc_enabled v) m = invalidate (same Protocol.novnc) (record m {
  form = record m.form { novnc = record m.form.novnc { enabled = v } };
  save_answered = false;
})
set_desktop (novnc_url v) m = invalidate (same Protocol.novnc) (record m {
  form = record m.form { novnc = record m.form.novnc { url = v } };
  save_answered = false;
})
