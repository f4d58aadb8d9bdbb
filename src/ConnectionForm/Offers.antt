-- ===== src/ConnectionForm/Offers.antt =====
-- The access methods of a connection.
use condui.Prelude.{
  String, Bool, true, false, ◌||◌, Option, none, some, List, [], ◌∷◌, str_eq, str_append, find,
}
use condui.Prelude.Int.{ℤ}

pub data Protocol : Type 0 where
  ssh vnc novnc rdp : Protocol

abbrev pub protocols : List Protocol
protocols = ssh ∷ vnc ∷ novnc ∷ rdp ∷ []

abbrev pub name_of : Protocol → String
name_of ssh = "ssh"
name_of vnc = "vnc"
name_of novnc = "novnc"
name_of rdp = "rdp"

-- A number of the form: an integer, or anything else that `Number` gives (NaN, a fraction).
pub data JsNumber : Type 0 where
  whole : ℤ → JsNumber
  other : JsNumber

-- What `hasSSH` and `hasAccess` read of a connection or of a form: the fields `sshEnabled` and
-- `protocol`, and the fields `enabled` of its parts.
pub record Access : Type 0 where
  pub ssh_enabled : Option Bool
  pub protocol : Option String
  pub vnc : Option Bool
  pub websocket : Option Bool
  pub novnc : Option Bool
  pub rdp : Option Bool

-- `!!x`
abbrev pub truthy : Option Bool → Bool
truthy none = false
truthy (some b) = b

abbrev pub or_else {ℓ} : {A : Type ℓ} → Option A → A → A
or_else none d = d
or_else (some a) d = a

-- `(connection.protocol || "ssh") === "ssh"`
is_ssh_name : Option String → Bool
is_ssh_name none = true
is_ssh_name (some p) = str_eq p "" || str_eq p "ssh"

has_ssh_on : Option Bool → Option String → Bool
unfolding is_ssh_name
has_ssh_on none p = is_ssh_name p
has_ssh_on (some b) p = b

unfoldable pub has_ssh : Access → Bool
unfolding has_ssh_on
has_ssh a = has_ssh_on a.ssh_enabled a.protocol

novnc_on : Option Bool → Option Bool → Bool
novnc_on none w = truthy w
novnc_on (some b) w = b

unfoldable pub has_access : Access → Protocol → Bool
unfolding has_ssh novnc_on
has_access a ssh = has_ssh a
has_access a vnc = truthy a.vnc
has_access a novnc = novnc_on a.novnc a.websocket
has_access a rdp = truthy a.rdp

unfoldable pub default_protocol : Access → Protocol
unfolding has_access
default_protocol a = or_else (find (has_access a) protocols) ssh

unfoldable pub is_desktop : Protocol → Bool
is_desktop ssh = false
is_desktop vnc = true
is_desktop novnc = true
is_desktop rdp = true

unfoldable pub connection_key : String → Protocol → String
connection_key id p = str_append id (str_append ":" (name_of p))
