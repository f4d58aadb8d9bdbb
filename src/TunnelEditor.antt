-- ===== src/TunnelEditor.antt =====
-- The tunnels of a connection that is edited: components/connections/ConnectionTunnels.jsx. The
-- tunnels of a connection that was not saved yet are the form's own; those of a saved one are
-- the backend's.
pub mod Ports
mod Tests
use condui.Prelude.{
  ℕ, String, Bool, true, false, not, ◌&&◌, ◌==◌, Option, none, some, List, [], ◌∷◌, ◌++◌, str_eq,
  leb, filter, any, if◌then◌else◌,
}
use condui.Prelude.Int.{pos, negsuc}
use condui.Prelude.Text.{codes, is_empty, trim}
use condui.ConnectionForm.{JsNumber, whole, other}

pub record Tunnel : Type 0 where
  pub id : String
  pub local_port : ℕ
  pub remote_host : List ℕ
  pub remote_port : ℕ

-- What is typed; the ports are what `Number` makes of the texts, the host is its code points.
pub record Draft : Type 0 where
  pub local_port : JsNumber
  pub remote_host : List ℕ
  pub remote_port : JsNumber

-- an integer from 1 to 65535
port_of : JsNumber → Option ℕ
port_of (whole (pos n)) = if leb 1 n && leb n 65535 then some n else none
port_of (whole (negsuc n)) = none
port_of other = none

-- what `submit` finds wrong, or the tunnel that it makes of the draft, without its id
pub data Checked : Type 0 where
  invalid : Checked
  duplicate : Checked
  checked : ℕ → List ℕ → ℕ → Checked

is_other : Option String → Tunnel → Bool
is_other none t = true
is_other (some e) t = not (str_eq t.id e)

taken : Option String → ℕ → List Tunnel → Bool
unfolding is_other
taken editing p ts = any (λ t. is_other editing t && t.local_port == p) ts

check_ports : Option String → Option ℕ → List ℕ → Option ℕ → List Tunnel → Checked
unfolding taken
check_ports editing (some l) host (some r) ts =
    if is_empty host then invalid else if taken editing l ts then duplicate else checked l host r
check_ports editing none host r ts = invalid
check_ports editing (some l) host none ts = invalid

pub check : Option String → Draft → List Tunnel → Checked
unfolding port_of check_ports trim
check editing d ts =
    check_ports editing (port_of d.local_port) (trim d.remote_host) (port_of d.remote_port) ts

-- `tunnels.map`, which replaces the one that is edited
replace : String → ℕ → List ℕ → ℕ → List Tunnel → List Tunnel
replace e l h r [] = []
replace e l h r (t ∷ ts) =
    (if str_eq t.id e then record t { local_port = l; remote_host = h; remote_port = r } else t)
    ∷ replace e l h r ts

store : Option String → String → Checked → List Tunnel → Option (List Tunnel)
unfolding replace
store editing fresh invalid ts = none
store editing fresh duplicate ts = none
store none fresh (checked l h r) ts =
    some (ts ++ record { id = fresh; local_port = l; remote_host = h; remote_port = r } ∷ [])
store (some e) fresh (checked l h r) ts = some (replace e l h r ts)

-- `submit` for a connection that was not saved: the new list, or none for an error; `fresh` is the
-- random id
pub submit : Option String → String → Draft → List Tunnel → Option (List Tunnel)
unfolding check store
submit editing fresh d ts = store editing fresh (check editing d ts) ts

-- what `submit` asks the backend for, of a saved connection
pub data Call : Type 0 where
  edit_tunnel : String → ℕ → List ℕ → ℕ → Call
  add_tunnel : String → ℕ → List ℕ → ℕ → Call

call_of : String → Option String → Checked → Option Call
call_of connection editing invalid = none
call_of connection editing duplicate = none
call_of connection none (checked l h r) = some (add_tunnel connection l h r)
call_of connection (some e) (checked l h r) = some (edit_tunnel e l h r)

pub submit_saved : String → Option String → Draft → List Tunnel → Option Call
unfolding check call_of
submit_saved connection editing d ts = call_of connection editing (check editing d ts)

-- `remove`
pub remove : String → List Tunnel → List Tunnel
remove id ts = filter (λ t. not (str_eq t.id id)) ts
