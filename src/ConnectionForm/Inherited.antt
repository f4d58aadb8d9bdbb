-- ===== src/ConnectionForm/Inherited.antt =====
-- Which protocol is the default, and when a desktop access takes its credentials from SSH.
use condui.Prelude.{String, Bool, true, false, Option, none, some, ◌≡◌, arith, str_eq}
use condui.ConnectionForm.{
  Protocol, ssh, vnc, novnc, rdp, Access, has_access, default_protocol, Desktop, Form, Saved,
  limit_reuse, limit_form, connection_form, new_form, saved_form,
}

-- If the connection offers any protocol, the default protocol is one that it offers; else it is
-- SSH. SSH is the default whenever it is offered.
pub default_protocol_lem :
    (a : Access)
    → ((p : Protocol) → has_access a p ≡ true → has_access a (default_protocol a) ≡ true)
      × (((p : Protocol) → has_access a p ≡ false) → default_protocol a ≡ ssh)
      × (has_access a ssh ≡ true → default_protocol a ≡ ssh)
unfolding default_protocol
default_protocol_lem a = (λ p h. offered p h, λ h. none_offered h, λ h. ground arith)
  where
    offered : (p : Protocol) → has_access a p ≡ true → has_access a (default_protocol a) ≡ true
    offered ssh h = ground arith
    offered vnc h = ground arith
    offered novnc h = ground arith
    offered rdp h = ground arith

    none_offered : ((p : Protocol) → has_access a p ≡ false) → default_protocol a ≡ ssh
    none_offered h = ground (arith, h ssh, h vnc, h novnc, h rdp)

-- A desktop access inherits nothing without SSH, and no password unless SSH has one.
pub record IsLimited (ssh_enabled : Bool) (auth_type : String) (d : Desktop) : Type 0 where
  pub no_user : ssh_enabled ≡ false → d.reuse.user ≡ false
  pub no_pass : ssh_enabled ≡ false → d.reuse.pass ≡ false
  pub no_key : str_eq auth_type "password" ≡ false → d.reuse.pass ≡ false

abbrev pub FormIsLimited : Form → Type 0
FormIsLimited f =
    IsLimited f.ssh_enabled f.auth_type f.vnc × IsLimited f.ssh_enabled f.auth_type f.rdp.desktop

limit_reuse-IsLimited : (b : Bool) (t : String) (d : Desktop) → IsLimited b t (limit_reuse b t d)
unfolding limit_reuse
limit_reuse-IsLimited b t d = record {
  no_user = ground arith;
  no_pass = ground arith;
  no_key = ground arith;
}

limit_form-IsLimited : (f : Form) → FormIsLimited (limit_form f)
unfolding limit_form
limit_form-IsLimited f = (
  limit_reuse-IsLimited f.ssh_enabled f.auth_type f.vnc,
  limit_reuse-IsLimited f.ssh_enabled f.auth_type f.rdp.desktop,
)

-- The form that `connectionForm` builds, for a new connection or for any saved one, takes over no
-- user and no password from SSH without SSH, and no password unless SSH signs in by password.
pub connection_form-IsLimited : (o : Option Saved) → FormIsLimited (connection_form o)
unfolding connection_form
connection_form-IsLimited none = limit_form-IsLimited new_form
connection_form-IsLimited (some s) = limit_form-IsLimited (saved_form s)
