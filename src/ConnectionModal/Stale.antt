-- ===== src/ConnectionModal/Stale.antt =====
-- What the setters of the editor keep: a success that is shown is never stale, and a desktop access
-- inherits only what SSH has.
use condui.Prelude.{
  String, Bool, true, false, Option, none, some, ◌≡◌, refl, inl, inr, ◌⊎◌, arith, if◌then◌else◌,
}
use condui.ConnectionForm.{
  Protocol, ssh, vnc, novnc, rdp, JsNumber, no_reuse, Desktop, NoVnc, Rdp, Form,
}
use condui.ConnectionForm.Inherited.{IsLimited, FormIsLimited}
use condui.ConnectionModal.{
  Modal, Change, AccessChange, set, set_desktop, set_form, adjust, touches, invalidate,
}

-- What the test of a protocol depends on: the fields of its own part, the host, and what it takes
-- over from SSH.
pub record Tested : Type 0 where
  pub host : String
  pub ssh :
      Option (JsNumber × String × String × Option String × String × Option String × Option String)
  pub user : String
  pub pass : Option String
  pub part : Option Desktop
  pub rdp : Option Rdp
  pub novnc : Option NoVnc

abbrev desktop_test : Form → Desktop → Option Rdp → Tested
desktop_test f d r = record {
  host = f.host;
  ssh = none;
  user = if d.reuse.user then f.username else d.username;
  pass = if d.reuse.pass then f.password else d.password;
  part = some d;
  rdp = r;
  novnc = none;
}

pub tested : Protocol → Form → Tested
tested ssh f = record {
  host = f.host;
  ssh = some (
    f.port, f.username, f.auth_type, f.password, f.private_key_path, f.passphrase, f.jump_host_id,
  );
  user = "";
  pass = none;
  part = none;
  rdp = none;
  novnc = none;
}
tested vnc f = desktop_test f f.vnc none
tested novnc f = record {
  host = "";
  ssh = none;
  user = "";
  pass = none;
  part = none;
  rdp = none;
  novnc = some f.novnc;
}
tested rdp f = desktop_test f f.rdp.desktop (some f.rdp)

set_untouched :
    (c : Change) (p : Protocol) (f : Form)
    → touches c f p ≡ false
    → tested p (set_form c f) ≡ tested p f
unfolding touches set_form tested
set_untouched (Change.name v) ssh f h = refl
set_untouched (Change.name v) vnc f h = refl
set_untouched (Change.name v) novnc f h = refl
set_untouched (Change.name v) rdp f h = refl
set_untouched (Change.host v) novnc f h = refl
set_untouched _ novnc f h = refl
set_untouched _ _ f h = ground arith

-- the same success and the same inputs, for the shared fields
success_set_lem :
    (c : Change) (p : Protocol) (m : Modal)
    → (set c m).success p ≡ true
    → (m.success p ≡ true) × (tested p (set c m).form ≡ tested p m.form)
unfolding set invalidate
success_set_lem c p m h = (ground arith, set_untouched c p m.form (ground arith))

module _ (m : Modal) where
  -- the same for the setters of a desktop access
  pub success-set_desktop :
      (c : AccessChange) (p : Protocol)
      → (set_desktop c m).success p ≡ true
      → (m.success p ≡ true) × (tested p (set_desktop c m).form ≡ tested p m.form)
  unfolding set_desktop tested
  success-set_desktop (AccessChange.vnc_field c) ssh h = (h, refl)
  success-set_desktop (AccessChange.vnc_field c) vnc h = cc
  success-set_desktop (AccessChange.vnc_field c) novnc h = (h, refl)
  success-set_desktop (AccessChange.vnc_field c) rdp h = (h, refl)
  success-set_desktop (AccessChange.rdp_field c) ssh h = (h, refl)
  success-set_desktop (AccessChange.rdp_field c) vnc h = (h, refl)
  success-set_desktop (AccessChange.rdp_field c) novnc h = (h, refl)
  success-set_desktop (AccessChange.rdp_field c) rdp h = cc
  success-set_desktop (AccessChange.novnc_enabled b) novnc h = cc
  success-set_desktop (AccessChange.novnc_url u) novnc h = cc
  success-set_desktop (AccessChange.novnc_enabled b) ssh h = (h, refl)
  success-set_desktop (AccessChange.novnc_enabled b) vnc h = (h, refl)
  success-set_desktop (AccessChange.novnc_enabled b) rdp h = (h, refl)
  success-set_desktop (AccessChange.novnc_url u) ssh h = (h, refl)
  success-set_desktop (AccessChange.novnc_url u) vnc h = (h, refl)
  success-set_desktop (AccessChange.novnc_url u) rdp h = (h, refl)

-- A change in the editor, of the shared fields or of a desktop access.
abbrev pub change_by : Change ⊎ AccessChange → Modal → Modal
change_by (inl c) m = set c m
change_by (inr c) m = set_desktop c m

-- After any change in the editor, of the shared fields or of a desktop access, a success that is
-- still shown was earned with the same inputs.
pub success-set :
    (c : Change ⊎ AccessChange) (p : Protocol) (m : Modal)
    → (change_by c m).success p ≡ true
    → (m.success p ≡ true) × (tested p (change_by c m).form ≡ tested p m.form)
success-set (inl c) p m h = success_set_lem c p m h
success-set (inr c) p m h = success-set_desktop m c p h

-- The values that the select of SSHFields.jsx offers, and what the boxes of DesktopFields.jsx allow.
abbrev pub IsOffered : Change → Type 0
IsOffered (Change.auth_type v) = (v ≡ "password") ⊎ (v ≡ "private_key")
IsOffered (Change.ssh_enabled b) = Unit
IsOffered _ = Unit

ssh_off : (t : String) (d : Desktop) → IsLimited false t (record d { reuse = no_reuse })
ssh_off t d = record { no_user = λ _. refl; no_pass = λ _. refl; no_key = λ _. refl }

ssh_on : {b : Bool} {t : String} {d : Desktop} → IsLimited b t d → IsLimited true t d
ssh_on l = record { no_user = λ e. cc; no_pass = λ e. cc; no_key = l.no_key }

adjust_auth :
    (v : String) {b : Bool} {t : String} {d : Desktop}
    → (v ≡ "password") ⊎ (v ≡ "private_key")
    → IsLimited b t d
    → IsLimited b v (adjust (Change.auth_type v) d)
unfolding adjust
adjust_auth v (inl e) l =
    rw e (record { no_user = l.no_user; no_pass = l.no_pass; no_key = λ f. cc })
adjust_auth v (inr e) l =
    rw e (record { no_user = l.no_user; no_pass = λ _. refl; no_key = λ _. refl })

-- Every change of the shared fields keeps what a desktop access may inherit.
pub set-IsLimited :
    (c : Change) (m : Modal) → IsOffered c → FormIsLimited m.form → FormIsLimited (set c m).form
unfolding set set_form invalidate
set-IsLimited (Change.name v) m o (l, r) = (l, r)
set-IsLimited (Change.ssh_enabled false) m o (l, r) =
    (ssh_off m.form.auth_type m.form.vnc, ssh_off m.form.auth_type m.form.rdp.desktop)
set-IsLimited (Change.ssh_enabled true) m o (l, r) = (ssh_on l, ssh_on r)
set-IsLimited (Change.auth_type v) m o (l, r) = (adjust_auth v o l, adjust_auth v o r)
set-IsLimited _ m o (l, r) = (l, r)
