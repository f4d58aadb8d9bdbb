-- ===== src/ConnectionModal/Tests.antt =====
-- Runs of the editor, and the theorems at a concrete form.
use condui.Prelude.{
  inl, String, true, false, none, some, Option, ◌≡◌, ◌↔◌, refl, any, if◌then◌else◌, str_eq,
}
use condui.Prelude.Text.{is_blank}
use condui.ConnectionForm.{
  name_of, Protocol, ssh, vnc, novnc, rdp, protocols, Form, connection_form, access_of_form,
  has_access,
}
use condui.ConnectionModal.{Modal, Change, set}
use condui.ConnectionModal.Stale.{tested, success-set}
use condui.ConnectionModal.Save.{Url, validate, save, save_iff, required, invalid_url}

abbrev form : Form
form = record (connection_form none) { name = "db"; host = "192.0.2.14"; username = "ann" }

abbrev tested_once : Modal
tested_once = record {
  form = form;
  success = λ _. true;
  answered = λ _. true;
  save_answered = false;
}

-- A new host forgets every success but that of noVNC, which has an address of its own.
after_host :
    (p : Protocol)
    → (set (Change.host "192.0.2.15") tested_once).success p
      ≡ (if str_eq (name_of p) "novnc" then true else false)
unfolding set
after_host ssh = refl
after_host vnc = refl
after_host novnc = refl
after_host rdp = refl

success-set_example :
    ((tested_once).success novnc ≡ true)
    × (tested novnc (set (Change.host "192.0.2.15") tested_once).form ≡ tested novnc form)
unfolding after_host
success-set_example = success-set (inl (Change.host "192.0.2.15")) novnc tested_once refl

-- a browser that knows one address
abbrev parse : String → Option Url
parse u =
    if str_eq u "ws://192.0.2.14/"
    then some (record {
      protocol = "ws:";
      hostname = "192.0.2.14";
      username = "";
      password = "";
      hash = "";
    })
    else none

abbrev rdp_form : Form
rdp_form = record form {
  rdp = record form.rdp { desktop = record form.rdp.desktop { enabled = true; username = "bob" } };
}

rdp_form_passes : (save parse rdp_form).0 ≡ none
unfolding save validate connection_form access_of_form has_access is_blank
rdp_form_passes = refl

nameless : (save parse (record form { name = "  " })).0 ≡ some required
unfolding save validate connection_form access_of_form has_access is_blank
nameless = refl

bad_url :
    validate parse (record form { novnc = record { enabled = true; url = "ftp://x" } }) novnc
    ≡ some invalid_url
unfolding validate
bad_url = refl

save_iff_example :
    ((save parse form).0 ≡ none
      ↔ (is_blank form.name ≡ false)
        × (is_blank form.host ≡ false)
        × ((p : Protocol)
            → has_access (access_of_form form) p ≡ true
            → validate parse form p ≡ none)
        × (any (has_access (access_of_form form)) protocols ≡ true))
    × ((save parse form).0 ≡ none
        → (has_access (access_of_form form) (save parse form).1 ≡ true)
          × (validate parse form (save parse form).1 ≡ none))
save_iff_example = save_iff parse form
