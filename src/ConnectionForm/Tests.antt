-- ===== src/ConnectionForm/Tests.antt =====
-- Runs of the connection form, and the theorems at concrete connections.
use condui.Prelude.{true, false, none, some, ◌≡◌, refl}
use condui.ConnectionForm.{
  access_of_saved, ssh, vnc, novnc, Access, Saved, default_protocol, connection_form,
  connection_key,
}

abbrev vnc_only : Access
vnc_only = record {
  ssh_enabled = some false;
  protocol = none;
  vnc = some true;
  websocket = none;
  novnc = none;
  rdp = some true;
}

vnc_first : default_protocol vnc_only ≡ vnc
unfolding default_protocol
vnc_first = refl

-- Before there were several protocols a connection without any field was SSH.
old_connection :
    default_protocol (record {
      ssh_enabled = none;
      protocol = none;
      vnc = none;
      websocket = none;
      novnc = none;
      rdp = none;
    })
    ≡ ssh
unfolding default_protocol
old_connection = refl

key_test : connection_key "c1" novnc ≡ "c1:novnc"
unfolding connection_key
key_test = refl

abbrev by_key : Saved
by_key = record {
  id = "c1";
  name = some "db";
  host = some "192.0.2.14";
  port = none;
  username = some "ann";
  auth_type = some "private_key";
  password = none;
  private_key_path = some "~/.ssh/id";
  passphrase = none;
  folder_id = none;
  color = none;
  jump_host_id = none;
  tunnels = none;
  ssh_enabled = none;
  protocol = none;
  vnc = some (record {
    enabled = some true;
    port = none;
    username = none;
    password = none;
    reuse_user = some true;
    reuse_pass = some true;
  });
  websocket = none;
  rdp = none;
}

-- The user is still taken over from SSH, the password is not.
by_key_reuse : (connection_form (some by_key)).vnc.reuse ≡ record { user = true; pass = false }
unfolding connection_form access_of_saved
by_key_reuse = refl
