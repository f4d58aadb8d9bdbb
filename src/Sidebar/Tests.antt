-- ===== src/Sidebar/Tests.antt =====
-- Runs of the list of connections, and the theorems at concrete connections.
use condui.Prelude.{true, false, not, ◌||◌, ◌&&◌, none, some, [], ◌∷◌, ◌≡◌, refl, any}
use condui.Prelude.Text.{is_empty}
use condui.ConnectionForm.{Access, has_ssh, has_access, ssh}
use condui.Sidebar.{Connection, Folder}
use condui.Sidebar.Via.{build_via_submenu, others, targets}
use condui.Sidebar.Menu.{
  Row, connect, menu_items, via_items, actions, opens, opens_with, protocol_button,
}
use condui.Sidebar.Menu.Clicks.{menu_items_lem}

abbrev access : Access
access = record {
  ssh_enabled = some true;
  protocol = none;
  vnc = none;
  websocket = none;
  novnc = none;
  rdp = none;
}

abbrev web : Connection
web = record {
  id = "c1";
  name = some "web";
  folder_id = some "f1";
  access = access;
  share_revoked = true;
  password_pending = false;
}

abbrev gate : Connection
gate = record {
  id = "c2";
  name = some "gate";
  folder_id = none;
  access = access;
  share_revoked = false;
  password_pending = false;
}

abbrev work : Folder
work = record { id = "f1"; name = "Work" }

abbrev row : Row
row = record {
  connection = web;
  connecting = false;
  connecting_protocol = λ p. false;
  can_share = true;
  can_via = true;
}

menu_items_lem_example :
    (any (opens_with ssh) (actions (menu_items row (web ∷ gate ∷ []) (work ∷ [])))
      ≡ (has_access web.access ssh && not (web.share_revoked || row.connecting_protocol ssh)))
    × (web.share_revoked ≡ true
        → (connect row ≡ none)
          × (protocol_button row ssh ≡ none)
          × (any opens (actions (menu_items row (web ∷ gate ∷ []) (work ∷ [])))
              ≡ not (is_empty (targets (via_items row (web ∷ gate ∷ []) (work ∷ []))))))
menu_items_lem_example = menu_items_lem row (web ∷ gate ∷ []) (work ∷ []) ssh

-- a revoked connection that another one leads to
revoked_via : is_empty (targets (via_items row (web ∷ gate ∷ []) (work ∷ []))) ≡ false
unfolding via_items build_via_submenu others has_ssh targets
revoked_via = refl
