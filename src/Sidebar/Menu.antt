-- ===== src/Sidebar/Menu.antt =====
-- What a connection's row can do: its click, its menu and its buttons, in ConnectionNode.jsx.
pub mod Clicks
use condui.Prelude.{
  concat, String, Bool, true, false, not, ◌||◌, ◌&&◌, Option, none, some, List, [], ◌∷◌, ◌++◌, ◌≡◌,
  refl, str_eq, if◌then◌else◌, filter, any, any-append, arith, sym, ap, ◌∙◌, if_intro,
}
use condui.Prelude.Text.{is_empty}
use condui.ConnectionForm.{Protocol, ssh, vnc, novnc, rdp, protocols, has_ssh, has_access}
use condui.Sidebar.{Connection, Folder}
use condui.Sidebar.Via.{Item, build_via_submenu, targets, offered}

-- what the row calls
pub data Action : Type 0 where
  open_protocol : Protocol → Action
  open_new : Action
  open_default : Action
  open_via : Connection → Action
  cancel : Protocol → Action
  unlock edit share delete : Action

pub data Entry : Type 0 where
  divider : Entry
  choice : Bool → Option Action → Entry
  submenu : List Item → Entry

-- What the row is shown with: whether an attempt is on its way, over which protocols, and whether
-- the side bar was given `onShare` and `onConnectVia`.
pub record Row : Type 0 where
  pub connection : Connection
  pub connecting : Bool
  pub connecting_protocol : Protocol → Bool
  pub can_share : Bool
  pub can_via : Bool

-- `connect`, the click of the row
pub connect : Row → Option Action
connect r = if not r.connecting && not r.connection.share_revoked then some open_default else none

pub protocol_entries : Row → List Protocol → List Entry
protocol_entries r [] = []
protocol_entries r (p ∷ ps) =
    let rest = protocol_entries r ps in
    if has_access r.connection.access p
    then choice (r.connection.share_revoked || r.connecting_protocol p) (some (open_protocol p))
      ∷ rest
    else rest

pub new_session : Row → Option Action
new_session r = if not r.connecting && not r.connection.share_revoked then some open_new else none

-- `viaSubmenu`, with nothing for null
unfoldable pub via_items : Row → List Connection → List Folder → List Item
via_items r cs fs =
    elim (if r.can_via && has_ssh r.connection.access
      then build_via_submenu r.connection cs fs
      else none) [ none ↦ [] | some is ↦ is ]

pub when : Bool → List Entry → List Entry
when b es = if b then es else []

-- `menuItems`, in the pieces of which some are left out
pub menu_blocks : Row → List Connection → List Folder → List (List Entry)
unfolding protocol_entries new_session via_items when
menu_blocks r cs fs =
    protocol_entries r protocols
    ∷ (choice r.connection.share_revoked (new_session r) ∷ [])
    ∷ when r.connection.password_pending (choice false (some unlock) ∷ [])
    ∷ (divider ∷ choice false (some edit) ∷ [])
    ∷ when (r.can_share && has_ssh r.connection.access) (choice false (some share) ∷ [])
    ∷ when (not (is_empty (via_items r cs fs))) (divider ∷ submenu (via_items r cs fs) ∷ [])
    ∷ (divider ∷ choice false (some delete) ∷ [])
    ∷ []

pub menu_items : Row → List Connection → List Folder → List Entry
unfolding menu_blocks
menu_items r cs fs = concat (menu_blocks r cs fs)

pub vias : List Connection → List Action
vias [] = []
vias (c ∷ cs) = open_via c ∷ vias cs

-- what the clicks of an entry can call, in ContextMenu.jsx: nothing if it is disabled
pub entry_actions : Entry → List Action
unfolding vias
entry_actions divider = []
entry_actions (choice true a) = []
entry_actions (choice false none) = []
entry_actions (choice false (some a)) = a ∷ []
entry_actions (submenu is) = vias (targets is)

pub actions : List Entry → List Action
unfolding entry_actions
actions [] = []
actions (e ∷ es) = entry_actions e ++ actions es

-- The button of a protocol, which is disabled for a connection that was revoked.
pub protocol_button : Row → Protocol → Option Action
protocol_button r p =
    if r.connection.share_revoked
    then none
    else if r.connecting_protocol p
    then some (cancel p)
    else some (open_protocol p)

-- the other buttons
pub button : Row → Action → Option Action
button r a = if r.connecting then none else some a

pub opens : Action → Bool
opens (open_protocol p) = true
opens open_new = true
opens open_default = true
opens (open_via c) = true
opens _ = false

abbrev pub same_protocol : Protocol → Protocol → Bool
same_protocol ssh ssh = true
same_protocol vnc vnc = true
same_protocol novnc novnc = true
same_protocol rdp rdp = true
same_protocol _ _ = false

pub opens_with : Protocol → Action → Bool
opens_with p (open_protocol q) = same_protocol q p
opens_with p _ = false
