-- ===== src/Lib.antt =====
-- The frontend of condui, a client for SSH, VNC, noVNC and RDP sessions, as React components and
-- modules of JavaScript under ssh-gui/frontend/src. The development models the logic that the
-- components keep in state and in module variables; what they draw is left out.
--
-- The parts and their files, with paths below ssh-gui/frontend/src:
--   Window: inAppWindow.js and components/InAppWindow.jsx, the list of windows inside the app.
--     `open_window`, `close`, `close_session`, `back` are openInAppWindow, closeInAppWindow,
--     closeSessionWindows and __conduiBack over a store of the module's variables. The app closes
--     a session's windows when it closes the session's tab.
--   RdpInput: components/rdp/rdpInput.js, the queue between the canvas and the backend. A `Pad` is
--     the closure of bindRDPInput, with one function for each listener. The chain of promises is
--     the list of the batches that were handed over, and the animation frame a flag.
--   RdpView: components/rdp/RDPView.jsx, the frames of a remote desktop: one is decoded at a time
--     and the latest one waits. Its `fails` event is the failure that RdpInput reports.
--   ConnectionForm: components/connections/connectionForm.js, the access methods of a connection
--     and the form that its editor starts from.
--   ConnectionModal: components/connections/ConnectionModal.jsx, the editor: `set` and
--     `set_desktop` change a field and forget the test that it makes stale, `save` validates.
--   Sessions: App.jsx, the tabs, terminals and paths of the sessions. A handler that awaits the
--     backend is a function up to the await (`close_request`, `open_request`) and one from there
--     on (`close_answer`, `open_answer`, `via_answer`, `local_answer`, `reconnect_answer`,
--     `delete_answer`), which takes what its closure captured as `Seen`; so that orders in which
--     the backend answers are compositions. Terminals form a store of entries under session ids.
--   Files: components/files/RemoteFileTree.jsx, the paths of the tree (Files/Path) and the editor
--     of a file (Files/Edits), where the write of a save and its answer are two steps; the order of
--     the list (Order), the prompt for a name (Rename) and the deletion of an item (Removal).
--   Panel: components/BottomPanel.jsx, the log and the transfers (Events), the
--     tabs (Tabs), what each of them loads (Fetch), the rows (Lists) and the dialog of a tunnel.
--   Sidebar: the list of connections of App.jsx, components/connections/ConnectionNode.jsx and
--     ContextMenu.jsx: search and folders, the menu of a connection (Menu) and its submenu (Via).
--   Sharing: App.jsx, the invitations (Invites) and the synchronization (Sync), and
--     components/account/ShareModal.jsx (Sent). Files/Upload: the uploads of App.jsx.
--   DbExplorer: components/DbExplorer.jsx, the tree of a database (Tree) and its queries (Query).
--   Docker: components/docker, the groups of containers (Groups), the selection of what is deleted
--     (Selection) and the changes, one at a time (Changes).
--   VncView: components/vnc/VNCView.jsx, the end of a session and of its view (Sound).
--     Files/Saving: components/editor/RemoteFileEditorModal.jsx.
--   TunnelEditor: components/connections/ConnectionTunnels.jsx, the tunnels in the form of a
--     connection (Ports).
--   Unlock: components/connections/UnlockPendingConnectionModal.jsx, what is left (Left).
--   Vault: components/account/VaultUnlock.jsx, the start (Guard).
--   LogViewer: ssh-gui/backend/weblog/assets/logviewer.js (from the repository's root), the page of
--     a log: LogViewer/Escape is escapeHtml, LogViewer/Timestamp extractTimestamp with its
--     patterns as a data type and their matcher, LogViewer/Level detectLevel; the parent renders a
--     line and handles the events of the page.
--   Services: hooks/useTunnels.js (Services/Tunnels), hooks/useResponseAction.js (Services/Action),
--     services/theme.js (Services/Theme), fmtUptime of components/resourceFormat.js
--     (Services/Uptime).
--   Prelude: lists, dictionaries and texts that the parts share.
--
-- Numbers are natural numbers, integers where a difference or a coordinate may be negative; a
-- JavaScript number of a form is a whole number or anything else. All loops are recursions on a
-- list, so that no fuel is needed. Texts are compared by their code points.
--
-- Parameters: the comparison of texts and toLowerCase are arguments of Panel's comparisons, and the
-- browser's URL parser is an argument of the validation in ConnectionModal. In Unlock it is an
-- argument whether the backend takes a password for a connection; in Vault, the length of a
-- text. The backend's answer to a call is an argument of the function that continues after the await.
--
-- Not modelled: the backend in Go, the remote desktop bridge, styles, translations and builds; the
-- markup of the components; the account; the menu of the file list; the
-- rows of the explorer of containers.
pub mod Prelude
pub mod ConnectionForm
pub mod ConnectionModal
pub mod RdpInput
pub mod Sessions
pub mod Window
pub mod LogViewer
pub mod Services
pub mod RdpView
pub mod Files
pub mod Sidebar
pub mod TunnelEditor
pub mod Unlock
pub mod Vault
pub mod VncView
pub mod Docker
pub mod Sharing
pub mod DbExplorer
pub mod Panel
