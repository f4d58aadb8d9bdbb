-- ===== src/Files.antt =====
-- ssh-gui/frontend/src/components/files/RemoteFileTree.jsx: the path that the tree shows and the
-- editor of a remote file.
pub mod Path
pub mod Edits
pub mod Walk
pub mod Saved
pub mod Order
pub mod Removal
pub mod Rename
pub mod Upload
pub mod Saving
mod Tests
