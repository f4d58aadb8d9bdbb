-- ===== src/Files/Edits.antt =====
-- The editor of a file and its unsaved changes.
use condui.Prelude.{String, Bool, true, false, ◌&&◌, str_eq, if◌then◌else◌, Dict, insert}

-- `server` is the content of the remote files.
pub record Editor : Type 0 where
  pub is_open : Bool
  pub path : String
  pub content : String
  pub modified : Bool
  pub asks : Bool
  pub server : Dict String

abbrev pub closed : Editor → Editor
closed e = record e { is_open = false; path = ""; content = ""; modified = false }

-- `openFile` after the backend read the file
unfoldable pub open_file : String → String → Editor → Editor
open_file path content e = record e {
  is_open = true;
  path = path;
  content = content;
  modified = false;
}

unfoldable pub edit : String → Editor → Editor
edit content e = record e { content = content; modified = true }

-- the backend writes what `saveEditor` sent, and later the rest of `saveEditor` runs
unfoldable pub written : String → String → Editor → Editor
written path content e = record e { server = insert path content e.server }

unfoldable pub saved : String → String → Editor → Editor
saved path content e =
    if str_eq e.path path && str_eq e.content content then record e { modified = false } else e

unfoldable pub close_editor : Editor → Editor
close_editor e = if e.modified then record e { asks = true } else closed e

unfoldable pub discard : Editor → Editor
discard e = record (closed e) { asks = false }

-- `saveAndCloseEditor` after its save, of the path and content of its render, was answered
unfoldable pub save_and_close : String → String → Editor → Editor
unfolding saved
save_and_close path content e = record (closed (saved path content e)) { asks = false }
