-- ===== src/LogViewer.antt =====
-- ssh-gui/backend/weblog/assets/logviewer.js: the page that shows the lines of a log as they come.
pub mod Escape
pub mod Level
pub mod Timestamp
pub mod Lines
pub mod Markup
mod Tests
use condui.Prelude.{
  ℕ, zero, suc, ◌+◌, String, Bool, true, false, Option, none, some, List, [], ◌∷◌, ◌++◌, str_eq,
  if◌then◌else◌,
}
use condui.Prelude.Text.{codes}
use Escape.{escape_html}
use Level.{Badge, detect_level}
use Timestamp.{Stamp, extract_timestamp}

pub render_stamp : Option (List ℕ) → List ℕ
render_stamp none = []
render_stamp (some ts) = codes "<span class=\"timestamp\">" ++ escape_html ts ++ codes "</span> "

pub render_level : Option Badge → List ℕ
render_level none = []
render_level (some l) =
    codes "<span class=\"" ++ codes l.style ++ codes "\">[" ++ codes l.display ++ codes "]</span> "

pub render_parts : Stamp → List ℕ
unfolding render_stamp render_level
render_parts ts =
    render_stamp ts.timestamp
    ++ render_level (detect_level ts.remainder)
    ++ codes "<span class=\"message\">"
    ++ escape_html ts.remainder
    ++ codes "</span>"

-- `renderLogLine`
pub render_log_line : List ℕ → List ℕ
unfolding render_parts
render_log_line raw = render_parts (extract_timestamp raw)

-- The page: `lines` are the children of `logs`, oldest first, `scrolls` counts the jumps to the
-- end, and `is_open` says that the event source delivers.
pub record Page : Type 0 where
  pub lines : List (List ℕ)
  pub line_count : ℕ
  pub following : Bool
  pub button_shown : Bool
  pub stopped : Bool
  pub is_open : Bool
  pub scrolls : ℕ

-- the page after it was loaded
abbrev pub init : Page
init = record {
  lines = [];
  line_count = 0;
  following = true;
  button_shown = false;
  stopped = false;
  is_open = true;
  scrolls = 0;
}

pub data PageEvent : Type 0 where
  message : String → PageEvent
  failure clear follow : PageEvent
  scroll : Bool → PageEvent

pub append_line : List ℕ → Page → Page
append_line html p = record p {
  lines = p.lines ++ html ∷ [];
  line_count = p.line_count + 1;
  scrolls = if p.following then p.scrolls + 1 else p.scrolls;
}

-- `onmessage`; a closed event source delivers nothing
pub on_message : String → Page → Page
unfolding append_line
on_message text p =
    if p.is_open
    then if str_eq text "__END__"
      then record p { is_open = false; stopped = true }
      else append_line (render_log_line (codes text)) p
    else p

-- one event; that of `scroll` says whether the view is at the bottom
pub step : PageEvent → Page → Page
unfolding on_message
step (message text) p = on_message text p
step failure p = record p { stopped = true }
step clear p = record p { lines = []; line_count = 0 }
step follow p = record p { following = true; button_shown = false; scrolls = p.scrolls + 1 }
step (scroll at_bottom) p = record p {
  following = at_bottom;
  button_shown = if at_bottom then false else true;
}

pub run : List PageEvent → Page → Page
unfolding step
run [] p = p
run (e ∷ es) p = run es (step e p)
