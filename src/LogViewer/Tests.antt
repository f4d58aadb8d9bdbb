-- ===== src/LogViewer/Tests.antt =====
-- Runs of the log page, and the theorems at concrete lines.
use condui.Prelude.{ℕ, some, List, ◌≡◌, refl}
use condui.Prelude.Text.{codes, trim}
use condui.LogViewer.{render_log_line}
use condui.LogViewer.Level.{detect_level}
use condui.LogViewer.Timestamp.{match_start, extract_timestamp, first_match, anchored}
use condui.LogViewer.Markup.{tokens, line_elements, tokens-render_log_line}

abbrev line : List ℕ
line = codes "13:45:21 ERROR <b>"

-- The time at the start of the line is found.
timed : first_match anchored line ≡ some (codes "13:45:21", codes " ERROR <b>")
unfolding first_match match_start
timed = refl

-- The last pattern is not anchored: what it cuts off is not what it found.
cut_wrongly :
    (extract_timestamp (codes "job [2026-05-07 09:16:49 +0000] done")).remainder ≡ codes "000] done"
unfolding extract_timestamp match_start trim
cut_wrongly = refl

tokens-render_log_line_example :
    tokens (render_log_line line)
    ≡ line_elements
        (extract_timestamp line).timestamp
        (detect_level (extract_timestamp line).remainder)
        (extract_timestamp line).remainder
tokens-render_log_line_example = tokens-render_log_line line
