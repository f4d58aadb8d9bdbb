-- ===== src/LogViewer/Markup.antt =====
-- The markup of a rendered line is the page's own.
use condui.Prelude.{
  ℕ, Bool, true, false, String, Option, none, some, List, [], ◌∷◌, ◌++◌, ◌≡◌, refl, arith, ◌==◌, ap,
  sym, ◌∙◌, append-nil, append_assoc, if◌then◌else◌,
}
use condui.Prelude.Text.{codes, all}
use condui.LogViewer.Escape.{escape_html, is_inert, all-escape_html}
use condui.LogViewer.Level.{Badge, Word, level_of, detect_level, level_of_found}
use condui.LogViewer.Timestamp.{Stamp, extract_timestamp}
use condui.LogViewer.{render_log_line, render_parts, render_stamp, render_level}

-- What a browser reads: texts, and the tags between them.
pub data Token : Type 0 where
  text : List ℕ → Token
  tag : List ℕ → Token

-- the tokens of a page, from inside a tag or not, with what was read of the token so far
pub tokens_from : Bool → List ℕ → List ℕ → List Token
tokens_from false read [] = text read ∷ []
tokens_from true read [] = tag read ∷ []
tokens_from false read (c ∷ cs) =
    let opened = tokens_from true [] cs in
    let more = tokens_from false (read ++ c ∷ []) cs in
    if c == b'<' then text read ∷ opened else more
tokens_from true read (c ∷ cs) =
    let ended = tokens_from false [] cs in
    let more = tokens_from true (read ++ c ∷ []) cs in if c == b'>' then tag read ∷ ended else more

pub tokens : List ℕ → List Token
unfolding tokens_from
tokens cs = tokens_from false [] cs

-- a text without markup is read as it is
tokens_inert :
    (read cs rest : List ℕ)
    → all is_inert cs ≡ true
    → tokens_from false read (cs ++ rest) ≡ tokens_from false (read ++ cs) rest
unfolding tokens_from
tokens_inert read [] rest h = ap (λ r. tokens_from false r rest) (sym (append-nil read))
tokens_inert read (c ∷ cs) rest h = rw (plain h) (
    tokens_inert (read ++ c ∷ []) cs rest (others h)
    ∙ ap (λ r. tokens_from false r rest) (append_assoc read (c ∷ []) cs))
  where
    plain : all is_inert (c ∷ cs) ≡ true → (c == b'<') ≡ false
    plain k = ground (arith, k)

    others : all is_inert (c ∷ cs) ≡ true → all is_inert cs ≡ true
    others k = ground (arith, k)

-- One element with a text in it, after the text `before`.
abbrev pub element : List ℕ → List ℕ → List ℕ → List Token → List Token
element before start inner rest = text before ∷ tag start ∷ text inner ∷ tag (codes "/span") ∷ rest

abbrev pub class : String → List ℕ
class style = codes "span class=\"" ++ codes style ++ codes "\""

-- The elements of a line; a space stands after those of the time and the level.
abbrev pub message_element : List ℕ → List ℕ → List Token
message_element before message =
    element before (class "message") (escape_html message) (text [] ∷ [])

abbrev pub level_element : List ℕ → Option Badge → List ℕ → List Token
level_element before none message = message_element before message
level_element before (some l) message =
    element before (class l.style) (codes "[" ++ codes l.display ++ codes "]")
      (message_element (codes " ") message)

abbrev pub line_elements : Option (List ℕ) → Option Badge → List ℕ → List Token
line_elements none level message = level_element [] level message
line_elements (some ts) level message =
    element [] (class "timestamp") (escape_html ts) (level_element (codes " ") level message)

tokens_ended :
    (read : List ℕ)
    → tokens_from false read (codes "</span>") ≡ text read ∷ tag (codes "/span") ∷ text [] ∷ []
unfolding tokens_from
tokens_ended read = refl

tokens_message :
    (before message : List ℕ)
    → tokens_from false before
        (codes "<span class=\"message\">" ++ escape_html message ++ codes "</span>")
      ≡ message_element before message
unfolding tokens_from
tokens_message before message =
    let inner : tokens_from false [] (escape_html message ++ codes "</span>")
        ≡ text (escape_html message) ∷ tag (codes "/span") ∷ text [] ∷ [] =
      tokens_inert [] (escape_html message) (codes "</span>") (all-escape_html message)
      ∙ tokens_ended (escape_html message) in
    ap (λ ts. text before ∷ tag (class "message") ∷ ts) inner

tokens_level :
    (before rest : List ℕ) (w : Word)
    → tokens_from false before (render_level (some (level_of w)) ++ rest)
      ≡ element before
          (class (level_of w).style)
          (codes "[" ++ codes (level_of w).display ++ codes "]")
          (tokens_from false (codes " ") rest)
unfolding tokens_from render_level level_of
tokens_level before rest Word.fatal = refl
tokens_level before rest Word.error = refl
tokens_level before rest Word.err = refl
tokens_level before rest Word.warning = refl
tokens_level before rest Word.warn = refl
tokens_level before rest Word.wrn = refl
tokens_level before rest Word.detail = refl
tokens_level before rest Word.info = refl
tokens_level before rest Word.inf = refl
tokens_level before rest Word.log = refl
tokens_level before rest Word.debug = refl
tokens_level before rest Word.trace = refl

abbrev closing : List ℕ → List ℕ
closing message = codes "<span class=\"message\">" ++ escape_html message ++ codes "</span>"

tokens_none :
    (before rest : List ℕ)
    → tokens_from false before (render_level none ++ rest) ≡ tokens_from false before rest
unfolding render_level
tokens_none before rest = refl

tokens_found :
    (before message : List ℕ) (o : Option Word)
    → tokens_from false before (render_level (level_of_found o) ++ closing message)
      ≡ level_element before (level_of_found o) message
unfolding level_of_found
tokens_found before message none =
    tokens_none before (closing message) ∙ tokens_message before message
tokens_found before message (some w) =
    tokens_level before (closing message) w
    ∙ ap
        (element before (class (level_of w).style)
          (codes "[" ++ codes (level_of w).display ++ codes "]"))
        (tokens_message (codes " ") message)

tokens_after :
    (read rest : List ℕ)
    → tokens_from false read (codes "</span> " ++ rest)
      ≡ text read ∷ tag (codes "/span") ∷ tokens_from false (codes " ") rest
unfolding tokens_from
tokens_after read rest = refl

tokens_start :
    (rest : List ℕ)
    → tokens_from false [] (codes "<span class=\"timestamp\">" ++ rest)
      ≡ text [] ∷ tag (class "timestamp") ∷ tokens_from false [] rest
unfolding tokens_from
tokens_start rest = refl

tokens_stamp :
    (ts rest : List ℕ)
    → tokens_from false [] (render_stamp (some ts) ++ rest)
      ≡ element [] (class "timestamp") (escape_html ts) (tokens_from false (codes " ") rest)
unfolding render_stamp
tokens_stamp ts rest =
    ap (tokens_from false []) (append_assoc (codes "<span class=\"timestamp\">") _ rest)
    ∙ tokens_start ((escape_html ts ++ codes "</span> ") ++ rest)
    ∙ ap (λ (xs : List Token). text [] ∷ tag (class "timestamp") ∷ xs)
        (ap (tokens_from false []) (append_assoc (escape_html ts) (codes "</span> ") rest)
          ∙ tokens_inert [] (escape_html ts) (codes "</span> " ++ rest) (all-escape_html ts)
          ∙ tokens_after (escape_html ts) rest)

tokens-detect_level :
    (before message : List ℕ)
    → tokens_from false before (render_level (detect_level message) ++ closing message)
      ≡ level_element before (detect_level message) message
unfolding detect_level
tokens-detect_level before message = tokens_found before message _

tokens_line :
    (o : Option (List ℕ)) (message : List ℕ)
    → tokens_from false []
        (render_stamp o ++ (render_level (detect_level message) ++ closing message))
      ≡ line_elements o (detect_level message) message
tokens_line none message = unfold render_stamp in tokens-detect_level [] message
tokens_line (some ts) message =
    tokens_stamp ts (render_level (detect_level message) ++ closing message)
    ∙ ap (element [] (class "timestamp") (escape_html ts)) (tokens-detect_level (codes " ") message)

regroup : (a b c d e : List ℕ) → a ++ b ++ c ++ d ++ e ≡ a ++ (b ++ (c ++ d ++ e))
regroup a b c d e = simp append_assoc refl

tokens_parts :
    (ts : Stamp)
    → tokens (render_parts ts) ≡ line_elements ts.timestamp (detect_level ts.remainder) ts.remainder
unfolding tokens render_parts
tokens_parts ts =
    ap (tokens_from false []) (
      regroup (render_stamp ts.timestamp) (render_level (detect_level ts.remainder))
        (codes "<span class=\"message\">") (escape_html ts.remainder) (codes "</span>"))
    ∙ tokens_line ts.timestamp ts.remainder

-- Whatever a line of the log holds, a browser reads exactly these elements of its rendering, in
-- this order: one with the escaped timestamp if there is one, one with the level if there is one,
-- and one with the escaped message, which ends the line.
pub tokens-render_log_line :
    (raw : List ℕ)
    → let ts = extract_timestamp raw in
      tokens (render_log_line raw)
      ≡ line_elements ts.timestamp (detect_level ts.remainder) ts.remainder
unfolding render_log_line
tokens-render_log_line raw = tokens_parts (extract_timestamp raw)
