-- ===== src/LogViewer/Level.antt =====
-- `detectLevel` of logviewer.js: the first level word of a line.
use condui.Prelude.{
  ℕ, String, Bool, true, false, not, ◌&&◌, ◌||◌, Option, none, some, List, [], ◌∷◌, ◌==◌, leb, find,
  map,
}
use condui.Prelude.Text.{codes, lower}

pub data Word : Type 0 where
  fatal error err warning warn wrn detail info inf log debug trace : Word

-- the alternatives of the pattern, in their order
abbrev pub words : List Word
words = fatal ∷ error ∷ err ∷ warning ∷ warn ∷ wrn ∷ detail ∷ info ∷ inf ∷ log ∷ debug ∷ trace ∷ []

abbrev pub letters : Word → List ℕ
letters fatal = codes "fatal"
letters error = codes "error"
letters err = codes "err"
letters warning = codes "warning"
letters warn = codes "warn"
letters wrn = codes "wrn"
letters detail = codes "detail"
letters info = codes "info"
letters inf = codes "inf"
letters log = codes "log"
letters debug = codes "debug"
letters trace = codes "trace"

-- `\w`
pub is_word_char : ℕ → Bool
is_word_char c =
    (leb 48 c && leb c 57) || (leb 65 c && leb c 90) || c == 95 || (leb 97 c && leb c 122)

-- Matching is done on the text in lower case: the flag `i`.
pub ends_word : List ℕ → List ℕ → Bool
unfolding is_word_char
ends_word [] [] = true
ends_word [] (c ∷ cs) = not (is_word_char c)
ends_word (n ∷ ns) [] = false
ends_word (n ∷ ns) (c ∷ cs) = n == c && ends_word ns cs

-- The word that starts here: `inside` says that the character before is one of a word, so that
-- there is no boundary.
pub word_here : Bool → List ℕ → Option Word
unfolding ends_word
word_here true cs = none
word_here false cs = find (λ w. ends_word (letters w) cs) words

or_next : Option Word → Option Word → Option Word
or_next none o = o
or_next (some w) o = some w

pub first_word : Bool → List ℕ → Option Word
unfolding word_here or_next
first_word inside [] = word_here inside []
first_word inside (c ∷ cs) = or_next (word_here inside (c ∷ cs)) (first_word (is_word_char c) cs)

pub record Badge : Type 0 where
  pub display : String
  pub style : String

-- the `switch`
unfoldable pub level_of : Word → Badge
level_of fatal = record { display = "FATL"; style = "level-error" }
level_of error = record { display = "ERRO"; style = "level-error" }
level_of err = record { display = "ERRO"; style = "level-error" }
level_of warning = record { display = "WARN"; style = "level-warning" }
level_of warn = record { display = "WARN"; style = "level-warning" }
level_of wrn = record { display = "WARN"; style = "level-warning" }
level_of detail = record { display = "WARN"; style = "level-warning" }
level_of info = record { display = "INFO"; style = "level-info" }
level_of inf = record { display = "INFO"; style = "level-info" }
level_of log = record { display = "INFO"; style = "level-info" }
level_of debug = record { display = "DEBG"; style = "level-debug" }
level_of trace = record { display = "TRCE"; style = "level-trace" }

unfoldable pub level_of_found : Option Word → Option Badge
unfolding level_of
level_of_found none = none
level_of_found (some w) = some (level_of w)

unfoldable pub detect_level : List ℕ → Option Badge
unfolding level_of_found
detect_level text = level_of_found (first_word false (map lower text))
