-- ===== src/LogViewer/Escape.antt =====
-- `escapeHtml` of logviewer.js, over code points.
use condui.Prelude.{
  not, ◌&&◌, ℕ, Bool, true, List, [], ◌∷◌, ◌++◌, ◌≡◌, refl, ◌∙◌, arith, ◌==◌, if◌then◌else◌,
  append_assoc,
}
use condui.Prelude.Text.{codes, all}

-- `str.replaceAll(c, r)` for a needle of one character
pub replace_all : ℕ → List ℕ → List ℕ → List ℕ
replace_all c r [] = []
replace_all c r (x ∷ xs) = let rest = replace_all c r xs in if x == c then r ++ rest else x ∷ rest

pub escape_html : List ℕ → List ℕ
unfolding replace_all
escape_html s = replace_all 39 (codes "&#039;") (
    replace_all 34 (codes "&quot;") (
      replace_all 62 (codes "&gt;")
        (replace_all 60 (codes "&lt;") (replace_all 38 (codes "&amp;") s))))

-- the text that stands for one character
pub entity : ℕ → List ℕ
entity c =
    if c == 38
    then codes "&amp;"
    else if c == 60
    then codes "&lt;"
    else if c == 62
    then codes "&gt;"
    else if c == 34
    then codes "&quot;"
    else if c == 39
    then codes "&#039;"
    else c ∷ []

-- each character replaced by its entity, in one pass
pub entities : List ℕ → List ℕ
unfolding entity
entities [] = []
entities (c ∷ cs) = entity c ++ entities cs

replace_all-append :
    (c : ℕ) (r xs ys : List ℕ)
    → replace_all c r (xs ++ ys) ≡ replace_all c r xs ++ replace_all c r ys
unfolding replace_all
replace_all-append c r [] ys = refl
replace_all-append c r (x ∷ xs) ys =
    ground (
      arith,
      replace_all-append c r xs ys,
      append_assoc r (replace_all c r xs) (replace_all c r ys),
    )

escape_html-append : (xs ys : List ℕ) → escape_html (xs ++ ys) ≡ escape_html xs ++ escape_html ys
unfolding escape_html
escape_html-append xs ys =
    rw
      (
        replace_all-append, replace_all-append, replace_all-append, replace_all-append,
        replace_all-append,
      )
      refl

escape_html-one : (c : ℕ) → escape_html (c ∷ []) ≡ entity c
unfolding escape_html entity replace_all
escape_html-one c = ground arith

-- The five replacements one after another, each over the whole text, do the same as replacing
-- every character by its entity in one pass: no replacement touches what another one wrote.
pub escape_html-entities : (s : List ℕ) → escape_html s ≡ entities s
unfolding entities
escape_html-entities [] = unfold escape_html in refl
escape_html-entities (c ∷ cs) =
    escape_html-append (c ∷ []) cs ∙ rw (escape_html-one, escape_html-entities cs) refl

-- neither of the characters that open or close a tag or an attribute's value
abbrev pub is_inert : ℕ → Bool
is_inert c = not (c == 60) && not (c == 62) && not (c == 34) && not (c == 39)

all-append :
    (p : ℕ → Bool) (xs ys : List ℕ) → all p xs ≡ true → all p ys ≡ true → all p (xs ++ ys) ≡ true
all-append p [] ys h k = k
all-append p (x ∷ xs) ys h k = ground (arith, all-append p xs ys)

all-entity : (c : ℕ) → all is_inert (entity c) ≡ true
unfolding entity
all-entity c = ground arith

all-entities : (s : List ℕ) → all is_inert (entities s) ≡ true
unfolding entities
all-entities [] = refl
all-entities (c ∷ cs) =
    all-append is_inert (entity c) (entities cs) (all-entity c) (all-entities cs)

-- Whatever a line holds, its escaped form has no character that opens or closes a tag or an
-- attribute's value.
pub all-escape_html : (s : List ℕ) → all is_inert (escape_html s) ≡ true
all-escape_html s = rw (escape_html-entities s) (all-entities s)
