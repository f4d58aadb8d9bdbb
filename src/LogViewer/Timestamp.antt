-- ===== src/LogViewer/Timestamp.antt =====
-- `extractTimestamp` of logviewer.js: eight patterns, of which the first that matches counts.
use condui.Prelude.{
  subst, ◌&&◌, ℕ, zero, suc, Bool, ◌||◌, Option, none, some, List, [], ◌∷◌, ◌++◌, ◌≡◌, refl, arith,
  ◌==◌, leb, if◌then◌else◌, length, append_assoc,
}
use condui.Prelude.Text.{trim}

-- The part of regular expressions that the patterns use. A class that repeats is disjoint from
-- what follows it, so that a match never has to give characters back.
pub data Pattern : Type 0 where
  empty : Pattern
  char many : (ℕ → Bool) → Pattern
  seq either : Pattern → Pattern → Pattern

abbrev pub Match : Type 0
Match = Option (List ℕ × List ℕ)

match_char : (ℕ → Bool) → List ℕ → Match
match_char p [] = none
match_char p (c ∷ cs) = if p c then some (c ∷ [], cs) else none

pub span : (ℕ → Bool) → List ℕ → List ℕ × List ℕ
span p [] = ([], [])
span p (c ∷ cs) = let rest = span p cs in if p c then (c ∷ rest.0, rest.1) else ([], c ∷ cs)

after : List ℕ → Match → Match
after a none = none
after a (some (b, r)) = some (a ++ b, r)

or_else : Match → Match → Match
or_else none o = o
or_else (some x) o = some x

and_then : Match → (List ℕ → Match) → Match
unfolding after
and_then none f = none
and_then (some (a, r)) f = after a (f r)

-- what a pattern matches at the start of a text, and the text after it
unfoldable pub match_start : Pattern → List ℕ → Match
unfolding match_char span or_else and_then
match_start empty cs = some ([], cs)
match_start (char p) cs = match_char p cs
match_start (many p) cs = some (span p cs)
match_start (seq m n) cs = and_then (match_start m cs) (λ r. match_start n r)
match_start (either m n) cs = or_else (match_start m cs) (match_start n cs)

span-parts : (p : ℕ → Bool) (cs : List ℕ) → (span p cs).0 ++ (span p cs).1 ≡ cs
unfolding span
span-parts p [] = refl
span-parts p (c ∷ cs) = ground (arith, span-parts p cs)

after_parts :
    (b s cs a r : List ℕ) (o : Match)
    → b ++ s ≡ cs
    → ((d u : List ℕ) → o ≡ some (d, u) → d ++ u ≡ s)
    → after b o ≡ some (a, r)
    → a ++ r ≡ cs
unfolding after
after_parts b s cs a r none e k h = cc
after_parts b s cs a r (some (d, u)) e k h = ground (arith, k d u refl, append_assoc b d u)

and_then-parts :
    (o : Match) (f : List ℕ → Match) (cs a r : List ℕ)
    → ((b s : List ℕ) → o ≡ some (b, s) → b ++ s ≡ cs)
    → ((s d u : List ℕ) → f s ≡ some (d, u) → d ++ u ≡ s)
    → and_then o f ≡ some (a, r)
    → a ++ r ≡ cs
unfolding and_then
and_then-parts none f cs a r k l h = cc
and_then-parts (some (b, s)) f cs a r k l h = after_parts b s cs a r (f s) (k b s refl) (l s) h

or_else_parts :
    (o o' : Match) (cs a r : List ℕ)
    → (o ≡ some (a, r) → a ++ r ≡ cs)
    → (o' ≡ some (a, r) → a ++ r ≡ cs)
    → or_else o o' ≡ some (a, r)
    → a ++ r ≡ cs
unfolding or_else
or_else_parts none o' cs a r k k' h = k' h
or_else_parts (some x) o' cs a r k k' h = k h

-- A match and the text after it are the text.
pub match_start-parts :
    (m : Pattern) (cs a r : List ℕ) → match_start m cs ≡ some (a, r) → a ++ r ≡ cs
unfolding match_start match_char
match_start-parts empty cs a r h = ground arith
match_start-parts (char p) [] a r h = cc
match_start-parts (char p) (c ∷ cs) a r h = ground arith
match_start-parts (many p) cs a r h = ground (arith, span-parts p cs)
match_start-parts (seq m n) cs a r h =
    and_then-parts (match_start m cs) (λ s. match_start n s) cs a r (match_start-parts m cs)
      (match_start-parts n) h
match_start-parts (either m n) cs a r h =
    or_else_parts (match_start m cs) (match_start n cs) cs a r (match_start-parts m cs a r)
      (match_start-parts n cs a r) h

-- `\d`, and a given character
abbrev is_digit : ℕ → Bool
is_digit c = leb 48 c && leb c 57

abbrev digits : ℕ → Pattern
digits zero = empty
digits (suc n) = seq (char is_digit) (digits n)

abbrev lit : ℕ → Pattern
lit k = char (λ c. c == k)

abbrev optional : Pattern → Pattern
optional m = either m empty

abbrev some_of : (ℕ → Bool) → Pattern
some_of p = seq (char p) (many p)

-- `\d{2}:\d{2}` and `(?:\.\d+)?`
abbrev hour_minute : Pattern
hour_minute = seq (digits 2) (seq (lit b':') (digits 2))

abbrev time : Pattern
time =
    seq hour_minute (seq (lit b':') (seq (digits 2) (optional (seq (lit b'.') (some_of is_digit)))))

-- `\d{4}-\d{2}-\d{2}`, with the separator given
abbrev date : ℕ → Pattern
date k = seq (digits 4) (seq (lit k) (seq (digits 2) (seq (lit k) (digits 2))))

abbrev zone : Pattern
zone = either (lit b'Z') (seq (char (λ c. c == b'+' || c == b'-')) hour_minute)

abbrev noon : Pattern
noon = either (seq (lit b'A') (lit b'M')) (seq (lit b'P') (lit b'M'))

-- the class `[0-9:\-T.Z+]`
abbrev in_stamp : ℕ → Bool
in_stamp c =
    is_digit c || c == b':' || c == b'-' || c == b'T' || c == b'.' || c == b'Z' || c == b'+'

-- the patterns that begin with `^`, in their order
abbrev pub anchored : List Pattern
anchored =
    seq (date b'-') (seq (char (λ c. c == b' ' || c == b'T')) (seq time (optional zone)))
    ∷ time
    ∷ seq (lit b'[') (seq (some_of in_stamp) (lit b']'))
    ∷ seq (date b'-') (seq (lit b' ') time)
    ∷ seq (date b'.') (seq (lit b' ') time)
    ∷ date b'-'
    ∷ seq (date b'/') (seq (lit b' ') (seq hour_minute (optional noon)))
    ∷ []

-- the last pattern, which does not begin with `^`
abbrev pub bracketed : Pattern
bracketed = seq (lit b'[') (
    seq (some_of (λ c. is_digit c || c == b'-')) (
      seq (lit b' ') (
        seq (some_of (λ c. is_digit c || c == b':' || c == b'.'))
          (seq (lit b' ') (seq (some_of (λ c. is_digit c || c == b'+')) (lit b']'))))))

-- the first pattern of a list that matches at the start, and the first match at any place
unfoldable pub first_match : List Pattern → List ℕ → Match
unfolding or_else
first_match [] cs = none
first_match (m ∷ ms) cs = or_else (match_start m cs) (first_match ms cs)

pub search_for : Pattern → List ℕ → Match
unfolding or_else
search_for m [] = match_start m []
search_for m (c ∷ cs) = or_else (match_start m (c ∷ cs)) (search_for m cs)

pub record Stamp : Type 0 where
  pub timestamp : Option (List ℕ)
  pub remainder : List ℕ

-- `text.substring(n)`
pub drop : ℕ → List ℕ → List ℕ
drop zero cs = cs
drop (suc n) [] = []
drop (suc n) (c ∷ cs) = drop n cs

stamp_of : List ℕ → Match → Stamp
unfolding drop
stamp_of text none = record { timestamp = none; remainder = text }
stamp_of text (some (a, r)) = record { timestamp = some a; remainder = trim (drop (length a) text) }

unfoldable pub extract_timestamp : List ℕ → Stamp
unfolding stamp_of first_match search_for
extract_timestamp text =
    stamp_of text (or_else (first_match anchored text) (search_for bracketed text))

drop-append : (a r : List ℕ) → drop (length a) (a ++ r) ≡ r
unfolding drop
drop-append [] r = refl
drop-append (c ∷ a) r = drop-append a r

first_match-parts :
    (ms : List Pattern) (cs a r : List ℕ) → first_match ms cs ≡ some (a, r) → a ++ r ≡ cs
unfolding first_match
first_match-parts [] cs a r h = cc
first_match-parts (m ∷ ms) cs a r h =
    or_else_parts (match_start m cs) (first_match ms cs) cs a r (match_start-parts m cs a r)
      (first_match-parts ms cs a r) h

-- If one of the patterns that are anchored at the start matches, then the timestamp is the start
-- of the line and the remainder is the rest of it, without the white space around it: nothing of
-- the line is lost or shown twice. A line in which no pattern matches is shown as it is.
pub extract_timestamp_lem :
    (text a r : List ℕ)
    → (first_match anchored text ≡ some (a, r)
        → (a ++ r ≡ text)
          × (extract_timestamp text ≡ record { timestamp = some a; remainder = trim r }))
      × (first_match anchored text ≡ none
          → search_for bracketed text ≡ none
          → extract_timestamp text ≡ record { timestamp = none; remainder = text })
unfolding extract_timestamp stamp_of or_else
extract_timestamp_lem text a r = (
  λ h.
      let parts : a ++ r ≡ text = first_match-parts anchored text a r h in
      let rest : drop (length a) text ≡ r =
        subst (λ t. drop (length a) t ≡ r) parts (drop-append a r) in
      (parts, rw (h, rest) refl),
  λ h k. rw (h, k) refl,
)
