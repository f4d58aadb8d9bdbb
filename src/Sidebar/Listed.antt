-- ===== src/Sidebar/Listed.antt =====
-- Which connections the side bar lists.
use condui.Prelude.{
  if◌then◌else◌, Option, none, some, ℕ, String, Bool, false, ◌||◌, ◌&&◌, List, [], ◌∷◌, ◌++◌,
  str_eq, any,
}
use condui.Prelude.Text.{includes_text, codes, is_empty}
use condui.Sidebar.{Connection, Folder, Section, sections, is_ungrouped, is_in, Bar}

-- A folder shows its connections only while it is open.
of_sections : List Section → List Connection
of_sections [] = []
of_sections (s ∷ ss) = (if s.is_open then s.connections else []) ++ of_sections ss

-- the connections that the side bar shows
pub listed : Bar → List Connection
unfolding of_sections
listed b = of_sections b.sections ++ b.ungrouped

-- a folder that is open
abbrev pub is_open : List String → Folder → Bool
is_open expanded f = any (λ i. str_eq i f.id) expanded

-- the search finds a connection by its name, and without a text every one
abbrev has_name : (List ℕ → List ℕ) → List ℕ → Option String → Bool
has_name lower_case query none = false
has_name lower_case query (some n) = includes_text query (lower_case (codes n))

abbrev pub is_found : (List ℕ → List ℕ) → String → Connection → Bool
is_found lower_case wanted c =
    is_empty (codes wanted) || has_name lower_case (lower_case (codes wanted)) c.name

abbrev pub is_shown : List String → List Folder → Connection → Bool
is_shown expanded fs c = is_ungrouped c || any (λ f. is_open expanded f && is_in f c) fs
