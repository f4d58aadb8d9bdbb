-- ===== src/Files/Path.antt =====
-- The path of the tree, as code points: its parts, its parent and the entries of the breadcrumb.
use condui.Prelude.{
  ℕ, ◌+◌, Bool, false, not, Option, none, some, List, [], ◌∷◌, ◌++◌, ◌==◌, if◌then◌else◌, filter,
  take,
}
use condui.Prelude.Text.{is_empty, trim}

abbrev pub slash : ℕ
slash = b'/'

unfoldable pub cons_part : ℕ → List (List ℕ) → List (List ℕ)
cons_part c [] = (c ∷ []) ∷ []
cons_part c (p ∷ ps) = (c ∷ p) ∷ ps

-- `path.split("/")`
unfoldable pub split : List ℕ → List (List ℕ)
unfolding cons_part
split [] = [] ∷ []
split (c ∷ cs) = let rest = split cs in if c == slash then [] ∷ rest else cons_part c rest

-- `.filter(Boolean)`
unfoldable pub parts : List ℕ → List (List ℕ)
unfolding split
parts path = filter (λ p. not (is_empty p)) (split path)

-- `parts.join("/")`
unfoldable pub join : List (List ℕ) → List ℕ
join [] = []
join (p ∷ []) = p
join (p ∷ q ∷ ps) = p ++ slash ∷ join (q ∷ ps)

unfoldable pub path_of : List (List ℕ) → List ℕ
unfolding join
path_of ps = slash ∷ join ps

-- `parts.pop()`
unfoldable pub pop : List (List ℕ) → List (List ℕ)
pop [] = []
pop (p ∷ []) = []
pop (p ∷ q ∷ ps) = p ∷ pop (q ∷ ps)

unfoldable pub is_root : List ℕ → Bool
is_root [] = false
is_root (c ∷ []) = c == slash
is_root (_ ∷ _ ∷ _) = false

-- `goParent`: the path that is loaded, if any
unfoldable pub parent : List ℕ → Option (List ℕ)
unfolding is_root path_of pop parts
parent path = if is_root path then none else some (path_of (pop (parts path)))

-- The breadcrumb's entry of a number loads the path up to it.
unfoldable pub crumb : ℕ → List ℕ → List ℕ
unfolding path_of parts
crumb i path = path_of (take (i + 1) (parts path))

-- `confirmTextPrompt`: the path of a new folder in the folder that is shown, `none` for a blank
-- name
unfoldable pub new_folder : List ℕ → List ℕ → Option (List ℕ)
unfolding is_root
new_folder path value =
    if is_empty (trim value)
    then none
    else some (if is_root path then slash ∷ trim value else path ++ slash ∷ trim value)
