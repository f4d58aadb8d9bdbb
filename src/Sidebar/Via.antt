-- ===== src/Sidebar/Via.antt =====
-- The submenu of connections to go through: `buildViaSubmenu` of ConnectionNode.jsx.
pub mod Offered
use condui.Prelude.{
  subst, ◌⊎◌, inl, inr, Bool-cases, String, Bool, true, false, not, ◌||◌, ◌&&◌, Option, none, some,
  List, [], ◌∷◌, ◌++◌, ◌≡◌, refl, str_eq, if◌then◌else◌, filter, any, concat, map, any-append,
  append-nil, if_intro, any-filter, arith, eq_iff, ◌∙◌, sym, ap,
}
use condui.Prelude.Text.{codes, is_empty}
use condui.ConnectionForm.{has_ssh}
use condui.Sidebar.{Connection, Folder, is_ungrouped, is_in}

pub data Item : Type 0 where
  header : String → Item
  divider : Item
  entry : Connection → Item

-- the connections that can be gone through
unfoldable pub others : Connection → List Connection → List Connection
unfolding has_ssh
others c cs = filter (λ d. not (str_eq d.id c.id) && has_ssh d.access) cs

pub entries : List Connection → List Item
entries [] = []
entries (c ∷ cs) = entry c ∷ entries cs

-- the items of the folders, and the connections that they list
pub folder_items : List Connection → List Folder → List Item
unfolding entries is_in
folder_items cs [] = []
folder_items cs (f ∷ fs) =
    let rest = folder_items cs fs in
    if is_empty (filter (is_in f) cs)
    then rest
    else header f.name ∷ entries (filter (is_in f) cs) ++ rest

unfoldable pub in_folder : List Connection → List Folder → List Connection
unfolding is_in
in_folder cs [] = []
in_folder cs (f ∷ fs) = filter (is_in f) cs ++ in_folder cs fs

pub includes_id : String → List Connection → Bool
includes_id i cs = any (λ c. str_eq c.id i) cs

pub separated : List Item → List Item
separated [] = []
separated (i ∷ is) = i ∷ is ++ divider ∷ []

-- the connections without a folder
pub left_over : List Connection → List Folder → List Connection
unfolding in_folder includes_id is_ungrouped
left_over cs fs = filter (λ d. is_ungrouped d && not (includes_id d.id (in_folder cs fs))) cs

-- `buildViaSubmenu`; `none` is null
unfoldable pub build_via_submenu : Connection → List Connection → List Folder → Option (List Item)
unfolding others folder_items separated entries left_over
build_via_submenu c cs fs =
    let ds = others c cs in
    let ungrouped = left_over ds fs in
    if is_empty ds
    then none
    else if is_empty ungrouped
    then some (folder_items ds fs)
    else some (separated (folder_items ds fs) ++ entries ungrouped)

-- the connections that a click of an item goes through
unfoldable pub targets : List Item → List Connection
targets [] = []
targets (header s ∷ is) = targets is
targets (divider ∷ is) = targets is
targets (entry c ∷ is) = c ∷ targets is

pub offered : Option (List Item) → List Connection
unfolding targets
offered none = []
offered (some is) = targets is
