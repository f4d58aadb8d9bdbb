-- ===== src/Sidebar.antt =====
-- The list of connections: the side bar of App.jsx, and components/connections/ConnectionNode.jsx.
-- `toLowerCase` is a parameter, on code points.
pub mod Via
pub mod Menu
pub mod Listed
mod Tests
use condui.Prelude.{
  ℕ, String, Bool, true, false, not, ◌||◌, ◌&&◌, Option, none, some, List, [], ◌∷◌, ◌++◌, ◌≡◌, refl,
  str_eq, if◌then◌else◌, filter, any, concat, map,
}
use condui.Prelude.Text.{codes, is_empty, includes_text, trim}
use condui.ConnectionForm.{Access}

-- `none` is a field that is missing.
pub record Connection : Type 0 where
  pub id : String
  pub name : Option String
  pub folder_id : Option String
  pub access : Access
  pub share_revoked : Bool
  pub password_pending : Bool

pub record Folder : Type 0 where
  pub id : String
  pub name : String

pub record Invite : Type 0 where
  pub id : String
  pub owner : Option String
  pub permissions : Option String

abbrev is_no_text : String → Bool
is_no_text s = is_empty (codes s)

-- `text?.toLowerCase().includes(query)`, for a query in lower case
mentions : (List ℕ → List ℕ) → List ℕ → Option String → Bool
mentions lower_case query none = false
mentions lower_case query (some s) = includes_text query (lower_case (codes s))

-- `filtered`
pub filtered : (List ℕ → List ℕ) → String → List Connection → List Connection
unfolding mentions
filtered lower_case search cs =
    filter (λ c. is_no_text search || mentions lower_case (lower_case (codes search)) c.name) cs

-- `filteredInvites`
pub filtered_invites : (List ℕ → List ℕ) → String → List Invite → List Invite
unfolding mentions trim
filtered_invites lower_case search is =
    let query = lower_case (trim (codes search)) in
    filter
      (λ i.
        is_empty query
        || mentions lower_case query i.owner
        || mentions lower_case query i.permissions)
      is

-- `!c.folderId || c.folderId === ""`, and `c.folderId === folder.id`
pub is_ungrouped : Connection → Bool
is_ungrouped c = elim c.folder_id [ none ↦ true | some f ↦ is_no_text f ]

pub is_in : Folder → Connection → Bool
is_in f c = elim c.folder_id [ none ↦ false | some k ↦ str_eq k f.id ]

-- A folder with its connections, and whether it is open.
pub record Section : Type 0 where
  pub folder : Folder
  pub is_open : Bool
  pub connections : List Connection

pub section : List String → List Connection → Folder → Section
unfolding is_in
section expanded cs f = record {
  folder = f;
  is_open = any (λ i. str_eq i f.id) expanded;
  connections = filter (is_in f) cs;
}

-- The sections of the folders: while something is searched for, those with a connection.
pub sections : String → List String → List Connection → List Folder → List Section
unfolding section
sections search expanded cs [] = []
sections search expanded cs (f ∷ fs) =
    let rest = sections search expanded cs fs in
    if is_empty (filter (is_in f) cs) && not (is_no_text search)
    then rest
    else section expanded cs f ∷ rest

-- The side bar: the invitations, the sections, the connections without a folder, and whether it
-- says that there is nothing.
pub record Bar : Type 0 where
  pub invites : List Invite
  pub sections : List Section
  pub ungrouped : List Connection
  pub nothing : Bool

pub bar :
    (List ℕ → List ℕ) → String → List String → List Invite → List Folder → List Connection → Bar
unfolding filtered filtered_invites sections is_ungrouped
bar lower_case search expanded is fs cs =
    let shown = filtered lower_case search cs in
    let invites = filtered_invites lower_case search is in
    record {
      invites = invites;
      sections = sections search expanded shown fs;
      ungrouped = filter is_ungrouped shown;
      nothing = is_empty shown && is_empty invites;
    }

-- `onToggleFolder`
pub toggle_folder : String → List String → List String
toggle_folder id expanded =
    if any (λ i. str_eq i id) expanded
    then filter (λ i. not (str_eq i id)) expanded
    else expanded ++ id ∷ []

-- the effect on the invitations
pub expand_invites : List Invite → List String → List String
expand_invites [] expanded = expanded
expand_invites (_ ∷ _) expanded =
    if any (λ i. str_eq i "__pending_invites") expanded
    then expanded
    else expanded ++ "__pending_invites" ∷ []
