-- ===== src/Files/Rename.antt =====
-- The prompt for a name, in RemoteFileTree.jsx: renaming and making a folder.
use condui.Prelude.{
  Bool-cases, inl, inr, sym, ℕ, true, false, ◌≡◌, Option, none, some, List, [], ◌∷◌, ◌++◌, ◌==◌,
  refl, if◌then◌else◌, any, arith, ap, eq_of_==,
}
use condui.Prelude.Text.{is_empty, trim}
use condui.Files.Path.{slash, new_folder}

-- An item of the list, by its path and its name; the prompt has the item for a renaming.
pub record Item : Type 0 where
  pub path : List ℕ
  pub name : List ℕ

pub record Prompt : Type 0 where
  pub item : Option Item
  pub value : List ℕ

-- `renameFile` and `createFolder`
pub rename_file : Item → Option Prompt → Option Prompt
rename_file i p = some (record { item = some i; value = i.name })

pub create_folder : Option Prompt → Option Prompt
create_folder p = some (record { item = none; value = [] })

-- `path.substring(0, path.lastIndexOf("/"))`, and what follows the last slash
pub folder_of : List ℕ → List ℕ
folder_of [] = []
folder_of (c ∷ cs) = let rest = folder_of cs in if any (λ d. d == slash) cs then c ∷ rest else []

unfoldable pub file_name : List ℕ → List ℕ
file_name [] = []
file_name (c ∷ cs) =
    let rest = file_name cs in
    if any (λ d. d == slash) cs then rest else if c == slash then cs else c ∷ cs

-- what the backend is asked to do
pub data Call : Type 0 where
  rename : List ℕ → List ℕ → Call
  make_directory : List ℕ → Call

new_name : Option Item → List ℕ → List ℕ → Option Call
unfolding folder_of new_folder
new_name (some i) path value =
    if is_empty (trim value)
    then none
    else some (rename i.path (folder_of i.path ++ slash ∷ trim value))
new_name none path value = elim (new_folder path value) [
  | none ↦ none
  | some p ↦ some (make_directory p)
]

abbrev with_call : Prompt → Option Call → Option Prompt × Option Call
with_call p none = (none, none)
with_call p (some call) = (some p, some call)

-- `confirmTextPrompt` up to its await, in the folder that is shown: the prompt that stays, and the
-- call; a blank name closes it. After a call that succeeds the prompt closes.
pub confirm : List ℕ → Option Prompt → Option Prompt × Option Call
unfolding new_name
confirm path none = (none, none)
confirm path (some p) = with_call p (new_name p.item path p.value)

folder-file_name :
    (path : List ℕ)
    → any (λ d. d == slash) path ≡ true
    → folder_of path ++ slash ∷ file_name path ≡ path
unfolding folder_of file_name
folder-file_name [] h = cc
folder-file_name (c ∷ cs) h = elim (Bool-cases (any (λ d. d == slash) cs)) [
  | inl k ↦ rw k (ap (c ∷◌) (folder-file_name cs k))
  | inr k ↦ rw (k, is_slash k) (ap (λ d. d ∷ cs) (sym (eq_of_== c slash (is_slash k))))
]
  where
    is_slash : any (λ d. d == slash) cs ≡ false → (c == slash) ≡ true
    is_slash k = ground (arith, h, k)

any-slash_after : (xs v : List ℕ) → any (λ d. d == slash) (xs ++ slash ∷ v) ≡ true
any-slash_after [] v = refl
any-slash_after (c ∷ cs) v = ground (arith, any-slash_after cs v)

folder_of-concat :
    (xs v : List ℕ) → any (λ d. d == slash) v ≡ false → folder_of (xs ++ slash ∷ v) ≡ xs
unfolding folder_of
folder_of-concat [] v h = rw h refl
folder_of-concat (c ∷ cs) v h = rw (any-slash_after cs v) (ap (c ∷◌) (folder_of-concat cs v h))

file_name-concat :
    (xs v : List ℕ) → any (λ d. d == slash) v ≡ false → file_name (xs ++ slash ∷ v) ≡ v
unfolding file_name
file_name-concat [] v h = rw h refl
file_name-concat (c ∷ cs) v h = rw (any-slash_after cs v) (file_name-concat cs v h)

-- The prompt for renaming an item begins with its name. What is typed, without the space around
-- it, becomes the name in the same folder, if there is no slash in it; nothing typed closes the
-- prompt without a call; and if the name is left as it is, the call renames the item to itself,
-- for a path with a slash and a name without space around it that is not empty.
pub confirm-rename_file :
    (shown : List ℕ) (path value : List ℕ) (q : Option Prompt)
    → let i : Item = record { path = path; name = file_name path } in
      let new = folder_of path ++ slash ∷ trim value in
      (rename_file i q ≡ some (record { item = some i; value = file_name path }))
      × (any (λ d. d == slash) path ≡ true
          → trim (file_name path) ≡ file_name path
          → is_empty (file_name path) ≡ false
          → (confirm shown (rename_file i q)).1 ≡ some (rename path path))
      × (is_empty (trim value) ≡ true
          → confirm shown (some (record { item = some i; value = value })) ≡ (none, none))
      × (is_empty (trim value) ≡ false
          → any (λ d. d == slash) (trim value) ≡ false
          → ((confirm shown (some (record { item = some i; value = value }))).1
              ≡ some (rename path new))
            × (folder_of new ≡ folder_of path)
            × (file_name new ≡ trim value))
unfolding rename_file confirm new_name
confirm-rename_file shown path value q = (
  refl,
  λ h t e. rw (t, e, folder-file_name path h) refl,
  λ b. rw b refl,
  λ b n. (
    rw b refl,
    folder_of-concat (folder_of path) (trim value) n,
    file_name-concat (folder_of path) (trim value) n,
  ),
)
