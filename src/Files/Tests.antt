-- ===== src/Files/Tests.antt =====
-- Runs of the tree, and the theorems at concrete paths and editors.
use condui.Prelude.{
  any, ◌≤◌, ◌==◌, Option, map, ◌++◌, ℕ, length, true, false, none, some, [], ◌∷◌, refl, List, ◌+◌,
  String, true, false, none, some, [], ◌∷◌, ◌≡◌, ◌≢◌, ◌⊎◌, refl, arith, eq_iff, take, if◌then◌else◌,
  lookup,
}
use condui.Prelude.Text.{starts_with, trim, is_empty, codes}
use condui.Panel.{Sign, sign}
use condui.Files.Order.{File, Order, by_size, extension}
use condui.Files.Rename.{
  folder_of, Item, Prompt, file_name, rename_file, confirm, rename, confirm-rename_file,
}
use condui.Files.Removal.{
  count, Removal, World, here, next, asks, confirms, confirm_delete, close, deleted, delete_file,
  done, failed, Reach-IsSingle,
}
use condui.Files.Path.{parts, pop, parent, crumb, slash}
use condui.Files.Edits.{written, Editor, saved, close_editor, edit, open_file}
use condui.Files.Upload.{upload_all, upload_all_lem, upload_error, mentions}
use condui.Files.Saving.{get_language, is_image, Saving, init, show_file, handle_save}
use condui.Files.Walk.{parent_lem}
use condui.Files.Saved.{Act, edits, answers, act_all, saved_lem}

-- Doubled slashes are dropped.
up_one : parent (codes "/srv//www/") ≡ some (codes "/srv")
unfolding parent
up_one = refl

abbrev started : Editor
started = record {
  is_open = false;
  path = "";
  content = "";
  modified = false;
  asks = false;
  server = ("/a", "old") ∷ [];
}

abbrev edited : Editor
edited = record started { is_open = true; path = "/a"; content = "new"; modified = true }

edited_by_hand : edit "new" (open_file "/a" "old" started) ≡ edited
unfolding edit open_file
edited_by_hand = refl

parent_lem_example :
    (parent (codes "/srv/www") ≡ some (codes "/srv")
      → parts (codes "/srv") ≡ pop (parts (codes "/srv/www")))
    × (parent (codes "/srv/www") ≡ none → codes "/srv/www" ≡ slash ∷ [])
    × (parts (crumb 0 (codes "/srv/www")) ≡ take (0 + 1) (parts (codes "/srv/www")))
parent_lem_example = parent_lem (codes "/srv/www") (codes "/srv") 0

abbrev acts : List Act
acts = edits "newer" ∷ answers "/b" "x" ∷ []

saved_lem_example :
    let w = act_all acts (written "/a" "new" edited) in
    let s = saved "/a" "new" w in
    ((s.content ≡ w.content) × (s.path ≡ w.path) × (s.server ≡ w.server))
    × (s.modified ≡ false → (w.modified ≡ false) ⊎ (lookup w.path s.server ≡ some w.content))
    × (let l = saved "/a" "new" (written "/a" "old" (written "/a" "new" edited)) in
        (l.modified ≡ false) × (l.content ≡ "new") × (lookup "/a" l.server ≡ some "old"))
    × (edited.modified ≡ true
        → ((close_editor edited).content ≡ "new")
          × ((close_editor edited).modified ≡ true)
          × ((close_editor edited).asks ≡ true))
saved_lem_example = saved_lem "/a" "new" "old" acts edited

older_text : "old" ≢ edited.content
older_text e = ground (arith, eq_iff "old" "new")

abbrev length_sign : List ℕ → List ℕ → Sign
length_sign a b = sign (length a) (length b)

abbrev docs : File
docs = record { name = b'd' ∷ []; is_directory = true; size = 4096; time = 0 }

abbrev notes : File
notes = record { name = b'n' ∷ b'.' ∷ b't' ∷ []; is_directory = false; size = 10; time = 5 }

abbrev size_down : Order
size_down = record { key = by_size; ascending = false }

extension_run : extension (λ s. s) notes.name ≡ b't' ∷ []
unfolding extension
extension_run = refl

abbrev home_file : List ℕ
home_file = b'/' ∷ b'a' ∷ b'/' ∷ b'f' ∷ []

abbrev prompt : Prompt
prompt = record {
  item = some (record { path = home_file; name = file_name home_file });
  value = file_name home_file;
}

abbrev home_item : Item
home_item = record { path = home_file; name = file_name home_file }

confirm-rename_file_example :
    let new = folder_of home_file ++ b'/' ∷ trim (b'z' ∷ []) in
    (rename_file home_item none
      ≡ some (record { item = some home_item; value = file_name home_file }))
    × (any (λ d. d == b'/') home_file ≡ true
        → trim (file_name home_file) ≡ file_name home_file
        → is_empty (file_name home_file) ≡ false
        → (confirm (b'/' ∷ []) (rename_file home_item none)).1 ≡ some (rename home_file home_file))
    × (is_empty (trim (b'z' ∷ [])) ≡ true
        → confirm (b'/' ∷ []) (some (record { item = some home_item; value = b'z' ∷ [] }))
          ≡ (none, none))
    × (is_empty (trim (b'z' ∷ [])) ≡ false
        → any (λ d. d == b'/') (trim (b'z' ∷ [])) ≡ false
        → ((confirm (b'/' ∷ []) (some (record { item = some home_item; value = b'z' ∷ [] }))).1
            ≡ some (rename home_file new))
          × (folder_of new ≡ folder_of home_file)
          × (file_name new ≡ trim (b'z' ∷ [])))
confirm-rename_file_example = confirm-rename_file (b'/' ∷ []) home_file (b'z' ∷ []) none

abbrev at_rest : Removal
at_rest = record { target = none; response = none; deleting = false; percent = none }

abbrev running_world : World
running_world = record {
  removal = (confirm_delete (delete_file "/a" at_rest)).0;
  running = "/a" ∷ [];
}

Reach-IsSingle_example :
    ((length running_world.running ≤ 1)
      × (length running_world.running ≡ count running_world.removal.deleting))
    × (running_world.removal.deleting ≡ true
        → (confirm_delete running_world.removal ≡ (running_world.removal, none))
          × (close running_world.removal ≡ running_world.removal))
    × (running_world.removal.deleting ≡ false
        → (confirm_delete running_world.removal).1 ≡ running_world.removal.target)
    × (let f = deleted (failed "denied") running_world.removal in
        (f.response ≡ some "denied")
        × (f.target ≡ running_world.removal.target)
        × (f.deleting ≡ false)
        × ((confirm_delete f).1 ≡ running_world.removal.target))
    × (let d = deleted done running_world.removal in (d.target ≡ none) × (d.deleting ≡ false))
unfolding confirm_delete delete_file
Reach-IsSingle_example =
    Reach-IsSingle {session = "s1"} {r = at_rest} "denied" refl
      (next (next here (asks "/a")) confirms)

-- two files, of which the second is refused
abbrev drops : List (String × Option String)
drops = ("/a", none) ∷ ("/b", some "no space") ∷ []

upload_all_run : (upload_all drops).uploaded ≡ "/a" ∷ []
unfolding upload_all
upload_all_run = refl

upload_all_lem_example :
    (rest : List (String × Option String)) × (drops
      ≡ map (λ p. (p, none)) (upload_all drops).uploaded ++ rest)
    × (((upload_all drops).refreshes ≡ true) × (rest ≡ []) × ((upload_all drops).notice ≡ none)
        ⊎ ((p m : String) × (qs : List (String × Option String)) × (rest ≡ (p, some m) ∷ qs)
            × ((upload_all drops).refreshes ≡ false)
            × ((upload_all drops).notice
                ≡ (if mentions "transferencia cancelada" m then none else some (upload_error m)))))
upload_all_lem_example = upload_all_lem drops

language_run :
    (get_language (λ s. s) (codes "/srv/.env.local") ≡ "dotenv")
    × (get_language (λ s. s) (codes "/srv/main.go") ≡ "go")
    × (is_image (λ s. s) (codes "logo.svg") ≡ true)
unfolding get_language is_image starts_with
language_run = (refl, refl, refl)

-- a save of the first file that ends while the second one is shown
abbrev two_files : Saving
two_files = show_file (handle_save true init)
