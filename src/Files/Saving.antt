-- ===== src/Files/Saving.antt =====
-- The editor of a remote file: components/editor/RemoteFileEditorModal.jsx, the language of a file
-- and the status of its save. A save belongs to a context, which is a number here: a new one is
-- made when another file is shown.
use condui.Prelude.{
  ℕ, ◌+◌, ◌≤◌, String, Bool, true, false, not, ◌&&◌, ◌||◌, ◌≡◌, List, [], ◌∷◌, ◌==◌, filter, any,
  if◌then◌else◌, All,
}
use condui.Prelude.Text.{codes, starts_with}

last_part : (ℕ → Bool) → List ℕ → List ℕ → List ℕ
last_part p part [] = part
last_part p part (c ∷ cs) = if p c then last_part p cs cs else last_part p part cs

-- `getExtension`, before it is put in lower case
pub get_extension : List ℕ → List ℕ
unfolding last_part
get_extension path = last_part (λ c. c == b'.') path path

same_text : List ℕ → List ℕ → Bool
same_text [] [] = true
same_text (a ∷ x) (b ∷ y) = a == b && same_text x y
same_text [] (b ∷ y) = false
same_text (a ∷ x) [] = false

abbrev languages : List (String × String)
languages =
    ("js", "javascript")
    ∷ ("jsx", "javascript")
    ∷ ("ts", "typescript")
    ∷ ("tsx", "typescript")
    ∷ ("json", "json")
    ∷ ("html", "html")
    ∷ ("css", "css")
    ∷ ("go", "go")
    ∷ ("py", "python")
    ∷ ("java", "java")
    ∷ ("sh", "shell")
    ∷ ("yaml", "yaml")
    ∷ ("yml", "yaml")
    ∷ ("md", "markdown")
    ∷ ("markdown", "markdown")
    ∷ ("sql", "sql")
    ∷ ("xml", "xml")
    ∷ ("env", "dotenv")
    ∷ ("log", "plaintext")
    ∷ ("txt", "plaintext")
    ∷ []

-- the language of an extension
language_in : List (String × String) → List ℕ → String
unfolding same_text
language_in [] e = "plaintext"
language_in ((k, l) ∷ ls) e = if same_text (codes k) e then l else language_in ls e

-- `getLanguage`; `lower_case` is `toLowerCase` on code points
unfoldable pub get_language : (List ℕ → List ℕ) → List ℕ → String
unfolding get_extension language_in starts_with
get_language lower_case path =
    let file_name = lower_case (last_part (λ c. c == b'/' || c == b'\\') path path) in
    if starts_with (codes ".env.") file_name || same_text file_name (codes ".env")
    then "dotenv"
    else language_in languages (lower_case (get_extension path))

-- `isImage`
unfoldable pub is_image : (List ℕ → List ℕ) → List ℕ → Bool
unfolding get_extension same_text
is_image lower_case path =
    any (λ k. same_text (codes k) (lower_case (get_extension path)))
      ("png" ∷ "jpg" ∷ "jpeg" ∷ "gif" ∷ "webp" ∷ "bmp" ∷ "svg" ∷ [])

pub data Status : Type 0 where
  idle saving saved unsaved failed : Status

-- `current` is the context of the file that is shown, `running` those whose save has not ended.
pub record Saving : Type 0 where
  pub current : ℕ
  pub status : Status
  pub running : List ℕ

abbrev pub init : Saving
init = record { current = 0; status = idle; running = [] }

-- the effect when another file is shown
pub show_file : Saving → Saving
show_file s = record s { current = s.current + 1; status = idle }

abbrev pub is_running : ℕ → Saving → Bool
is_running k s = any (λ i. i == k) s.running

-- `handleSave` up to its await, for a file that can be saved, and its end in the context `k`
pub handle_save : Bool → Saving → Saving
handle_save can_save s =
    if not can_save || is_running s.current s
    then s
    else record s { status = saving; running = s.current ∷ s.running }

pub end_status : Bool → Status
end_status true = saved
end_status false = failed

pub save_ended : ℕ → Bool → Saving → Saving
unfolding end_status
save_ended k ok s = record s {
  status = if s.current == k then end_status ok else s.status;
  running = filter (λ i. not (i == k)) s.running;
}

-- the editor's `onChange`: the status goes unless a save of the file runs
pub changed : Saving → Saving
changed s = if is_running s.current s then s else record s { status = idle }

expired : Status → Status
expired saved = idle
expired idle = idle
expired saving = saving
expired unsaved = unsaved
expired failed = failed

-- the timer after a save
pub expire : Saving → Saving
unfolding expired
expire s = record s { status = expired s.status }

-- the status that is shown
pub shown_status : Bool → Status → Status
shown_status modified saving = saving
shown_status modified failed = failed
shown_status modified idle = if modified then unsaved else idle
shown_status modified saved = if modified then unsaved else saved
shown_status modified unsaved = unsaved

pub data Reach : Saving → Type 0 where
  start : Reach init
  shows : {s : Saving} → Reach s → Reach (show_file s)
  saves : {s : Saving} (can_save : Bool) → Reach s → Reach (handle_save can_save s)
  ends :
      {s : Saving} (k : ℕ) (ok : Bool) → is_running k s ≡ true → Reach s → Reach (save_ended k ok s)
  expires : {s : Saving} → Reach s → Reach (expire s)
  changes : {s : Saving} → Reach s → Reach (changed s)

abbrev pub is_saving : Status → Bool
is_saving saving = true
is_saving _ = false

pub record IsTracked (s : Saving) : Type 0 where
  pub known : All (λ k. k ≤ s.current) s.running
  pub tracked : is_saving s.status ≡ is_running s.current s
