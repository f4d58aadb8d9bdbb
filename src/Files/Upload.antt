-- ===== src/Files/Upload.antt =====
-- Uploads to the folder that is shown, in App.jsx: by the button, and of files that are dropped.
use condui.Prelude.{
  ◌⊎◌, inl, inr, String, Bool, true, false, not, ◌≡◌, Option, none, some, List, [], ◌∷◌, ◌++◌, ◌||◌,
  refl, filter, map, if◌then◌else◌, ap,
}
use condui.Prelude.Text.{codes, is_empty, includes_text}

-- what a handler ends with
pub data Notice : Type 0 where
  select_session : Notice
  upload_error : String → Notice

-- The active tab, if any, and of which type it is.
pub record Active : Type 0 where
  pub session : Option String
  pub is_local : Bool
  pub is_desktop : Bool

has_session : Option String → Bool
has_session none = false
has_session (some s) = not (is_empty (codes s))

-- `fileTreeRef.current?.currentPath || "/"`
pub remote_path : Option String → String
remote_path none = "/"
remote_path (some p) = if is_empty (codes p) then "/" else p

pub mentions : String → String → Bool
mentions part m = includes_text (codes part) (codes m)

-- What came of a call: nothing, or the message of its error.
pub record Ended : Type 0 where
  pub uploaded : List String
  pub refreshes : Bool
  pub notice : Option Notice

-- `uploadFile` after its guard, by what the call comes back with
pub upload_answered : Option String → Ended
unfolding mentions
upload_answered none = record { uploaded = []; refreshes = true; notice = none }
upload_answered (some m) = record {
  uploaded = [];
  refreshes = false;
  notice = if mentions "cancelad" m then none else some (upload_error m);
}

-- `uploadFile`
pub upload_file : Active → Option String → Ended
unfolding has_session upload_answered
upload_file a answer =
    if not (has_session a.session) || a.is_desktop
    then record { uploaded = []; refreshes = false; notice = some select_session }
    else upload_answered answer

-- the paths of a drop, with what each upload comes back with if it is begun
unfoldable pub upload_all : List (String × Option String) → Ended
unfolding mentions
upload_all [] = record { uploaded = []; refreshes = true; notice = none }
upload_all ((p, some m) ∷ ps) = record {
  uploaded = [];
  refreshes = false;
  notice = if mentions "transferencia cancelada" m then none else some (upload_error m);
}
upload_all ((p, none) ∷ ps) =
    let rest = upload_all ps in record rest { uploaded = p ∷ rest.uploaded }

abbrev is_named : String × Option String → Bool
is_named p = not (is_empty (codes p.0))

-- the handler of `remote-files-dropped`, for a drop on the list of files
pub dropped : Active → List (String × Option String) → Ended
unfolding has_session upload_all
dropped a files =
    if not (has_session a.session) || a.is_local || a.is_desktop
    then record { uploaded = []; refreshes = false; notice = some select_session }
    else if is_empty (filter is_named files)
    then record { uploaded = []; refreshes = false; notice = none }
    else upload_all (filter is_named files)

-- Files are uploaded one after the other up to the first that fails: what was uploaded is a part
-- of the list from its start, each file of it without an error. The list of files is loaded again
-- exactly if none failed; otherwise the error of the first that failed is told, unless it says
-- that the transfer was cancelled, and what was uploaded before it is not shown.
pub upload_all_lem :
    (ps : List (String × Option String))
    → (rest : List (String × Option String)) × (ps
        ≡ map (λ p. (p, none)) (upload_all ps).uploaded ++ rest)
      × (((upload_all ps).refreshes ≡ true) × (rest ≡ []) × ((upload_all ps).notice ≡ none)
          ⊎ ((p m : String) × (qs : List (String × Option String)) × (rest ≡ (p, some m) ∷ qs)
              × ((upload_all ps).refreshes ≡ false)
              × ((upload_all ps).notice ≡ (
                  if mentions "transferencia cancelada" m then none else some (upload_error m)))))
unfolding upload_all
upload_all_lem [] = ([], refl, inl (refl, refl, refl))
upload_all_lem ((p, some m) ∷ ps) = ((p, some m) ∷ ps, refl, inr (p, m, ps, refl, refl, refl))
upload_all_lem ((p, none) ∷ ps) = let h = upload_all_lem ps in (h.0, ap ((p, none) ∷◌) h.1, h.2)
