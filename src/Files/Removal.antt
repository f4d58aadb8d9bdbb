-- ===== src/Files/Removal.antt =====
-- The deletion of a file, in RemoteFileTree.jsx: the question, its progress and its answer.
use condui.Prelude.{
  List, [], ◌∷◌, ◌++◌, length, suc, sym, ◌≤◌, arith, ap, ◌∙◌, Bool-cases, inl, inr, if_intro, ℕ,
  String, Bool, true, false, ◌≡◌, Option, none, some, refl, if◌then◌else◌, str_eq, ◌&&◌,
}

-- The state of the question: `target` is the path of the item that was asked about.
pub record Removal : Type 0 where
  pub target : Option String
  pub response : Option String
  pub deleting : Bool
  pub percent : Option ℕ

-- `deleteFile`
unfoldable pub delete_file : String → Removal → Removal
delete_file path r = record r { response = none; target = some path }

confirm_on : Option String → Removal → Removal × Option String
confirm_on none r = (r, none)
confirm_on (some path) r =
    if r.deleting
    then (r, none)
    else (record r { response = none; deleting = true; percent = none }, some path)

-- `confirmDeleteFile` up to its await: the path that the backend is asked to delete
unfoldable pub confirm_delete : Removal → Removal × Option String
unfolding confirm_on
confirm_delete r = confirm_on r.target r

-- what its listener does with a report of progress, about a path in a session
pub progress : String → String → String → String → ℕ → Removal → Removal
progress session path s p n r =
    if str_eq s session && str_eq p path then record r { percent = some n } else r

pub data Answer : Type 0 where
  done : Answer
  failed : String → Answer

-- The rest of it. The list is loaded again on either answer.
pub deleted : Answer → Removal → Removal
deleted done r = record r { percent = some 100; target = none; deleting = false }
deleted (failed m) r = record r { response = some m; deleting = false }

-- the dialog's `onClose` and its button
pub close : Removal → Removal
close r = if r.deleting then r else record r { target = none }

-- What happens in a session: `running` are the paths of the deletions that have not come back,
-- each of which listens to its progress. Another item can be asked about at any time.
pub record World : Type 0 where
  pub removal : Removal
  pub running : List String

abbrev pub begin : Option String → List String → List String
begin none paths = paths
begin (some path) paths = path ∷ paths

pub data Step (session : String) : World → World → Type 0 where
  asks :
      {r : Removal} {running : List String} (path : String)
      → Step session
          (record { removal = r; running = running })
          (record { removal = delete_file path r; running = running })
  closes :
      {r : Removal} {running : List String}
      → Step session
          (record { removal = r; running = running })
          (record { removal = close r; running = running })
  confirms :
      {r : Removal} {running : List String}
      → Step session
          (record { removal = r; running = running })
          (record { removal = (confirm_delete r).0; running = begin (confirm_delete r).1 running })
  reports :
      {r : Removal} (before after : List String) (path s p : String) (n : ℕ)
      → Step session
          (record { removal = r; running = before ++ path ∷ after })
          (record { removal = progress session path s p n r; running = before ++ path ∷ after })
  answers :
      {r : Removal} (before after : List String) (path : String) (a : Answer)
      → Step session
          (record { removal = r; running = before ++ path ∷ after })
          (record { removal = deleted a r; running = before ++ after })

abbrev pub count : Bool → ℕ
count true = 1
count false = 0

-- One deletion runs while the component says so, and else none.
pub record IsSingle (w : World) : Type 0 where
  pub running : length w.running ≡ count w.removal.deleting

confirm_on-count :
    (t : Option String) (r : Removal) (running : List String)
    → length running ≡ count r.deleting
    → length (begin (confirm_on t r).1 running) ≡ count (confirm_on t r).0.deleting
unfolding confirm_on
confirm_on-count none r running h = h
confirm_on-count (some p) r running h = elim (Bool-cases r.deleting) [
  | inl k ↦ rw k (h ∙ ap count k)
  | inr k ↦ let z : length running ≡ 0 = h ∙ ap count k in rw k (ap (λ n. suc n) z)
]

progress_keeps :
    (session path s p : String) (n : ℕ) (r : Removal)
    → (progress session path s p n r).deleting ≡ r.deleting
unfolding progress
progress_keeps session path s p n r =
    if_intro (λ (q : Removal). q.deleting ≡ r.deleting) (str_eq s session && str_eq p path)
      (λ _. refl) (λ _. refl)

close_keeps : (r : Removal) → (close r).deleting ≡ r.deleting
unfolding close
close_keeps r =
    if_intro (λ (q : Removal). q.deleting ≡ r.deleting) r.deleting (λ _. refl) (λ _. refl)

-- when one of at most one ends, none is left
last_one :
    (before after : List String) (path : String) (b : Bool)
    → length (before ++ path ∷ after) ≡ count b
    → length (before ++ after) ≡ 0
last_one [] after path true h = ground (arith, h)
last_one [] after path false h = ground (arith, h)
last_one (x ∷ []) after path true h = ground (arith, h)
last_one (x ∷ []) after path false h = ground (arith, h)
last_one (x ∷ y ∷ before) after path true h = ground (arith, h)
last_one (x ∷ y ∷ before) after path false h = ground (arith, h)

step-IsSingle : {session : String} {u v : World} → IsSingle u → Step session u v → IsSingle v
unfolding delete_file deleted confirm_delete
step-IsSingle h (asks path) = record { running = h.running }
step-IsSingle h (closes {r}) = record { running = h.running ∙ ap count (sym (close_keeps r)) }
step-IsSingle h (confirms {r} {running}) = record {
  running = confirm_on-count r.target r running h.running;
}
step-IsSingle {session} h (reports {r} before after path s p n) = record {
  running = h.running ∙ ap count (sym (progress_keeps session path s p n r));
}
step-IsSingle h (answers {r} before after path done) = record {
  running = last_one before after path r.deleting h.running;
}
step-IsSingle h (answers {r} before after path (failed m)) = record {
  running = last_one before after path r.deleting h.running;
}

pub data Reach (session : String) (u : World) : World → Type 0 where
  here : Reach session u u
  next : {v w : World} → Reach session u v → Step session v w → Reach session u w

IsSingle-Reach : {session : String} {u v : World} → IsSingle u → Reach session u v → IsSingle v
IsSingle-Reach h here = h
IsSingle-Reach h (next r s) = step-IsSingle (IsSingle-Reach h r) s

-- A confirmation while a deletion runs changes nothing; else the item that is asked about is
-- deleted.
confirm_on_lem :
    (t : Option String) (r : Removal)
    → r.target ≡ t
    → (r.deleting ≡ true → confirm_on t r ≡ (r, none))
      × (r.deleting ≡ false → (confirm_on t r).1 ≡ r.target)
unfolding confirm_on
confirm_on_lem none r e = (λ _. refl, λ _. sym e)
confirm_on_lem (some p) r e = (λ d. rw d refl, λ d. rw d (sym e))

-- In every state that the dialog reaches from one in which nothing is deleted, whatever is asked,
-- confirmed, closed, reported and answered: at most one deletion runs, and the dialog says so
-- exactly while it runs. Meanwhile a confirmation and closing do nothing; at another time a
-- confirmation deletes the item that is asked about. When a deletion fails the question stays,
-- with the error, and can be confirmed again; when it succeeds the dialog closes.
pub Reach-IsSingle :
    {session : String} {r : Removal} {w : World} (m : String)
    → r.deleting ≡ false
    → Reach session (record { removal = r; running = [] }) w
    → ((length w.running ≤ 1) × (length w.running ≡ count w.removal.deleting))
      × (w.removal.deleting ≡ true
          → (confirm_delete w.removal ≡ (w.removal, none)) × (close w.removal ≡ w.removal))
      × (w.removal.deleting ≡ false → (confirm_delete w.removal).1 ≡ w.removal.target)
      × (let f = deleted (failed m) w.removal in
          (f.response ≡ some m)
          × (f.target ≡ w.removal.target)
          × (f.deleting ≡ false)
          × ((confirm_delete f).1 ≡ w.removal.target))
      × (let d = deleted done w.removal in (d.target ≡ none) × (d.deleting ≡ false))
unfolding deleted close confirm_delete
Reach-IsSingle {r} {w} m n reach =
    let h = IsSingle-Reach (record { running = sym (ap count n) }) reach in
    (
      (at_most w.removal.deleting h.running, h.running),
      λ d. ((confirm_on_lem _ w.removal refl).0 d, rw d refl),
      (confirm_on_lem _ w.removal refl).1,
      (refl, refl, refl, (confirm_on_lem _ (deleted (failed m) w.removal) refl).1 refl),
      (refl, refl),
    )
  where
    at_most : (b : Bool) → length w.running ≡ count b → length w.running ≤ 1
    at_most true z = ground (arith, z)
    at_most false z = ground (arith, z)
