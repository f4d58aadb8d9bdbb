-- ===== src/Window/Open.antt =====
-- What `openInAppWindow` does: a key has one window, which becomes the active one.
use condui.Prelude.{
  ◌+◌, Bool, true, Option, none, some, List, [], ◌∷◌, ◌++◌, ◌≡◌, refl, arith, str_eq, eq_refl, find,
}
use condui.Window.{Spec, Window, Store, key_of, reopen, open_window}

find-concat :
    (p : Window → Bool) (ws : List Window) (w : Window)
    → find p ws ≡ none
    → p w ≡ true
    → find p (ws ++ w ∷ []) ≡ some w
find-concat p [] w n h = rw h
find-concat p (u ∷ us) w n h = ground (arith, find-concat p us w)

find_again :
    (spec : Spec) (s : Store) (o : Option Window)
    → find (λ w. str_eq w.key (key_of spec)) s.state.windows ≡ o
    → (w : Window) × (find
          (λ u. str_eq u.key (key_of spec))
          (reopen spec (key_of spec) o s).state.windows
        ≡ some w)
      × ((reopen spec (key_of spec) o s).state.active_id ≡ some w.id)
unfolding reopen
find_again spec s (some w) e = (w, e, refl)
find_again spec s none e =
    let new : Window = record { id = s.seq + 1; key = key_of spec; spec = spec } in
    (new, find-concat _ s.state.windows new e (eq_refl (key_of spec)), refl)

-- After `openInAppWindow` the key of the spec has a window, and that window is the active one.
pub active-open_window :
    (spec : Spec) (s : Store)
    → (w : Window) × (find (λ u. str_eq u.key (key_of spec)) (open_window spec s).state.windows
        ≡ some w)
      × ((open_window spec s).state.active_id ≡ some w.id)
unfolding open_window
active-open_window spec s = find_again spec s _ refl

reopen_found :
    (spec : Spec) (s : Store) (w : Window)
    → find (λ u. str_eq u.key (key_of spec)) s.state.windows ≡ some w
    → s.state.active_id ≡ some w.id
    → ((open_window spec s).state ≡ s.state) × ((open_window spec s).seq ≡ s.seq)
unfolding open_window reopen
reopen_found spec s w f a = rw f (ground arith, refl)

-- Opening the same spec once more changes neither the windows, nor the active one, nor the counter:
-- the window is found by its key and shown.
pub open_window-open_window :
    (spec : Spec) (s : Store)
    → ((open_window spec (open_window spec s)).state ≡ (open_window spec s).state)
      × ((open_window spec (open_window spec s)).seq ≡ (open_window spec s).seq)
open_window-open_window spec s =
    let (w, f, a) = active-open_window spec s in reopen_found spec (open_window spec s) w f a
