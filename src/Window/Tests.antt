-- ===== src/Window/Tests.antt =====
-- Runs of the window state, and the theorems at concrete states.
use condui.Prelude.{String, false, none, some, [], ◌∷◌, map, ◌≡◌, ◌≢◌, refl, length}
use condui.Window.{Spec, Store, init, open_window, close_session, back, key_of}
use condui.Window.Valid.{
  IsValid, here, next, opens, ends_session, Reach-IsValid, init-IsValid, open_window-IsValid,
}
use condui.Window.Close.{back_all, presses}

abbrev docker : String → Spec
docker id = record {
  kind = "docker-explorer";
  title = "Docker";
  session_id = some id;
  url = none;
  key = none;
}

abbrev two : Store
two = open_window (docker "s2") (open_window (docker "s1") init)

two-IsValid : IsValid two
two-IsValid = open_window-IsValid (docker "s2") (open_window-IsValid (docker "s1") init-IsValid)

two_ids : map (λ w. w.id) two.state.windows ≡ 1 ∷ 2 ∷ []
unfolding open_window key_of
two_ids = refl

two-ne-empty : two.state.windows ≢ []
unfolding open_window key_of
two-ne-empty = λ e. cc

close_first : (close_session "s1" two).state.active_id ≡ some 2
unfolding close_session open_window key_of
close_first = refl

back_keeps_first : map (λ w. w.id) (back two).1.state.windows ≡ 1 ∷ []
unfolding back open_window key_of
back_keeps_first = refl

Reach-IsValid_example : IsValid (close_session "s1" (open_window (docker "s1") init))
Reach-IsValid_example = Reach-IsValid (next (next here (opens (docker "s1"))) (ends_session "s1"))

back_all_example :
    ((presses (length two.state.windows) two).state.windows ≡ [])
    × ((presses (length two.state.windows) two).state.active_id ≡ none)
    × (back (presses (length two.state.windows) two)
        ≡ (false, presses (length two.state.windows) two))
back_all_example = back_all two two-IsValid
