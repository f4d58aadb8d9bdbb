-- ===== src/VncView/Tests.antt =====
-- Runs of the screen.
use condui.Prelude.{true, false, [], ◌∷◌, ◌≡◌, ◌≤◌, refl}
use condui.VncView.{
  init, run, on_event, Event, timeout, opens, connect, socket_error, socket_close, unmount, error,
}
use condui.VncView.Sound.{IsSound, is_connecting, run-IsSound}

-- a socket that breaks, closes and is removed
broken : (run (opens true ∷ socket_error ∷ socket_close true ∷ unmount ∷ []) init).closes ≡ 2
unfolding run on_event
broken = refl

run-IsSound_example :
    let v = run (opens true ∷ connect ∷ socket_close true ∷ []) init in
    IsSound v
    × (v.marks ≤ 1)
    × (v.closes ≤ 2)
    × (is_connecting v.status ≡ true
        → v.disposed ≡ false
        → ((on_event timeout v).status ≡ error) × ((on_event timeout v).marks ≡ 1))
    × ((e : Event) → v.disposed ≡ true → (on_event e v).marks ≡ v.marks)
run-IsSound_example = run-IsSound (opens true ∷ connect ∷ socket_close true ∷ [])
