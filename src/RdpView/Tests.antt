-- ===== src/RdpView/Tests.antt =====
-- Runs of the view, and the theorems at concrete frames.
use condui.Prelude.{ℕ, none, some, List, [], ◌∷◌, ◌≡◌, ◌≢◌, ◌⊎◌, refl, get_last?}
use condui.RdpView.{Frame, Event, receives, loads, init, run}
use condui.RdpView.Order.{IsOrdered, run-IsOrdered}
use condui.RdpView.Latest.{run-shows_latest}

abbrev frame : ℕ → Frame
frame n = record { session_id = "s1"; sequence = n; image = "png"; cursor = none }

-- The second frame is replaced by the third while the first one is decoded.
abbrev events : List Event
events = receives (frame 1) ∷ receives (frame 2) ∷ receives (frame 3) ∷ loads ∷ loads ∷ []

two_painted : (run "s1" events init).painted ≡ 1 ∷ 3 ∷ []
unfolding run
two_painted = refl

init-IsOrdered : IsOrdered init
init-IsOrdered = record { painted = tt; taken = tt; decoding = λ f q. cc; pending = λ f q. cc }

run-IsOrdered_example : IsOrdered (run "s1" events init)
run-IsOrdered_example = run-IsOrdered "s1" events init-IsOrdered

run-shows_latest_example :
    ((f : Frame) → (run "s1" events init).pending ≢ some f)
    × (((run "s1" events init).sequence ≡ 0)
        ⊎ (get_last? (run "s1" events init).painted ≡ some (run "s1" events init).sequence))
unfolding run
run-shows_latest_example = run-shows_latest "s1" events refl refl
