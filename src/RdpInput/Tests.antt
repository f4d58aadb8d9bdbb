-- ===== src/RdpInput/Tests.antt =====
-- Runs of the input queue, and the theorems at concrete inputs.
use condui.Prelude.{
  str_eq, none, if◌then◌else◌, String, true, false, List, [], ◌∷◌, ◌++◌, ◌≡◌, refl, some, length,
  lookup, lookup-empty,
}
use condui.Prelude.Int.{pos, negsuc}
use condui.RdpInput.{
  button, Event, move, release_all, init, Canvas, unicode, KeyEvent, pointer_move, pointer_down,
  key_down, key_up, position, key_inputs, key_name,
}
use condui.RdpInput.Queue.{PadIsValid, here, next, moves, downs, Reach-PadIsValid}
use condui.RdpInput.Order.{
  trace, solid, Arrival, event, frame, settled, arrive_all, events, solid-arrive_all,
}
use condui.RdpInput.Keys.{key_up-key_down, presses, Meanwhile, arrives, downs, meanwhile}

abbrev screen : Canvas
screen = record { width = 1280; height = 720 }

abbrev letter : KeyEvent
letter = record {
  code = "KeyA";
  key = "a";
  is_composing = false;
  ctrl = false;
  alt = false;
  meta = false;
}

-- the same key, let go with the control key held
abbrev letter_up : KeyEvent
letter_up = record {
  code = "KeyA";
  key = "A";
  is_composing = false;
  ctrl = true;
  alt = false;
  meta = false;
}

-- Two moves in a row are one event.
two_moves :
    length (pointer_move screen (pos 9) (pos 9) (pointer_move screen (pos 1) (pos 1) init)).queue
    ≡ 1
unfolding pointer_move
two_moves = refl

-- A key with a modifier is sent by its scan code, and a character beyond 0xffff as two units.
letter_inputs : key_inputs letter ≡ some (unicode 97 ∷ [])
unfolding key_inputs
letter_inputs = refl

clef_inputs : key_inputs (record letter { key = "𝄞" }) ≡ some (unicode 0xd834 ∷ unicode 0xdd1e ∷ [])
unfolding key_inputs
clef_inputs = refl

Reach-PadIsValid_example :
    PadIsValid (pointer_down screen 0 (pos 5) (negsuc 0) (pointer_move screen (pos 5) (pos 5) init))
unfolding pointer_move
Reach-PadIsValid_example =
    Reach-PadIsValid (
      next (next here (moves screen (pos 5) (pos 5) refl)) (downs screen 0 (pos 5) (negsuc 0) refl))

abbrev some_events : List Event
some_events =
    move (position screen (pos 1) (pos 1))
    ∷ release_all
    ∷ move (position screen (pos 2) (pos 2))
    ∷ []

abbrev arrivals : List Arrival
arrivals =
    event (button 0 true (record { x = 1; y = 1 })) ∷ frame ∷ settled false ∷ event release_all ∷ []

solid-arrive_all_example :
    solid (trace (arrive_all arrivals init)) ≡ solid (trace init) ++ solid (events arrivals)
solid-arrive_all_example = solid-arrive_all arrivals init refl

letter_name : key_name letter_up ≡ key_name letter
unfolding key_name
letter_name = refl

-- a button, a repeat of the key, and a frame come in between
abbrev between : List Meanwhile
between =
    arrives (event (button 0 true (record { x = 1; y = 1 }))) ∷ downs letter ∷ arrives frame ∷ []

key_up-key_down_example :
    let q = meanwhile between (key_down letter init) in
    (trace (key_down letter init) ≡ trace init ++ presses true (unicode 97 ∷ []))
    × (trace (key_up letter_up q) ≡ trace q ++ presses false (unicode 97 ∷ []))
    × ((k : String)
        → lookup k (key_up letter_up q).pressed
          ≡ (if str_eq (key_name letter) k then none else lookup k q.pressed))
key_up-key_down_example =
    key_up-key_down letter letter_up between init (unicode 97 ∷ []) refl refl
      (lookup-empty (key_name letter)) letter_inputs letter_name tt
