-- ===== src/RdpView.antt =====
-- ssh-gui/frontend/src/components/rdp/RDPView.jsx: the frames of a remote desktop are decoded one
-- at a time and painted; a newer frame replaces the one that waits.
pub mod Order
pub mod Latest
mod Tests
use condui.Prelude.{
  ℕ, zero, suc, ◌+◌, String, Bool, true, false, not, ◌||◌, Option, none, some, List, [], ◌∷◌, ◌++◌,
  str_eq, leb, if◌then◌else◌,
}

-- An empty `image` is a frame that only sets the cursor.
pub record Frame : Type 0 where
  pub session_id : String
  pub sequence : ℕ
  pub image : String
  pub cursor : Option String

-- The closure of the effect. `decoding` is the frame whose image is loading, `painted` has the
-- numbers of the frames that were drawn, oldest first, and `closes` counts the calls of closeRDP.
pub record View : Type 0 where
  pub disposed : Bool
  pub finished : Bool
  pub drawing : Bool
  pub decoding : Option Frame
  pub pending : Option Frame
  pub sequence : ℕ
  pub painted : List ℕ
  pub cursor : Option String
  pub disconnected : Bool
  pub closes : ℕ

abbrev pub init : View
init = record {
  disposed = false;
  finished = false;
  drawing = false;
  decoding = none;
  pending = none;
  sequence = 0;
  painted = [];
  cursor = none;
  disconnected = false;
  closes = 0;
}

pub finish : View → View
finish v =
    if v.disposed || v.finished
    then v
    else record v { finished = true; disconnected = true; closes = v.closes + 1 }

pub draw_next : Option Frame → View → View
draw_next none v = v
draw_next (some f) v = record v { pending = none; drawing = true; decoding = some f }

pub draw : View → View
unfolding draw_next
draw v = if v.disposed || v.drawing then v else draw_next v.pending v

-- `if (frame.cursor)`
pub set_cursor : Option String → View → View
set_cursor none v = v
set_cursor (some c) v = if str_eq c "" then v else record v { cursor = some c }

pub receive : String → Frame → View → View
unfolding draw set_cursor
receive id f v =
    let w = set_cursor f.cursor v in
    if v.disposed || v.finished || not (str_eq f.session_id id)
    then v
    else if str_eq f.image "" || leb f.sequence v.sequence
    then w
    else draw (record w { sequence = f.sequence; pending = some f })

-- `image.onload` of the frame that is decoded
pub paint : Option Frame → View → View
unfolding draw
paint none v = v
paint (some f) v =
    if v.disposed
    then record v { decoding = none }
    else draw
        (record v { decoding = none; drawing = false; painted = v.painted ++ f.sequence ∷ [] })

pub on_load : View → View
unfolding paint
on_load v = paint v.decoding v

-- `image.onerror`: nothing is drawn any more
pub on_error : View → View
unfolding finish
on_error v = finish (record v { decoding = none })

pub clean_up : View → View
clean_up v = record v { disposed = true; closes = v.closes + 1 }

pub data Event : Type 0 where
  receives : Frame → Event
  loads breaks fails cleans : Event

pub step : String → Event → View → View
unfolding receive on_load on_error clean_up finish
step id (receives f) v = receive id f v
step id loads v = on_load v
step id breaks v = on_error v
step id fails v = finish v
step id cleans v = clean_up v

unfoldable pub run : String → List Event → View → View
unfolding step
run id [] v = v
run id (e ∷ es) v = run id es (step id e v)
