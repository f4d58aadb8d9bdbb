-- ===== src/VncView.antt =====
-- The screen of a VNC session: components/vnc/VNCView.jsx. The socket and the VNC client send
-- events, in any order; of the client only those are taken that come after it was made.
pub mod Sound
mod Tests
use condui.Prelude.{ℕ, ◌+◌, Bool, true, false, ◌||◌, List, [], ◌∷◌, if◌then◌else◌}

pub data Status : Type 0 where
  connecting connected disconnected error : Status

-- `marks` counts how often the tab was marked as disconnected, `closes` the calls of `closeVNC`;
-- `timer` is whether the timeout is still to come.
pub record View : Type 0 where
  pub status : Status
  pub disposed : Bool
  pub finished : Bool
  pub viewer : Bool
  pub timer : Bool
  pub marks : ℕ
  pub closes : ℕ

abbrev pub init : View
init = record {
  status = connecting;
  disposed = false;
  finished = false;
  viewer = false;
  timer = true;
  marks = 0;
  closes = 0;
}

-- `previous === "error" ? previous : state`, where a session that ends cleanly is disconnected
abbrev pub end_status : Bool → Status → Status
end_status clean error = error
end_status true connecting = disconnected
end_status true connected = disconnected
end_status true disconnected = disconnected
end_status false connecting = error
end_status false connected = error
end_status false disconnected = error

pub finish : Bool → View → View
finish clean v = if v.disposed || v.finished then v else record v {
  finished = true;
  timer = false;
  status = end_status clean v.status;
  marks = v.marks + 1;
  closes = v.closes + 1;
}

-- the end of the effect, which comes once
pub dispose : View → View
dispose v =
    if v.disposed then v else record v { disposed = true; timer = false; closes = v.closes + 1 }

-- The events: `opens` with whether the client could be made, and the two that tell whether the
-- session ended cleanly.
pub data Event : Type 0 where
  timeout : Event
  opens : Bool → Event
  connect : Event
  disconnect : Bool → Event
  security_failure : Event
  socket_error : Event
  socket_close : Bool → Event
  unmount : Event

made : Bool → View → View
unfolding finish
made true v = record v { viewer = true }
made false v = finish false v

connected_on : Bool → View → View
connected_on true v = record v { timer = false }
connected_on false v = record v { timer = false; status = connected }

pub on_event : Event → View → View
unfolding finish dispose made connected_on
on_event timeout v = if v.timer then finish false (record v { timer = false }) else v
on_event (opens ok) v = if v.disposed then v else made ok v
on_event connect v = if v.viewer then connected_on v.disposed v else v
on_event (disconnect clean) v = if v.viewer then finish clean v else v
on_event security_failure v = if v.viewer then finish false v else v
on_event socket_error v = finish false v
on_event (socket_close clean) v = finish clean v
on_event unmount v = dispose v

pub run : List Event → View → View
unfolding on_event
run [] v = v
run (e ∷ es) v = run es (on_event e v)
