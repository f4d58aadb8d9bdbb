-- ===== src/RdpInput.antt =====
-- ssh-gui/frontend/src/components/rdp/rdpInput.js: the input events of a remote desktop's canvas
-- are collected in a queue and sent in batches.
mod Scans
pub mod Queue
pub mod Order
pub mod Keys
mod Tests
pub use Scans.{scans}
use Prim.Native.Char.{code}
use condui.Prelude.{
  ℕ, zero, suc, ◌+◌, ◌-◌, ◌/◌, ◌%◌, String, Bool, true, false, not, ◌&&◌, ◌||◌, Option, none, some,
  List, [], ◌∷◌, ◌++◌, map, str_eq, ltb, leb, if◌then◌else◌, length, get_last?, Dict, lookup,
  insert, erase,
}
use condui.Prelude.Int.{ℤ, pos, negsuc}

-- One input of a key: a UTF-16 code unit, or a scan code.
pub data Input : Type 0 where
  unicode : ℕ → Input
  scan : ℕ → Input

pub record Point : Type 0 where
  pub x : ℕ
  pub y : ℕ

pub data Event : Type 0 where
  move : Point → Event
  button : ℕ → Bool → Point → Event
  -- `true` scrolls down: a delta of -120
  wheel : Bool → Point → Event
  press : Input → Bool → Event
  release_all : Event

-- The closure's variables: `chain` is the list of batches that the promise chain sends, in order,
-- and `failures` the errors handed to `onFailure`.
pub record Pad : Type 0 where
  pub pressed : Dict (List Input)
  pub queue : List Event
  pub animation : Bool
  pub disposed : Bool
  pub chain : List (List Event)
  pub failures : ℕ

abbrev pub init : Pad
init = record {
  pressed = [];
  queue = [];
  animation = false;
  disposed = false;
  chain = [];
  failures = 0;
}

pub flush_queue : List Event → Pad → Pad
flush_queue [] p = record p { animation = false }
flush_queue (e ∷ es) p = record p {
  animation = false;
  queue = [];
  chain = p.chain ++ (e ∷ es) ∷ [];
}

pub flush : Pad → Pad
unfolding flush_queue
flush p = flush_queue p.queue p

-- A batch of the chain is answered: `catch` reports the error unless the view is gone.
pub settle : Bool → Pad → Pad
settle ok p = if ok || p.disposed then p else record p { failures = p.failures + 1 }

abbrev pub is_move : Event → Bool
is_move (move _) = true
is_move _ = false

-- `event.kind === "move" && queue.at(-1)?.kind === "move"` replaces the last event
pub enqueue : Event → List Event → List Event
enqueue e [] = e ∷ []
enqueue e (d ∷ []) = if is_move e && is_move d then e ∷ [] else d ∷ e ∷ []
enqueue e (d ∷ f ∷ q) = d ∷ enqueue e (f ∷ q)

abbrev pub max_batch : ℕ
max_batch = 128

pub push : Event → Pad → Pad
unfolding flush enqueue
push e p =
    let q = record p { queue = enqueue e p.queue } in
    if p.disposed
    then p
    else if leb max_batch (length q.queue)
    then flush q
    else record q { animation = true }

pub release : Pad → Pad
unfolding push
release p = flush (push release_all (record p { pressed = [] }))

-- `Math.max(0, Math.min(size - 1, Math.floor(…)))`: the argument is the floored coordinate.
pub clamp : ℕ → ℤ → ℕ
clamp size (pos n) = if ltb n (size - 1) then n else size - 1
clamp size (negsuc _) = 0

pub record Canvas : Type 0 where
  pub width : ℕ
  pub height : ℕ

pub position : Canvas → ℤ → ℤ → Point
unfolding clamp
position c x y = record { x = clamp c.width x; y = clamp c.height y }

-- The handlers of pointermove, pointerdown, pointerup and wheel, at the floored coordinates.
pub pointer_move : Canvas → ℤ → ℤ → Pad → Pad
unfolding push position
pointer_move c x y p = push (move (position c x y)) p

pub pointer_down : Canvas → ℕ → ℤ → ℤ → Pad → Pad
unfolding push position
pointer_down c b x y p = if ltb 2 b then p else push (button b true (position c x y)) p

pub pointer_up : Canvas → ℕ → ℤ → ℤ → Pad → Pad
unfolding push position
pointer_up c b x y p = if leb b 2 then push (button b false (position c x y)) p else p

-- `deltaY`
pub wheel_turn : Canvas → ℤ → ℤ → ℤ → Pad → Pad
unfolding push position
wheel_turn c (pos zero) x y p = p
wheel_turn c (pos (suc _)) x y p = push (wheel true (position c x y)) p
wheel_turn c (negsuc _) x y p = push (wheel false (position c x y)) p

pub record KeyEvent : Type 0 where
  pub code : String
  pub key : String
  pub is_composing : Bool
  pub ctrl : Bool
  pub alt : Bool
  pub meta : Bool

-- the code points of a text
abbrev pub code_points : String → List ℕ
code_points String.[] = []
code_points (String.◌∷◌ c s) = code c ∷ code_points s

-- the UTF-16 code units of a code point
pub code_units : ℕ → List ℕ
code_units c =
    if ltb c 0x10000
    then c ∷ []
    else (0xd800 + (c - 0x10000) / 0x400) ∷ (0xdc00 + (c - 0x10000) % 0x400) ∷ []

units : List ℕ → List ℕ
unfolding code_units
units [] = []
units (c ∷ cs) = code_units c ++ units cs

-- `event.code || event.key`
pub key_name : KeyEvent → String
key_name e = if str_eq e.code "" then e.key else e.code

abbrev is_single : List ℕ → Bool
is_single (_ ∷ []) = true
is_single _ = false

pub scan_inputs : Option ℕ → Option (List Input)
scan_inputs none = none
scan_inputs (some c) = if leb c 0 then none else some (scan c ∷ [])

-- The inputs of a key that is not held: its text, or its scan code, or nothing.
pub key_inputs : KeyEvent → Option (List Input)
unfolding units scan_inputs
key_inputs e =
    if is_single (code_points e.key) && not e.ctrl && not e.alt && not e.meta
    then some (map unicode (units (code_points e.key)))
    else scan_inputs (lookup e.code scans)

-- `inputs.forEach(input => push({ ...input, down }))`
pub push_all : Bool → List Input → Pad → Pad
unfolding push
push_all down [] p = p
push_all down (i ∷ is) p = push_all down is (push (press i down) p)

-- a key that is not held: a key without inputs is left to the browser
pub key_down_new : Option (List Input) → String → Pad → Pad
unfolding push_all
key_down_new none k p = p
key_down_new (some inputs) k p =
    push_all true inputs (record p { pressed = insert k inputs p.pressed })

-- the exits of the keydown handler
pub key_down_on : Option (List Input) → KeyEvent → Pad → Pad
unfolding push_all key_down_new
key_down_on (some held) e p = push_all true held p
key_down_on none e p = key_down_new (key_inputs e) (key_name e) p

pub key_down : KeyEvent → Pad → Pad
unfolding key_down_on
key_down e p =
    if e.is_composing || str_eq e.key "Dead"
    then p
    else key_down_on (lookup (key_name e) p.pressed) e p

pub key_up_on : Option (List Input) → String → Pad → Pad
unfolding push_all
key_up_on none k p = p
key_up_on (some inputs) k p = push_all false inputs (record p { pressed = erase k p.pressed })

pub key_up : KeyEvent → Pad → Pad
unfolding key_up_on
key_up e p = key_up_on (lookup (key_name e) p.pressed) (key_name e) p

-- `dispose`: the listeners are removed, so no handler runs afterwards.
pub dispose : Pad → Pad
unfolding release
dispose p = record (release p) { disposed = true; animation = false }
