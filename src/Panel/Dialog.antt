-- ===== src/Panel/Dialog.antt =====
-- The dialog of a tunnel, and the question before one is deleted: components/BottomPanel.jsx.
use condui.Prelude.{
  ℕ, zero, suc, ◌+◌, ◌-◌, ◌*◌, String, Bool, true, false, not, ◌||◌, ◌&&◌, Option, none, some, List,
  [], ◌∷◌, ◌≡◌, ◌≢◌, refl, arith, if◌then◌else◌, leb, ◌==◌,
}
use condui.Prelude.Int.{ℤ, pos, negsuc}
use condui.Prelude.Text.{codes, is_empty, trim_start}

-- A port field: what was typed, or the number that the dialog was opened with.
pub data Field : Type 0 where
  typed : String → Field
  stored : ℕ → Field

pub record Tunnel : Type 0 where
  pub id : String
  pub local_port : ℕ
  pub remote_host : String
  pub remote_port : ℕ
  pub active : Bool

pub record Dialog : Type 0 where
  pub editing : Option String
  pub local_port : Field
  pub remote_host : String
  pub remote_port : Field
  pub is_open : Bool
  pub delete_target : Option String
  pub alert : Option String

-- what the handlers ask the backend for; a number of `none` is `NaN`
pub data Call : Type 0 where
  edit_tunnel : String → Option ℤ → String → Option ℤ → Call
  add_tunnel : String → Option ℤ → String → Option ℤ → Call
  toggle_tunnel : String → Tunnel → Bool → Call
  delete_tunnel : String → Call

pub data Answer : Type 0 where
  done : Answer
  failed : String → Answer

abbrev is_digit : ℕ → Bool
is_digit c = leb 48 c && leb c 57

-- the digits at the start of a text, after the value of those before them
digits : ℕ → List ℕ → ℕ
digits n [] = n
digits n (c ∷ cs) = let rest = digits (n * 10 + (c - 48)) cs in if is_digit c then rest else n

number : List ℕ → Option ℕ
unfolding digits
number [] = none
number (c ∷ cs) = if is_digit c then some (digits 0 (c ∷ cs)) else none

positive : Option ℕ → Option ℤ
positive none = none
positive (some n) = some (pos n)

negative : Option ℕ → Option ℤ
negative none = none
negative (some zero) = some (pos 0)
negative (some (suc n)) = some (negsuc n)

signed : List ℕ → Option ℤ
unfolding number positive negative
signed [] = none
signed (c ∷ cs) =
    if c == 45
    then negative (number cs)
    else if c == 43
    then positive (number cs)
    else positive (number (c ∷ cs))

-- `parseInt(field, 10)`; -0 counts as 0
unfoldable pub parse_int : Field → Option ℤ
unfolding signed trim_start
parse_int (typed s) = signed (trim_start (codes s))
parse_int (stored n) = some (pos n)

-- `!field`
pub is_missing : Field → Bool
is_missing (typed s) = is_empty (codes s)
is_missing (stored n) = n == 0

-- `openCreateModal`
pub open_create : Dialog → Dialog
open_create d = record d {
  editing = none;
  local_port = typed "";
  remote_host = "127.0.0.1";
  remote_port = typed "";
  is_open = true;
}

-- `openEditModal`
pub open_edit : Tunnel → Dialog → Dialog
open_edit t d = record d {
  editing = some t.id;
  local_port = stored t.local_port;
  remote_host = t.remote_host;
  remote_port = stored t.remote_port;
  is_open = true;
}

given : Option String → Bool
given none = false
given (some s) = not (is_empty (codes s))

or_text : Option String → String
or_text none = ""
or_text (some s) = s

pub incomplete : Option String → Dialog → Bool
unfolding is_missing given
incomplete connection d =
    not (given connection)
    || is_missing d.local_port
    || is_empty (codes d.remote_host)
    || is_missing d.remote_port

-- `handleSaveTunnel` up to its await: the call of the backend, or none
pub save_call : Option String → Dialog → Option Call
unfolding parse_int incomplete given or_text
save_call connection d =
    if incomplete connection d
    then none
    else if given d.editing
    then some (
        edit_tunnel (or_text d.editing) (parse_int d.local_port) d.remote_host
          (parse_int d.remote_port))
    else some (
        add_tunnel (or_text connection) (parse_int d.local_port) d.remote_host
          (parse_int d.remote_port))

-- The rest of it: the dialog, and whether the tunnels are fetched again.
pub saved : Answer → Dialog → Dialog × Bool
saved done d = (record d { is_open = false }, true)
saved (failed m) d = (record d { alert = some m }, false)

-- `handleToggleTunnel`: the call, and whether the tunnels are fetched after its answer
pub toggle : String → Tunnel → Call
toggle session t = toggle_tunnel session t (not t.active)

pub fetches_after : Answer → Bool
fetches_after done = true
fetches_after (failed m) = false

-- `handleDeleteTunnel`
pub delete_target : String → Dialog → Dialog
delete_target id d = record d { delete_target = some id }

-- `confirmDeleteTunnel` up to its await
pub confirm_delete : Dialog → Dialog × Option Call
unfolding given or_text
confirm_delete d =
    if given d.delete_target
    then (record d { delete_target = none }, some (delete_tunnel (or_text d.delete_target)))
    else (d, none)

-- what the user types into a dialog
pub fill : Field → String → Field → Dialog → Dialog
fill l h r d = record d { local_port = l; remote_host = h; remote_port = r }

is_missing-stored : (n : ℕ) → n ≢ 0 → is_missing (stored n) ≡ false
unfolding is_missing
is_missing-stored n h = ground arith

-- Saving what the dialog was opened with for a tunnel changes nothing of the tunnel: the call
-- names its id, ports and host, whatever the dialog held before, for a connection and a tunnel
-- whose texts are not empty and whose ports are not 0. A dialog that was opened to create adds a
-- tunnel to the connection with what was typed, if nothing is missing, and never edits one.
pub save_call-open :
    (connection : String) (t : Tunnel) (d : Dialog) (a b : Field) (host : String)
    → is_empty (codes connection) ≡ false
    → is_empty (codes t.id) ≡ false
    → is_empty (codes t.remote_host) ≡ false
    → t.local_port ≢ 0
    → t.remote_port ≢ 0
    → (save_call (some connection) (open_edit t d)
        ≡ some
            (edit_tunnel t.id (some (pos t.local_port)) t.remote_host (some (pos t.remote_port))))
      × (save_call (some connection) (fill a host b (open_create d)) ≡ (
          if is_missing a || is_empty (codes host) || is_missing b
          then none
          else some (add_tunnel connection (parse_int a) host (parse_int b))))
unfolding save_call open_edit open_create fill incomplete given or_text
save_call-open connection t d a b host c i h l r = (
  rw (c, i, h, is_missing-stored t.local_port l, is_missing-stored t.remote_port r) refl,
  rw c refl,
)
