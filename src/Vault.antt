-- ===== src/Vault.antt =====
-- The start of the program, which asks for the password of the vault:
-- components/account/VaultUnlock.jsx. A password is a text; its length is an argument, since it
-- counts UTF-16 units.
pub mod Guard
mod Tests
use condui.Prelude.{
  ℕ, String, Bool, true, false, not, ◌||◌, Option, none, some, List, [], ◌∷◌, ◌++◌, if◌then◌else◌,
  leb, str_eq,
}

pub data Mode : Type 0 where
  loading setup unlock : Mode

pub data Notice : Type 0 where
  too_short mismatch incorrect : Notice
  setup_failed : String → Notice

pub data Call : Type 0 where
  setup_master_password : String → Call
  unlock_vault : String → Call

-- `call` is the one that is on its way; `accepted` are those that the backend took, `opened` is
-- whether `onUnlocked` was called.
pub record Vault : Type 0 where
  pub mode : Mode
  pub password : String
  pub confirm : String
  pub error : Option Notice
  pub call : Option Call
  pub accepted : List Call
  pub opened : Bool

pub init : Vault
init = record {
  mode = loading;
  password = "";
  confirm = "";
  error = none;
  call = none;
  accepted = [];
  opened = false;
}

-- the effect, after `IsVaultSetup`; none is an error
pub mode_of : Option Bool → Mode
mode_of (some true) = unlock
mode_of (some false) = setup
mode_of none = setup

-- `loading`, which disables the button
pub is_busy : Option Call → Bool
is_busy none = false
is_busy (some c) = true

module _ (length : String → ℕ) where
  -- `handleSetup`
  pub handle_setup : Vault → Vault
  handle_setup v =
      if not (leb 8 (length v.password))
      then record v { error = some too_short }
      else if not (str_eq v.password v.confirm)
      then record v { error = some mismatch }
      else record v { error = none; call = some (setup_master_password v.password) }

-- `handleUnlock`
pub handle_unlock : Vault → Vault
handle_unlock v = record v { error = none; call = some (unlock_vault v.password) }

-- what `catch` makes of the message of an error, which is not empty
pub notice_of : Call → String → Notice
notice_of (setup_master_password p) e = setup_failed e
notice_of (unlock_vault p) e = incorrect

-- both after the await: the answer is none for success
pub answered : Call → Option String → Vault → Vault
unfolding notice_of
answered c none v = record v { call = none; accepted = v.accepted ++ c ∷ []; opened = true }
answered c (some e) v = record v { call = none; error = some (notice_of c e) }

pub data Event : Type 0 where
  is_setup : Option Bool → Event
  type_password : String → Event
  type_confirm : String → Event
  submit : Event
  answer : Option String → Event

module _ (length : String → ℕ) where
  -- the form that is shown
  pub submitted : Mode → Vault → Vault
  unfolding handle_setup handle_unlock
  submitted loading v = v
  submitted setup v = handle_setup length v
  submitted unlock v = handle_unlock v

  pub answer_to : Option Call → Option String → Vault → Vault
  unfolding answered
  answer_to none a v = v
  answer_to (some c) a v = answered c a v

  pub on_event : Event → Vault → Vault
  unfolding mode_of is_busy submitted answer_to
  on_event (is_setup a) v = record v { mode = mode_of a }
  on_event (type_password p) v = record v { password = p }
  on_event (type_confirm p) v = record v { confirm = p }
  on_event submit v = if is_busy v.call then v else submitted v.mode v
  on_event (answer a) v = answer_to v.call a v

  pub run : List Event → Vault → Vault
  unfolding on_event
  run [] v = v
  run (e ∷ es) v = run es (on_event e v)
