-- ===== src/Panel.antt =====
-- ssh-gui/frontend/src/components/BottomPanel.jsx: the log lines, the transfers and the order of
-- the containers in the panel below the console.
pub mod Events
pub mod Tabs
pub mod Fetch
pub mod Lists
pub mod Dialog
pub mod Compare
mod Tests
use condui.Prelude.{
  ℕ, zero, suc, ◌+◌, ◌*◌, String, Bool, true, false, not, ◌||◌, Option, none, some, List, [], ◌∷◌,
  ◌++◌, ◌==◌, str_eq, ltb, if◌then◌else◌, length, filter, take, Dict, lookup, insert,
}

-- `[log, ...prev].slice(0, 200)`
abbrev pub max_lines : ℕ
max_lines = 200

pub push_log : String → List String → List String
push_log log prev = take max_lines (log ∷ prev)

pub push_logs : List String → List String → List String
unfolding push_log
push_logs [] prev = prev
push_logs (log ∷ logs) prev = push_logs logs (push_log log prev)

pub record Transfer : Type 0 where
  pub id : String
  pub percent : ℕ
  pub started_at : Option ℕ

start_of : Option Transfer → ℕ → Option ℕ
start_of none since = some since
start_of (some t) since = elim t.started_at [ none ↦ some since | some s ↦ some s ]

-- the `transfer-status` event: `since` is the present less the time that the event says has gone
pub on_transfer : Transfer → ℕ → Dict Transfer → Dict Transfer
unfolding start_of
on_transfer t since prev =
    insert t.id (record t { started_at = start_of (lookup t.id prev) since }) prev

pub on_transfers : List (Transfer × ℕ) → Dict Transfer → Dict Transfer
unfolding on_transfer
on_transfers [] prev = prev
on_transfers ((t, since) ∷ ts) prev = on_transfers ts (on_transfer t since prev)

pub record Sort : Type 0 where
  pub key : String
  pub ascending : Bool

-- the handlers of the sort buttons
pub toggle_sort : String → Sort → Sort
toggle_sort key prev = record {
  key = key;
  ascending = if str_eq prev.key key then not prev.ascending else true;
}

-- what the sign of a comparison's number says
pub data Sign : Type 0 where
  before same after : Sign

pub sign : ℕ → ℕ → Sign
sign a b = if ltb a b then before else if ltb b a then after else same

-- `n || m` on numbers
pub or_sign : Sign → Sign → Sign
or_sign same s = s
or_sign before s = before
or_sign after s = after

abbrev pub states : List String
states = "running" ∷ "paused" ∷ "restarting" ∷ "created" ∷ "removing" ∷ "exited" ∷ "dead" ∷ []

-- `indexOf`, and the length for a text that is not in the list
pub rank : String → List String → ℕ
rank k [] = 0
rank k (s ∷ ss) = let rest = rank k ss in if str_eq s k then 0 else suc rest

-- `lower` is `toLowerCase` and `compare_text` the comparison of the browser.
module _ (lower : String → String) (compare_text : String → String → Sign) where
  pub compare_docker_state : String → String → Sign
  unfolding sign or_sign rank
  compare_docker_state left right =
      or_sign (sign (rank (lower left) states) (rank (lower right) states))
        (compare_text left right)

  -- `compareDockerStatus`, over the times that `parseDockerStatusTime` finds in the two texts
  pub compare_docker_status : Option ℕ → Option ℕ → String → String → Sign
  unfolding sign or_sign
  compare_docker_status none none left right = compare_text left right
  compare_docker_status none (some b) left right = after
  compare_docker_status (some a) none left right = before
  compare_docker_status (some a) (some b) left right = or_sign (sign a b) (compare_text left right)
