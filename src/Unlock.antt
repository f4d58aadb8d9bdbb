-- ===== src/Unlock.antt =====
-- The passwords for the connections that came from another device:
-- components/connections/UnlockPendingConnectionModal.jsx. A connection is its id; `opens` is
-- whether `UnlockPendingConnection` takes the password for it.
pub mod Left
mod Tests
use condui.Prelude.{
  ℕ, ◌+◌, String, Bool, true, ◌||◌, Option, none, some, List, [], ◌∷◌, ◌++◌, length, if◌then◌else◌,
  leb,
}
use condui.Prelude.Text.{is_empty}

pub data Notice : Type 0 where
  partial : ℕ → ℕ → Notice
  failed : Notice

-- `reloads` counts the calls of `onUnlocked`; `closed` is whether `onClose` was called.
pub record Pending : Type 0 where
  pub pending : List String
  pub error : Option Notice
  pub reloads : ℕ
  pub closed : Bool

-- `stillPending` and `unlockedCount` in the loop
pub record Round : Type 0 where
  pub still_pending : List String
  pub unlocked_count : ℕ

module _ (opens : List ℕ → String → Bool) where
  pub ask : List ℕ → String → Round → Round
  ask password c r =
      if opens password c
      then record r { unlocked_count = r.unlocked_count + 1 }
      else record r { still_pending = r.still_pending ++ c ∷ [] }

  pub ask_all : List ℕ → List String → Round → Round
  unfolding ask
  ask_all password [] r = r
  ask_all password (c ∷ cs) r = ask_all password cs (ask password c r)

-- the error of a round that left some
pub notice_of : ℕ → ℕ → Notice
notice_of unlocked remaining = if leb 1 unlocked then partial unlocked remaining else failed

-- `handleUnlock` after its loop
pub finish : List String → ℕ → Pending → Pending
unfolding notice_of
finish [] n v = record v {
  error = none;
  reloads = if leb 1 n then v.reloads + 1 else v.reloads;
  closed = true;
}
finish (c ∷ cs) n v = record v {
  pending = c ∷ cs;
  error = some (notice_of n (length (c ∷ cs)));
  reloads = if leb 1 n then v.reloads + 1 else v.reloads;
}

module _ (opens : List ℕ → String → Bool) where
  -- `handleUnlock`, with the button that is disabled without a password, and while a round runs: so
  -- a round is one step
  pub handle_unlock : List ℕ → Pending → Pending
  unfolding ask_all finish
  handle_unlock password v =
      if v.closed || is_empty password
      then v
      else let r =
          ask_all opens password v.pending (record { still_pending = []; unlocked_count = 0 }) in
        finish r.still_pending r.unlocked_count v

  pub handle_all : List (List ℕ) → Pending → Pending
  unfolding handle_unlock
  handle_all [] v = v
  handle_all (p ∷ ps) v = handle_all ps (handle_unlock p v)
