-- ===== src/Services/Action.antt =====
-- hooks/useResponseAction.js: one action at a time, with its answer shown. The parent is told
-- when it is busy.
use condui.Prelude.{
  if_intro, ℕ, ◌+◌, String, Bool, true, false, Option, none, some, List, [], ◌∷◌, ◌≡◌, refl, arith,
  if◌then◌else◌,
}

pub data Response : Type 0 where
  pending : String → Response
  error : String → Response

-- `started` and `ended` count the actions.
pub record Hook : Type 0 where
  pub locked : Bool
  pub busy : Bool
  pub parent_busy : Bool
  pub response : Option Response
  pub started : ℕ
  pub ended : ℕ

abbrev pub init : Hook
init = record {
  locked = false;
  busy = false;
  parent_busy = false;
  response = none;
  started = 0;
  ended = 0;
}

-- `run` up to the action
pub start : String → Hook → Hook
start message h = if h.locked then h else record h {
  locked = true;
  busy = true;
  parent_busy = true;
  response = some (pending message);
  started = h.started + 1;
}

-- `run` from the end of the action on, which may have failed; only a running action ends
pub finish : Option String → Hook → Hook
finish failure h =
    if h.locked
    then record h {
      locked = false;
      busy = false;
      parent_busy = false;
      response = elim failure [ none ↦ none | some m ↦ some (error m) ];
      ended = h.ended + 1;
    }
    else h

-- what a component does with the hook
pub data Use : Type 0 where
  runs : String → Use
  ends : Option String → Use
  sets_response : Option Response → Use

pub step : Use → Hook → Hook
unfolding start finish
step (runs message) h = start message h
step (ends failure) h = finish failure h
step (sets_response r) h = record h { response = r }

pub run : List Use → Hook → Hook
unfolding step
run [] h = h
run (u ∷ us) h = run us (step u h)

-- Component and parent are shown busy exactly while an action runs, and there is at most one.
pub record IsExclusive (h : Hook) : Type 0 where
  pub busy : h.busy ≡ h.locked
  pub parent_busy : h.parent_busy ≡ h.locked
  pub running : h.started ≡ h.ended + (if h.locked then 1 else 0)

step-IsExclusive : (u : Use) (h : Hook) → IsExclusive h → IsExclusive (step u h)
unfolding step start finish
step-IsExclusive (runs message) h x =
    if_intro IsExclusive h.locked (λ _. x)
      (λ n. record { busy = refl; parent_busy = refl; running = ground (arith, x.running) })
step-IsExclusive (ends failure) h x =
    if_intro IsExclusive h.locked
      (λ y. record { busy = refl; parent_busy = refl; running = ground (arith, x.running) })
      (λ _. x)
step-IsExclusive (sets_response r) h x = record {
  busy = x.busy;
  parent_busy = x.parent_busy;
  running = x.running;
}

-- However often an action is asked for, at most one runs at a time, and the component and its
-- parent are busy exactly while it does.
pub run-IsExclusive : (us : List Use) {h : Hook} → IsExclusive h → IsExclusive (run us h)
unfolding run
run-IsExclusive [] x = x
run-IsExclusive (u ∷ us) {h} x = run-IsExclusive us (step-IsExclusive u h x)
