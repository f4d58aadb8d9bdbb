-- ===== src/Window.antt =====
-- ssh-gui/frontend/src/inAppWindow.js: on Android the extra windows are entries of one module
-- state, `state`, with a counter `seq` for their ids and a set of listeners.
pub mod Valid
pub mod Open
pub mod Close
pub mod Screen
mod Tests
use condui.Prelude.{
  ℕ, suc, ◌+◌, String, Bool, true, false, not, ◌||◌, Option, none, some, List, [], ◌∷◌, ◌++◌, map,
  ◌==◌, str_eq, str_append, if◌then◌else◌, length, filter, find, any, get_last?,
}

-- `undefined` is `none`; an empty text is falsy, as `undefined` is.
pub record Spec : Type 0 where
  pub kind : String
  pub title : String
  pub session_id : Option String
  pub url : Option String
  pub key : Option String

pub record Window : Type 0 where
  pub id : ℕ
  pub key : String
  pub spec : Spec

pub record State : Type 0 where
  pub windows : List Window
  -- `none` is the main app
  pub active_id : Option ℕ

-- The module's variables. `calls` is the trace of the listeners' calls, newest first, each with
-- the state that it was told of.
pub record Store : Type 0 where
  pub state : State
  pub seq : ℕ
  pub listeners : List ℕ
  pub calls : List (ℕ × State)

-- `a || b` on optional texts, where an empty text counts as absent
abbrev pub or_text : Option String → String → String
or_text none other = other
or_text (some t) other = if str_eq t "" then other else t

abbrev pub opt_eq : Option String → Option String → Bool
opt_eq none none = true
opt_eq (some a) (some b) = str_eq a b
opt_eq _ _ = false

-- `` `${spec.kind}:${spec.sessionID || ""}:${spec.url || ""}` ``
pub key_of : Spec → String
key_of spec = or_text spec.key (
    str_append spec.kind (
      str_append ":"
        (str_append (or_text spec.session_id "") (str_append ":" (or_text spec.url "")))))

-- `emit`: every listener is called, in the order of the set
pub emit : State → Store → Store
emit next s = record s { state = next; calls = map (λ l. (l, next)) s.listeners ++ s.calls }

-- `subscribe`: a `Set` holds a listener once
pub subscribe : ℕ → Store → Store
subscribe l s =
    if any (λ m. m == l) s.listeners then s else record s { listeners = s.listeners ++ l ∷ [] }

-- the closure that `subscribe` returns
pub unsubscribe : ℕ → Store → Store
unsubscribe l s = record s { listeners = filter (λ m. not (m == l)) s.listeners }

pub includes : List ℕ → ℕ → Bool
includes [] i = false
includes (j ∷ ids) i = j == i || includes ids i

abbrev pub has_id : ℕ → List Window → Bool
has_id i ws = any (λ w. w.id == i) ws

abbrev pub has_key : String → List Window → Bool
has_key k ws = any (λ w. str_eq w.key k) ws

abbrev pub last_id : List Window → Option ℕ
last_id ws = elim (get_last? ws) [ none ↦ none | some w ↦ some w.id ]

-- `ids.includes(state.activeId) ? (windows.at(-1)?.id ?? null) : state.activeId`
pub next_active : List ℕ → Option ℕ → List Window → Option ℕ
next_active ids none ws = none
next_active ids (some a) ws = if includes ids a then last_id ws else some a

pub remove : List ℕ → Store → Store
unfolding emit next_active includes
remove ids s =
    let windows = filter (λ w. not (includes ids w.id)) s.state.windows in
    if length windows == length s.state.windows
    then s
    else emit (record { windows = windows; active_id = next_active ids s.state.active_id windows })
        s

-- the two exits of `openInAppWindow`
pub reopen : Spec → String → Option Window → Store → Store
unfolding emit
reopen spec key (some existing) s =
    emit (record { windows = s.state.windows; active_id = some existing.id }) s
reopen spec key none s =
    let seq = s.seq + 1 in
    emit
      (record {
        windows = s.state.windows ++ record { id = seq; key = key; spec = spec } ∷ [];
        active_id = some seq;
      })
      (record s { seq = seq })

pub open_window : Spec → Store → Store
unfolding reopen
open_window spec s =
    let key = key_of spec in reopen spec key (find (λ w. str_eq w.key key) s.state.windows) s

pub activate : Option ℕ → Store → Store
unfolding emit
activate id s = emit (record { windows = s.state.windows; active_id = id }) s

pub close : ℕ → Store → Store
unfolding remove
close id = remove (id ∷ [])

pub close_session : String → Store → Store
unfolding remove
close_session session_id s =
    remove
      (map (λ w. w.id) (filter (λ w. opt_eq w.spec.session_id (some session_id)) s.state.windows)) s

-- `state.activeId ?? state.windows.at(-1).id`
pub back_target : Option ℕ → Window → List Window → List ℕ
back_target (some a) w ws = a ∷ []
back_target none w ws = elim (get_last? (w ∷ ws)) [ none ↦ [] | some l ↦ l.id ∷ [] ]

-- `__conduiBack`: the answer, and the store afterwards
pub back_on : List Window → Store → Bool × Store
unfolding remove back_target
back_on [] s = (false, s)
back_on (w ∷ ws) s = (true, remove (back_target s.state.active_id w ws) s)

pub back : Store → Bool × Store
unfolding back_on
back s = back_on s.state.windows s

abbrev pub init : Store
init = record {
  state = record { windows = []; active_id = none };
  seq = 0;
  listeners = [];
  calls = [];
}

-- components/InAppWindow.jsx: the tabs of the top bar, each with `aria-selected`; `none` is the
-- main app's tab. Without windows the component renders nothing.
abbrev pub is_active : State → Option ℕ → Bool
is_active st none = elim st.active_id [ none ↦ true | some _ ↦ false ]
is_active st (some i) = elim st.active_id [ none ↦ false | some a ↦ a == i ]

pub tabs : State → List (Option ℕ × Bool)
tabs st = elim st.windows [
  | [] ↦ []
  | w ∷ ws ↦
      (none, is_active st none)
      ∷ map (λ (v : Window). (some v.id, is_active st (some v.id))) (w ∷ ws)
]

-- The host shows a window unless it is `hidden`: the ids that it shows.
pub shown : State → List ℕ
shown st = map (λ w. w.id) (filter (λ w. is_active st (some w.id)) st.windows)
