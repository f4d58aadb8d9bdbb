-- ===== src/Window/Valid.antt =====
-- The invariant of the window state, kept by every operation of inAppWindow.js.
use condui.Prelude.{
  ℕ, ◌+◌, ◌≤◌, String, Bool, true, false, not, Option, none, some, List, [], ◌∷◌, ◌++◌, ◌≡◌, ◌≢◌,
  refl, subst, inl, inr, arith, ◌==◌, str_eq, eq_iff, Bool-cases, Option-cases, length, filter,
  find, any, get_last?, All, All-filter, All-map, All-append, Distinct, Distinct-filter,
  Distinct-concat, any-append, any-get_last?, any-find-none,
}
use condui.Window.{
  subscribe, unsubscribe, back_on, close, close_session, back, Spec, Window, Store, key_of, emit,
  subscribe, unsubscribe, includes, has_id, has_key, next_active, last_id, remove, reopen,
  open_window, activate, close, close_session, back_on, back, init,
}

-- Ids and keys are unique, ids were drawn from the counter, and the active window is open.
pub record IsValid (s : Store) : Type 0 where
  pub ids : Distinct (λ (w : Window). w.id) s.state.windows
  pub keys : Distinct (λ (w : Window). w.key) s.state.windows
  pub drawn : All (λ (w : Window). w.id ≤ s.seq) s.state.windows
  pub active : (i : ℕ) → s.state.active_id ≡ some i → has_id i s.state.windows ≡ true

-- Dropping windows keeps any other window.
has_id-filter :
    (ids : List ℕ) (i : ℕ) (ws : List Window)
    → includes ids i ≡ false
    → has_id i ws ≡ true
    → has_id i (filter (λ w. not (includes ids w.id)) ws) ≡ true
has_id-filter ids i [] h m = m
has_id-filter ids i (w ∷ ws) h m = ground (arith, has_id-filter ids i ws)

last_id-open : (ws : List Window) (i : ℕ) → last_id ws ≡ some i → has_id i ws ≡ true
last_id-open ws i e = elim (Option-cases (get_last? ws)) [
  | inl n ↦ ground arith
  | inr (w, l) ↦ any-get_last? (λ u. u.id == i) ws l (ground arith)
]

-- A key that `find` does not find is a new one.
no_key : (k : String) (ws : List Window) → has_key k ws ≡ false → All (λ (w : Window). w.key ≢ k) ws
no_key k [] h = tt
no_key k (w ∷ ws) h = (λ e. ground (arith, eq_iff w.key k), no_key k ws (ground arith))

has_id-concat : (i : ℕ) (ws : List Window) (w : Window) → w.id ≡ i → has_id i (ws ++ w ∷ []) ≡ true
has_id-concat i ws w e = rw any-append (ground arith)

next_active-open :
    (ids : List ℕ) (a : Option ℕ) (ws : List Window) (i : ℕ)
    → ((j : ℕ) → a ≡ some j → has_id j ws ≡ true)
    → next_active ids a (filter (λ w. not (includes ids w.id)) ws) ≡ some i
    → has_id i (filter (λ w. not (includes ids w.id)) ws) ≡ true
unfolding next_active
next_active-open ids none ws i h e = cc
next_active-open ids (some a) ws i h e = elim (Bool-cases (includes ids a)) [
  | inr n ↦ has_id-filter ids i ws (ground arith) (h i (ground arith))
  | inl y ↦ last_id-open _ i (rw y at e)
]

emit-IsValid :
    (ws : List Window) (a : Option ℕ) (s : Store)
    → Distinct (λ (w : Window). w.id) ws
    → Distinct (λ (w : Window). w.key) ws
    → All (λ (w : Window). w.id ≤ s.seq) ws
    → ((i : ℕ) → a ≡ some i → has_id i ws ≡ true)
    → IsValid (emit (record { windows = ws; active_id = a }) s)
unfolding emit
emit-IsValid ws a s i k d o = record { ids = i; keys = k; drawn = d; active = o }

pub remove-IsValid : (ids : List ℕ) {s : Store} → IsValid s → IsValid (remove ids s)
unfolding remove
remove-IsValid ids {s} v =
    let keep : Window → Bool = λ w. not (includes ids w.id) in
    let ws = filter keep s.state.windows in
    elim (Bool-cases (length ws == length s.state.windows)) [
      | inl e ↦ rw e v
      | inr e ↦ rw e (
          emit-IsValid ws (next_active ids s.state.active_id ws) s
            (Distinct-filter _ keep s.state.windows v.ids)
            (Distinct-filter _ keep s.state.windows v.keys)
            (All-filter _ keep s.state.windows v.drawn)
            (λ i. next_active-open ids s.state.active_id s.state.windows i v.active))
    ]

pub activate-IsValid :
    (id : Option ℕ) {s : Store}
    → ((i : ℕ) → id ≡ some i → has_id i s.state.windows ≡ true)
    → IsValid s
    → IsValid (activate id s)
unfolding activate
activate-IsValid id {s} o v = emit-IsValid s.state.windows id s v.ids v.keys v.drawn o

-- The window that `find` returns is open.
has_id-find :
    (p : Window → Bool) (ws : List Window) {w : Window} → find p ws ≡ some w → has_id w.id ws ≡ true
has_id-find p [] e = cc
has_id-find p (u ∷ us) {w} e = ground (arith, has_id-find p us {w = w})

reopen-IsValid :
    (spec : Spec) (key : String) (o : Option Window) {s : Store}
    → find (λ w. str_eq w.key key) s.state.windows ≡ o
    → IsValid s
    → IsValid (reopen spec key o s)
unfolding reopen
reopen-IsValid spec key (some w) {s} e v =
    emit-IsValid s.state.windows (some w.id) s v.ids v.keys v.drawn
      (λ i h. subst (λ j. has_id j s.state.windows ≡ true) (cc) (has_id-find _ s.state.windows e))
reopen-IsValid spec key none {s} e v =
    emit-IsValid _ (some (s.seq + 1)) (record s { seq = s.seq + 1 })
      (Distinct-concat _ s.state.windows _ v.ids
        (All-map _ _ s.state.windows (λ w h p. omega arith) v.drawn))
      (Distinct-concat _ s.state.windows _ v.keys
        (no_key key s.state.windows (any-find-none _ s.state.windows e)))
      (All-append _ s.state.windows _ (All-map _ _ s.state.windows (λ w h. omega arith) v.drawn)
        (omega arith, tt))
      (λ i h. has_id-concat i s.state.windows _ (cc))

pub open_window-IsValid : (spec : Spec) {s : Store} → IsValid s → IsValid (open_window spec s)
unfolding open_window
open_window-IsValid spec {s} v = reopen-IsValid spec (key_of spec) _ refl v

pub init-IsValid : IsValid init
init-IsValid = record { ids = tt; keys = tt; drawn = tt; active = λ i e. cc }

pub close-IsValid : (id : ℕ) {s : Store} → IsValid s → IsValid (close id s)
unfolding close
close-IsValid id v = remove-IsValid (id ∷ []) v

pub close_session-IsValid : (id : String) {s : Store} → IsValid s → IsValid (close_session id s)
unfolding close_session
close_session-IsValid id v = remove-IsValid _ v

back_on-IsValid : (ws : List Window) {s : Store} → IsValid s → IsValid (back_on ws s).1
unfolding back_on
back_on-IsValid [] v = v
back_on-IsValid (w ∷ ws) v = remove-IsValid _ v

pub back-IsValid : {s : Store} → IsValid s → IsValid (back s).1
unfolding back
back-IsValid {s} v = back_on-IsValid s.state.windows v

subscribe-IsValid : (l : ℕ) {s : Store} → IsValid s → IsValid (subscribe l s)
unfolding subscribe
subscribe-IsValid l {s} v = elim (Bool-cases (any (λ m. m == l) s.listeners)) [
  | inl e ↦ rw e v
  | inr e ↦ rw e (record { ids = v.ids; keys = v.keys; drawn = v.drawn; active = v.active })
]

unsubscribe-IsValid : (l : ℕ) {s : Store} → IsValid s → IsValid (unsubscribe l s)
unfolding unsubscribe
unsubscribe-IsValid l v = record { ids = v.ids; keys = v.keys; drawn = v.drawn; active = v.active }

-- What the program can do: a tab names an open window or the main app (components/InAppWindow.jsx).
pub data Step (s : Store) : Store → Type 0 where
  opens : (spec : Spec) → Step s (open_window spec s)
  shows_main : Step s (activate none s)
  shows : (i : ℕ) → has_id i s.state.windows ≡ true → Step s (activate (some i) s)
  closes : (i : ℕ) → Step s (close i s)
  ends_session : (id : String) → Step s (close_session id s)
  goes_back : Step s (back s).1
  subscribes : (l : ℕ) → Step s (subscribe l s)
  unsubscribes : (l : ℕ) → Step s (unsubscribe l s)

pub data Reach (s : Store) : Store → Type 0 where
  here : Reach s s
  next : {t u : Store} → Reach s t → Step t u → Reach s u

Step-IsValid : {s t : Store} → Step s t → IsValid s → IsValid t
Step-IsValid (opens spec) v = open_window-IsValid spec v
Step-IsValid shows_main v = activate-IsValid none (λ i e. cc) v
Step-IsValid {s} (shows i h) v =
    activate-IsValid (some i) (λ j e. subst (λ k. has_id k s.state.windows ≡ true) (cc) h) v
Step-IsValid (closes i) v = close-IsValid i v
Step-IsValid (ends_session id) v = close_session-IsValid id v
Step-IsValid goes_back v = back-IsValid v
Step-IsValid (subscribes l) v = subscribe-IsValid l v
Step-IsValid (unsubscribes l) v = unsubscribe-IsValid l v

-- In every state that the program reaches from the start, ids and keys are unique, every id was
-- drawn from the counter, and the active window, if there is one, is open.
pub Reach-IsValid : {s : Store} → Reach init s → IsValid s
Reach-IsValid here = init-IsValid
Reach-IsValid (next r st) = Step-IsValid st (Reach-IsValid r)
