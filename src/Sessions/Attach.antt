-- ===== src/Sessions/Attach.antt =====
-- The effect that puts the terminal of the active tab on the page.
use condui.Prelude.{
  if_intro, ap, ◌∙◌, sym, inl, inr, ◌≢◌, Bool-cases, str_eq, eq_iff, lookup-insert, ◌≡◌, arith,
  refl, String, Bool, true, false, Option, none, some, [], ◌∷◌, ◌++◌, if◌then◌else◌, Dict, lookup,
  insert,
}
use condui.ConnectionForm.{is_desktop}
use mathlib.Core.Option
use condui.Sessions.Valid.{IsValid, TerminalsAreValid}
use condui.Sessions.{shell, remote, Tab, Entry, App, resize, find_tab, is_some_id}

-- `isDesktop(tab?.type)`
unfoldable pub is_desktop_tab : Option Tab → Bool
is_desktop_tab none = false
is_desktop_tab (some t) = elim t.kind [ shell ↦ false | remote p ↦ is_desktop p ]

set_visible : Bool → String → Option Entry → Dict Entry → Dict Entry
set_visible b k none m = m
set_visible b k (some e) m = insert k (record e { visible = b }) m

-- The terminal that was attached goes to the holding area, unless it is the active one.
hold : Option String → Option String → Dict Entry → Dict Entry
unfolding set_visible
hold none active m = m
hold (some p) active m = if is_some_id active p then m else set_visible false p (lookup p m) m

-- `terminalsRef.current.get(activeTab) || createTerminalInstance(activeTab)`
entry_of : String → Option Entry → Entry
entry_of k none = record { session_id = k; visible = false }
entry_of k (some e) = e

show_active : Option String → App → App
unfolding entry_of
show_active none s = record s { attached = none }
show_active (some k) s =
    if is_desktop_tab (find_tab k s.tabs) then record s { attached = none } else record s {
      terminals =
          insert k (record (entry_of k (lookup k s.terminals)) { visible = true }) s.terminals;
      attached = some k;
      calls = s.calls ++ resize k ∷ [];
    }

-- The effect on `activeTab`; without the terminal area on the page (the vault's screen) it does
-- nothing.
pub attach : Bool → App → App
unfolding hold show_active is_desktop_tab
attach mounted s =
    if mounted
    then show_active s.active (record s { terminals = hold s.attached s.active s.terminals })
    else s

set_visible-lookup :
    (k j : String) (o : Option Entry) (m : Dict Entry)
    → lookup k m ≡ o
    → lookup j (set_visible false k o m) ≡ (
        if str_eq k j
        then Option.map (λ (e : Entry). record e { visible = false }) o
        else lookup j m)
unfolding set_visible
set_visible-lookup k j none m h = ground (arith, eq_iff k j)
set_visible-lookup k j (some e) m h = lookup-insert k j _ m

-- After the old terminal was put away, one that is still visible was attached and is the active
-- one, and every terminal serves the session that it is filed under.
module _ (attached active : Option String) {m : Dict Entry} (v : TerminalsAreValid m attached) where
  hold_some :
      (p j : String) (e : Entry) (o : Option Entry)
      → attached ≡ some p
      → is_some_id active p ≡ false
      → lookup p m ≡ o
      → lookup j (set_visible false p o m) ≡ some e
      → (e.session_id ≡ j) × (e.visible ≡ false)
  hold_some p j e none a n h l =
      ground (arith, set_visible-lookup p j none m h, eq_iff p j, v.routed j e, v.one_visible j e)
  hold_some p j e (some d) a n h l = ground (
    arith,
    set_visible-lookup p j (some d) m h,
    eq_iff p j,
    v.routed j e,
    v.routed p d,
    v.one_visible j e,
  )

pub is_some_id_sound : (o : Option String) (k : String) → is_some_id o k ≡ true → o ≡ some k
is_some_id_sound none k h = cc
is_some_id_sound (some i) k h = ap some ((eq_iff i k).0 h)

hold_lem :
    (attached active : Option String) {m : Dict Entry}
    → TerminalsAreValid m attached
    → (j : String) (e : Entry) → lookup j (hold attached active m) ≡ some e
    → (e.session_id ≡ j) × (e.visible ≡ true → (attached ≡ some j) × (active ≡ some j))
unfolding hold
hold_lem none active v j e l = (v.routed j e l, λ w. absurd (no_visible (v.one_visible j e l w)))
  where
    no_visible : ◌≡◌ {A = Option String} none (some j) → ⊥
    no_visible h = cc
hold_lem (some p) active {m} v j e l = elim (Bool-cases (is_some_id active p)) [
  | inl y ↦
      let l' : lookup j m ≡ some e = rw y at l in
      (
        v.routed j e l',
        λ w. (v.one_visible j e l' w, is_some_id_sound active p y ∙ v.one_visible j e l' w),
      )
  | inr n ↦
      let (r, hidden) = hold_some (some p) active v p j e (lookup p m) refl n refl (rw n at l) in
      (r, λ w. cc)
]

entry_of_id :
    (k : String) (o : Option Entry)
    → ((f : Entry) → o ≡ some f → f.session_id ≡ k)
    → (entry_of k o).session_id ≡ k
unfolding entry_of
entry_of_id k none h = refl
entry_of_id k (some f) h = h f refl

-- the terminals of `show_active`
abbrev with_shown : String → Dict Entry → Dict Entry
with_shown k m = insert k (record (entry_of k (lookup k m)) { visible = true }) m

-- The shown terminal keeps serving its session, and it is the only visible one.
with_shown-IsValid :
    (k : String) (m : Dict Entry) (attached : Option String)
    → ((j : String) (e : Entry)
        → lookup j m ≡ some e
        → (e.session_id ≡ j) × (e.visible ≡ true → (attached ≡ some j) × (some k ≡ some j)))
    → TerminalsAreValid (with_shown k m) (some k)
with_shown-IsValid k m attached h = record {
  routed = λ j e l. ground (
    arith,
    lookup-insert k j (record (entry_of k (lookup k m)) { visible = true }) m,
    entry_of_id k (lookup k m) (λ f g. (h k f g).0),
    eq_iff k j,
    h j e,
  );
  one_visible = λ j e l w. ground (
    arith,
    lookup-insert k j (record (entry_of k (lookup k m)) { visible = true }) m,
    eq_iff k j,
    h j e,
  );
}

show_active-IsValid :
    (a : Option String) (s : App) (attached : Option String)
    → ((j : String) (e : Entry)
        → lookup j s.terminals ≡ some e
        → (e.session_id ≡ j) × (e.visible ≡ true → (attached ≡ some j) × (a ≡ some j)))
    → ((k : String) → a ≡ some k → is_desktop_tab (find_tab k s.tabs) ≡ true → attached ≢ some k)
    → TerminalsAreValid (show_active a s).terminals (show_active a s).attached
unfolding show_active
show_active-IsValid none s attached h d = record {
  routed = λ j e l. (h j e l).0;
  one_visible = λ j e l w. ((h j e l).1 w).1;
}
show_active-IsValid (some k) s attached h d =
    if_intro (λ (r : App). TerminalsAreValid r.terminals r.attached)
      (is_desktop_tab (find_tab k s.tabs))
      (λ y. record {
        routed = λ j e l. (h j e l).0;
        one_visible = λ j e l w. let (p, r) = (h j e l).1 w in absurd (d k refl y (p ∙ sym r));
      })
      (λ n. with_shown-IsValid k s.terminals attached h)

show_active_frame :
    (a : Option String) (s : App)
    → ((show_active a s).tabs ≡ s.tabs) × ((show_active a s).active ≡ s.active)
unfolding show_active
show_active_frame none s = (refl, refl)
show_active_frame (some k) s =
    if_intro (λ (r : App). (r.tabs ≡ s.tabs) × (r.active ≡ s.active))
      (is_desktop_tab (find_tab k s.tabs)) (λ y. (refl, refl)) (λ n. (refl, refl))

-- Putting the active tab's terminal on the page keeps the invariant, provided that a desktop
-- session is not the one whose terminal is attached.
pub attach-IsValid :
    (mounted : Bool) {s : App}
    → ((k : String)
        → s.active ≡ some k
        → is_desktop_tab (find_tab k s.tabs) ≡ true
        → s.attached ≢ some k)
    → IsValid s
    → IsValid (attach mounted s)
unfolding attach
attach-IsValid false d v = v
attach-IsValid true {s} d v =
    let h : App = record s { terminals = hold s.attached s.active s.terminals } in
    let held =
      hold_lem s.attached s.active (record { routed = v.routed; one_visible = v.one_visible }) in
    let t = show_active-IsValid s.active h s.attached held d in
    let (tabs, active) = show_active_frame s.active h in
    record {
      ids = rw tabs v.ids;
      active = rw (tabs, active) v.active;
      routed = t.routed;
      one_visible = t.one_visible;
    }
