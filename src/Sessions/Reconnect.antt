-- ===== src/Sessions/Reconnect.antt =====
-- Reconnecting a session: `handleReconnect` and the `session-disconnected` event.
use condui.Prelude.{
  subst, eq_refl, length-map, length, ◌∙◌, sym, inl, inr, Bool-cases, if_intro, String, true, false,
  Option, none, some, List, [], ◌∷◌, map, ◌≡◌, ◌≢◌, refl, arith, str_eq, eq_iff, if◌then◌else◌, All,
  Distinct, lookup-insert, lookup-erase, Dict, lookup, insert, erase,
}
use condui.ConnectionForm.{Protocol, ssh, vnc, novnc, rdp, connection_key}
use condui.Sessions.{
  Tab, Entry, App, Session, Answer, connected, failed, remote, is_some_id, has_tab, stop_connecting,
}
use condui.Sessions.Valid.{IsValid, TerminalsAreValid}
use condui.Sessions.Open.{IsFresh}

-- `{ ...t, ...session, disconnected: false }`: a session has the fields that its protocol has.
spread : Protocol → Session → Tab → Tab
spread ssh x t = record t { home_path = x.home_path }
spread vnc x t = record t { url = x.url; token = x.token }
spread novnc x t = record t { url = x.url; token = x.token }
spread rdp x t = t

revive : Session → Tab → Tab
unfolding spread
revive x t = record (spread x.protocol x t) {
  id = x.id;
  kind = remote x.protocol;
  disconnected = false;
}

revive_at : String → Session → Tab → Tab
unfolding revive
revive_at k x t = if str_eq t.id k then revive x t else t

-- The path moves unless it is missing or empty; the old one goes.
move_path : String → Option String → Dict String → Dict String
move_path new none m = m
move_path new (some p) m = if str_eq p "" then m else insert new p m

move_terminal : String → String → Option Entry → App → App
move_terminal old new none s = s
move_terminal old new (some e) s = record s {
  terminals = insert new (record e { session_id = new }) (erase old s.terminals);
  attached = if is_some_id s.attached old then some new else s.attached;
}

move_session : Protocol → String → String → App → App
unfolding move_path move_terminal
move_session ssh old new s =
    move_terminal old new (lookup old s.terminals)
      (record s { paths = erase old (move_path new (lookup old s.paths) s.paths) })
move_session vnc old new s = s
move_session novnc old new s = s
move_session rdp old new s = s

-- `handleReconnect` after the await, over a tab as its render saw it
pub reconnect_answer : Tab → String → Protocol → Answer → App → App
unfolding move_session revive_at stop_connecting
reconnect_answer t connection_id p (connected x) s =
    let d = move_session x.protocol t.id x.id s in
    stop_connecting (connection_key connection_id p)
      (record d { tabs = map (revive_at t.id x) d.tabs; active = some x.id })
reconnect_answer t connection_id p (failed m) s =
    stop_connecting (connection_key connection_id p) (record s { error = some m })

mark : String → Tab → Tab
mark k t = if str_eq t.id k then record t { disconnected = true } else t

-- the `session-disconnected` event
pub session_disconnected : String → App → App
unfolding mark
session_disconnected k s = record s { tabs = map (mark k) s.tabs }

All-revive :
    (k : String) (x : Session) (u : Tab) (ts : List Tab)
    → All (λ (t : Tab). u.id ≢ t.id) ts
    → u.id ≢ x.id
    → All (λ (t : Tab). u.id ≢ t.id) (map (revive_at k x) ts)
unfolding revive_at revive
All-revive k x u [] h n = tt
All-revive k x u (t ∷ ts) (h, hs) n = (
  if_intro (λ (r : Tab). u.id ≢ r.id) (str_eq t.id k) (λ _. n) (λ _. h),
  All-revive k x u ts hs n,
)

All-kept :
    (k : String) (x : Session) (u : Tab) (ts : List Tab)
    → All (λ (t : Tab). u.id ≢ t.id) ts
    → u.id ≡ k
    → has_tab x.id ts ≡ false
    → All (λ (t : Tab). x.id ≢ t.id) (map (revive_at k x) ts)
unfolding revive_at
All-kept k x u [] h q f = tt
All-kept k x u (t ∷ ts) (h, hs) q f = (
  if_intro (λ (r : Tab). x.id ≢ r.id) (str_eq t.id k)
      (λ e. absurd (h (q ∙ sym ((eq_iff t.id k).0 e))))
      (λ _. λ e. ground (arith, eq_iff t.id x.id)),
  All-kept k x u ts hs q (ground arith),
)

Distinct-revive :
    (k : String) (x : Session) (ts : List Tab)
    → has_tab x.id ts ≡ false
    → Distinct (λ (t : Tab). t.id) ts
    → Distinct (λ (t : Tab). t.id) (map (revive_at k x) ts)
unfolding revive_at revive
Distinct-revive k x [] f d = tt
Distinct-revive k x (t ∷ ts) f (h, d) = (
  if_intro (λ (r : Tab). All (λ (u : Tab). r.id ≢ u.id) (map (revive_at k x) ts)) (str_eq t.id k)
      (λ e. All-kept k x t ts h ((eq_iff t.id k).0 e) (ground arith))
      (λ _. All-revive k x t ts h (λ e. ground (arith, eq_iff t.id x.id))),
  Distinct-revive k x ts (ground arith) d,
)

has_tab-revive :
    (k : String) (x : Session) (ts : List Tab)
    → has_tab k ts ≡ true
    → has_tab x.id (map (revive_at k x) ts) ≡ true
unfolding revive_at revive
has_tab-revive k x [] h = cc
has_tab-revive k x (t ∷ ts) h = elim (Bool-cases (str_eq t.id k)) [
  | inl y ↦ rw y (ground (arith, eq_iff x.id x.id))
  | inr n ↦ ground (arith, has_tab-revive k x ts)
]

move_terminal-IsValid :
    (old new : String) (o : Option Entry) (s : App)
    → lookup old s.terminals ≡ o
    → TerminalsAreValid s.terminals s.attached
    → TerminalsAreValid (move_terminal old new o s).terminals (move_terminal old new o s).attached
unfolding move_terminal
move_terminal-IsValid old new none s h v = v
move_terminal-IsValid old new (some d) s h v = record {
  routed = λ j e l. ground (
    arith,
    lookup-insert new j (record d { session_id = new }) (erase old s.terminals),
    lookup-erase old j s.terminals,
    eq_iff new j,
    v.routed j e,
  );
  one_visible = λ j e l w. visible j e l w;
}
  where
    visible :
        (j : String) (e : Entry)
        → lookup j (insert new (record d { session_id = new }) (erase old s.terminals)) ≡ some e
        → e.visible ≡ true
        → (if is_some_id s.attached old then some new else s.attached) ≡ some j
    visible j e l w = ground (
      arith,
      lookup-insert new j (record d { session_id = new }) (erase old s.terminals),
      lookup-erase old j s.terminals,
      eq_iff new j,
      eq_iff old j,
      eq_iff j old,
      eq_iff old old,
      v.one_visible j e,
      v.one_visible old d,
    )

move_session_frame :
    (p : Protocol) (old new : String) (s : App)
    → TerminalsAreValid s.terminals s.attached
    → TerminalsAreValid (move_session p old new s).terminals (move_session p old new s).attached
      × ((move_session p old new s).tabs ≡ s.tabs)
unfolding move_session move_terminal
move_session_frame ssh old new s v = (
  move_terminal-IsValid old new (lookup old s.terminals)
      (record s { paths = erase old (move_path new (lookup old s.paths) s.paths) }) refl v,
  same (lookup old s.terminals),
)
  where
    same :
        (o : Option Entry)
        → (move_terminal old new o
            (record s { paths = erase old (move_path new (lookup old s.paths) s.paths) })).tabs
          ≡ s.tabs
    same none = refl
    same (some e) = refl
move_session_frame vnc old new s v = (v, refl)
move_session_frame novnc old new s v = (v, refl)
move_session_frame rdp old new s v = (v, refl)

kept-reconnect_answer :
    (t : Tab) (connection_id : String) (p : Protocol) (a : Answer) {s : App}
    → has_tab t.id s.tabs ≡ true
    → ((x : Session) → a ≡ connected x → IsFresh x.id s)
    → IsValid s
    → IsValid (reconnect_answer t connection_id p a s)
unfolding reconnect_answer stop_connecting
kept-reconnect_answer t c p (failed m) is_open fresh v = record {
  ids = v.ids;
  active = v.active;
  routed = v.routed;
  one_visible = v.one_visible;
}
kept-reconnect_answer t c p (connected x) {s} is_open fresh v =
    let (terminals, same) =
      move_session_frame x.protocol t.id x.id s
        (record { routed = v.routed; one_visible = v.one_visible }) in
    record {
      ids = rw same (Distinct-revive t.id x s.tabs (fresh x refl) v.ids);
      active = λ k e. let q : k ≡ x.id = cc in rw (same, q) (has_tab-revive t.id x s.tabs is_open);
      routed = terminals.routed;
      one_visible = terminals.one_visible;
    }

-- What a reconnection over SSH does to the state: the path that was open, if it is not empty,
-- moves to the new session, the old session's path and terminal are filed under the new one only,
-- the terminal stays on the page if it was there, no call is made to close anything, and the
-- number of tabs stays. A failure changes neither tabs nor terminals and shows its message.
pub reconnect_answer_lem :
    (t : Tab) (c : String) (p : Protocol) (x : Session) (m : String) (e : Entry) (s : App)
    → x.protocol ≡ ssh
    → lookup t.id s.terminals ≡ some e
    → t.id ≢ x.id
    → let r = reconnect_answer t c p (connected x) s in
      let f = reconnect_answer t c p (failed m) s in
      (lookup x.id r.terminals ≡ some (record e { session_id = x.id }))
      × (lookup t.id r.terminals ≡ none)
      × (s.attached ≡ some t.id → r.attached ≡ some x.id)
      × ((w : String) → lookup t.id s.paths ≡ some w → w ≢ "" → lookup x.id r.paths ≡ some w)
      × (lookup t.id r.paths ≡ none)
      × (r.calls ≡ s.calls)
      × (length r.tabs ≡ length s.tabs)
      × ((f.tabs ≡ s.tabs) × (f.terminals ≡ s.terminals) × (f.error ≡ some m))
unfolding reconnect_answer stop_connecting move_session move_terminal move_path
reconnect_answer_lem t c p x m e s q l n =
    rw (q, l)
      (
        ground (
          arith,
          lookup-insert x.id x.id (record e { session_id = x.id }) (erase t.id s.terminals),
          eq_refl x.id,
        ),
        ground (
          arith,
          lookup-insert x.id t.id (record e { session_id = x.id }) (erase t.id s.terminals),
          lookup-erase t.id t.id s.terminals,
          eq_refl t.id,
          eq_iff x.id t.id,
        ),
        λ h. rw (h, eq_refl) refl,
        λ w h ne. moved (lookup t.id s.paths) w h ne,
        ground (
          arith,
          lookup-erase t.id t.id (move_path x.id (lookup t.id s.paths) s.paths),
          eq_refl t.id,
        ),
        refl,
        length-map (revive_at t.id (record x { protocol = ssh })) s.tabs,
        (refl, refl, refl),
      )
  where
    moved :
        (o : Option String) (w : String)
        → o ≡ some w
        → w ≢ ""
        → lookup x.id (erase t.id (move_path x.id o s.paths)) ≡ some w
    moved none w h ne = cc
    moved (some y) w h ne = ground (
      arith,
      lookup-erase t.id x.id (move_path x.id (some y) s.paths),
      lookup-insert x.id x.id y s.paths,
      eq_refl x.id,
      eq_iff t.id x.id,
      eq_iff y "",
    )

-- A reconnection that is answered while its tab is still open keeps the invariant, if the id of
-- the new session is that of no tab, and the tab that becomes active is an open one. Over SSH the
-- terminal of the old session is filed under the new one from then on, and serves it.
pub reconnect_answer-IsValid :
    (t : Tab) (connection_id : String) (p : Protocol) (a : Answer) {s : App}
    → has_tab t.id s.tabs ≡ true
    → ((x : Session) → a ≡ connected x → IsFresh x.id s)
    → IsValid s
    → IsValid (reconnect_answer t connection_id p a s)
      × ((x : Session) (e : Entry)
          → a ≡ connected x
          → x.protocol ≡ ssh
          → lookup t.id s.terminals ≡ some e
          → let r = reconnect_answer t connection_id p a s in
            (lookup x.id r.terminals ≡ some (record e { session_id = x.id }))
            × (lookup t.id r.terminals ≡ none)
            × (s.attached ≡ some t.id → r.attached ≡ some x.id)
            × (r.active ≡ some x.id))
reconnect_answer-IsValid t c p a {s} is_open fresh v =
    (kept-reconnect_answer t c p a is_open fresh v, served a fresh)
  where
    apart : (x : Session) → IsFresh x.id s → t.id ≢ x.id
    apart x n e =
        let z : has_tab x.id s.tabs ≡ true = subst (λ i. has_tab i s.tabs ≡ true) e is_open in
        ground (arith, z, n)

    served :
        (b : Answer)
        → ((x : Session) → b ≡ connected x → IsFresh x.id s)
        → (x : Session) (e : Entry) → b ≡ connected x
        → x.protocol ≡ ssh
        → lookup t.id s.terminals ≡ some e
        → let r = reconnect_answer t c p b s in
          (lookup x.id r.terminals ≡ some (record e { session_id = x.id }))
          × (lookup t.id r.terminals ≡ none)
          × (s.attached ≡ some t.id → r.attached ≡ some x.id)
          × (r.active ≡ some x.id)
    served b f x e q w l =
        subst
          (λ y.
            let r = reconnect_answer t c p y s in
            (lookup x.id r.terminals ≡ some (record e { session_id = x.id }))
            × (lookup t.id r.terminals ≡ none)
            × (s.attached ≡ some t.id → r.attached ≡ some x.id)
            × (r.active ≡ some x.id))
          (sym q)
          (
            (reconnect_answer_lem t c p x "" e s w l (apart x (f x q))).0,
            (reconnect_answer_lem t c p x "" e s w l (apart x (f x q))).1,
            (reconnect_answer_lem t c p x "" e s w l (apart x (f x q))).2,
            unfold reconnect_answer stop_connecting in refl,
          )
