-- ===== src/Window/Close.antt =====
-- What closing does: Back closes one window at a time, a session takes its own windows with it,
-- and what is on screen is one thing.
use condui.Prelude.{
  ℕ, zero, suc, ◌+◌, String, Bool, true, false, not, Option, none, some, List, [], ◌∷◌, map, ◌≡◌,
  ◌≢◌, refl, sym, ap, ◌∙◌, arith, ◌==◌, Bool-cases, length, filter, All, All-map, Distinct,
  get_last?-cons, any-get_last?, All-zip, filter-id, eq_of_==, ==_refl, inl, inr, subst,
}
use condui.Window.{
  next_active, Window, Store, opt_eq, emit, includes, has_id, remove, close_session, back_target,
  back_on, back,
}
use condui.Window.Valid.{IsValid, back-IsValid}

-- Of windows with distinct ids one at most has a given id.
count_id-zero :
    (i : ℕ) (ws : List Window)
    → All (λ (w : Window). i ≢ w.id) ws
    → length (filter (λ w. i == w.id) ws) ≡ 0
count_id-zero i [] h = refl
count_id-zero i (w ∷ ws) h = ground (arith, count_id-zero i ws h.1, h.0)

pub count_id :
    (i : ℕ) (ws : List Window)
    → Distinct (λ (w : Window). w.id) ws
    → has_id i ws ≡ true
    → length (filter (λ w. i == w.id) ws) ≡ 1
count_id i [] d h = cc
count_id i (w ∷ ws) (n, d) h = elim (Bool-cases (i == w.id)) [
  | inl e ↦
      let same : w.id ≡ i = ground arith in
      rw e (ap suc (count_id-zero i ws (subst (λ k. All (λ (u : Window). k ≢ u.id) ws) same n)))
  | inr e ↦ rw e (count_id i ws d (ground arith))
]

module _ {ℓ} {A : Type ℓ} where
  length-filter-not :
      (p q : A → Bool) (xs : List A)
      → ((x : A) → q x ≡ not (p x))
      → length (filter p xs) + length (filter q xs) ≡ length xs
  length-filter-not p q [] h = omega arith
  length-filter-not p q (x ∷ xs) h = ground (arith, length-filter-not p q xs h, h x)

  filter_congr :
      (p q : A → Bool) (xs : List A) → All (λ x. p x ≡ q x) xs → filter p xs ≡ filter q xs
  filter_congr p q [] h = refl
  filter_congr p q (x ∷ xs) (h, hs) = rw (h, filter_congr p q xs hs) refl

-- Removing one open window leaves one window less.
length-remove_one :
    (i : ℕ) {s : Store}
    → IsValid s
    → has_id i s.state.windows ≡ true
    → length (remove (i ∷ []) s).state.windows + 1 ≡ length s.state.windows
unfolding remove
length-remove_one i {s} v h = ground (
  arith,
  count_id i s.state.windows v.ids h,
  length-filter-not (λ w. i == w.id) (λ w. not (includes (i ∷ []) w.id)) s.state.windows
      (λ w. ground arith),
)

back_one :
    (a : Option ℕ) (w : Window) (ws : List Window) {s : Store}
    → IsValid s
    → s.state.windows ≡ w ∷ ws
    → s.state.active_id ≡ a
    → length (remove (back_target a w ws) s).state.windows + 1 ≡ length s.state.windows
unfolding back_target
back_one (some a) w ws v e p = length-remove_one a v (v.active a p)
back_one none w ws {s} v e p =
    let (l, h) = get_last?-cons w ws in
    subst (λ ids. length (remove ids s).state.windows + 1 ≡ length s.state.windows)
      (ground (arith, h))
      (length-remove_one l.id v
        (rw e (any-get_last? (λ u. u.id == l.id) (w ∷ ws) h (==_refl l.id))))

-- Back closes exactly one window, and answers that it did, as long as there is a window.
pub back-closes_one :
    (s : Store)
    → IsValid s
    → s.state.windows ≢ []
    → ((back s).0 ≡ true) × (length (back s).1.state.windows + 1 ≡ length s.state.windows)
unfolding back
back-closes_one s v ne = on s.state.windows refl
  where
    on :
        (ws : List Window)
        → s.state.windows ≡ ws
        → ((back_on ws s).0 ≡ true)
          × (length (back_on ws s).1.state.windows + 1 ≡ length s.state.windows)
    on [] e = absurd (ne e)
    on (w ∷ ws) e = unfold back_on in (refl, back_one s.state.active_id w ws v e refl)

-- n presses of the Back button
pub presses : ℕ → Store → Store
presses zero s = s
presses (suc n) s = presses n (back s).1

nil_of_length : (ws : List Window) → length ws ≡ 0 → ws ≡ []
nil_of_length [] e = refl
nil_of_length (w ∷ ws) e = absurd (omega arith)

presses-windows :
    (n : ℕ) (s : Store)
    → IsValid s
    → length s.state.windows ≡ n
    → IsValid (presses n s) × ((presses n s).state.windows ≡ [])
unfolding presses
presses-windows zero s v e = (v, nil_of_length s.state.windows e)
presses-windows (suc n) s v e =
    presses-windows n (back s).1 (back-IsValid v)
      (omega (arith, (back-closes_one s v (λ p. omega (arith, ap length p))).1))

back_empty :
    (s : Store)
    → IsValid s
    → s.state.windows ≡ []
    → (s.state.active_id ≡ none) × (back s ≡ (false, s))
unfolding back
back_empty s v e = (no_active s.state.active_id refl, rw (e, back_on) refl)
  where
    no_active : (a : Option ℕ) → s.state.active_id ≡ a → a ≡ none
    no_active none p = refl
    no_active (some i) p = let o : has_id i [] ≡ true = rw e at (v.active i p) in cc

-- Back pressed once for each window closes them all and shows the main app; the next press is
-- left to the app, and changes nothing.
pub back_all :
    (s : Store)
    → IsValid s
    → ((presses (length s.state.windows) s).state.windows ≡ [])
      × ((presses (length s.state.windows) s).state.active_id ≡ none)
      × (back (presses (length s.state.windows) s) ≡ (false, presses (length s.state.windows) s))
back_all s v =
    let (u, e) = presses-windows (length s.state.windows) s v refl in
    let (a, b) = back_empty (presses (length s.state.windows) s) u e in (e, a, b)

-- The ids of the windows that pass a test are those of no other window.
includes-other :
    (p : Window → Bool) (i : ℕ) (ws : List Window)
    → All (λ (w : Window). i ≢ w.id) ws
    → includes (map (λ w. w.id) (filter p ws)) i ≡ false
unfolding includes
includes-other p i [] h = refl
includes-other p i (w ∷ ws) h = elim (Bool-cases (p w)) [
  | inl e ↦ rw e (ground (arith, h.0, includes-other p i ws h.1))
  | inr e ↦ rw e (includes-other p i ws h.1)
]

includes-ids-cons :
    (p : Window → Bool) (u w : Window) (us : List Window)
    → u.id ≢ w.id
    → includes (map (λ w. w.id) (filter p us)) w.id ≡ p w
    → includes (map (λ w. w.id) (filter p (u ∷ us))) w.id ≡ p w
unfolding includes
includes-ids-cons p u w us n h = elim (Bool-cases (p u)) [
  | inl e ↦ rw e (ground arith)
  | inr e ↦ rw e h
]

includes-ids_self :
    (p : Window → Bool) (u : Window) (us : List Window)
    → All (λ (w : Window). u.id ≢ w.id) us
    → includes (map (λ w. w.id) (filter p (u ∷ us))) u.id ≡ p u
unfolding includes
includes-ids_self p u us h = elim (Bool-cases (p u)) [
  | inl e ↦ rw e (ground arith)
  | inr e ↦ rw e (includes-other p u.id us h)
]

includes-ids :
    (p : Window → Bool) (ws : List Window)
    → Distinct (λ (w : Window). w.id) ws
    → All (λ w. includes (map (λ w. w.id) (filter p ws)) w.id ≡ p w) ws
includes-ids p [] d = tt
includes-ids p (u ∷ us) (n, d) = (
  includes-ids_self p u us n,
  All-zip _ _ _ us (λ w h k. includes-ids-cons p u w us h k) n (includes-ids p us d),
)

remove-windows :
    (ids : List ℕ) (s : Store)
    → (remove ids s).state.windows ≡ filter (λ w. not (includes ids w.id)) s.state.windows
unfolding remove emit
remove-windows ids s =
    elim (Bool-cases
      (length (filter (λ w. not (includes ids w.id)) s.state.windows) == length s.state.windows)) [
        | inl e ↦ rw e (sym (filter-id _ s.state.windows (eq_of_== _ _ e)))
        | inr e ↦ rw e refl
      ]

has_id-removed :
    (ids : List ℕ) (i : ℕ) (ws : List Window)
    → includes ids i ≡ true
    → has_id i (filter (λ w. not (includes ids w.id)) ws) ≡ false
has_id-removed ids i [] h = refl
has_id-removed ids i (w ∷ ws) h = ground (arith, has_id-removed ids i ws)

-- An active window that is not removed stays the active one.
active-remove :
    (ids : List ℕ) (i : ℕ) (s : Store)
    → s.state.active_id ≡ some i
    → has_id i (remove ids s).state.windows ≡ true
    → (remove ids s).state.active_id ≡ some i
unfolding remove emit next_active
active-remove ids i s e h =
    elim (Bool-cases
      (length (filter (λ w. not (includes ids w.id)) s.state.windows) == length s.state.windows)) [
        | inl t ↦ rw t e
        | inr t ↦ rw (t, e, next_active) (ground (arith, has_id-removed ids i s.state.windows, h))
      ]

-- Ending a session closes its windows and no other, in their order, and an active window of
-- another session stays the active one.
pub close_session-windows :
    (id : String) (s : Store)
    → IsValid s
    → ((close_session id s).state.windows
        ≡ filter (λ w. not (opt_eq w.spec.session_id (some id))) s.state.windows)
      × ((i : ℕ)
          → s.state.active_id ≡ some i
          → has_id i (close_session id s).state.windows ≡ true
          → (close_session id s).state.active_id ≡ some i)
unfolding close_session
close_session-windows id s v = (
  remove-windows _ s
      ∙ filter_congr _ _ s.state.windows
          (All-map _ _ s.state.windows (λ w h. ap not h) (includes-ids _ s.state.windows v.ids)),
  λ i e h. active-remove _ i s e h,
)
