-- ===== src/Window/Screen.antt =====
-- What components/InAppWindow.jsx shows of a valid state.
use condui.Prelude.{
  Distinct, ℕ, suc, Bool, true, false, Option, none, some, List, [], ◌∷◌, map, ◌≡◌, ◌≢◌, refl, ap,
  ◌∙◌, arith, ◌==◌, length, filter,
}
use condui.Window.{Window, Store, is_active, has_id, tabs, shown}
use condui.Window.Valid.{IsValid}
use condui.Window.Close.{count_id}

-- the tabs that say `aria-selected`
abbrev pub selected : List (Option ℕ × Bool) → List (Option ℕ × Bool)
selected = filter (λ t. t.1)

selected-map :
    (f : Window → Bool) (ws : List Window)
    → length (selected (map (λ w. (some w.id, f w)) ws)) ≡ length (filter f ws)
selected-map f [] = refl
selected-map f (w ∷ ws) = ground (arith, selected-map f ws)

length-filter-false : {A : Type 0} (xs : List A) → length (filter (λ _. false) xs) ≡ 0
length-filter-false [] = refl
length-filter-false (x ∷ xs) = length-filter-false xs

length-map {ℓ κ} :
    {A : Type ℓ} {B : Type κ} (f : A → B) (xs : List A) → length (map f xs) ≡ length xs
length-map f [] = refl
length-map f (x ∷ xs) = ap suc (length-map f xs)

selected_tab :
    (w : Window) (ws : List Window) (a : Option ℕ)
    → length (
        filter
          (λ (u : Window). is_active (record { windows = w ∷ ws; active_id = a }) (some u.id))
          (w ∷ ws))
      ≡ elim a [ none ↦ 0 | some _ ↦ 1 ]
    → length (selected (tabs (record { windows = w ∷ ws; active_id = a }))) ≡ 1
unfolding tabs
selected_tab w ws none h = ap suc (selected-map (λ _. false) (w ∷ ws) ∙ h)
selected_tab w ws (some a) h = selected-map (λ u. a == u.id) (w ∷ ws) ∙ h

count_active :
    (ws : List Window) (a : Option ℕ)
    → Distinct (λ (w : Window). w.id) ws
    → ((i : ℕ) → a ≡ some i → has_id i ws ≡ true)
    → length
        (filter (λ (u : Window). is_active (record { windows = ws; active_id = a }) (some u.id)) ws)
      ≡ elim a [ none ↦ 0 | some _ ↦ 1 ]
count_active ws none d h = length-filter-false ws
count_active ws (some i) d h = count_id i ws d (h i refl)

on_screen :
    (ws : List Window) (a : Option ℕ)
    → Distinct (λ (w : Window). w.id) ws
    → ((i : ℕ) → a ≡ some i → has_id i ws ≡ true)
    → ws ≢ []
    → (length (selected (tabs (record { windows = ws; active_id = a }))) ≡ 1)
      × (length (shown (record { windows = ws; active_id = a })) ≡ elim a [ none ↦ 0 | some _ ↦ 1 ])
unfolding shown
on_screen [] a d h ne = absurd (ne refl)
on_screen (w ∷ ws) a d h ne = (
  selected_tab w ws a (count_active (w ∷ ws) a d h),
  length-map _ _ ∙ count_active (w ∷ ws) a d h,
)

-- With windows open, exactly one tab of the top bar is selected; and exactly one window is shown
-- if one is active, none if the main app is.
pub one_selected :
    (s : Store)
    → IsValid s
    → s.state.windows ≢ []
    → (length (selected (tabs s.state)) ≡ 1)
      × (length (shown s.state) ≡ elim s.state.active_id [ none ↦ 0 | some _ ↦ 1 ])
one_selected s v ne = on_screen s.state.windows s.state.active_id v.ids v.active ne
