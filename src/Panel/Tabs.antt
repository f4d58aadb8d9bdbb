-- ===== src/Panel/Tabs.antt =====
-- The tabs of the panel, and how much of the window it takes.
use condui.Prelude.{
  String, Bool, true, false, not, ◌&&◌, ◌||◌, Option, none, some, List, [], ◌∷◌, ◌≡◌, ◌≢◌, refl,
  arith, str_eq, if◌then◌else◌, filter, any,
}

pub data TabId : Type 0 where
  transfers tunnels ports docker virtualbox databases : TabId

abbrev pub all_tabs : List TabId
all_tabs = transfers ∷ tunnels ∷ ports ∷ docker ∷ virtualbox ∷ databases ∷ []

abbrev pub tab_name : TabId → String
tab_name transfers = "transfers"
tab_name tunnels = "tunnels"
tab_name ports = "ports"
tab_name docker = "docker"
tab_name virtualbox = "virtualbox"
tab_name databases = "databases"

abbrev pub is_docker : TabId → Bool
is_docker docker = true
is_docker _ = false

-- the tab of databases is for paying accounts
abbrev pub needs_pro : TabId → Bool
needs_pro databases = true
needs_pro _ = false

pub data Mode : Type 0 where
  collapsed docked fullscreen : Mode

-- `selected` and `mode` are the component's state, the other fields its properties; `mobile` is
-- what the bottom bar of a phone shows, and `upgrades` counts the calls of `onUpgrade`.
pub record View : Type 0 where
  pub selected : TabId
  pub mode : Mode
  pub docker_available : Bool
  pub is_pro : Bool
  pub phone : Bool
  pub mobile : String

pub active_tab : View → TabId
active_tab v = if is_docker v.selected && not v.docker_available then transfers else v.selected

pub visible_tabs : Bool → List TabId
visible_tabs docker_available = filter (λ t. not (is_docker t) || docker_available) all_tabs

pub phone_shows_panel : View → Bool
unfolding visible_tabs
phone_shows_panel v =
    v.phone && any (λ t. str_eq (tab_name t) v.mobile) (visible_tabs v.docker_available)

pub shown_mode : View → Mode
unfolding phone_shows_panel
shown_mode v = if v.phone then (if phone_shows_panel v then fullscreen else collapsed) else v.mode

-- the tab of a name
tab_named : List TabId → String → Option TabId
tab_named [] k = none
tab_named (t ∷ ts) k = let rest = tab_named ts k in if str_eq (tab_name t) k then some t else rest

or_selected : Option TabId → View → View
or_selected none v = v
or_selected (some t) v = record v { selected = t }

-- the effect on the bottom bar's tab
pub follow_mobile : View → View
unfolding phone_shows_panel tab_named or_selected
follow_mobile v = if phone_shows_panel v then or_selected (tab_named all_tabs v.mobile) v else v

abbrev is_collapsed : Mode → Bool
is_collapsed collapsed = true
is_collapsed _ = false

-- A click on a tab: `none` asks for an upgrade.
pub click : TabId → View → Option View
unfolding shown_mode
click t v =
    if needs_pro t && not v.is_pro
    then none
    else some (record v {
      selected = t;
      mode =
          if is_collapsed (shown_mode v) then (if v.phone then fullscreen else docked) else v.mode;
    })

-- `showPanelSearch`
pub shows_search : View → Bool
unfolding active_tab
shows_search v = elim (active_tab v) [
  | transfers ↦ false
  | tunnels ↦ false
  | ports ↦ true
  | docker ↦ true
  | virtualbox ↦ true
  | databases ↦ v.is_pro
]

abbrev pub is_listed : TabId → List TabId → Bool
is_listed t ts = any (λ u. str_eq (tab_name u) (tab_name t)) ts

active_tab_listed :
    (t : TabId) (d : Bool)
    → is_listed (if is_docker t && not d then transfers else t) (visible_tabs d) ≡ true
unfolding visible_tabs
active_tab_listed transfers true = refl
active_tab_listed tunnels true = refl
active_tab_listed ports true = refl
active_tab_listed docker true = refl
active_tab_listed virtualbox true = refl
active_tab_listed databases true = refl
active_tab_listed transfers false = refl
active_tab_listed tunnels false = refl
active_tab_listed ports false = refl
active_tab_listed docker false = refl
active_tab_listed virtualbox false = refl
active_tab_listed databases false = refl

-- The tab that is shown is always one that can be chosen. A click on a tab shows that tab, and
-- opens a collapsed panel off a phone; only a tab of a paying account refuses, and only without
-- one. On a phone the panel covers the window or is hidden, whatever mode was chosen before.
pub click_lem :
    (t : TabId) (v : View)
    → (is_listed (active_tab v) (visible_tabs v.docker_available) ≡ true)
      × (click t v ≡ none → (needs_pro t ≡ true) × (v.is_pro ≡ false))
      × ((w : View)
          → click t v ≡ some w
          → is_docker t ≡ false
          → (active_tab w ≡ t) × (v.phone ≡ false → shown_mode w ≢ collapsed))
      × (v.phone ≡ true → shown_mode v ≢ docked)
unfolding active_tab click shown_mode
click_lem t v = (
  active_tab_listed v.selected v.docker_available,
  λ h. ground arith,
  λ w h d. ground arith,
  λ p e. ground arith,
)
