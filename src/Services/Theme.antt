-- ===== src/Services/Theme.antt =====
-- services/theme.js: the colour theme that the user prefers, and the one that is applied.
use condui.Prelude.{
  String, Bool, true, Option, none, some, List, [], ◌∷◌, ◌≡◌, refl, str_eq, any, if◌then◌else◌,
  if_intro,
}

abbrev pub modes : List String
modes = "light" ∷ "dark" ∷ "system" ∷ []

abbrev pub is_mode : String → Bool
is_mode v = any (λ m. str_eq m v) modes

-- A window's module: `saved` is what the storage holds, `dark` what the system prefers, `applied`
-- the data attribute of the page.
pub record Theme : Type 0 where
  pub preference : String
  pub saved : Option String
  pub dark : Bool
  pub applied : String

abbrev pub resolve : String → Bool → String
resolve p dark = if str_eq p "system" then (if dark then "dark" else "light") else p

pub apply_theme : Theme → Theme
apply_theme t = record t { applied = resolve t.preference t.dark }

-- `modes.includes(v) ? v : "system"`, also for a missing value
pub or_system : Option String → String
or_system none = "system"
or_system (some v) = if is_mode v then v else "system"

-- the module when it is loaded: what the storage holds counts if it is a mode
pub load : Option String → Bool → Theme
unfolding apply_theme or_system
load saved dark =
    apply_theme (record { preference = or_system saved; saved = saved; dark = dark; applied = "" })

-- `setTheme`; the storage may refuse to write
pub set_theme : Bool → String → Theme → Theme
unfolding apply_theme
set_theme writes v t =
    if is_mode v
    then apply_theme (record t { preference = v; saved = if writes then some v else t.saved })
    else t

-- the `storage` event of another window: its key, and its new value; no key is a cleared storage
pub on_storage : Option String → Option String → Theme → Theme
unfolding apply_theme or_system
on_storage none value t = apply_theme (record t { preference = or_system value; saved = value })
on_storage (some key) value t =
    if str_eq key "condui-theme"
    then apply_theme (record t { preference = or_system value; saved = value })
    else t

-- the change of the system's preference
pub on_system : Bool → Theme → Theme
unfolding apply_theme
on_system dark t = apply_theme (record t { dark = dark })

-- A preference is one of the three modes, and the theme on the page is the preferred one, or that
-- of the system if the system is to decide.
pub record IsApplied (t : Theme) : Type 0 where
  pub mode : is_mode t.preference ≡ true
  pub applied : t.applied ≡ resolve t.preference t.dark

pub data Step : Theme → Theme → Type 0 where
  sets : {t : Theme} (writes : Bool) (v : String) → Step t (set_theme writes v t)
  stores : {t : Theme} (key value : Option String) → Step t (on_storage key value t)
  switches : {t : Theme} (dark : Bool) → Step t (on_system dark t)

pub data Reach (saved : Option String) (dark : Bool) : Theme → Type 0 where
  loaded : Reach saved dark (load saved dark)
  next : {t u : Theme} → Reach saved dark t → Step t u → Reach saved dark u

is_mode-or_system : (v : Option String) → is_mode (or_system v) ≡ true
unfolding or_system
is_mode-or_system none = refl
is_mode-or_system (some v) =
    if_intro (λ (p : String). is_mode p ≡ true) (is_mode v) (λ y. y) (λ _. refl)

Step-IsApplied : {t u : Theme} → Step t u → IsApplied t → IsApplied u
unfolding set_theme on_storage on_system apply_theme
Step-IsApplied {t} (sets writes v) a =
    if_intro IsApplied (is_mode v) (λ y. record { mode = y; applied = refl }) (λ _. a)
Step-IsApplied (stores none value) a = record { mode = is_mode-or_system value; applied = refl }
Step-IsApplied (stores (some key) value) a =
    if_intro IsApplied (str_eq key "condui-theme")
      (λ _. record { mode = is_mode-or_system value; applied = refl }) (λ _. a)
Step-IsApplied (switches dark) a = record { mode = a.mode; applied = refl }

-- However the page is loaded and whatever happens to it, the preference is one of the three modes
-- and the page shows the theme that the preference and the system ask for.
pub Reach-IsApplied :
    {saved : Option String} {dark : Bool} {t : Theme} → Reach saved dark t → IsApplied t
unfolding load apply_theme
Reach-IsApplied {saved} loaded = record { mode = is_mode-or_system saved; applied = refl }
Reach-IsApplied (next r st) = Step-IsApplied st (Reach-IsApplied r)

-- A theme that was set and stored is the one of every other window, which hears of it, and of the
-- page when it is loaded again.
pub load-set_theme :
    (v : String) (t u : Theme) (dark : Bool)
    → is_mode v ≡ true
    → ((load (set_theme true v t).saved dark).preference ≡ v)
      × ((on_storage (some "condui-theme") (set_theme true v t).saved u).preference ≡ v)
unfolding load set_theme on_storage apply_theme or_system
load-set_theme v t u dark h = rw (h, h) (refl, refl)
