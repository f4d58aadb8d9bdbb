-- ===== src/Vault/Tests.antt =====
-- Runs of the start, and the theorem at one that sets the vault up.
use condui.Prelude.{
  ℕ, String, true, false, none, some, List, [], ◌∷◌, ◌≡◌, refl, str_eq, if◌then◌else◌,
}
use condui.Vault.{
  too_short, mismatch, setup_master_password, unlock_vault, init, mode_of, is_busy, handle_setup,
  handle_unlock, notice_of, answered, Event, is_setup, type_password, type_confirm, submit, answer,
  submitted, answer_to, on_event, run,
}
use condui.Vault.Guard.{IsGuarded, run-IsGuarded}

-- only these two passwords are typed
abbrev length : String → ℕ
length s = if str_eq s "long enough" then 11 else 5

abbrev typed : List Event
typed =
    is_setup (some false)
    ∷ type_password "short"
    ∷ submit
    ∷ type_password "long enough"
    ∷ submit
    ∷ type_confirm "long enough"
    ∷ submit
    ∷ submit
    ∷ answer (some "busy")
    ∷ submit
    ∷ answer none
    ∷ []

runs :
    ((run length typed init).accepted ≡ setup_master_password "long enough" ∷ [])
    × ((run length (is_setup none ∷ type_password "short" ∷ submit ∷ []) init).error
        ≡ some too_short)
    × ((run length (is_setup none ∷ type_password "long enough" ∷ submit ∷ []) init).error
        ≡ some mismatch)
    × ((run length (is_setup (some true) ∷ submit ∷ []) init).call ≡ some (unlock_vault ""))
unfolding run on_event mode_of is_busy submitted handle_setup handle_unlock answer_to answered
    notice_of init
runs = (refl, refl, refl, refl)

run-IsGuarded_example : IsGuarded length (run length typed init)
unfolding init
run-IsGuarded_example =
    run-IsGuarded length typed init (record { sent = tt; taken = tt; opened = λ e. cc })
