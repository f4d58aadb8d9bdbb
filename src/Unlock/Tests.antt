-- ===== src/Unlock/Tests.antt =====
-- Runs of the dialog that unlocks connections, and the theorems at two connections.
use condui.Prelude.{
  ℕ, String, Bool, true, false, not, ◌&&◌, none, some, List, [], ◌∷◌, ◌≡◌, refl, length, filter,
  any, str_eq, leb, if◌then◌else◌,
}
use condui.Prelude.Text.{is_empty}
use condui.Unlock.{
  partial, failed, Pending, ask, ask_all, notice_of, finish, handle_unlock, handle_all,
}
use condui.Unlock.Left.{left, left-handle_all, Says, handle_unlock-Says}

-- the password 1 is that of "a", the others are that of "b"
abbrev opens : List ℕ → String → Bool
opens [] c = false
opens (x ∷ xs) c = if leb x 1 then str_eq c "a" else str_eq c "b"

abbrev dialog : Pending
dialog = record { pending = "a" ∷ "b" ∷ []; error = none; reloads = 0; closed = false }

runs :
    ((handle_all opens ((1 ∷ []) ∷ []) dialog).error ≡ some (partial 1 1))
    × ((handle_all opens ((1 ∷ []) ∷ (1 ∷ []) ∷ []) dialog).error ≡ some failed)
    × ((handle_all opens ((1 ∷ []) ∷ [] ∷ (2 ∷ []) ∷ []) dialog).closed ≡ true)
    × ((handle_all opens ((1 ∷ []) ∷ [] ∷ (2 ∷ []) ∷ []) dialog).reloads ≡ 2)
unfolding handle_all handle_unlock ask_all ask finish notice_of
runs = (refl, refl, refl, refl)

left-handle_all_example :
    left (handle_all opens ((1 ∷ []) ∷ [] ∷ []) dialog)
    ≡ filter
        (λ c. not (any (λ p. not (is_empty p) && opens p c) ((1 ∷ []) ∷ [] ∷ [])))
        (left dialog)
left-handle_all_example = left-handle_all opens ((1 ∷ []) ∷ [] ∷ []) dialog

handle_unlock-Says_example :
    Says
      (length (filter (λ c. opens (1 ∷ []) c) dialog.pending))
      (length (filter (λ c. not (opens (1 ∷ []) c)) dialog.pending))
      dialog
      (handle_unlock opens (1 ∷ []) dialog)
handle_unlock-Says_example = handle_unlock-Says opens 1 [] dialog refl
