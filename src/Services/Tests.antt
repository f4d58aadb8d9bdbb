-- ===== src/Services/Tests.antt =====
-- Runs of the services, and the theorems at concrete inputs.
use condui.Prelude.{◌+◌, String, some, [], ◌∷◌, ◌≡◌, refl}
use condui.Services.Uptime.{fmt_uptime, Says, hours, fmt_uptime-Says}
use condui.Services.Action
use condui.Services.Action.{Hook, Use, runs, ends, run, IsExclusive, run-IsExclusive}
use condui.Services.Tunnels
use condui.Services.Tunnels.{
  reload, change, answer, listed, reloads, changes, answers, IsCurrent, Reach-IsCurrent,
}

two_hours : fmt_uptime 7260 ≡ hours 2 1
unfolding fmt_uptime
two_hours = refl

fmt_uptime-Says_example : Says 7260 (fmt_uptime 7260)
fmt_uptime-Says_example = fmt_uptime-Says 7260

init-IsExclusive : IsExclusive Action.init
init-IsExclusive = record { busy = refl; parent_busy = refl; running = refl }

run-IsExclusive_example :
    IsExclusive (run (runs "saving" ∷ runs "again" ∷ ends (some "no") ∷ []) Action.init)
run-IsExclusive_example =
    run-IsExclusive (runs "saving" ∷ runs "again" ∷ ends (some "no") ∷ []) init-IsExclusive

abbrev shown_tunnels : Tunnels.Hook
shown_tunnels = answer 2 (listed ("t" ∷ [])) (change (some "c") Tunnels.init)

Reach-IsCurrent_example :
    ((c : String) → shown_tunnels.tunnels.owner ≡ some c → shown_tunnels.connection ≡ some c)
    × (let k =
          answer
            (shown_tunnels.request + 1)
            (listed ("u" ∷ []))
            (reload (some "b") shown_tunnels) in
        (k.tunnels ≡ record { owner = some "b"; items = "u" ∷ [] })
        × (k.connection ≡ shown_tunnels.connection))
unfolding change
Reach-IsCurrent_example = Reach-IsCurrent "b" ("u" ∷ []) (
    Tunnels.next (Tunnels.next Tunnels.here (changes (some "c")))
      (answers 2 "c" (listed ("t" ∷ [])) refl))
