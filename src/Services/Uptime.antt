-- ===== src/Services/Uptime.antt =====
-- `fmtUptime` of components/resourceFormat.js, of a number of whole seconds.
use condui.Prelude.{ℕ, ◌+◌, ◌*◌, ◌/◌, ◌%◌, ◌≤◌, ◌<◌, arith, ltb, if◌then◌else◌, if_intro}

-- the two units that are printed
pub data Uptime : Type 0 where
  months days hours : ℕ → ℕ → Uptime
  minutes : ℕ → Uptime

unfoldable pub fmt_uptime : ℕ → Uptime
fmt_uptime s =
    let mo = s / 2592000 in
    let d = s % 2592000 / 86400 in
    let h = s % 86400 / 3600 in
    let m = s % 3600 / 60 in
    if ltb 0 mo
    then months mo d
    else if ltb 0 d
    then days d h
    else if ltb 0 h
    then hours h m
    else minutes m

-- What an uptime says: the time is at least `low` and less than `low` and the smaller unit, and
-- the smaller number stays below the larger unit.
pub Says : ℕ → Uptime → Type 0
Says s (months mo d) =
    (0 < mo) × (d < 30) × (mo * 2592000 + d * 86400 ≤ s) × (s < mo * 2592000 + d * 86400 + 86400)
Says s (days d h) =
    (0 < d) × (d < 30) × (h < 24) × (d * 86400 + h * 3600 ≤ s) × (s < d * 86400 + h * 3600 + 3600)
Says s (hours h m) =
    (0 < h) × (h < 24) × (m < 60) × (h * 3600 + m * 60 ≤ s) × (s < h * 3600 + m * 60 + 60)
Says s (minutes m) = (m < 60) × (m * 60 ≤ s) × (s < m * 60 + 60)

-- The two units that are printed are the time, rounded down to the smaller one; the larger number
-- is not 0 and each number stays below the next larger unit. A month is 30 days.
pub fmt_uptime-Says : (s : ℕ) → Says s (fmt_uptime s)
unfolding fmt_uptime Says
fmt_uptime-Says s =
    if_intro (Says s) (ltb 0 (s / 2592000)) (λ y. ground arith)
      (λ n.
        if_intro (Says s) (ltb 0 (s % 2592000 / 86400)) (λ y. ground arith)
          (λ n'.
            if_intro (Says s) (ltb 0 (s % 86400 / 3600)) (λ y. ground arith) (λ n''. ground arith)))
