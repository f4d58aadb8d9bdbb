-- ===== src/Sharing/Sync.antt =====
-- The synchronization that App.jsx starts every minute for a paying account.
use condui.Prelude.{ℕ, ◌+◌, ◌-◌, ◌≤◌, ◌<◌, Bool, true, false, ◌≡◌, refl, if◌then◌else◌, arith, ltb}

-- `in_flight` is the flag that outlives a render; `running` counts the synchronizations that have
-- not ended.
pub record Sync : Type 0 where
  pub in_flight : Bool
  pub running : ℕ

-- `runProSync` up to its first await
pub run_pro_sync : Sync → Sync
run_pro_sync s = if s.in_flight then s else record { in_flight = true; running = s.running + 1 }

-- Its end, whichever of its calls failed or none.
pub ended : Sync → Sync
ended s = record { in_flight = false; running = s.running - 1 }

pub data Reach : Sync → Type 0 where
  start : Reach (record { in_flight = false; running = 0 })
  ticks : {s : Sync} → Reach s → Reach (run_pro_sync s)
  ends : {s : Sync} → 0 < s.running → Reach s → Reach (ended s)

run_pro_sync_keeps :
    (b : Bool) (n : ℕ)
    → n ≤ 1
    → b ≡ ltb 0 n
    → ((run_pro_sync (record { in_flight = b; running = n })).running ≡ 1)
      × ((run_pro_sync (record { in_flight = b; running = n })).in_flight ≡ true)
      × ((run_pro_sync (run_pro_sync (record { in_flight = b; running = n }))).running ≡ 1)
unfolding run_pro_sync
run_pro_sync_keeps true n h k = (ground arith, refl, ground arith)
run_pro_sync_keeps false n h k = (ground arith, refl, ground arith)

-- However long a synchronization takes, at most one runs, and the flag is set exactly while it
-- does, so the next minute's starts unless one still runs.
pub running-run_pro_sync :
    {s : Sync}
    → Reach s
    → (s.running ≤ 1) × (s.in_flight ≡ ltb 0 s.running) × ((run_pro_sync s).running ≡ 1)
unfolding run_pro_sync ended
running-run_pro_sync start = (ground arith, refl, refl)
running-run_pro_sync (ticks {s} r) =
    let h = running-run_pro_sync r in
    let k = run_pro_sync_keeps s.in_flight s.running h.0 h.1 in
    (ground (arith, k.0), rw (k.0, k.1) refl, k.2)
running-run_pro_sync (ends {s} p r) =
    let h = running-run_pro_sync r in
    (ground (arith, h.0), ground (arith, h.0), ground (arith, h.0))
