-- ===== src/MetricsHistory/Tests.antt =====
-- The theorem on src/server/monitoring/metrics.rs at a concrete input.
use zhtp.Base.{ℕ, ◌-◌, ◌≤◌, ◌≡◌, refl, true, List, [], ◌∷◌}
use zhtp.Base.Lists.{length, drop}
use zhtp.MetricsHistory.{
  MetricsSnapshot, add_snapshots, add_snapshots-window, new_history, should_take_snapshot,
}

abbrev at : ℕ → MetricsSnapshot ℕ
at t = record { timestamp = t; figures = t }

abbrev three : List (MetricsSnapshot ℕ)
three = at 10 ∷ at 20 ∷ at 30 ∷ []

add_snapshots-window_example :
    let h = add_snapshots three (new_history 2 10) in
    (h.snapshots ≡ drop (length three - 2) three) × (length h.snapshots ≤ 2)
add_snapshots-window_example = add_snapshots-window 2 10 three

-- A clock that was set back takes a snapshot at once.
set_back :
    should_take_snapshot {Figures = ℕ} 5
      (record { snapshots = []; max_snapshots = 2; interval_secs = 10; last_snapshot = 30 })
    ≡ true
unfolding should_take_snapshot
set_back = refl
