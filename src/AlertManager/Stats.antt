-- ===== src/AlertManager/Stats.antt =====
-- The statistics of the stored alerts.
use Prim.Native.String.{String}
use zhtp.Base.{
  ℕ, ◌+◌, ◌-◌, ◌%◌, ◌^◌, ◌<◌, ◌≤◌, ◌≡◌, refl, inl, inr, Option-cases, Option, none, some, List, [],
  ◌∷◌, arith, if◌then◌else◌, ltb, ◌==◌, string_key, string_dec, same,
}
use zhtp.Base.Lists.{length}
use zhtp.Base.Dict.{Dict, lookup, lookup-insert, lookup-nil}
use zhtp.AlertManager.{
  Alert, AlertLevel, info, warning, critical, emergency, AlertManager, level_str, same_level,
  of_level, get_alerts_by_level, count_level, count_alerts, get_alert_stats,
}

same-level_str : (a b : AlertLevel) → same (level_str a) (level_str b) ≡ same_level a b
unfolding level_str string_dec
same-level_str info info = refl
same-level_str info warning = refl
same-level_str info critical = refl
same-level_str info emergency = refl
same-level_str warning info = refl
same-level_str warning warning = refl
same-level_str warning critical = refl
same-level_str warning emergency = refl
same-level_str critical info = refl
same-level_str critical warning = refl
same-level_str critical critical = refl
same-level_str critical emergency = refl
same-level_str emergency info = refl
same-level_str emergency warning = refl
same-level_str emergency critical = refl
same-level_str emergency emergency = refl

-- An entry of the statistics for so many alerts.
abbrev pub entry : ℕ → Option ℕ
entry n = if n == 0 then none else some n

abbrev plus : Option ℕ → ℕ → Option ℕ
plus none n = entry n
plus (some k) n = some (k + n)

-- The alerts later than a moment.
abbrev pub later_than : ℕ → List Alert → ℕ
later_than t [] = 0
later_than t (alert ∷ alerts) =
    if ltb t alert.timestamp then later_than t alerts + 1 else later_than t alerts

lookup-count_level :
    (level level' : AlertLevel) (stats : Dict String ℕ)
    → lookup (level_str level) (count_level (level_str level') stats) ≡ (
        if same_level level' level
        then plus (lookup (level_str level) stats) 1
        else lookup (level_str level) stats)
lookup-count_level level level' stats = elim (Option-cases (lookup (level_str level') stats)) [
  | inl e ↦
      rw (count_level, e)
        (ground (
          arith,
          same-level_str level' level,
          lookup-insert (level_str level') (level_str level) 1 stats,
        ))
  | inr (n, e) ↦
      rw (count_level, e)
        (ground (
          arith,
          same-level_str level' level,
          lookup-insert (level_str level') (level_str level) (n + 1) stats,
        ))
]

lookup-count_alerts :
    (hour_ago : ℕ) (level : AlertLevel) (alerts : List Alert) (recent : ℕ) (stats : Dict String ℕ)
    → lookup (level_str level) (count_alerts hour_ago alerts recent stats).1
      ≡ plus (lookup (level_str level) stats) (length (of_level level alerts))
unfolding count_alerts of_level
lookup-count_alerts hour_ago level [] recent stats = ground arith
lookup-count_alerts hour_ago level (alert ∷ alerts) recent stats = ground (
  arith,
  lookup-count_level level alert.level stats,
  lookup-count_alerts hour_ago level alerts
      (if ltb hour_ago alert.timestamp then recent + 1 else recent)
      (count_level (level_str alert.level) stats),
)

recent-count_alerts :
    (hour_ago : ℕ) (alerts : List Alert) (recent : ℕ) (stats : Dict String ℕ)
    → (count_alerts hour_ago alerts recent stats).0 ≡ recent + later_than hour_ago alerts
unfolding count_alerts
recent-count_alerts hour_ago [] recent stats = omega arith
recent-count_alerts hour_ago (alert ∷ alerts) recent stats = ground (
  arith,
  recent-count_alerts hour_ago alerts (recent + 1) (count_level (level_str alert.level) stats),
  recent-count_alerts hour_ago alerts recent (count_level (level_str alert.level) stats),
)

pub get_alert_stats-counts :
    (now : ℕ) (m : AlertManager) (level : AlertLevel)
    → 3600 ≤ now
    → now < 2 ^ 64
    → (lookup (level_str level) (get_alert_stats now m).stats_by_level
        ≡ entry (length (get_alerts_by_level level m)))
      × ((get_alert_stats now m).recent_alerts ≡ later_than (now - 3600) m.alerts)
unfolding get_alert_stats get_alerts_by_level
get_alert_stats-counts now m level h w =
    let hour_ago = (now + 2 ^ 64 - 3600) % 2 ^ 64 in
    (
      ground (
        arith,
        lookup-count_alerts hour_ago level m.alerts 0 [],
        lookup-nil {V = ℕ} (level_str level),
      ),
      ground (arith, recent-count_alerts hour_ago m.alerts 0 []),
    )
