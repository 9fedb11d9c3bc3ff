-- ===== src/PeerMonitoring/Tests.antt =====
-- Peers at concrete inputs.
use zhtp.Base.{
  ℕ, ◌+◌, ◌-◌, ◌≤◌, ◌<◌, ◌≡◌, ◌↔◌, refl, true, List, [], ◌∷◌, ◌++◌, arith, leb, if◌then◌else◌,
}
use zhtp.PeerMonitoring.{
  PeerRateLimit, new_limit, new_peer, is_banned, record_violation, check_and_increment_block,
}
use zhtp.PeerMonitoring.Scores.{Event, violation, record_events}
use zhtp.PeerMonitoring.Limits.{created, block, since, note, check_and_increment_block-passes_iff}

abbrev five_violations : List (Event × ℕ)
five_violations =
    (violation, 1) ∷ (violation, 2) ∷ (violation, 3) ∷ (violation, 4) ∷ (violation, 5) ∷ []

abbrev ten_violations : List (Event × ℕ)
ten_violations = five_violations ++ five_violations

ten_banned : is_banned (record_events ten_violations (new_peer "peer" 0)) ≡ true
unfolding is_banned record_violation new_peer
ten_banned = refl

abbrev one_block : PeerRateLimit
one_block = (check_and_increment_block 2 10 (new_limit 0)).1

check_and_increment_block-passes_iff_example :
    let log = note (check_and_increment_block 2 10 (new_limit 0)).0 10 [] in
    let start = (if leb 60 (20 - one_block.last_reset) then 20 else one_block.last_reset) in
    (((check_and_increment_block 2 20 one_block).0 ≡ true) ↔ (since start log < 2))
    × (20 < start + 60)
    × (since start log ≤ 2)
check_and_increment_block-passes_iff_example =
    check_and_increment_block-passes_iff 2 5 (omega arith) 20
      (block 10 (created 0) (omega arith) (omega arith)) (omega arith) (omega arith)
