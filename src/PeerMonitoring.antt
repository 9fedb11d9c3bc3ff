-- ===== src/PeerMonitoring.antt =====
-- src/server/monitoring/reputation.rs. A score, from -100 to 100 in the source, is a number from 0 to
-- 200 here, 100 higher, so that the lower bound is where subtraction stops. Moments are numbers of
-- seconds; counters of 32 and 64 bits wrap. The acceptance rate, a float, is left out.
pub mod Scores
pub mod Limits
mod Tests
use Prim.Native.String.{String}
use zhtp.Base.{ℕ, ◌+◌, ◌-◌, ◌%◌, ◌^◌, min, Bool, true, false, ◌||◌, if◌then◌else◌, leb}

pub record PeerReputation : Type 0 where
  pub peer_id : String
  pub score : ℕ
  pub blocks_accepted : ℕ
  pub blocks_rejected : ℕ
  pub txs_accepted : ℕ
  pub txs_rejected : ℕ
  pub violations : ℕ
  pub first_seen : ℕ
  pub last_seen : ℕ

abbrev pub next_u32 : ℕ → ℕ
next_u32 n = (n + 1) % 2 ^ 32

abbrev pub next_u64 : ℕ → ℕ
next_u64 n = (n + 1) % 2 ^ 64

-- `PeerReputation::new`, with the score 50
pub new_peer : String → ℕ → PeerReputation
new_peer peer_id now = record {
  peer_id = peer_id;
  score = 150;
  blocks_accepted = 0;
  blocks_rejected = 0;
  txs_accepted = 0;
  txs_rejected = 0;
  violations = 0;
  first_seen = now;
  last_seen = now;
}

abbrev pub update_last_seen : ℕ → PeerReputation → PeerReputation
update_last_seen now p = record p { last_seen = now }

pub record_block_accepted : ℕ → PeerReputation → PeerReputation
record_block_accepted now p =
    update_last_seen now
      (record p { blocks_accepted = next_u64 p.blocks_accepted; score = min (p.score + 1) 200 })

pub record_block_rejected : ℕ → PeerReputation → PeerReputation
record_block_rejected now p =
    update_last_seen now
      (record p { blocks_rejected = next_u64 p.blocks_rejected; score = p.score - 2 })

pub record_tx_accepted : ℕ → PeerReputation → PeerReputation
record_tx_accepted now p =
    update_last_seen now
      (record p { txs_accepted = next_u64 p.txs_accepted; score = min (p.score + 1) 200 })

pub record_tx_rejected : ℕ → PeerReputation → PeerReputation
record_tx_rejected now p =
    update_last_seen now (record p { txs_rejected = next_u64 p.txs_rejected; score = p.score - 2 })

pub record_violation : ℕ → PeerReputation → PeerReputation
record_violation now p =
    update_last_seen now (record p { violations = next_u32 p.violations; score = p.score - 10 })

-- A score of at most -50, or ten violations.
pub is_banned : PeerReputation → Bool
is_banned p = leb p.score 50 || leb 10 p.violations

pub record PeerRateLimit : Type 0 where
  pub block_count : ℕ
  pub tx_count : ℕ
  pub last_reset : ℕ
  pub violations : ℕ

-- `PeerRateLimit::new`
pub new_limit : ℕ → PeerRateLimit
new_limit now = record { block_count = 0; tx_count = 0; last_reset = now; violations = 0 }

-- The seconds since the last reset, in 64 bits.
pub reset_if_needed : ℕ → PeerRateLimit → PeerRateLimit
reset_if_needed now l =
    if leb 60 ((now + 2 ^ 64 - l.last_reset) % 2 ^ 64)
    then record l { block_count = 0; tx_count = 0; last_reset = now }
    else l

pub check_and_increment_block : ℕ → ℕ → PeerRateLimit → Bool × PeerRateLimit
check_and_increment_block max_per_minute now l =
    let r = reset_if_needed now l in
    if leb max_per_minute r.block_count
    then (false, record r { violations = next_u32 r.violations })
    else (true, record r { block_count = next_u32 r.block_count })

pub check_and_increment_tx : ℕ → ℕ → PeerRateLimit → Bool × PeerRateLimit
check_and_increment_tx max_per_minute now l =
    let r = reset_if_needed now l in
    if leb max_per_minute r.tx_count
    then (false, record r { violations = next_u32 r.violations })
    else (true, record r { tx_count = next_u32 r.tx_count })

abbrev pub get_violations : PeerRateLimit → ℕ
get_violations l = l.violations
