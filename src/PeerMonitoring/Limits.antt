-- ===== src/PeerMonitoring/Limits.antt =====
-- The rate limit of a peer beside the history of the blocks that it let through.
use zhtp.Base.{
  ℕ, ◌+◌, ◌-◌, ◌^◌, ◌≤◌, ◌<◌, ◌≡◌, ◌↔◌, refl, Bool, true, List, [], ◌∷◌, arith, leb, if◌then◌else◌,
}
use zhtp.PeerMonitoring.{
  PeerRateLimit, new_limit, reset_if_needed, check_and_increment_block, check_and_increment_tx,
}

-- How many of the moments are not before `t`.
unfoldable pub since : ℕ → List ℕ → ℕ
since t [] = 0
since t (moment ∷ log) = let rest = since t log in if leb t moment then rest + 1 else rest

abbrev pub note : Bool → ℕ → List ℕ → List ℕ
note passed now log = if passed then now ∷ log else log

-- A limit at a moment, after checks at moments in order, with the moments of the blocks that passed.
pub data Run (max_blocks max_txs : ℕ) : ℕ → List ℕ → PeerRateLimit → Type 0 where
  created : (start : ℕ) → Run max_blocks max_txs start [] (new_limit start)
  block :
      {before : ℕ} {log : List ℕ} {l : PeerRateLimit} (now : ℕ)
      → Run max_blocks max_txs before log l
      → before ≤ now
      → now < 2 ^ 64
      → Run max_blocks max_txs now
          (note (check_and_increment_block max_blocks now l).0 now log)
          (check_and_increment_block max_blocks now l).1
  tx :
      {before : ℕ} {log : List ℕ} {l : PeerRateLimit} (now : ℕ)
      → Run max_blocks max_txs before log l
      → before ≤ now
      → now < 2 ^ 64
      → Run max_blocks max_txs now log (check_and_increment_tx max_txs now l).1

record Agrees (max_blocks t : ℕ) (log : List ℕ) (l : PeerRateLimit) : Type 0 where
  counted : since l.last_reset log ≡ l.block_count
  bounded : l.block_count ≤ max_blocks
  past : l.last_reset ≤ t
  recent : t < l.last_reset + 60
  ordered : (u : ℕ) → t < u → since u log ≡ 0

reset-Agrees :
    (max_blocks before now : ℕ) (log : List ℕ) (l : PeerRateLimit)
    → Agrees max_blocks before log l
    → before ≤ now
    → now < 2 ^ 64
    → Agrees max_blocks now log (reset_if_needed now l)
unfolding reset_if_needed
reset-Agrees max_blocks before now log l a le small = record {
  counted = ground (arith, a.counted, a.past, a.recent, a.ordered now);
  bounded = ground (arith, a.bounded);
  past = ground (arith, a.past);
  recent = ground (arith, a.past);
  ordered = λ u lt. a.ordered u (omega arith);
}

block-Agrees :
    (max_blocks before now : ℕ) (log : List ℕ) (l : PeerRateLimit)
    → max_blocks < 2 ^ 32
    → Agrees max_blocks before log l
    → before ≤ now
    → now < 2 ^ 64
    → Agrees max_blocks now
        (note (check_and_increment_block max_blocks now l).0 now log)
        (check_and_increment_block max_blocks now l).1
unfolding check_and_increment_block since
block-Agrees max_blocks before now log l fits a le small =
    let r = reset-Agrees max_blocks before now log l a le small in
    record {
      counted = ground (arith, r.counted, r.bounded, r.past);
      bounded = ground (arith, r.bounded);
      past = ground (arith, r.past);
      recent = ground (arith, r.recent);
      ordered = λ u lt. ground (arith, r.ordered u lt);
    }

tx-Agrees :
    (max_blocks max_txs before now : ℕ) (log : List ℕ) (l : PeerRateLimit)
    → Agrees max_blocks before log l
    → before ≤ now
    → now < 2 ^ 64
    → Agrees max_blocks now log (check_and_increment_tx max_txs now l).1
unfolding check_and_increment_tx
tx-Agrees max_blocks max_txs before now log l a le small =
    let r = reset-Agrees max_blocks before now log l a le small in
    record {
      counted = ground (arith, r.counted);
      bounded = ground (arith, r.bounded);
      past = ground (arith, r.past);
      recent = ground (arith, r.recent);
      ordered = r.ordered;
    }

module _ (max_blocks max_txs : ℕ) (fits : max_blocks < 2 ^ 32) where
  Run-Agrees :
      {t : ℕ} {log : List ℕ} {l : PeerRateLimit}
      → Run max_blocks max_txs t log l
      → Agrees max_blocks t log l
  unfolding new_limit since
  Run-Agrees (created start) = record {
    counted = refl;
    bounded = omega arith;
    past = omega arith;
    recent = omega arith;
    ordered = λ u lt. refl;
  }
  Run-Agrees (block {before} {log} {l} now h le small) =
      block-Agrees max_blocks before now log l fits (Run-Agrees h) le small
  Run-Agrees (tx {before} {log} {l} now h le small) =
      tx-Agrees max_blocks max_txs before now log l (Run-Agrees h) le small

  -- With a maximum that fits 32 bits, after any checks of blocks and transactions at moments
  -- in order, at a moment not before the last of them: a block passes exactly if fewer than
  -- the maximum have passed since the window began, which is less than 60 seconds ago; no
  -- more than the maximum have passed in it.
  pub check_and_increment_block-passes_iff :
      {before : ℕ} {log : List ℕ} {l : PeerRateLimit} (now : ℕ)
      → Run max_blocks max_txs before log l
      → before ≤ now
      → now < 2 ^ 64
      → let start = (if leb 60 (now - l.last_reset) then now else l.last_reset) in
        (((check_and_increment_block max_blocks now l).0 ≡ true) ↔ (since start log < max_blocks))
        × (now < start + 60)
        × (since start log ≤ max_blocks)
  unfolding check_and_increment_block reset_if_needed
  check_and_increment_block-passes_iff {before} {log} {l} now h le small =
      let a = Run-Agrees h in
      let r = reset-Agrees max_blocks before now log l a le small in
      (
        (
          λ e. ground (arith, r.counted, a.past, small),
          λ lt. ground (arith, r.counted, a.past, small),
        ),
        ground (arith, a.past),
        ground (arith, r.counted, r.bounded, a.past, small),
      )
