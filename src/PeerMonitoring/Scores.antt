-- ===== src/PeerMonitoring/Scores.antt =====
-- What the score of a peer says of its past.
use Prim.Native.String.{String}
use zhtp.Base.{ℕ, suc, ◌+◌, ◌^◌, ◌≤◌, ◌<◌, ◌≡◌, true, List, [], ◌∷◌, arith}
use zhtp.PeerMonitoring.{
  PeerReputation, new_peer, record_block_accepted, record_block_rejected, record_tx_accepted,
  record_tx_rejected, record_violation, is_banned,
}

pub data Event : Type 0 where
  block_accepted block_rejected tx_accepted tx_rejected violation : Event

abbrev pub record_event : Event → ℕ → PeerReputation → PeerReputation
record_event block_accepted = record_block_accepted
record_event block_rejected = record_block_rejected
record_event tx_accepted = record_tx_accepted
record_event tx_rejected = record_tx_rejected
record_event violation = record_violation

-- The events of a peer in order, each with its moment.
abbrev pub record_events : List (Event × ℕ) → PeerReputation → PeerReputation
record_events [] p = p
record_events ((event, now) ∷ events) p = record_events events (record_event event now p)

abbrev pub violations_in : List (Event × ℕ) → ℕ
violations_in [] = 0
violations_in ((violation, _) ∷ events) = suc (violations_in events)
violations_in (_ ∷ events) = violations_in events

record_event-score :
    (event : Event) (now : ℕ) (p : PeerReputation)
    → p.score ≤ 200
    → (record_event event now p).score ≤ 200
unfolding record_block_accepted record_block_rejected record_tx_accepted record_tx_rejected
    record_violation
record_event-score block_accepted now p h = ground arith
record_event-score block_rejected now p h = ground arith
record_event-score tx_accepted now p h = ground arith
record_event-score tx_rejected now p h = ground arith
record_event-score violation now p h = ground arith

record_events-score :
    (events : List (Event × ℕ)) (p : PeerReputation)
    → p.score ≤ 200
    → (record_events events p).score ≤ 200
record_events-score [] p h = h
record_events-score ((event, now) ∷ events) p h =
    record_events-score events (record_event event now p) (record_event-score event now p h)

record_events-violations :
    (events : List (Event × ℕ)) (p : PeerReputation)
    → p.violations + violations_in events < 2 ^ 32
    → (record_events events p).violations ≡ p.violations + violations_in events
unfolding record_block_accepted record_block_rejected record_tx_accepted record_tx_rejected
    record_violation
record_events-violations [] p h = omega arith
record_events-violations ((block_accepted, now) ∷ events) p h =
    record_events-violations events (record_block_accepted now p) h
record_events-violations ((block_rejected, now) ∷ events) p h =
    record_events-violations events (record_block_rejected now p) h
record_events-violations ((tx_accepted, now) ∷ events) p h =
    record_events-violations events (record_tx_accepted now p) h
record_events-violations ((tx_rejected, now) ∷ events) p h =
    record_events-violations events (record_tx_rejected now p) h
record_events-violations ((violation, now) ∷ events) p h =
    ground (arith, record_events-violations events (record_violation now p) (ground arith))

pub record_events-banned :
    (peer_id : String) (first : ℕ) (events later : List (Event × ℕ))
    → violations_in events + violations_in later < 2 ^ 32
    → 10 ≤ violations_in events
    → ((record_events later (record_events events (new_peer peer_id first))).score ≤ 200)
      × (is_banned (record_events later (record_events events (new_peer peer_id first))) ≡ true)
unfolding new_peer is_banned
record_events-banned peer_id first events later small many =
    let start = new_peer peer_id first in
    let before = record_events events start in
    (
      record_events-score later before (record_events-score events start (omega arith)),
      ground (
        arith,
        record_events-violations events start (ground arith),
        record_events-violations later before
            (ground (arith, record_events-violations events start (ground arith))),
      ),
    )
