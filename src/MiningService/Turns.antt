-- ===== src/MiningService/Turns.antt =====
-- The turns of the loop in src/runtime/services/mining_service.rs: who mines, and when.
use Prim.Native.String.{String}
use zhtp.Base.{
  ℕ, zero, suc, ◌+◌, ◌-◌, ◌%◌, ◌^◌, ◌<◌, ◌≡◌, ◌≢◌, refl, sym, ◌∙◌, ap, true, some, List, [], ◌∷◌,
  ◌⊎◌, inl, inr, arith, Bool-cases, same, nat_key, string_key,
}
use zhtp.Base.Lists.{List-cases, contains, eq_of_same}
use zhtp.MiningService.{
  Chain, Decision, Decoded, Library, LoopState, Wiring, coordinate, decoded, is_proposer,
  mine_block, mined, no_identity, panic, run_mining, should_mine, skip, skipped, too_short,
  try_mine, turn, turn_by, turns,
}

now : (k round : ℕ) → round < 10 → (round + 0) % 10 ≡ k → k ≡ round
now k round small at_k = omega (arith, small, at_k)

later :
    (k round d : ℕ)
    → round < 10
    → (round + suc d) % 10 ≡ k
    → ((round + 1) % 2 ^ 32 % 10 + d) % 10 ≡ k
later k round d small at_k = omega (arith, small, at_k)

Decision-cases : (d : Decision) → (d ≡ skip) ⊎ (d ≢ skip)
Decision-cases skip = inl refl
Decision-cases mine_block = inr (λ e. cc)
Decision-cases panic = inr (λ e. cc)

Decoded-cases :
    {I : Type 0} (d : Decoded I)
    → (d ≡ no_identity) ⊎ ((d ≡ too_short) ⊎ ((found : I) × (d ≡ decoded found)))
Decoded-cases no_identity = inl refl
Decoded-cases too_short = inr (inl refl)
Decoded-cases (decoded found) = inr (inr (found, refl))

module _ (lib : Library) where
  -- An entry of the registry says that the user of an identity controls a node.
  pub data Controls (node : String) (user : lib.Identity)
      : List (String × List String) → Type 0 where
    here :
        {did : String} {nodes : List String} {rest : List (String × List String)}
        → contains node nodes ≡ true
        → lib.decode_did did ≡ decoded user
        → Controls node user ((did, nodes) ∷ rest)
    there :
        {entry : String × List String} {rest : List (String × List String)}
        → Controls node user rest
        → Controls node user (entry ∷ rest)

  is_proposer-Controls :
      (node : String) (user : lib.Identity) (registry : List (String × List String))
      → is_proposer lib node user registry ≡ mine_block
      → Controls node user registry
  unfolding is_proposer
  is_proposer-Controls node user [] e = absurd (skips e)
    where
      skips : skip ≡ mine_block → ⊥
      skips p = cc
  is_proposer-Controls node user ((did, nodes) ∷ rest) e = elim (Bool-cases (contains node nodes)) [
    | inr c ↦ there (is_proposer-Controls node user rest (ground (arith, c, e)))
    | inl c ↦ elim (Decoded-cases (lib.decode_did did)) [
      | inl p ↦ there (is_proposer-Controls node user rest (ground (arith, c, e, p)))
      | inr (inl p) ↦ absurd (ground (arith, c, e, p))
      | inr (inr (found, p)) ↦ elim (Bool-cases (same ⦃k = lib.identity_key⦄ found user)) [
        | inl s ↦ here c (p ∙ ap decoded (eq_of_same ⦃k = lib.identity_key⦄ found user s))
        | inr s ↦ there (is_proposer-Controls node user rest (ground (arith, c, e, p, s)))
      ]
    ]
  ]

  turn-pending :
      (wiring : Wiring lib) (chain : Chain lib) (s : LoopState) (tx : lib.Transaction)
      (txs : List lib.Transaction)
      → chain.pending_transactions ≡ tx ∷ txs
      → turn lib wiring chain s
        ≡ turn_by lib (should_mine lib wiring s.consensus_round chain) chain s
  unfolding turn
  turn-pending wiring chain s tx txs e = ground (arith, e)

  by-mined :
      (d : Decision) (chain : Chain lib) (s : LoopState)
      → (turn_by lib d chain s).2 ≡ mined
      → d ≡ mine_block
  unfolding turn_by
  by-mined mine_block chain s e = refl
  by-mined skip chain s e = absurd (ground (arith, e))
  by-mined panic chain s e = absurd (ground (arith, e))

  -- With a validator manager that has validators, a node identity and a proposer selected for
  -- the next height: if a turn of the loop mines a block, the registry of the blockchain has
  -- an identity, decoded as the proposer, that controls this node.
  pub turn-Controls :
      (wiring : Wiring lib) (chain : Chain lib) (s : LoopState) (manager : lib.ValidatorManager)
      (node : String) (user : lib.Identity)
      → wiring.validator_manager ≡ some manager
      → wiring.node_identity ≡ some node
      → lib.active_validators manager ≢ 0
      → lib.select_proposer manager (chain.height + 1) s.consensus_round ≡ some user
      → (turn lib wiring chain s).2 ≡ mined
      → Controls node user chain.identity_registry
  unfolding turn should_mine coordinate
  turn-Controls wiring chain s manager node user m n active selected e =
      let d = should_mine lib wiring s.consensus_round chain in
      let same_choice : d ≡ is_proposer lib node user chain.identity_registry =
        ground (arith, m, n, active, selected) in
      elim (List-cases chain.pending_transactions) [
        | inl none_pending ↦ absurd (ground (arith, none_pending, e))
        | inr (tx, txs, pending) ↦ is_proposer-Controls node user chain.identity_registry (
            sym same_choice
            ∙ by-mined d chain s
                (sym (ap (λ x. x.2) (turn-pending wiring chain s tx txs pending)) ∙ e))
      ]

  turns-stop :
      (d : Decision) (n : ℕ) (wiring : Wiring lib) (chain : Chain lib) (s : LoopState)
      (tx : lib.Transaction) (txs : List lib.Transaction)
      → chain.pending_transactions ≡ tx ∷ txs
      → should_mine lib wiring s.consensus_round chain ≡ d
      → d ≢ skip
      → (turns lib (suc n) wiring chain s).2 ≢ skipped
  unfolding turns turn_by run_mining
  turns-stop skip n wiring chain s tx txs pending decided no_skip e = no_skip refl
  turns-stop panic n wiring chain s tx txs pending decided no_skip e =
      ground (arith, turn-pending wiring chain s tx txs pending, decided, e)
  turns-stop mine_block n wiring chain s tx txs pending decided no_skip e =
      elim (Bool-cases (try_mine lib chain).1) [
        | inl d ↦ ground (arith, turn-pending wiring chain s tx txs pending, decided, d, e)
        | inr d ↦ ground (arith, turn-pending wiring chain s tx txs pending, decided, d, e)
      ]

  turns-skip :
      (n : ℕ) (wiring : Wiring lib) (chain : Chain lib) (s : LoopState) (tx : lib.Transaction)
      (txs : List lib.Transaction)
      → chain.pending_transactions ≡ tx ∷ txs
      → should_mine lib wiring s.consensus_round chain ≡ skip
      → turns lib (suc n) wiring chain s
        ≡ turns lib n wiring chain
            (record s { consensus_round = (s.consensus_round + 1) % 2 ^ 32 % 10 })
  unfolding turns turn_by
  turns-skip n wiring chain s tx txs pending decided =
      ground (arith, turn-pending wiring chain s tx txs pending, decided)

  turns-reach :
      (k d n : ℕ) (wiring : Wiring lib) (chain : Chain lib) (s : LoopState) (tx : lib.Transaction)
      (txs : List lib.Transaction)
      → chain.pending_transactions ≡ tx ∷ txs
      → should_mine lib wiring k chain ≢ skip
      → s.consensus_round < 10
      → d < n
      → (s.consensus_round + d) % 10 ≡ k
      → (turns lib n wiring chain s).2 ≢ skipped
  turns-reach k d zero wiring chain s tx txs pending mines small l at_k = absurd (omega (arith, l))
  turns-reach k zero (suc n) wiring chain s tx txs pending mines small l at_k =
      turns-stop (should_mine lib wiring s.consensus_round chain) n wiring chain s tx txs pending
        refl
        (λ skips.
          mines
            (ap (λ r. should_mine lib wiring r chain) (now k s.consensus_round small at_k) ∙ skips))
  turns-reach k (suc d) (suc n) wiring chain s tx txs pending mines small l at_k =
      elim (Decision-cases (should_mine lib wiring s.consensus_round chain)) [
        | inr no_skip ↦
            turns-stop (should_mine lib wiring s.consensus_round chain) n wiring chain s tx txs
              pending refl no_skip
        | inl skips ↦
            let s' = record s { consensus_round = (s.consensus_round + 1) % 2 ^ 32 % 10 } in
            λ e.
              turns-reach k d n wiring chain s' tx txs pending mines (omega arith)
                (omega (arith, l)) (later k s.consensus_round d small at_k)
                (sym (ap (λ x. x.2) (turns-skip n wiring chain s tx txs pending skips)) ∙ e)
      ]

  -- With transactions pending, while the loop alone works on the blockchain: if in one of the
  -- ten rounds the decision for this node is not to skip, then from any round below ten on,
  -- ten turns in a row are not all skipped.
  pub turns-end :
      (k : ℕ) (wiring : Wiring lib) (chain : Chain lib) (s : LoopState)
      → chain.pending_transactions ≢ []
      → k < 10
      → s.consensus_round < 10
      → should_mine lib wiring k chain ≢ skip
      → (turns lib 10 wiring chain s).2 ≢ skipped
  turns-end k wiring chain s pending small round mines =
      elim (List-cases chain.pending_transactions) [
        | inl e ↦ absurd (pending e)
        | inr (tx, txs, e) ↦
            turns-reach k ((k + 10 - s.consensus_round) % 10) 10 wiring chain s tx txs e mines round
              (omega arith) (omega (arith, small, round))
      ]
