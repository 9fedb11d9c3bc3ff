-- ===== src/MiningService/Tests.antt =====
-- The theorems on src/runtime/services/mining_service.rs at concrete inputs, and two calls of `start`
-- that run at the same time. Identities, transactions and blocks are numbers.
use zhtp.Base.{
  ℕ, suc, ◌≡◌, ◌≢◌, refl, true, nat_key, string_key, string_dec, ℕ_discrete, some, [], ◌∷◌, arith,
}
use zhtp.Base.Lists.{contains, remove}
use zhtp.MiningService.{
  Chain, Library, LoopState, MiningService, Wiring, coordinate, decoded, is_proposer, loop_state,
  mine_block, mined, mined_block, new_service, run_mining, should_mine, skipped, spawn_loop,
  start_passes, stop, try_mine, turn, turn_by, turns,
}
use zhtp.MiningService.Turns.{Controls, turn-Controls, turns-end}

-- The proposer of a round is the identity with its number.
abbrev lib : Library
lib = record {
  Transaction = ℕ;
  Block = ℕ;
  Identity = ℕ;
  Rest = ℕ;
  ValidatorManager = ℕ;
  identity_key = nat_key;
  active_validators = λ manager. manager;
  select_proposer = λ manager height round. some round;
  decode_did = λ did. decoded 3;
  create_block = λ txs height rest. some 1;
  mine = λ block attempts. some block;
  add_block_with_proof =
      λ block chain. (record chain { pending_transactions = []; height = suc chain.height }, true);
}

abbrev chain : Chain lib
chain = record {
  pending_transactions = 5 ∷ [];
  height = 0;
  identity_registry = ("did:zhtp:03", "aa" ∷ []) ∷ [];
  rest = 0;
}

abbrev wiring : Wiring lib
wiring = record { validator_manager = some 4; node_identity = some "aa" }

abbrev third_round : LoopState
third_round = record { block_counter = 1; consensus_round = 3 }

own_turn : (turn lib wiring chain third_round).2 ≡ mined
unfolding turn should_mine coordinate is_proposer turn_by run_mining try_mine mined_block contains
    string_dec ℕ_discrete
own_turn = refl

turn-Controls_example : Controls lib "aa" 3 chain.identity_registry
turn-Controls_example =
    turn-Controls lib wiring chain third_round 4 "aa" 3 refl refl (λ e. omega (arith, e)) refl
      own_turn

mines_in_third : should_mine lib wiring 3 chain ≡ mine_block
unfolding should_mine coordinate is_proposer contains string_dec ℕ_discrete
mines_in_third = refl

turns-end_example : (turns lib 10 wiring chain loop_state).2 ≢ skipped
unfolding loop_state
turns-end_example =
    turns-end lib 3 wiring chain loop_state (λ e. cc) (omega arith) (omega arith)
      (λ e. ground (arith, e, mines_in_third))

-- Both calls pass the check before one of them has stored its handle: two loops mine, and `stop`
-- ends one of them.
abbrev twice : MiningService
twice = spawn_loop (spawn_loop new_service)

both_pass : start_passes new_service ≡ true
unfolding start_passes new_service
both_pass = refl

one_left : (stop twice).running ≡ 0 ∷ []
unfolding stop spawn_loop new_service remove ℕ_discrete
one_left = refl
