-- ===== src/RuntimeOrchestrator/Payment.antt =====
-- `create_wallet_payment_transaction` of src/runtime/mod.rs: the choice of the outputs that pay, and
-- the transaction that is built from them. Amounts are `u64` and wrap around. The blockchain, the
-- identity manager, hashes and proofs are those of lib_blockchain, lib_identity and lib_crypto.
use Prim.Native.String.{String}
use zhtp.Base.{
  ℕ, ◌+◌, ◌%◌, ◌^◌, Option, none, some, List, [], ◌∷◌, map, ltb, leb, if◌then◌else◌, Key, same,
}
use zhtp.Base.Result.{Result, ok, err}

pub data PaymentError : Type 0 where
  -- no blockchain or identity component, or one of another type
  component_missing : String → PaymentError
  no_utxos : PaymentError
  -- needed, and there
  insufficient : ℕ → ℕ → PaymentError
  identity_failed : String → PaymentError
  build_failed : String → PaymentError
  submit_failed : String → PaymentError

pub record Utxo (Hash : Type 0) : Type 0 where
  pub hash : Hash
  pub index : ℕ
  pub amount : ℕ

pub record TransactionInput (Hash Proof : Type 0) : Type 0 where
  pub previous_output : Hash
  pub output_index : ℕ
  pub nullifier : Hash
  pub zk_proof : Proof

pub record TransactionOutput (Hash Bytes : Type 0) : Type 0 where
  pub commitment : Hash
  pub note : Hash
  pub recipient : Bytes

-- What `create_payment_transaction` of the identity manager returns.
pub record PaymentParts (Secret Bytes : Type 0) : Type 0 where
  pub private_key : Secret
  pub total_input : ℕ
  pub change_amount : ℕ
  pub wallet_pubkey : Bytes

pub record Ledger : Type 1 where
  pub World : Type 0
  pub Hash : Type 0
  pub Bytes : Type 0
  pub Output : Type 0
  pub Secret : Type 0
  pub Proof : Type 0
  pub Transaction : Type 0
  pub bytes_key : Key Bytes
  -- the outputs that are not spent, or why the blockchain is not there
  pub utxo_set : World → Result String (List (Hash × Output))
  pub recipient : Output → Bytes
  pub create_payment_transaction :
      World → List (Utxo Hash) → Bytes → ℕ → ℕ → Result String (PaymentParts Secret Bytes)
  pub nullifier_of : Hash → ℕ → Hash
  -- the proof, or the empty one when it fails: of the balance, the amount and the fee
  pub prove_transaction : ℕ → ℕ → ℕ → Proof
  pub commitment_of : Bytes → ℕ → Hash
  pub note_of : Bytes → ℕ → Hash
  pub build :
      List (TransactionInput Hash Proof)
      → List (TransactionOutput Hash Bytes)
      → ℕ
      → Secret
      → Bytes
      → Result String Transaction
  pub hash_of : Transaction → Hash
  -- the error, if any
  pub add_pending_transaction : Transaction → World → Option String × World

abbrev pub payment_fee : ℕ
payment_fee = 100

-- The amount that is assumed of every output.
abbrev pub genesis_amount : ℕ
genesis_amount = 5000

-- The loop that selects; the second number is the total so far.
unfoldable pub select : {Hash : Type 0} → ℕ → List (Utxo Hash) → ℕ → List (Utxo Hash) × ℕ
select required [] total = ([], total)
select required (utxo ∷ utxos) total =
    let total' = (total + utxo.amount) % 2 ^ 64 in
    let (rest, last) = select required utxos total' in
    if leb required total' then (utxo ∷ [], total') else (utxo ∷ rest, last)

module _ (ledger : Ledger) where
  -- the scan of the outputs of a wallet
  unfoldable pub wallet_utxos :
      ledger.Bytes → List (ledger.Hash × ledger.Output) → List (Utxo ledger.Hash)
  wallet_utxos pubkey [] = []
  wallet_utxos pubkey ((hash, output) ∷ outputs) =
      let rest = wallet_utxos pubkey outputs in
      if same ⦃k = ledger.bytes_key⦄ (ledger.recipient output) pubkey
      then record { hash = hash; index = 0; amount = genesis_amount } ∷ rest
      else rest

  -- The outputs that are spent, and their total.
  unfoldable pub choose_utxos :
      List (Utxo ledger.Hash) → ℕ → Result PaymentError (List (Utxo ledger.Hash) × ℕ)
  choose_utxos [] amount = err no_utxos
  choose_utxos (utxo ∷ utxos) amount =
      let required = (amount + payment_fee) % 2 ^ 64 in
      let (selected, total) = select required (utxo ∷ utxos) 0 in
      if ltb total required then err (insufficient required total) else ok (selected, total)

  unfoldable pub input_of : ℕ → ℕ → Utxo ledger.Hash → TransactionInput ledger.Hash ledger.Proof
  input_of total_input amount utxo = record {
    previous_output = utxo.hash;
    output_index = utxo.index;
    nullifier = ledger.nullifier_of utxo.hash utxo.index;
    zk_proof = ledger.prove_transaction total_input amount payment_fee;
  }

  unfoldable pub output_to : ledger.Bytes → ℕ → TransactionOutput ledger.Hash ledger.Bytes
  output_to pubkey amount = record {
    commitment = ledger.commitment_of pubkey amount;
    note = ledger.note_of pubkey amount;
    recipient = pubkey;
  }

  -- The payment, and the change if there is any.
  unfoldable pub outputs_of :
      ledger.Bytes
      → ℕ
      → PaymentParts ledger.Secret ledger.Bytes
      → List (TransactionOutput ledger.Hash ledger.Bytes)
  outputs_of recipient amount parts =
      let change = output_to parts.wallet_pubkey parts.change_amount in
      output_to recipient amount ∷ (if ltb 0 parts.change_amount then change ∷ [] else [])

  -- The last two steps.
  unfoldable pub build_and_submit :
      List (Utxo ledger.Hash)
      → ledger.Bytes
      → ℕ
      → PaymentParts ledger.Secret ledger.Bytes
      → ledger.World
      → Result PaymentError ledger.Hash × ledger.World
  build_and_submit selected recipient amount parts w =
      elim (ledger.build (map (input_of parts.total_input amount) selected)
        (outputs_of recipient amount parts) payment_fee parts.private_key parts.wallet_pubkey) [
          | err e ↦ (err (build_failed e), w)
          | ok transaction ↦
              let (failure, w') = ledger.add_pending_transaction transaction w in
              elim failure [
                | some e ↦ (err (submit_failed e), w')
                | none ↦ (ok (ledger.hash_of transaction), w')
              ]
        ]

  unfoldable pub create_wallet_payment_transaction :
      ledger.Bytes
      → ledger.Bytes
      → ℕ
      → ledger.World
      → Result PaymentError ledger.Hash × ledger.World
  create_wallet_payment_transaction pubkey recipient amount w = elim (ledger.utxo_set w) [
    | err e ↦ (err (component_missing e), w)
    | ok outputs ↦ elim (choose_utxos (wallet_utxos pubkey outputs) amount) [
      | err e ↦ (err e, w)
      | ok (selected, total) ↦
          elim (ledger.create_payment_transaction w selected recipient amount payment_fee) [
            | err e ↦ (err (identity_failed e), w)
            | ok parts ↦ build_and_submit selected recipient amount parts w
          ]
    ]
  ]
