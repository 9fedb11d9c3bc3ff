-- ===== src/RuntimeOrchestrator/Selection.antt =====
-- The choice of the outputs in `create_wallet_payment_transaction` of src/runtime/mod.rs: it covers
-- the payment and its fee, with no output too many.
use zhtp.Base.{
  ℕ, suc, ◌+◌, ◌*◌, ◌%◌, ◌^◌, ◌≤◌, ◌<◌, ◌≡◌, refl, ◌∙◌, ap, List, [], ◌∷◌, arith, ltb, leb,
  Bool-cases, inl, inr, if◌then◌else◌, same,
}
use zhtp.Base.Lists.{All, length, take}
use zhtp.Base.Result.{ok, err}
use zhtp.RuntimeOrchestrator.Payment.{
  Ledger, Utxo, choose_utxos, insufficient, no_utxos, select, wallet_utxos,
}

no_wrap :
    (n total amount : ℕ)
    → amount ≡ 5000
    → total + suc n * 5000 < 2 ^ 64
    → (total + amount) % 2 ^ 64 ≡ total + 5000
no_wrap n total amount e fits = omega (arith, e, fits)

module _ {Hash : Type 0} (required : ℕ) where
  -- It stops with the first output that is enough.
  select-covers :
      (utxos : List (Utxo Hash)) (total : ℕ)
      → All (λ u. u.amount ≡ 5000) utxos
      → total < required
      → total + length utxos * 5000 < 2 ^ 64
      → required ≤ total + length utxos * 5000
      → (k : ℕ) × (select required utxos total ≡ (take k utxos, total + k * 5000))
        × (k ≤ length utxos)
        × (required ≤ total + k * 5000)
        × (total + k * 5000 < required + 5000)
  unfolding select take
  select-covers [] total even short fits covered = absurd (omega (arith, short, covered))
  select-covers (u ∷ us) total (e, even) short fits covered =
      let exact = no_wrap (length us) total u.amount e fits in
      elim (Bool-cases (leb required (total + 5000))) [
        | inl l ↦
            (1, ground (arith, exact, l), omega arith, ground (arith, l), omega (arith, short))
        | inr l ↦
            let (k, s, most, enough, few) =
              select-covers us (total + 5000) even (ground (arith, l)) (omega (arith, fits))
                (omega (arith, covered)) in
            (
              suc k,
              ground (arith, exact, l, s),
              omega (arith, most),
              omega (arith, enough),
              omega (arith, few),
            )
      ]

  -- It takes every output when they are not enough.
  select-short :
      (utxos : List (Utxo Hash)) (total : ℕ)
      → All (λ u. u.amount ≡ 5000) utxos
      → total + length utxos * 5000 < 2 ^ 64
      → total + length utxos * 5000 < required
      → select required utxos total ≡ (utxos, total + length utxos * 5000)
  unfolding select
  select-short [] total even fits short = ground arith
  select-short (u ∷ us) total (e, even) fits short =
      let exact = no_wrap (length us) total u.amount e fits in
      let rest = select-short us (total + 5000) even (omega (arith, fits)) (omega (arith, short)) in
      ground (arith, exact, rest, short)

module _ (ledger : Ledger) where
  wallet_utxos-even :
      (pubkey : ledger.Bytes) (outputs : List (ledger.Hash × ledger.Output))
      → All (λ u. u.amount ≡ 5000) (wallet_utxos ledger pubkey outputs)
  unfolding wallet_utxos
  wallet_utxos-even pubkey [] = tt
  wallet_utxos-even pubkey ((hash, output) ∷ outputs) =
      elim (Bool-cases (same ⦃k = ledger.bytes_key⦄ (ledger.recipient output) pubkey)) [
        | inl e ↦ rw e (refl, wallet_utxos-even pubkey outputs)
        | inr e ↦ rw e (wallet_utxos-even pubkey outputs)
      ]

  from_zero :
      (required n : ℕ) (utxos selected : List (Utxo ledger.Hash))
      → select required utxos 0 ≡ (selected, 0 + n)
      → select required utxos 0 ≡ (selected, n)
  from_zero required n utxos selected s = s ∙ ap (λ m. (selected, m)) (omega arith)

  by_selection :
      (u : Utxo ledger.Hash) (us selected : List (Utxo ledger.Hash)) (amount required total : ℕ)
      → (amount + 100) % 2 ^ 64 ≡ required
      → select required (u ∷ us) 0 ≡ (selected, total)
      → choose_utxos ledger (u ∷ us) amount
        ≡ (if ltb total required then err (insufficient required total) else ok (selected, total))
  unfolding choose_utxos
  by_selection u us selected amount required total exact s = rw (exact, s) refl

  choose-covers :
      (owned : List (Utxo ledger.Hash)) (amount : ℕ)
      → All (λ u. u.amount ≡ 5000) owned
      → length owned * 5000 < 2 ^ 64
      → amount + 100 ≤ length owned * 5000
      → (k : ℕ) × (choose_utxos ledger owned amount ≡ ok (take k owned, k * 5000))
        × (k ≤ length owned)
        × (amount + 100 ≤ k * 5000)
        × (k * 5000 < amount + 100 + 5000)
  choose-covers [] amount even fits covered = absurd (omega (arith, covered))
  choose-covers (u ∷ us) amount even fits covered =
      let exact : (amount + 100) % 2 ^ 64 ≡ amount + 100 = omega (arith, fits, covered) in
      let (k, s, most, enough, few) =
        select-covers (amount + 100) (u ∷ us) 0 even (omega arith) (omega (arith, fits))
          (omega (arith, covered)) in
      (
        k,
        by_selection u us _ amount (amount + 100) (k * 5000) exact
              (from_zero (amount + 100) (k * 5000) (u ∷ us) (take k (u ∷ us)) s)
            ∙ ground (arith, enough),
        most,
        omega (arith, enough),
        omega (arith, few),
      )

  -- If the outputs of the wallet, each taken for 5000, cover the amount and the fee of 100,
  -- and their sum fits 64 bits: choose_utxos takes the first of them that cover both, and by
  -- less than 5000 more.
  pub choose_utxos-covers :
      (pubkey : ledger.Bytes) (outputs : List (ledger.Hash × ledger.Output)) (amount : ℕ)
      → let owned = wallet_utxos ledger pubkey outputs in
        length owned * 5000 < 2 ^ 64
        → amount + 100 ≤ length owned * 5000
        → (k : ℕ) × (choose_utxos ledger owned amount ≡ ok (take k owned, k * 5000))
          × (k ≤ length owned)
          × (amount + 100 ≤ k * 5000)
          × (k * 5000 < amount + 100 + 5000)
  choose_utxos-covers pubkey outputs amount fits covered =
      choose-covers (wallet_utxos ledger pubkey outputs) amount (wallet_utxos-even pubkey outputs)
        fits covered

  choose-refuses :
      (owned : List (Utxo ledger.Hash)) (amount : ℕ)
      → All (λ u. u.amount ≡ 5000) owned
      → amount + 100 < 2 ^ 64
      → length owned * 5000 < amount + 100
      → choose_utxos ledger owned amount ≡ elim owned [
        | [] ↦ err no_utxos
        | u ∷ us ↦ err (insufficient (amount + 100) (suc (length us) * 5000))
      ]
  unfolding choose_utxos
  choose-refuses [] amount even fits short = refl
  choose-refuses (u ∷ us) amount even fits short =
      let exact : (amount + 100) % 2 ^ 64 ≡ amount + 100 = omega (arith, fits) in
      let s =
        select-short (amount + 100) (u ∷ us) 0 even (omega (arith, fits, short))
          (omega (arith, short)) in
      by_selection u us (u ∷ us) amount (amount + 100) (suc (length us) * 5000) exact
        (from_zero (amount + 100) (suc (length us) * 5000) (u ∷ us) (u ∷ us) s)
      ∙ ground (arith, short)

  pub choose_utxos-refuses :
      (pubkey : ledger.Bytes) (outputs : List (ledger.Hash × ledger.Output)) (amount : ℕ)
      → let owned = wallet_utxos ledger pubkey outputs in
        amount + 100 < 2 ^ 64
        → length owned * 5000 < amount + 100
        → choose_utxos ledger owned amount ≡ elim owned [
          | [] ↦ err no_utxos
          | u ∷ us ↦ err (insufficient (amount + 100) (suc (length us) * 5000))
        ]
  choose_utxos-refuses pubkey outputs amount fits short =
      choose-refuses (wallet_utxos ledger pubkey outputs) amount (wallet_utxos-even pubkey outputs)
        fits short
