-- ===== src/Validation/Context/Fee.antt =====
-- The fee of a transaction that passes in isolation and whose inputs are populated.
use eiyaro.Common.{
  ℕ, ◌+◌, ◌≤◌, ◌<◌, ◌≡◌, ◌∙◌, List, [], ◌∷◌, ◌++◌, ltb, if◌then◌else◌, arith, add64, sub64,
  add64_exact, modulus, some, Option-cases, inl, inr,
}
use eiyaro.Utxo.Collection.{Outpoint, UtxoEntry}
use eiyaro.Validation.Transaction.{
  pass, reject, ◌>>=◌, >>=_parts, DomainTransaction, DomainTransactionInput,
  DomainTransactionOutput, max_sey, spend_too_high,
}
use eiyaro.Validation.Isolation.{check_transaction_amount_ranges}
use eiyaro.Validation.Isolation.Amounts.{total_value, check_output_values_iff}
use eiyaro.Validation.Context.{
  unless_missing, check_entry_amounts, sum_inputs, check_transaction_input_amounts, sum_outputs,
  check_transaction_output_amounts, populate_fee,
}

-- Every input has its entry, with a uint64 as amount; the sum is that of the amounts.
pub data Spends : List DomainTransactionInput → ℕ → Type 0 where
  no_spends : Spends [] 0
  spends :
      (input : DomainTransactionInput) (inputs : List DomainTransactionInput) (entry : UtxoEntry)
      (sum : ℕ)
      → input.utxo_entry ≡ some entry
      → Spends inputs sum
      → Spends (input ∷ inputs) (entry.amount + sum)

-- The amounts of the entries that are there are uint64.
pub data IsUint64 : List DomainTransactionInput → Type 0 where
  no_amounts : IsUint64 []
  amounts :
      (input : DomainTransactionInput) (inputs : List DomainTransactionInput)
      → ((entry : UtxoEntry) → input.utxo_entry ≡ some entry → entry.amount < modulus)
      → IsUint64 inputs
      → IsUint64 (input ∷ inputs)

entry_amounts :
    (entry : UtxoEntry) (t n : ℕ)
    → t ≤ max_sey
    → entry.amount < modulus
    → check_entry_amounts entry t ≡ pass n
    → (n ≡ t + entry.amount) × (n ≤ max_sey)
unfolding check_entry_amounts add64
entry_amounts entry t n small word h = ground (arith, h)

-- A missing entry makes the sum fail, whatever comes after it.
missing_fails :
    (o : Outpoint) (missing : List Outpoint) (t n : ℕ) (inputs : List DomainTransactionInput)
    → ¬ (sum_inputs (o ∷ missing) t inputs ≡ pass n)
unfolding sum_inputs unless_missing
missing_fails o missing t n [] h = ground (arith, h)
missing_fails o missing t n (input ∷ inputs) h = elim (Option-cases input.utxo_entry) [
  | inl e ↦
      missing_fails o (missing ++ input.previous_outpoint ∷ []) t n inputs (rw (e, sum_inputs) at h)
  | inr (entry, e) ↦
      let (m, _, rest) =
        >>=_parts (check_entry_amounts entry t) (λ a. sum_inputs (o ∷ missing) a inputs)
          (rw (e, sum_inputs) at h) in
      missing_fails o missing m n inputs rest
]

summed :
    (t n : ℕ) (inputs : List DomainTransactionInput)
    → t ≤ max_sey
    → IsUint64 inputs
    → sum_inputs [] t inputs ≡ pass n
    → (sum : ℕ) × Spends inputs sum × (n ≡ t + sum) × (n ≤ max_sey)
unfolding sum_inputs unless_missing
summed t n [] small word h = (0, no_spends, ground (arith, h), ground (arith, h, small))
summed t n (_ ∷ _) small (amounts input inputs word words) h =
    elim (Option-cases input.utxo_entry) [
      | inl e ↦
          absurd (missing_fails input.previous_outpoint [] t n inputs (rw (e, sum_inputs) at h))
      | inr (entry, e) ↦
          let (m, turn, rest) =
            >>=_parts (check_entry_amounts entry t) (λ a. sum_inputs [] a inputs)
              (rw (e, sum_inputs) at h) in
          let (exact, fits) = entry_amounts entry t m small (word entry e) turn in
          let (sum, s, same, range) = summed m n inputs fits words rest in
          (entry.amount + sum, spends input inputs entry sum e s, omega (arith, exact, same), range)
    ]

outputs_exact :
    (t : ℕ) (outputs : List DomainTransactionOutput)
    → t + total_value outputs ≤ max_sey
    → sum_outputs t outputs ≡ t + total_value outputs
unfolding sum_outputs total_value
outputs_exact t [] small = omega arith
outputs_exact t (output ∷ outputs) small =
    rw (add64_exact t output.value (omega (arith, small)))
      (outputs_exact (t + output.value) outputs (omega (arith, small)) ∙ omega arith)

fee_of :
    (tx : DomainTransaction) (total fee out : ℕ)
    → sum_outputs 0 tx.outputs ≡ out
    → out ≤ max_sey
    → total ≤ max_sey
    → (check_transaction_output_amounts tx total >>= λ o. pass (sub64 total o)) ≡ pass fee
    → fee + out ≡ total
unfolding check_transaction_output_amounts sub64
fee_of tx total fee out e small range h = fee_at (rw e at h)
  where
    fee_at :
        ((if ltb total out then reject spend_too_high else pass out) >>= λ o. pass (sub64 total o))
          ≡ pass fee
        → fee + out ≡ total
    fee_at h = ground (arith, h, small, range)

-- For a transaction whose entries have uint64 amounts, if its amounts pass in isolation and the fee
-- is populated: every input has its entry, and the fee and the values of the outputs are together
-- exactly the amounts of the entries, which are at most the maximum. No addition has wrapped.
pub populate_fee-Spends :
    (tx : DomainTransaction) (fee : ℕ)
    → IsUint64 tx.inputs
    → check_transaction_amount_ranges tx ≡ pass tt
    → populate_fee tx ≡ pass fee
    → (sum : ℕ) × Spends tx.inputs sum × (fee + total_value tx.outputs ≡ sum) × (sum ≤ max_sey)
unfolding populate_fee check_transaction_input_amounts check_transaction_amount_ranges
populate_fee-Spends tx fee word ranges h =
    let (_, out_small) = (check_output_values_iff tx.outputs).0 ranges in
    let (total, summing, rest) = >>=_parts (sum_inputs [] 0 tx.inputs) _ h in
    let (sum, s, same, range) = summed 0 total tx.inputs (omega arith) word summing in
    let exact : sum_outputs 0 tx.outputs ≡ total_value tx.outputs =
      outputs_exact 0 tx.outputs (omega (arith, out_small)) ∙ omega arith in
    (
      sum,
      s,
      fee_of tx total fee (total_value tx.outputs) exact out_small range rest ∙ omega (arith, same),
      omega (arith, same, range),
    )
