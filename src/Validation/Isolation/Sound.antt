-- ===== src/Validation/Isolation/Sound.antt =====
-- What ValidateTransactionInIsolation demands of a transaction.
use eiyaro.Common.{
  ℕ, ◌≤◌, ◌<◌, ◌≡◌, ◌≢◌, ◌↔◌, ◌⊎◌, refl, true, false, List, [], ◌∷◌, ltb, arith, length, none,
}
use eiyaro.Validation.Transaction.{
  pass, >>_iff, reject_if, DomainTransactionOutput, DomainTransaction, TransactionValidator,
  is_coinbase, is_built_in_or_native, subnetwork_id_native, subnetwork_id_coinbase,
  subnetwork_id_registry, subnetwork_id_data, max_sey, max_transaction_version,
  coinbase_too_long_script_public_key, transaction_version_is_unknown,
}
use eiyaro.Validation.Payload.{Libraries, is_valid_json_object}
use eiyaro.Validation.Isolation.{
  check_transaction_input_count, check_script_lengths, check_gas_in_built_in_or_native_transactions,
  check_subnetwork_registry_transaction, check_data_transaction_payload,
  check_native_transaction_payload, check_transaction_subnetwork, max_data_payload, data_activation,
  outputs_limit,
}
use eiyaro.Validation.Isolation.Amounts.{AllWorth, total_value}
use eiyaro.Validation.Isolation.Duplicates.{AreApart}

-- Every script is at most so long.
pub data AllShort (limit : ℕ) : List DomainTransactionOutput → Type 0 where
  no_scripts : AllShort limit []
  short :
      (output : DomainTransactionOutput) (outputs : List DomainTransactionOutput)
      → length output.script ≤ limit
      → AllShort limit outputs
      → AllShort limit (output ∷ outputs)

pub record IsCoinbaseSound (v : TransactionValidator) (tx : DomainTransaction) : Type 0 where
  pub payload_fits : length tx.payload ≤ v.max_coinbase_payload_length
  pub spends_nothing : length tx.inputs ≡ 0
  pub outputs_fit : length tx.outputs ≤ outputs_limit v
  pub scripts_fit : AllShort v.coinbase_payload_script_public_key_max_length tx.outputs

pub record IsSound (v : TransactionValidator) (lib : Libraries) (tx : DomainTransaction)
    (pov_daa_score : ℕ) : Type 0 where
  pub spends_something : (is_coinbase tx ≡ true) ⊎ (1 ≤ length tx.inputs)
  pub all_worth : AllWorth tx.outputs
  pub in_range : total_value tx.outputs ≤ max_sey
  pub apart : AreApart tx.inputs
  pub coinbase : (is_coinbase tx ≡ false) ⊎ IsCoinbaseSound v tx
  pub gas_free : (is_built_in_or_native tx.subnetwork_id ≡ false) ⊎ (tx.gas ≡ 0)
  pub registry : (tx.subnetwork_id ≢ subnetwork_id_registry) ⊎ (length tx.payload ≡ 8)
  pub payload :
      (tx.subnetwork_id ≢ subnetwork_id_data)
      ⊎ (length tx.payload ≡ 0)
      ⊎ ((length tx.payload ≤ max_data_payload)
          × (is_valid_json_object lib tx.payload pov_daa_score ≡ true))
  pub native : (tx.subnetwork_id ≢ subnetwork_id_native) ⊎ (length tx.payload ≡ 0)
  pub subnetwork :
      (v.enable_non_native_subnetworks ≡ true)
      ⊎ (tx.subnetwork_id ≡ subnetwork_id_native)
      ⊎ (tx.subnetwork_id ≡ subnetwork_id_coinbase)
      ⊎ (tx.subnetwork_id ≡ subnetwork_id_data)
  pub activated : (tx.subnetwork_id ≢ subnetwork_id_data) ⊎ (data_activation < pov_daa_score)
  pub known_version : tx.version ≡ 0

pub check_script_lengths-AllShort :
    (limit : ℕ) (outputs : List DomainTransactionOutput)
    → (check_script_lengths limit outputs ≡ pass tt) ↔ AllShort limit outputs
unfolding check_script_lengths
check_script_lengths-AllShort limit [] = ((λ h. no_scripts), (λ a. refl))
check_script_lengths-AllShort limit (output ∷ outputs) =
    let (split, join) =
      >>_iff (reject_if (ltb limit (length output.script)) coinbase_too_long_script_public_key)
        (check_script_lengths limit outputs) in
    let (there, back) = check_script_lengths-AllShort limit outputs in
    (
      (λ h. let (one, rest) = split h in short output outputs (ground (arith, one)) (there rest)),
      (λ a. join (all_short output outputs a back)),
    )
  where
    all_short :
        (output : DomainTransactionOutput) (outputs : List DomainTransactionOutput)
        → AllShort limit (output ∷ outputs)
        → (AllShort limit outputs → check_script_lengths limit outputs ≡ pass tt)
        → (reject_if (ltb limit (length output.script)) coinbase_too_long_script_public_key
            ≡ pass tt)
          × (check_script_lengths limit outputs ≡ pass tt)
    all_short output outputs (short _ _ le rest) back = (ground (arith, le), back rest)

pub input_count_iff :
    (tx : DomainTransaction)
    → (check_transaction_input_count tx ≡ pass tt)
      ↔ ((is_coinbase tx ≡ true) ⊎ (1 ≤ length tx.inputs))
unfolding check_transaction_input_count
input_count_iff tx = ground arith

pub gas_iff :
    (tx : DomainTransaction)
    → (check_gas_in_built_in_or_native_transactions tx ≡ pass tt)
      ↔ ((is_built_in_or_native tx.subnetwork_id ≡ false) ⊎ (tx.gas ≡ 0))
unfolding check_gas_in_built_in_or_native_transactions
gas_iff tx = ground arith

pub registry_iff :
    (tx : DomainTransaction)
    → (check_subnetwork_registry_transaction tx ≡ pass tt)
      ↔ ((tx.subnetwork_id ≢ subnetwork_id_registry) ⊎ (length tx.payload ≡ 8))
unfolding check_subnetwork_registry_transaction
registry_iff tx = ground arith

pub native_iff :
    (tx : DomainTransaction)
    → (check_native_transaction_payload tx ≡ pass tt)
      ↔ ((tx.subnetwork_id ≢ subnetwork_id_native) ⊎ (length tx.payload ≡ 0))
unfolding check_native_transaction_payload
native_iff tx = ground arith

pub payload_iff :
    (lib : Libraries) (tx : DomainTransaction) (score : ℕ)
    → (check_data_transaction_payload lib tx score ≡ pass tt) ↔ (
        (tx.subnetwork_id ≢ subnetwork_id_data)
        ⊎ (length tx.payload ≡ 0)
        ⊎ ((length tx.payload ≤ max_data_payload)
            × (is_valid_json_object lib tx.payload score ≡ true)))
unfolding check_data_transaction_payload
payload_iff lib tx score = ground arith

pub subnetwork_iff :
    (v : TransactionValidator) (tx : DomainTransaction) (score : ℕ)
    → (check_transaction_subnetwork v tx none score ≡ pass tt) ↔ (
        ((v.enable_non_native_subnetworks ≡ true)
          ⊎ (tx.subnetwork_id ≡ subnetwork_id_native)
          ⊎ (tx.subnetwork_id ≡ subnetwork_id_coinbase)
          ⊎ (tx.subnetwork_id ≡ subnetwork_id_data))
        × ((tx.subnetwork_id ≢ subnetwork_id_data) ⊎ (data_activation < score)))
unfolding check_transaction_subnetwork
subnetwork_iff v tx score = ground arith

pub version_iff :
    (version : ℕ)
    → (reject_if (ltb max_transaction_version version) transaction_version_is_unknown ≡ pass tt)
      ↔ (version ≡ 0)
version_iff version = ground arith
