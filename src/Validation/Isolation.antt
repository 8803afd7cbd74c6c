-- ===== src/Validation/Isolation.antt =====
-- ValidateTransactionInIsolation and its checks:
-- domain/consensus/processes/transactionvalidator/transaction_in_isolation.go.
pub mod Amounts
pub mod Duplicates
pub mod Sound
pub mod Whole
use eiyaro.Common.{
  ℕ, zero, suc, ◌+◌, ◌*◌, Bool, true, false, List, [], ◌∷◌, ◌&&◌, ◌||◌, not, ltb, leb, ◌==◌,
  if◌then◌else◌, length, Option, none, some, add64,
}
use eiyaro.Utxo.Collection.{Outpoint, same_outpoint}
use eiyaro.Validation.Transaction.{
  RuleError, Check, pass, reject, ◌>>=◌, ◌>>◌, reject_if, DomainTransactionInput,
  DomainTransactionOutput, DomainTransaction, TransactionValidator, is_coinbase, is_built_in,
  is_built_in_or_native, subnetwork_id_native, subnetwork_id_coinbase, subnetwork_id_registry,
  subnetwork_id_data, max_sey, max_transaction_version, no_tx_inputs, tx_out_value_zero,
  bad_tx_out_value, duplicate_tx_inputs, bad_coinbase_payload_len, coinbase_with_inputs,
  coinbase_too_many_outputs, coinbase_too_long_script_public_key, invalid_gas, subnetwork_registry,
  invalid_payload, too_large_payload, subnetworks_disabled, transaction_version_is_unknown,
}
use eiyaro.Validation.Payload.{Libraries, is_valid_json_object}

unfoldable pub check_transaction_input_count : DomainTransaction → Check (Unit {0})
check_transaction_input_count tx =
    reject_if (not (is_coinbase tx) && length tx.inputs == 0) no_tx_inputs

-- One turn of the loop: the new total.
unfoldable pub add_output : ℕ → ℕ → Check ℕ
add_output total_sompi sompi =
    if sompi == 0
    then reject tx_out_value_zero
    else if ltb max_sey sompi
    then reject bad_tx_out_value
    else if ltb (add64 total_sompi sompi) total_sompi
    then reject bad_tx_out_value
    else if ltb max_sey (add64 total_sompi sompi)
    then reject bad_tx_out_value
    else pass (add64 total_sompi sompi)

unfoldable pub check_output_values : ℕ → List DomainTransactionOutput → Check (Unit {0})
check_output_values total_sompi [] = pass tt
check_output_values total_sompi (tx_out ∷ outputs) =
    add_output total_sompi tx_out.value >>= λ total. check_output_values total outputs

unfoldable pub check_transaction_amount_ranges : DomainTransaction → Check (Unit {0})
check_transaction_amount_ranges tx = check_output_values 0 tx.outputs

-- Whether a key is in `existingTxOut`.
unfoldable pub seen : List Outpoint → Outpoint → Bool
seen [] outpoint = false
seen (o ∷ existing) outpoint = same_outpoint o outpoint || seen existing outpoint

unfoldable pub check_duplicates : List Outpoint → List DomainTransactionInput → Check (Unit {0})
check_duplicates existing [] = pass tt
check_duplicates existing (tx_in ∷ inputs) =
    reject_if (seen existing tx_in.previous_outpoint) duplicate_tx_inputs
    >> check_duplicates (tx_in.previous_outpoint ∷ existing) inputs

unfoldable pub check_duplicate_transaction_inputs : DomainTransaction → Check (Unit {0})
check_duplicate_transaction_inputs tx = check_duplicates [] tx.inputs

unfoldable pub check_script_lengths : ℕ → List DomainTransactionOutput → Check (Unit {0})
check_script_lengths limit [] = pass tt
check_script_lengths limit (output ∷ outputs) =
    reject_if (ltb limit (length output.script)) coinbase_too_long_script_public_key
    >> check_script_lengths limit outputs

unfoldable pub check_gas_in_built_in_or_native_transactions : DomainTransaction → Check (Unit {0})
check_gas_in_built_in_or_native_transactions tx =
    reject_if (is_built_in_or_native tx.subnetwork_id && ltb 0 tx.gas) invalid_gas

unfoldable pub check_subnetwork_registry_transaction : DomainTransaction → Check (Unit {0})
check_subnetwork_registry_transaction tx =
    if not (tx.subnetwork_id == subnetwork_id_registry)
    then pass tt
    else reject_if (not (length tx.payload == 8)) subnetwork_registry

unfoldable pub check_native_transaction_payload : DomainTransaction → Check (Unit {0})
check_native_transaction_payload tx =
    reject_if (tx.subnetwork_id == subnetwork_id_native && ltb 0 (length tx.payload))
      invalid_payload

abbrev pub max_data_payload : ℕ
max_data_payload = 10000

unfoldable pub check_data_transaction_payload : Libraries → DomainTransaction → ℕ → Check (Unit {0})
check_data_transaction_payload lib tx daa_score =
    if not (tx.subnetwork_id == subnetwork_id_data) || length tx.payload == 0
    then pass tt
    else reject_if (ltb max_data_payload (length tx.payload)) too_large_payload
      >> reject_if (not (is_valid_json_object lib tx.payload daa_score)) invalid_payload

abbrev pub data_activation : ℕ
data_activation = 89872005 + 2592000

-- `tx.SubnetworkID.Equal(localNodeSubnetworkID)`: no identifier equals nil.
abbrev pub is_local : ℕ → Option ℕ → Bool
is_local id none = false
is_local id (some local_id) = id == local_id

abbrev pub is_full : Option ℕ → Bool
is_full none = true
is_full (some local_id) = false

module _ (v : TransactionValidator) where
  open v use {
    enable_non_native_subnetworks, max_coinbase_payload_length, merge_set_size_limit,
    coinbase_payload_script_public_key_max_length,
  }

  -- `(MergeSetSizeLimit + 2) * 2`.
  abbrev pub outputs_limit : ℕ
  outputs_limit = add64 (add64 merge_set_size_limit 2) (add64 merge_set_size_limit 2)

  unfoldable pub check_coinbase_in_isolation : DomainTransaction → Check (Unit {0})
  check_coinbase_in_isolation tx =
      if not (is_coinbase tx)
      then pass tt
      else reject_if (ltb max_coinbase_payload_length (length tx.payload)) bad_coinbase_payload_len
        >> reject_if (not (length tx.inputs == 0)) coinbase_with_inputs
        >> reject_if (ltb outputs_limit (length tx.outputs)) coinbase_too_many_outputs
        >> check_script_lengths coinbase_payload_script_public_key_max_length tx.outputs

  unfoldable pub check_transaction_subnetwork : DomainTransaction → Option ℕ → ℕ → Check (Unit {0})
  check_transaction_subnetwork tx local_node_subnetwork_id daa_score =
      reject_if
        (not enable_non_native_subnetworks
          && not (tx.subnetwork_id == subnetwork_id_native)
          && not (tx.subnetwork_id == subnetwork_id_coinbase)
          && not (tx.subnetwork_id == subnetwork_id_data))
        subnetworks_disabled
      >> reject_if (leb daa_score data_activation && tx.subnetwork_id == subnetwork_id_data)
          subnetworks_disabled
      >> reject_if
          (not (is_full local_node_subnetwork_id)
            && not
                (is_built_in tx.subnetwork_id || is_local tx.subnetwork_id local_node_subnetwork_id)
            && ltb 0 (length tx.payload))
          invalid_payload

  unfoldable pub validate_transaction_in_isolation :
      Libraries → DomainTransaction → ℕ → Check (Unit {0})
  validate_transaction_in_isolation lib tx pov_daa_score =
      check_transaction_input_count tx
      >> check_transaction_amount_ranges tx
      >> check_duplicate_transaction_inputs tx
      >> check_coinbase_in_isolation tx
      >> check_gas_in_built_in_or_native_transactions tx
      >> check_subnetwork_registry_transaction tx
      >> check_data_transaction_payload lib tx pov_daa_score
      >> check_native_transaction_payload tx
      >> check_transaction_subnetwork tx none pov_daa_score
      >> reject_if (ltb max_transaction_version tx.version) transaction_version_is_unknown
