-- ===== src/Validation/Context.antt =====
-- The checks of a transaction against its UTXO entries and the DAA score:
-- domain/consensus/processes/transactionvalidator/transaction_in_context.go.
pub mod Locks
pub mod Fee
pub mod Finality
pub mod Maturity
use eiyaro.Common.{
  ℕ, ◌+◌, ◌%◌, Bool, true, false, List, [], ◌∷◌, ◌++◌, ◌||◌, not, ltb, leb, ◌==◌, if◌then◌else◌,
  Option, none, some, add64, sub64, ℤ, pos, negsuc, ◌+ℤ◌, ◌-ℤ◌, ltb_ℤ, leb_ℤ, wrap64,
}
use eiyaro.Utxo.Collection.{Outpoint, UtxoEntry}
use eiyaro.Script.Opcode.Locks.{lock_time_threshold, max_tx_in_sequence_num}
use eiyaro.Validation.Transaction.{
  Check, pass, reject, ◌>>=◌, ◌>>◌, reject_if, DomainTransactionInput, DomainTransactionOutput,
  DomainTransaction, TransactionValidator, is_coinbase, max_sey, bad_tx_out_value, missing_tx_out,
  spend_too_high, immature_spend, unfinalized_tx, other_error,
}

abbrev pub max_int64 : ℕ
max_int64 = 9223372036854775807

abbrev pub sequence_lock_time_disabled : ℕ
sequence_lock_time_disabled = 9223372036854775808

abbrev pub unaccepted_daa_score : ℕ
unaccepted_daa_score = 18446744073709551615

unfoldable pub all_final : List DomainTransactionInput → Bool
all_final [] = true
all_final (input ∷ inputs) =
    let rest = all_final inputs in
    if not (input.sequence == max_tx_in_sequence_num) then false else rest

-- Whether the lock time has come, with the score or time that it is compared with; none for a time
-- before 1970.
abbrev pub lock_point : ℕ → ℕ → ℤ → Option ℕ
lock_point lock_time block_daa_score (pos block_time) =
    if ltb lock_time lock_time_threshold then some block_daa_score else some block_time
lock_point lock_time block_daa_score (negsuc n) =
    if ltb lock_time lock_time_threshold then some block_daa_score else none

unfoldable pub is_finalized_transaction : DomainTransaction → ℕ → ℤ → Bool
is_finalized_transaction tx block_daa_score block_time =
    if tx.lock_time == 0 then true else elim (lock_point tx.lock_time block_daa_score block_time) [
      | none ↦ false
      | some point ↦ if ltb tx.lock_time point then true else all_final tx.inputs
    ]

unfoldable pub validate_transaction_in_context_ignoring_utxo :
    DomainTransaction → ℤ → ℕ → Check (Unit {0})
validate_transaction_in_context_ignoring_utxo tx pov_block_past_median_time pov_daa_score =
    reject_if (not (is_finalized_transaction tx pov_daa_score pov_block_past_median_time))
      unfinalized_tx

-- `if len(missingOutpoints) > 0`, at the end of the loops.
unfoldable pub unless_missing : {A : Type 0} → List Outpoint → A → Check A
unless_missing [] a = pass a
unless_missing (o ∷ missing) a = reject (missing_tx_out (o ∷ missing))

unfoldable pub check_entry_amounts : UtxoEntry → ℕ → Check ℕ
check_entry_amounts entry total_sompi_in_before =
    if ltb (add64 total_sompi_in_before entry.amount) total_sompi_in_before
      || ltb max_sey (add64 total_sompi_in_before entry.amount)
    then reject bad_tx_out_value
    else pass (add64 total_sompi_in_before entry.amount)

unfoldable pub sum_inputs : List Outpoint → ℕ → List DomainTransactionInput → Check ℕ
sum_inputs missing total [] = unless_missing missing total
sum_inputs missing total (input ∷ inputs) = elim input.utxo_entry [
  | none ↦ sum_inputs (missing ++ input.previous_outpoint ∷ []) total inputs
  | some entry ↦
      check_entry_amounts entry total >>= λ total_after. sum_inputs missing total_after inputs
]

unfoldable pub check_transaction_input_amounts : DomainTransaction → Check ℕ
check_transaction_input_amounts tx = sum_inputs [] 0 tx.inputs

unfoldable pub sum_outputs : ℕ → List DomainTransactionOutput → ℕ
sum_outputs total [] = total
sum_outputs total (output ∷ outputs) = sum_outputs (add64 total output.value) outputs

unfoldable pub check_transaction_output_amounts : DomainTransaction → ℕ → Check ℕ
check_transaction_output_amounts tx total_sompi_in =
    let total_sompi_out = sum_outputs 0 tx.outputs in
    if ltb total_sompi_in total_sompi_out then reject spend_too_high else pass total_sompi_out

-- The fee that the first part of ValidateTransactionInContextAndPopulateFee sets.
unfoldable pub populate_fee : DomainTransaction → Check ℕ
populate_fee tx = check_transaction_input_amounts tx >>= λ total_sompi_in.
    check_transaction_output_amounts tx total_sompi_in >>= λ total_sompi_out.
    pass (sub64 total_sompi_in total_sompi_out)

unfoldable pub check_maturity :
    TransactionValidator → ℕ → List Outpoint → List DomainTransactionInput → Check (Unit {0})
check_maturity v pov_daa_score missing [] = unless_missing missing tt
check_maturity v pov_daa_score missing (input ∷ inputs) = elim input.utxo_entry [
  | none ↦ check_maturity v pov_daa_score (missing ++ input.previous_outpoint ∷ []) inputs
  | some entry ↦
      (if entry.is_coinbase
        then reject_if (ltb pov_daa_score (add64 entry.block_daa_score v.block_coinbase_maturity))
            immature_spend
        else pass tt)
      >> check_maturity v pov_daa_score missing inputs
]

unfoldable pub check_transaction_coinbase_maturity :
    TransactionValidator → DomainTransaction → ℕ → Check (Unit {0})
check_transaction_coinbase_maturity v tx pov_daa_score = check_maturity v pov_daa_score [] tx.inputs

-- `sequenceNum & SequenceLockTimeMask`.
abbrev pub relative_lock : ℕ → ℕ
relative_lock sequence_num = sequence_num % 4294967296

-- `int64(inputDAAScore) + relativeLock - 1`.
unfoldable pub lock_until : ℕ → ℕ → ℤ
lock_until input_daa_score rel = wrap64 (wrap64 (pos input_daa_score +ℤ pos rel) -ℤ pos 1)

unfoldable pub later : ℤ → ℤ → ℤ
later lock block_daa_score = if ltb_ℤ lock block_daa_score then block_daa_score else lock

-- The lock after an input: the largest so far. A uint64 has the highest bit exactly from 2^63 on.
unfoldable pub raise_lock : ℕ → ℕ → ℤ → Check ℤ
raise_lock sequence_num input_daa_score lock =
    if ltb max_int64 (relative_lock sequence_num)
    then reject other_error
    else if leb sequence_lock_time_disabled sequence_num
    then pass lock
    else if input_daa_score == unaccepted_daa_score
    then pass lock
    else if ltb max_int64 input_daa_score
    then reject other_error
    else pass (later lock (lock_until input_daa_score (relative_lock sequence_num)))

unfoldable pub calc_lock : List Outpoint → ℤ → List DomainTransactionInput → Check ℤ
calc_lock missing lock [] = unless_missing missing lock
calc_lock missing lock (input ∷ inputs) = elim input.utxo_entry [
  | none ↦ calc_lock (missing ++ input.previous_outpoint ∷ []) lock inputs
  | some entry ↦ raise_lock input.sequence entry.block_daa_score lock >>= λ raised.
      calc_lock missing raised inputs
]

unfoldable pub calc_tx_sequence_lock_from_referenced_utxo_entries : DomainTransaction → Check ℤ
calc_tx_sequence_lock_from_referenced_utxo_entries tx =
    if is_coinbase tx then pass (negsuc 0) else calc_lock [] (negsuc 0) tx.inputs

unfoldable pub sequence_lock_active : ℤ → ℕ → Bool
sequence_lock_active lock block_daa_score =
    if ltb max_int64 block_daa_score
    then true
    else if leb_ℤ (pos block_daa_score) lock
    then false
    else true

unfoldable pub check_transaction_sequence_lock : DomainTransaction → ℕ → Check (Unit {0})
check_transaction_sequence_lock tx pov_daa_score =
    calc_tx_sequence_lock_from_referenced_utxo_entries tx >>= λ lock.
    reject_if (not (sequence_lock_active lock pov_daa_score)) unfinalized_tx
