-- ===== src/Validation/Tests.antt =====
-- The theorems on transaction validation at concrete transactions.
use eiyaro.Common.{none, pos, true}
use eiyaro.Validation.Payload.{Libraries}
use eiyaro.Common.{
  ℕ, ◌+◌, ◌≤◌, ◌≡◌, ◌↔◌, inr, refl, false, List, [], ◌∷◌, some, arith, add64, sub64,
}
use eiyaro.Utxo.Collection.{UtxoEntry}
use eiyaro.Validation.Transaction.{
  pass, DomainTransaction, DomainTransactionInput, DomainTransactionOutput, is_coinbase, max_sey,
}
use eiyaro.Validation.Isolation.{check_transaction_amount_ranges, check_output_values, add_output}
use eiyaro.Validation.Isolation.Amounts.{total_value}
use eiyaro.Validation.Context.{
  populate_fee, check_transaction_input_amounts, sum_inputs, check_entry_amounts, unless_missing,
  check_transaction_output_amounts, sum_outputs, check_transaction_sequence_lock,
}
use eiyaro.Validation.Context.Fee.{Spends, IsUint64, amounts, no_amounts, populate_fee-Spends}
use eiyaro.Validation.Context.Locks.{
  AllReleased, IsPopulated, populated, no_inputs, check_transaction_sequence_lock-AllReleased,
}
use eiyaro.Validation.Context.{validate_transaction_in_context_ignoring_utxo}
use eiyaro.Validation.Context.{check_transaction_coinbase_maturity}
use eiyaro.Validation.Context.Maturity.{
  AllMature, no_scores, present, check_transaction_coinbase_maturity-AllMature,
}
use eiyaro.Validation.Context.Finality.{
  IsFinal, validate_transaction_in_context_ignoring_utxo-IsFinal,
}
use eiyaro.Validation.Transaction.{TransactionValidator}
use eiyaro.Validation.Isolation.{validate_transaction_in_isolation}
use eiyaro.Validation.Isolation.Sound.{IsSound}
use eiyaro.Validation.Isolation.Whole.{validate_transaction_in_isolation-IsSound}

-- An entry of 50, mined at score 10, that a transaction spends 20 scores later into 30 and 15.
abbrev fifty : UtxoEntry
fifty = record {
  amount = 50;
  script_version = 0;
  script = [];
  block_daa_score = 10;
  is_coinbase = false;
}

abbrev spending : DomainTransactionInput
spending = record {
  previous_outpoint = record { transaction_id = 7; index = 0 };
  sequence = 20;
  utxo_entry = some fifty;
}

abbrev two_outputs : List DomainTransactionOutput
two_outputs = record { value = 30; script = [] } ∷ record { value = 15; script = [] } ∷ []

abbrev payment : DomainTransaction
payment = record {
  version = 0;
  inputs = spending ∷ [];
  outputs = two_outputs;
  lock_time = 0;
  subnetwork_id = 0;
  gas = 0;
  payload = [];
}

abbrev settings : TransactionValidator
settings = record {
  block_coinbase_maturity = 100;
  enable_non_native_subnetworks = false;
  max_coinbase_payload_length = 204;
  merge_set_size_limit = 180;
  coinbase_payload_script_public_key_max_length = 150;
}

abbrev no_libraries : Libraries
no_libraries = record {
  decode_object = λ b. none;
  decode_base64 = λ b. none;
  decode_base64_url = λ b. none;
  decode_hex = λ b. none;
  decodes_as_image = λ b. false;
  to_lower = λ b. b;
  entropy_above = λ b t. false;
}

validate_transaction_in_isolation-IsSound_example :
    (validate_transaction_in_isolation settings no_libraries payment 30 ≡ pass tt)
    ↔ IsSound settings no_libraries payment 30
validate_transaction_in_isolation-IsSound_example =
    validate_transaction_in_isolation-IsSound settings no_libraries payment 30

spending-IsUint64 : IsUint64 (spending ∷ [])
spending-IsUint64 = amounts spending [] (λ entry e. ground (arith, e)) no_amounts

payment_ranges : check_transaction_amount_ranges payment ≡ pass tt
unfolding check_transaction_amount_ranges check_output_values add_output add64
payment_ranges = refl

payment_fee : populate_fee payment ≡ pass 5
unfolding populate_fee check_transaction_input_amounts sum_inputs check_entry_amounts unless_missing
    check_transaction_output_amounts sum_outputs add64 sub64
payment_fee = refl

populate_fee-Spends_example :
    (sum : ℕ) × Spends payment.inputs sum
    × (5 + total_value payment.outputs ≡ sum)
    × (sum ≤ max_sey)
populate_fee-Spends_example =
    populate_fee-Spends payment 5 spending-IsUint64 payment_ranges payment_fee

payment_plain : is_coinbase payment ≡ false
unfolding is_coinbase
payment_plain = refl

payment-IsPopulated : IsPopulated payment.inputs
payment-IsPopulated = populated spending [] fifty refl (inr (omega arith)) no_inputs

check_transaction_sequence_lock-AllReleased_example :
    (check_transaction_sequence_lock payment 30 ≡ pass tt) ↔ AllReleased 30 payment.inputs
check_transaction_sequence_lock-AllReleased_example =
    check_transaction_sequence_lock-AllReleased payment 30 payment_plain payment-IsPopulated
      (omega arith)

-- A payment that is locked until after the score 40.
abbrev locked_payment : DomainTransaction
locked_payment = record payment { lock_time = 40 }

validate_transaction_in_context_ignoring_utxo-IsFinal_example :
    (validate_transaction_in_context_ignoring_utxo locked_payment (pos 100) 41 ≡ pass tt)
    ↔ IsFinal locked_payment 41 (pos 100)
validate_transaction_in_context_ignoring_utxo-IsFinal_example =
    validate_transaction_in_context_ignoring_utxo-IsFinal locked_payment (pos 100) 41

-- A coinbase output of score 10 that a transaction spends at score 110, with a maturity of 100.
abbrev mined : DomainTransactionInput
mined = record spending { utxo_entry = some (record fifty { is_coinbase = true }) }

abbrev spends_mined : DomainTransaction
spends_mined = record payment { inputs = mined ∷ spending ∷ [] }

check_transaction_coinbase_maturity-AllMature_example :
    (check_transaction_coinbase_maturity settings spends_mined 110 ≡ pass tt)
    ↔ AllMature 100 110 spends_mined.inputs
check_transaction_coinbase_maturity-AllMature_example =
    check_transaction_coinbase_maturity-AllMature settings spends_mined 110 (
      present mined (spending ∷ []) (record fifty { is_coinbase = true }) refl (omega arith)
        (present spending [] fifty refl (omega arith) no_scores))
