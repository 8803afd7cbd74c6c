-- ===== src/Utxo/Transaction.antt =====
-- AddTransaction of domain/consensus/utils/utxo/mutable_utxo_diff.go. The transaction id, which is a
-- hash, and what IsCoinBase says are fields of the transaction. A diff that an error leaves partly
-- changed is not modelled, as the callers drop it.
pub mod Entries
pub mod Apply
use eiyaro.Common.{
  ℕ, Bool, true, false, List, [], ◌∷◌, ◌+◌, ◌-◌, ◌^◌, ltb, if◌then◌else◌, Option, none, some,
}
use eiyaro.Utxo.Collection.{Outpoint, UtxoEntry}
use eiyaro.Utxo.Diff.{
  UtxoDiff, DiffResult, success, failure, index_not_uint32, add_entry, remove_entry,
}

pub record TransactionInput : Type 0 where
  pub previous_outpoint : Outpoint
  pub utxo_entry : UtxoEntry

pub record TransactionOutput : Type 0 where
  pub value : ℕ
  pub script_version : ℕ
  pub script : List ℕ

pub record Transaction : Type 0 where
  pub id : ℕ
  pub is_coinbase : Bool
  pub inputs : List TransactionInput
  pub outputs : List TransactionOutput

abbrev pub max_uint32 : ℕ
max_uint32 = 2 ^ 32 - 1

unfoldable pub new_utxo_entry : TransactionOutput → Bool → ℕ → UtxoEntry
new_utxo_entry output is_coinbase block_daa_score = record {
  amount = output.value;
  script_version = output.script_version;
  script = output.script;
  block_daa_score = block_daa_score;
  is_coinbase = is_coinbase;
}

unfoldable pub then_diff : DiffResult → (UtxoDiff → DiffResult) → DiffResult
then_diff (failure e) f = failure e
then_diff (success d) f = f d

unfoldable pub remove_inputs : List TransactionInput → UtxoDiff → DiffResult
remove_inputs [] d = success d
remove_inputs (input ∷ inputs) d =
    then_diff (remove_entry d input.previous_outpoint input.utxo_entry) (remove_inputs inputs)

-- The loop over the outputs, from index i on.
unfoldable pub add_outputs : Transaction → ℕ → ℕ → List TransactionOutput → UtxoDiff → DiffResult
add_outputs tx block_daa_score i [] d = success d
add_outputs tx block_daa_score i (output ∷ outputs) d =
    let rest =
      then_diff
        (add_entry d (record { transaction_id = tx.id; index = i })
          (new_utxo_entry output tx.is_coinbase block_daa_score))
        (add_outputs tx block_daa_score (i + 1) outputs) in
    if ltb max_uint32 i then failure index_not_uint32 else rest

unfoldable pub add_transaction : UtxoDiff → Transaction → ℕ → DiffResult
add_transaction d tx block_daa_score =
    then_diff (remove_inputs tx.inputs d) (add_outputs tx block_daa_score 0 tx.outputs)
