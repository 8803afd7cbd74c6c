-- ===== src/Utxo/Transaction/Apply.antt =====
-- AddTransaction moves the set that a diff leads to, as the transaction says.
use eiyaro.Common.{ℕ, List, [], ◌∷◌, ◌+◌, ◌≤◌, none, some, ◌≡◌, refl, le→ltb_false}
use eiyaro.Utxo.Collection.{Outpoint, UtxoEntry}
use eiyaro.Utxo.Diff.{UtxoDiff, success}
use eiyaro.Utxo.Diff.Point.{UtxoSet, Leads}
use eiyaro.Utxo.Transaction.{
  TransactionInput, TransactionOutput, Transaction, max_uint32, new_utxo_entry, then_diff,
  remove_inputs, add_outputs, add_transaction,
}
use eiyaro.Utxo.Transaction.Entries.{update, Restores, add_entry-Leads, remove_entry-Leads}

-- The set without the entries of the inputs.
abbrev pub spend_all : List TransactionInput → UtxoSet → UtxoSet
spend_all [] t = t
spend_all (input ∷ inputs) t = spend_all inputs (update t input.previous_outpoint none)

-- Each input finds its entry, and no two spend the same one.
abbrev pub CanSpend : List TransactionInput → UtxoSet → Type 0
CanSpend [] t = Unit
CanSpend (input ∷ inputs) t =
    (t input.previous_outpoint ≡ some input.utxo_entry)
    × CanSpend inputs (update t input.previous_outpoint none)

module _ (tx : Transaction) (block_daa_score : ℕ) where
  abbrev pub outpoint_at : ℕ → Outpoint
  outpoint_at i = record { transaction_id = tx.id; index = i }

  abbrev pub entry_of : TransactionOutput → UtxoEntry
  entry_of output = new_utxo_entry output tx.is_coinbase block_daa_score

  -- The set with the entries of the outputs, from index i on.
  abbrev pub create_all : ℕ → List TransactionOutput → UtxoSet → UtxoSet
  create_all i [] t = t
  create_all i (output ∷ outputs) t =
      create_all (i + 1) outputs (update t (outpoint_at i) (some (entry_of output)))

module _ (base : UtxoSet) (tx : Transaction) (block_daa_score : ℕ) where
  -- Each output is new, and is the one of the base set if that has it with the same score.
  abbrev pub CanCreate : ℕ → List TransactionOutput → UtxoSet → Type 0
  CanCreate i [] t = Unit
  CanCreate i (output ∷ outputs) t =
      (t (outpoint_at tx block_daa_score i) ≡ none)
      × Restores base (outpoint_at tx block_daa_score i) (entry_of tx block_daa_score output)
      × (i ≤ max_uint32)
      × CanCreate (i + 1) outputs
          (update t (outpoint_at tx block_daa_score i) (some (entry_of tx block_daa_score output)))

  add_outputs-Leads :
      (outputs : List TransactionOutput) (i : ℕ) (t : UtxoSet) (d : UtxoDiff)
      → Leads base d t
      → CanCreate i outputs t
      → (d' : UtxoDiff) × (add_outputs tx block_daa_score i outputs d ≡ success d')
        × Leads base d' (create_all tx block_daa_score i outputs t)
  unfolding add_outputs then_diff
  add_outputs-Leads [] i t d p h = (d, refl, p)
  add_outputs-Leads (output ∷ outputs) i t d p (absent, restores, small, rest) =
      let (u, e, q) =
        add_entry-Leads base t d (outpoint_at tx block_daa_score i)
          (entry_of tx block_daa_score output) p absent restores in
      let (d', f, s) = add_outputs-Leads outputs (i + 1) _ u q rest in
      (d', rw (le→ltb_false max_uint32 i small, e) f, s)

remove_inputs-Leads :
    (base : UtxoSet) (inputs : List TransactionInput) (t : UtxoSet) (d : UtxoDiff)
    → Leads base d t
    → CanSpend inputs t
    → (d' : UtxoDiff) × (remove_inputs inputs d ≡ success d') × Leads base d' (spend_all inputs t)
unfolding remove_inputs then_diff
remove_inputs-Leads base [] t d p h = (d, refl, p)
remove_inputs-Leads base (input ∷ inputs) t d p (found, rest) =
    let (u, e, q) = remove_entry-Leads base t d input.previous_outpoint input.utxo_entry p found in
    let (d', f, s) = remove_inputs-Leads base inputs _ u q rest in (d', rw e f, s)

-- On a diff that leads to a set in which the transaction can spend its inputs and create its outputs,
-- AddTransaction succeeds, and the new diff leads to the set after the transaction.
pub add_transaction-Leads :
    (base t : UtxoSet) (d : UtxoDiff) (tx : Transaction) (block_daa_score : ℕ)
    → Leads base d t
    → CanSpend tx.inputs t
    → CanCreate base tx block_daa_score 0 tx.outputs (spend_all tx.inputs t)
    → (d' : UtxoDiff) × (add_transaction d tx block_daa_score ≡ success d')
      × Leads base d' (create_all tx block_daa_score 0 tx.outputs (spend_all tx.inputs t))
unfolding add_transaction then_diff
add_transaction-Leads base t d tx block_daa_score p spends creates =
    let (u, e, q) = remove_inputs-Leads base tx.inputs t d p spends in
    let (d', f, s) = add_outputs-Leads base tx block_daa_score tx.outputs 0 _ u q creates in
    (d', rw e f, s)
