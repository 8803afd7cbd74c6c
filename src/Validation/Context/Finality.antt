-- ===== src/Validation/Context/Finality.antt =====
-- When a transaction is final: IsFinalizedTransaction.
use eiyaro.Common.{
  ℕ, ◌≤◌, ◌<◌, ◌≡◌, ◌↔◌, ◌⊎◌, inl, inr, refl, true, List, [], ◌∷◌, ◌==◌, arith, Bool-cases, not, ℤ,
  pos, negsuc,
}
use eiyaro.Script.Opcode.Locks.{lock_time_threshold, max_tx_in_sequence_num}
use eiyaro.Validation.Transaction.{
  DomainTransaction, DomainTransactionInput, pass, reject_if_iff, unfinalized_tx,
}
use eiyaro.Validation.Context.{
  all_final, is_finalized_transaction, validate_transaction_in_context_ignoring_utxo,
}

-- Every input has given up its lock.
pub data AllFinal : List DomainTransactionInput → Type 0 where
  none_final : AllFinal []
  final :
      (input : DomainTransactionInput) (inputs : List DomainTransactionInput)
      → input.sequence ≡ max_tx_in_sequence_num
      → AllFinal inputs
      → AllFinal (input ∷ inputs)

all_final-AllFinal :
    (inputs : List DomainTransactionInput) → (all_final inputs ≡ true) ↔ AllFinal inputs
unfolding all_final
all_final-AllFinal [] = ((λ h. none_final), (λ a. refl))
all_final-AllFinal (input ∷ inputs) =
    let (there, back) = all_final-AllFinal inputs in
    elim (Bool-cases (input.sequence == max_tx_in_sequence_num)) [
      | inl most ↦ (
        (λ h. final input inputs (ground (arith, most)) (there (rw most at h))),
        (λ a. rw most (back (rest a))),
      )
      | inr fewer ↦ (
        (λ h. absurd (ground (arith, (rw fewer at h)))),
        (λ a. absurd (ground (arith, fewer, first a))),
      )
    ]
  where
    rest : AllFinal (input ∷ inputs) → AllFinal inputs
    rest (final _ _ e a) = a

    first : AllFinal (input ∷ inputs) → input.sequence ≡ max_tx_in_sequence_num
    first (final _ _ e a) = e

-- The lock time is below the score or the time that it is compared with.
abbrev pub IsReached : ℕ → ℕ → ℤ → Type 0
IsReached lock_time block_daa_score (pos block_time) =
    ((lock_time < lock_time_threshold) × (lock_time < block_daa_score))
    ⊎ ((lock_time_threshold ≤ lock_time) × (lock_time < block_time))
IsReached lock_time block_daa_score (negsuc n) =
    (lock_time < lock_time_threshold) × (lock_time < block_daa_score)

-- A lock time that there is something to compare with: a score, or a time from 1970 on.
abbrev pub IsComparable : ℕ → ℤ → Type 0
IsComparable lock_time (pos block_time) = Unit {0}
IsComparable lock_time (negsuc n) = lock_time < lock_time_threshold

finalized_iff :
    (tx : DomainTransaction) (score : ℕ) (time : ℤ)
    → (is_finalized_transaction tx score time ≡ true) ↔ (
        (tx.lock_time ≡ 0)
        ⊎ IsReached tx.lock_time score time
        ⊎ (IsComparable tx.lock_time time × (all_final tx.inputs ≡ true)))
unfolding is_finalized_transaction
finalized_iff tx score (pos time) = ground arith
finalized_iff tx score (negsuc n) = ground arith

-- A transaction is final: it has no lock time, its lock time is reached, or it can be compared and
-- every input has given up its lock.
abbrev pub IsFinal : DomainTransaction → ℕ → ℤ → Type 0
IsFinal tx score time =
    (tx.lock_time ≡ 0)
    ⊎ IsReached tx.lock_time score time
    ⊎ (IsComparable tx.lock_time time × AllFinal tx.inputs)

last_iff : {A B C D E : Type 0} → D ↔ E → (A ⊎ B ⊎ (C × D)) → (A ⊎ B ⊎ (C × E))
last_iff e (inl a) = inl a
last_iff e (inr (inl b)) = inr (inl b)
last_iff (to, from) (inr (inr (c, d))) = inr (inr (c, to d))

accepted_iff :
    (tx : DomainTransaction) (time : ℤ) (score : ℕ)
    → (validate_transaction_in_context_ignoring_utxo tx time score ≡ pass tt)
      ↔ (is_finalized_transaction tx score time ≡ true)
unfolding validate_transaction_in_context_ignoring_utxo
accepted_iff tx time score =
    let iff = reject_if_iff (not (is_finalized_transaction tx score time)) unfinalized_tx in
    ground (arith, iff)

-- The check of a transaction without its UTXO entries passes exactly if the transaction is final:
-- its lock time is 0, or is below the DAA score or the time that it is compared with, or there is
-- such a score or a time that is not negative and every input has the largest sequence number.
pub validate_transaction_in_context_ignoring_utxo-IsFinal :
    (tx : DomainTransaction) (time : ℤ) (score : ℕ)
    → (validate_transaction_in_context_ignoring_utxo tx time score ≡ pass tt)
      ↔ IsFinal tx score time
validate_transaction_in_context_ignoring_utxo-IsFinal tx time score =
    let (final_if, if_final) = finalized_iff tx score time in
    let (passes, is_passed) = accepted_iff tx time score in
    let (all, back) = all_final-AllFinal tx.inputs in
    (
      (λ h. last_iff (all, back) (final_if (passes h))),
      (λ f. is_passed (if_final (last_iff (back, all) f))),
    )
