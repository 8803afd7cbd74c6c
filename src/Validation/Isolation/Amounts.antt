-- ===== src/Validation/Isolation/Amounts.antt =====
-- The amounts of the outputs that pass in isolation.
use eiyaro.Common.{ℕ, ◌+◌, ◌≤◌, ◌≡◌, ◌↔◌, refl, List, [], ◌∷◌, arith, add64}
use eiyaro.Validation.Transaction.{pass, >>=_parts, DomainTransactionOutput, max_sey}
use eiyaro.Validation.Isolation.{add_output, check_output_values}

-- The exact sum of the values.
unfoldable pub total_value : List DomainTransactionOutput → ℕ
total_value [] = 0
total_value (output ∷ outputs) = output.value + total_value outputs

-- No output is worth nothing.
pub data AllWorth : List DomainTransactionOutput → Type 0 where
  no_outputs : AllWorth []
  worth :
      (output : DomainTransactionOutput) (outputs : List DomainTransactionOutput)
      → 1 ≤ output.value
      → AllWorth outputs
      → AllWorth (output ∷ outputs)

-- A turn succeeds with the exact new total.
add_output_lem :
    (t s n : ℕ) → t ≤ max_sey → add_output t s ≡ pass n → (1 ≤ s) × (t + s ≤ max_sey) × (n ≡ t + s)
unfolding add_output add64
add_output_lem t s n small h = ground (arith, h)

add_output_ok : (t s : ℕ) → 1 ≤ s → t + s ≤ max_sey → add_output t s ≡ pass (t + s)
unfolding add_output add64
add_output_ok t s one small = ground arith

sound_values :
    (t : ℕ) (outputs : List DomainTransactionOutput)
    → t ≤ max_sey
    → check_output_values t outputs ≡ pass tt
    → AllWorth outputs × (t + total_value outputs ≤ max_sey)
unfolding check_output_values total_value
sound_values t [] small h = (no_outputs, omega (arith, small))
sound_values t (output ∷ outputs) small h =
    let (n, turn, rest) = >>=_parts (add_output t output.value) _ h in
    let (one, fits, e) = add_output_lem t output.value n small turn in
    let (w, sum) = sound_values n outputs (omega (arith, e, fits)) rest in
    (worth output outputs one w, omega (arith, e, sum))

complete_values :
    (t : ℕ) (outputs : List DomainTransactionOutput)
    → AllWorth outputs
    → t + total_value outputs ≤ max_sey
    → check_output_values t outputs ≡ pass tt
unfolding check_output_values total_value
complete_values t _ no_outputs small = refl
complete_values t _ (worth output outputs one w) small =
    rw (add_output_ok t output.value one (omega (arith, small)))
      (complete_values (t + output.value) outputs w (omega (arith, small)))

-- The amounts pass exactly if every output is worth something and their exact sum is in range.
pub check_output_values_iff :
    (outputs : List DomainTransactionOutput)
    → (check_output_values 0 outputs ≡ pass tt)
      ↔ (AllWorth outputs × (total_value outputs ≤ max_sey))
check_output_values_iff outputs = (
  (λ h. let (w, s) = sound_values 0 outputs (omega arith) h in (w, omega (arith, s))),
  (λ p. complete_values 0 outputs p.0 (omega (arith, p.1))),
)
