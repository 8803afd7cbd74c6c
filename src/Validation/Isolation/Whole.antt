-- ===== src/Validation/Isolation/Whole.antt =====
-- ValidateTransactionInIsolation against `IsSound`.
use eiyaro.Common.{
  ℕ, ◌≡◌, ◌↔◌, ◌⊎◌, inl, inr, refl, true, false, not, ltb, ◌==◌, arith, length, none, Bool-cases,
}
use eiyaro.Validation.Transaction.{
  pass, ◌>>◌, reject_if, DomainTransaction, TransactionValidator, is_coinbase,
  max_transaction_version, coinbase_with_inputs, coinbase_too_many_outputs,
  bad_coinbase_payload_len, transaction_version_is_unknown,
}
use eiyaro.Validation.Payload.{Libraries}
use eiyaro.Validation.Isolation.{
  check_transaction_input_count, check_transaction_amount_ranges,
  check_duplicate_transaction_inputs, check_coinbase_in_isolation, check_script_lengths,
  check_gas_in_built_in_or_native_transactions, check_subnetwork_registry_transaction,
  check_data_transaction_payload, check_native_transaction_payload, check_transaction_subnetwork,
  validate_transaction_in_isolation, outputs_limit,
}
use eiyaro.Validation.Isolation.Amounts.{check_output_values_iff}
use eiyaro.Validation.Isolation.Duplicates.{check_duplicates-AreApart}
use eiyaro.Validation.Chain.{four_iff, ten_iff}
use eiyaro.Validation.Isolation.Sound.{
  IsCoinbaseSound, IsSound, check_script_lengths-AllShort, input_count_iff, gas_iff, registry_iff,
  native_iff, payload_iff, subnetwork_iff, version_iff,
}

coinbase_checks :
    (v : TransactionValidator) (tx : DomainTransaction)
    → ((reject_if (ltb v.max_coinbase_payload_length (length tx.payload)) bad_coinbase_payload_len
          >> reject_if (not (length tx.inputs == 0)) coinbase_with_inputs
          >> reject_if (ltb (outputs_limit v) (length tx.outputs)) coinbase_too_many_outputs
          >> check_script_lengths v.coinbase_payload_script_public_key_max_length tx.outputs)
        ≡ pass tt)
      ↔ IsCoinbaseSound v tx
coinbase_checks v tx =
    let (split, join) =
      four_iff
        (reject_if (ltb v.max_coinbase_payload_length (length tx.payload)) bad_coinbase_payload_len)
        (reject_if (not (length tx.inputs == 0)) coinbase_with_inputs)
        (reject_if (ltb (outputs_limit v) (length tx.outputs)) coinbase_too_many_outputs)
        (check_script_lengths v.coinbase_payload_script_public_key_max_length tx.outputs) in
    let (there, back) =
      check_script_lengths-AllShort v.coinbase_payload_script_public_key_max_length tx.outputs in
    (
      (λ h.
          let (a, b, c, d) = split h in
          record {
            payload_fits = ground (arith, a);
            spends_nothing = ground (arith, b);
            outputs_fit = ground (arith, c);
            scripts_fit = there d;
          }),
      (λ s. join (
        ground (arith, s.payload_fits),
        ground (arith, s.spends_nothing),
        ground (arith, s.outputs_fit),
        back s.scripts_fit,
      )),
    )

coinbase_iff :
    (v : TransactionValidator) (tx : DomainTransaction)
    → (check_coinbase_in_isolation v tx ≡ pass tt)
      ↔ ((is_coinbase tx ≡ false) ⊎ IsCoinbaseSound v tx)
unfolding check_coinbase_in_isolation
coinbase_iff v tx = elim (Bool-cases (is_coinbase tx)) [
  | inl minted ↦ (
    (λ h. inr ((coinbase_checks v tx).0 (rw minted at h))),
    (λ p. rw minted ((coinbase_checks v tx).1 (sound_of minted p))),
  )
  | inr plain ↦ ((λ h. inl plain), (λ p. rw plain refl))
]
  where
    sound_of :
        is_coinbase tx ≡ true
        → (is_coinbase tx ≡ false) ⊎ IsCoinbaseSound v tx
        → IsCoinbaseSound v tx
    sound_of minted (inl plain) = absurd (ground (arith, minted, plain))
    sound_of minted (inr s) = s

-- The validation in isolation passes exactly if the transaction is sound: it is a coinbase or
-- spends something; every output is worth something, and their exact sum is in range; no two inputs
-- spend one outpoint; a coinbase is within its limits and spends nothing; a built-in or native
-- subnetwork has no gas; a registry payload has 8 bytes, a data payload is empty or a JSON object of
-- at most 10000 bytes that the heuristics accept, a native payload is empty; the subnetwork is
-- enabled, native, coinbase or data, and data only after its activation; and the version is 0.
pub validate_transaction_in_isolation-IsSound :
    (v : TransactionValidator) (lib : Libraries) (tx : DomainTransaction) (score : ℕ)
    → (validate_transaction_in_isolation v lib tx score ≡ pass tt) ↔ IsSound v lib tx score
unfolding validate_transaction_in_isolation check_transaction_amount_ranges
    check_duplicate_transaction_inputs
validate_transaction_in_isolation-IsSound v lib tx score =
    let (split, join) =
      ten_iff (check_transaction_input_count tx) (check_transaction_amount_ranges tx)
        (check_duplicate_transaction_inputs tx) (check_coinbase_in_isolation v tx)
        (check_gas_in_built_in_or_native_transactions tx) (check_subnetwork_registry_transaction tx)
        (check_data_transaction_payload lib tx score) (check_native_transaction_payload tx)
        (check_transaction_subnetwork v tx none score)
        (reject_if (ltb max_transaction_version tx.version) transaction_version_is_unknown) in
    (
      (λ h.
          let (a, b, c, d, e, f, g, i, j, k) = split h in
          let (all_worth, in_range) = (check_output_values_iff tx.outputs).0 b in
          let (subnetwork, activated) = (subnetwork_iff v tx score).0 j in
          record {
            spends_something = (input_count_iff tx).0 a;
            all_worth = all_worth;
            in_range = in_range;
            apart = (check_duplicates-AreApart tx.inputs).0 c;
            coinbase = (coinbase_iff v tx).0 d;
            gas_free = (gas_iff tx).0 e;
            registry = (registry_iff tx).0 f;
            payload = (payload_iff lib tx score).0 g;
            native = (native_iff tx).0 i;
            subnetwork = subnetwork;
            activated = activated;
            known_version = (version_iff tx.version).0 k;
          }),
      (λ s. join (
        (input_count_iff tx).1 s.spends_something,
        (check_output_values_iff tx.outputs).1 (s.all_worth, s.in_range),
        (check_duplicates-AreApart tx.inputs).1 s.apart,
        (coinbase_iff v tx).1 s.coinbase,
        (gas_iff tx).1 s.gas_free,
        (registry_iff tx).1 s.registry,
        (payload_iff lib tx score).1 s.payload,
        (native_iff tx).1 s.native,
        (subnetwork_iff v tx score).1 (s.subnetwork, s.activated),
        (version_iff tx.version).1 s.known_version,
      )),
    )
