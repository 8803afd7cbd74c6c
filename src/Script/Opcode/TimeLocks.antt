-- ===== src/Script/Opcode/TimeLocks.antt =====
-- OP_CHECKLOCKTIMEVERIFY and OP_CHECKSEQUENCEVERIFY against the conditions that they enforce.
use eiyaro.Common.{
  ℕ, ◌%◌, ◌^◌, ◌≤◌, ◌<◌, ◌≡◌, ◌≢◌, ◌⊎◌, inl, inr, refl, true, false, [], ◌∷◌, ◌++◌, ◌==◌, leb,
  arith, if◌then◌else◌, length, get_elem?, some, le→ltb_false, Bool-cases, leb→le,
}
use eiyaro.Script.Outcome.{
  ok, err, done, fail, ◌>>=◌, ◌>>◌, pure, throw, lift, unsatisfied_lock_time,
}
use eiyaro.Script.Num.{Bytes, max_int32}
use eiyaro.Script.Stack.{Stack}
use eiyaro.Script.Stack.Loops.{pop_byte_array-snoc}
use eiyaro.Script.Engine.{Engine}
use eiyaro.Script.Opcode.Locks.{
  lock_time_threshold, max_tx_in_sequence_num, verify_lock_time, verify_lock_time_threshold,
  verify_lock_time_with_threshold, uint64, tx_sequence, opcode_check_lock_time_verify,
  opcode_check_sequence_verify,
}
use eiyaro.Script.Opcode.Numbers.{with_dstack}

-- Both lock times are block scores or both are times, the lock is reached, and the input is not final.
pub record IsUnlocked (tx_lock_time sequence lock_time : ℕ) : Type 0 where
  pub same_kind :
      ((tx_lock_time < lock_time_threshold) × (lock_time < lock_time_threshold))
      ⊎ ((lock_time_threshold ≤ tx_lock_time) × (lock_time_threshold ≤ lock_time))
  pub reached : lock_time ≤ tx_lock_time
  pub not_final : sequence ≢ max_tx_in_sequence_num

-- The lock is disabled, or it is reached by a relative lock of the input that is not disabled.
abbrev pub IsMature : ℕ → ℕ → Type 0
IsMature sequence lock =
    (2 ^ 63 ≤ lock) ⊎ ((sequence < 2 ^ 63) × (lock % 2 ^ 32 ≤ sequence % 2 ^ 32))

leb_false→lt : (a b : ℕ) → leb a b ≡ false → b < a
leb_false→lt a b h = ground arith

eq_of_test : (a b : ℕ) → (a == b) ≡ true → a ≡ b
eq_of_test a b h = ground arith

ne_of_test : (a b : ℕ) → (a == b) ≡ false → a ≢ b
ne_of_test a b h = ground arith

verify_lock_time_cases :
    (tx_lock_time lock_time : ℕ)
    → ((verify_lock_time tx_lock_time lock_time ≡ ok tt) × (lock_time ≤ tx_lock_time))
      ⊎ ((verify_lock_time tx_lock_time lock_time ≡ err unsatisfied_lock_time)
          × (tx_lock_time < lock_time))
unfolding verify_lock_time
verify_lock_time_cases tx_lock_time lock_time = ground arith

verify_lock_time_threshold_cases :
    (tx_lock_time threshold lock_time : ℕ)
    → ((verify_lock_time_threshold tx_lock_time threshold lock_time ≡ ok tt)
        × (((tx_lock_time < threshold) × (lock_time < threshold))
            ⊎ ((threshold ≤ tx_lock_time) × (threshold ≤ lock_time))))
      ⊎ ((verify_lock_time_threshold tx_lock_time threshold lock_time ≡ err unsatisfied_lock_time)
          × (((tx_lock_time < threshold) × (threshold ≤ lock_time))
              ⊎ ((threshold ≤ tx_lock_time) × (lock_time < threshold))))
unfolding verify_lock_time_threshold
verify_lock_time_threshold_cases tx_lock_time threshold lock_time = ground arith

module _ (tx_lock_time threshold lock_time : ℕ) where
  verify_lock_time_with_threshold-same :
      verify_lock_time_threshold tx_lock_time threshold lock_time ≡ ok tt
      → verify_lock_time_with_threshold tx_lock_time threshold lock_time
        ≡ verify_lock_time tx_lock_time lock_time
  unfolding verify_lock_time_with_threshold
  verify_lock_time_with_threshold-same h = rw (verify_lock_time_with_threshold, h) refl

  verify_lock_time_with_threshold-mixed :
      verify_lock_time_threshold tx_lock_time threshold lock_time ≡ err unsatisfied_lock_time
      → verify_lock_time_with_threshold tx_lock_time threshold lock_time ≡ err unsatisfied_lock_time
  unfolding verify_lock_time_with_threshold
  verify_lock_time_with_threshold-mixed h = rw (verify_lock_time_with_threshold, h) refl

module _ (vm : Engine) (sequence : ℕ) (input : tx_sequence vm ≡ done sequence vm) where
  sequence_met :
      (lock : ℕ)
      → (IsMature sequence lock
          × ((if leb (2 ^ 63) lock
                  then pure tt
                  else (tx_sequence >>= λ n.
                      if leb (2 ^ 63) n
                      then throw unsatisfied_lock_time
                      else lift (verify_lock_time (n % 2 ^ 32) (lock % 2 ^ 32))))
                vm
              ≡ done tt vm))
        ⊎ ((¬ IsMature sequence lock)
            × ((if leb (2 ^ 63) lock
                    then pure tt
                    else (tx_sequence >>= λ n.
                        if leb (2 ^ 63) n
                        then throw unsatisfied_lock_time
                        else lift (verify_lock_time (n % 2 ^ 32) (lock % 2 ^ 32))))
                  vm
                ≡ fail unsatisfied_lock_time vm))
  sequence_met lock = elim (Bool-cases (leb (2 ^ 63) lock)) [
    | inl off ↦ inl (inl (leb→le (2 ^ 63) lock off), rw off refl)
    | inr on ↦ elim (Bool-cases (leb (2 ^ 63) sequence)) [
      | inl none_set ↦ inr (
        ground (arith, leb→le (2 ^ 63) sequence none_set, leb_false→lt (2 ^ 63) lock on),
        rw (on, ◌>>=◌, input, none_set) refl,
      )
      | inr set ↦ elim (verify_lock_time_cases (sequence % 2 ^ 32) (lock % 2 ^ 32)) [
        | inl (e, le) ↦
            inl (inr (leb_false→lt (2 ^ 63) sequence set, le), rw (on, ◌>>=◌, input, set, e) refl)
        | inr (e, lt) ↦
            inr (
              ground (arith, lt, leb_false→lt (2 ^ 63) lock on),
              rw (on, ◌>>=◌, input, set, e) refl,
            )
      ]
    ]
  ]

module _ (vm : Engine) (s : Stack) (b : Bytes) (sequence : ℕ)
    (small : length (s ++ b ∷ []) ≤ max_int32) (short : length b ≤ 8)
    (input : get_elem? vm.tx_sequences vm.tx_idx ≡ some sequence) where
  input_sequence : tx_sequence (with_dstack vm s) ≡ done sequence (with_dstack vm s)
  unfolding tx_sequence
  input_sequence = rw (tx_sequence, input) refl

  -- OP_CHECKSEQUENCEVERIFY on an operand of at most 8 bytes, on a stack within the largest int32 and
  -- for an input that the transaction has, takes the operand off; it goes on if the input is mature
  -- and fails if not.
  pub opcode_check_sequence_verify_lem :
      (IsMature sequence (uint64 b)
        × (opcode_check_sequence_verify (with_dstack vm (s ++ b ∷ []))
            ≡ done tt (with_dstack vm s)))
      ⊎ ((¬ IsMature sequence (uint64 b))
          × (opcode_check_sequence_verify (with_dstack vm (s ++ b ∷ []))
              ≡ fail unsatisfied_lock_time (with_dstack vm s)))
  unfolding opcode_check_sequence_verify
  opcode_check_sequence_verify_lem =
      rw (pop_byte_array-snoc s b small, ◌>>=◌, le→ltb_false 8 (length b) short)
        (sequence_met (with_dstack vm s) sequence input_sequence (uint64 b))

  -- OP_CHECKLOCKTIMEVERIFY on an operand of at most 8 bytes, on a stack within the largest int32 and
  -- for an input that the transaction has, takes the operand off; it goes on if the input is unlocked
  -- and fails if not.
  pub opcode_check_lock_time_verify_lem :
      (IsUnlocked vm.tx_lock_time sequence (uint64 b)
        × (opcode_check_lock_time_verify (with_dstack vm (s ++ b ∷ []))
            ≡ done tt (with_dstack vm s)))
      ⊎ ((¬ IsUnlocked vm.tx_lock_time sequence (uint64 b))
          × (opcode_check_lock_time_verify (with_dstack vm (s ++ b ∷ []))
              ≡ fail unsatisfied_lock_time (with_dstack vm s)))
  unfolding opcode_check_lock_time_verify
  opcode_check_lock_time_verify_lem =
      rw (pop_byte_array-snoc s b small, ◌>>=◌, le→ltb_false 8 (length b) short)
        (elim (verify_lock_time_threshold_cases vm.tx_lock_time lock_time_threshold (uint64 b)) [
          | inr (e, mixed) ↦ inr (
            (λ u. ground (arith, mixed, u.same_kind)),
            rw (◌>>◌, ◌>>=◌, verify_lock_time_with_threshold-mixed _ _ _ e) refl,
          )
          | inl (e, same) ↦ elim (verify_lock_time_cases vm.tx_lock_time (uint64 b)) [
            | inr (f, late) ↦ inr (
              (λ u. ground (arith, late, u.reached)),
              rw (◌>>◌, ◌>>=◌, verify_lock_time_with_threshold-same _ _ _ e, f) refl,
            )
            | inl (f, reached) ↦ elim (Bool-cases (sequence == max_tx_in_sequence_num)) [
              | inl final ↦ inr (
                (λ u. u.not_final (eq_of_test sequence max_tx_in_sequence_num final)),
                rw
                    (
                      ◌>>◌,
                      ◌>>=◌,
                      verify_lock_time_with_threshold-same _ _ _ e,
                      f,
                      input_sequence,
                      final,
                    )
                    refl,
              )
              | inr open_input ↦ inl (
                record {
                  same_kind = same;
                  reached = reached;
                  not_final = ne_of_test sequence max_tx_in_sequence_num open_input;
                },
                rw
                    (
                      ◌>>◌,
                      ◌>>=◌,
                      verify_lock_time_with_threshold-same _ _ _ e,
                      f,
                      input_sequence,
                      open_input,
                    )
                    refl,
              )
            ]
          ]
        ])
