-- ===== src/Script/Opcode/Locks.antt =====
-- OP_CHECKLOCKTIMEVERIFY and OP_CHECKSEQUENCEVERIFY of opcode.go. An uint64 is a number below
-- 2 ^ 64: its bit 63 is set where 2 ^ 63 is at most the number.
use eiyaro.Common.{
  ℕ, zero, suc, ◌-◌, ◌%◌, ◌^◌, [], ◌∷◌, ◌++◌, ◌&&◌, ◌||◌, not, ◌==◌, ltb, leb, if◌then◌else◌,
  length, get_elem?, none, some,
}
use eiyaro.Script.Outcome.{
  M, Result, ok, err, done, panic, ◌>>=◌, ◌>>◌, pure, throw, lift, number_too_big,
  unsatisfied_lock_time,
}
use eiyaro.Script.Num.{Bytes, decode}
use eiyaro.Script.Stack.{pop_byte_array}
use eiyaro.Script.Engine.{Engine, Handler, on_dstack}

-- constants.go
abbrev pub lock_time_threshold : ℕ
lock_time_threshold = 500_000_000_000

abbrev pub max_tx_in_sequence_num : ℕ
max_tx_in_sequence_num = 2 ^ 64 - 1

unfoldable pub verify_lock_time : ℕ → ℕ → Result (Unit {0})
verify_lock_time tx_lock_time lock_time =
    if ltb tx_lock_time lock_time then err unsatisfied_lock_time else ok tt

unfoldable pub verify_lock_time_threshold : ℕ → ℕ → ℕ → Result (Unit {0})
verify_lock_time_threshold tx_lock_time threshold lock_time =
    if not (
      ltb tx_lock_time threshold && ltb lock_time threshold
      || leb threshold tx_lock_time && leb threshold lock_time)
    then err unsatisfied_lock_time
    else ok tt

unfoldable pub verify_lock_time_with_threshold : ℕ → ℕ → ℕ → Result (Unit {0})
verify_lock_time_with_threshold tx_lock_time threshold lock_time =
    elim (verify_lock_time_threshold tx_lock_time threshold lock_time) [
      | err e ↦ err e
      | ok _ ↦ verify_lock_time tx_lock_time lock_time
    ]

abbrev pub zeros : ℕ → Bytes
zeros zero = []
zeros (suc n) = 0 ∷ zeros n

-- `binary.LittleEndian.Uint64` of the bytes, padded to 8.
unfoldable pub uint64 : Bytes → ℕ
uint64 v = decode (if ltb (length v) 8 then v ++ zeros (8 - length v) else v)

-- `vm.tx.Inputs[vm.txIdx].Sequence`, which panics out of range.
unfoldable pub tx_sequence : M Engine ℕ
tx_sequence vm = elim (get_elem? vm.tx_sequences vm.tx_idx) [ some n ↦ done n vm | none ↦ panic ]

unfoldable pub opcode_check_lock_time_verify : Handler
opcode_check_lock_time_verify = on_dstack pop_byte_array >>= λ lock_time_bytes.
    if ltb 8 (length lock_time_bytes) then throw number_too_big else λ vm.
    (lift (
          verify_lock_time_with_threshold vm.tx_lock_time lock_time_threshold
            (uint64 lock_time_bytes))
        >> tx_sequence
        >>= λ sequence.
            if sequence == max_tx_in_sequence_num then throw unsatisfied_lock_time else pure tt)
      vm

unfoldable pub opcode_check_sequence_verify : Handler
opcode_check_sequence_verify = on_dstack pop_byte_array >>= λ sequence_bytes.
    if ltb 8 (length sequence_bytes)
    then throw number_too_big
    else if leb (2 ^ 63) (uint64 sequence_bytes)
    then pure tt
    else tx_sequence >>= λ sequence.
        if leb (2 ^ 63) sequence
        then throw unsatisfied_lock_time
        else lift (verify_lock_time (sequence % 2 ^ 32) (uint64 sequence_bytes % 2 ^ 32))
