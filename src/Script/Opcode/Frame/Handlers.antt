-- ===== src/Script/Opcode/Frame/Handlers.antt =====
-- Each handler of opcode.go leaves the program alone, by the rules of Frame.antt.
use eiyaro.Common.{
  ℕ, Bool, true, false, List, ◌≡◌, arith, if◌then◌else◌, length, [], ◌==◌, Option, none, some,
}
use eiyaro.Script.Outcome.{M, Outcome, done, fail, panic, ◌>>=◌, ◌>>◌, pure, throw, lift, ErrorCode}
use eiyaro.Script.Num.{Bytes}
use eiyaro.Script.Engine.{Engine, Handler, ParsedOpcode, is_branch_executing}
use eiyaro.Common.{get_elem?, ◌∷◌}
use eiyaro.Script.Engine.{Crypto, cond_true, cond_false, cond_skip}
use eiyaro.Common.{not}
use eiyaro.Script.Outcome.{unbalanced_conditional, check_multi_sig_verify, check_sig_verify}
use eiyaro.Script.Opcode.Control.{
  flip_top, drop_top, opcode_false, opcode_push_data, opcode_1_negate, opcode_n, opcode_nop,
  opcode_verify, opcode_return, opcode_disabled, opcode_reserved, opcode_invalid, abstract_verify,
  opcode_if, opcode_not_if, opcode_else, opcode_endif, if_bool, pop_if_bool, push_cond,
}
use eiyaro.Script.Opcode.Shuffle.{
  opcode_to_alt_stack, opcode_from_alt_stack, opcode_2_drop, opcode_2_dup, opcode_3_dup,
  opcode_2_over, opcode_2_rot, opcode_2_swap, opcode_if_dup, opcode_depth, opcode_drop, opcode_dup,
  opcode_nip, opcode_over, opcode_pick, opcode_roll, opcode_rot, opcode_swap, opcode_tuck,
  opcode_size, opcode_equal, opcode_equal_verify,
}
use eiyaro.Script.Opcode.Arith.{
  unary, binary, opcode_1_add, opcode_1_sub, opcode_negate, opcode_abs, opcode_not,
  opcode_0_not_equal, opcode_add, opcode_sub, opcode_bool_and, opcode_bool_or, opcode_num_equal,
  opcode_num_equal_verify, opcode_num_not_equal, opcode_less_than, opcode_greater_than,
  opcode_less_than_or_equal, opcode_greater_than_or_equal, opcode_min, opcode_max, opcode_within,
}
use eiyaro.Script.Opcode.Signature.{
  opcode_sha256, opcode_blake2b, push_verdict, opcode_check_sig, opcode_check_sig_ecdsa,
  opcode_check_sig_verify,
}
use eiyaro.Script.Outcome.{unsatisfied_lock_time}
use eiyaro.Script.Opcode.Locks.{
  verify_lock_time_with_threshold, lock_time_threshold, max_tx_in_sequence_num, tx_sequence,
  opcode_check_lock_time_verify, opcode_check_sequence_verify,
}
use eiyaro.Script.Opcode.Table.{
  opcode_check_multi_sig_verify, signature_entry, arith_entry, shuffle_entry, control_entry, opfunc,
}
use eiyaro.Script.Opcode.Frame.{
  SameProgram, Frames, Frames->>=, Frames-if, done_frame, Frames-throw, frames,
}

Frames-abstract_verify : (c : ErrorCode) → Frames (abstract_verify c)
unfolding abstract_verify
Frames-abstract_verify c = search frames

skip_frame : (vm w : Engine) (c : ℕ) → push_cond c vm ≡ done tt w → SameProgram vm w
unfolding push_cond
skip_frame vm w c h = record {
  same_scripts = ground arith;
  same_script = ground arith;
  same_offset = ground arith;
  same_kind = ground arith;
  same_saved = ground arith;
}

Frames-push_cond : (c : ℕ) → Frames (push_cond c)
Frames-push_cond c = record { frame = λ vm w a h. skip_frame vm w c h }

Frames-if_bool : (so : Bytes) → Frames (if_bool so)
unfolding if_bool
Frames-if_bool [] = search frames
Frames-if_bool (b ∷ []) = search frames
Frames-if_bool (b ∷ c ∷ so) = search frames

Frames-pop_if_bool : Frames pop_if_bool
unfolding pop_if_bool
Frames-pop_if_bool = search (frames, Frames-if_bool)

-- A handler that tests the engine first.
pub Frames-test :
    {A : Type 0} (b : Engine → Bool) (h k : M Engine A)
    → Frames h
    → Frames k
    → Frames (λ vm. if b vm then h vm else k vm)
Frames-test b h k p q = record { frame = λ vm w a e. either (b vm) vm w a e }
  where
    either :
        (c : Bool) (vm w : Engine) (a : _)
        → (if c then h vm else k vm) ≡ done a w
        → SameProgram vm w
    either true vm w a e = p.frame vm w a e
    either false vm w a e = q.frame vm w a e

Frames-opcode_if : Frames opcode_if
unfolding opcode_if
Frames-opcode_if =
    Frames-test is_branch_executing
      (pop_if_bool >>= λ b. push_cond (if b then cond_true else cond_false)) (push_cond cond_skip)
      (search (frames, Frames-pop_if_bool, Frames-push_cond)) (Frames-push_cond cond_skip)

Frames-tx_sequence : Frames tx_sequence
unfolding tx_sequence
Frames-tx_sequence = record {
  frame = λ vm w a h. sequence_frame vm w a (get_elem? vm.tx_sequences vm.tx_idx) h;
}
  where
    sequence_frame :
        (vm w : Engine) (a : ℕ) (o : Option ℕ)
        → (elim o [ some n ↦ done n vm | none ↦ panic ]) ≡ done a w
        → SameProgram vm w
    sequence_frame vm w a none h = absurd (ground arith)
    sequence_frame vm w a (some n) h = done_frame vm w n a h

Frames-at :
    {A : Type 0} (f : Engine → M Engine A)
    → ((vm : Engine) → Frames (f vm))
    → Frames (λ vm. f vm vm)
Frames-at f h = record { frame = λ vm w a e. (h vm).frame vm w a e }

Frames-unlock :
    (lock : ℕ)
    → Frames (λ vm.
      (lift (verify_lock_time_with_threshold vm.tx_lock_time lock_time_threshold lock)
          >> tx_sequence
          >>= λ sequence.
              if sequence == max_tx_in_sequence_num then throw unsatisfied_lock_time else pure tt)
        vm)
Frames-unlock lock =
    Frames-at
      (λ u.
        lift (verify_lock_time_with_threshold u.tx_lock_time lock_time_threshold lock)
        >> tx_sequence
        >>= λ sequence.
            if sequence == max_tx_in_sequence_num then throw unsatisfied_lock_time else pure tt)
      (λ u. search (frames, Frames-tx_sequence) depth 8)

Frames-locks : Frames opcode_check_lock_time_verify
unfolding opcode_check_lock_time_verify
Frames-locks = search (frames, Frames-unlock) depth 8

Frames-sequence : Frames opcode_check_sequence_verify
unfolding opcode_check_sequence_verify
Frames-sequence = search (frames, Frames-tx_sequence) depth 12 fits 4000

set_conds :
    (vm w : Engine) (cs : List ℕ)
    → Outcome.done tt (record vm { cond_stack = cs }) ≡ done tt w
    → SameProgram vm w
set_conds vm w cs h = record {
  same_scripts = ground arith;
  same_script = ground arith;
  same_offset = ground arith;
  same_kind = ground arith;
  same_saved = ground arith;
}

-- OP_ELSE and OP_ENDIF, for what they make of the conditional stack.
Frames-conds :
    (f : List ℕ → List ℕ)
    → Frames (λ vm.
      if length vm.cond_stack == 0
      then fail unbalanced_conditional vm
      else done tt (record vm { cond_stack = f vm.cond_stack }))
Frames-conds f =
    Frames-test (λ vm. length vm.cond_stack == 0) (throw unbalanced_conditional)
      (λ vm. done tt (record vm { cond_stack = f vm.cond_stack })) (Frames-throw _)
      (record { frame = λ vm w a h. set_conds vm w (f vm.cond_stack) h })

Frames-else : Frames opcode_else
unfolding opcode_else
Frames-else = Frames-conds flip_top

Frames-endif : Frames opcode_endif
unfolding opcode_endif
Frames-endif = Frames-conds drop_top

Frames-opcode_not_if : Frames opcode_not_if
unfolding opcode_not_if
Frames-opcode_not_if =
    Frames-test is_branch_executing
      (pop_if_bool >>= λ b. push_cond (if not b then cond_true else cond_false))
      (push_cond cond_skip) (search (frames, Frames-pop_if_bool, Frames-push_cond))
      (Frames-push_cond cond_skip)

module _ (c : Crypto) where
  Frames-push_verdict : (o : Option Bool) (sig : Bytes) → Frames (push_verdict c o sig)
  unfolding push_verdict
  Frames-push_verdict none sig = search frames
  Frames-push_verdict (some valid) sig = search frames

  Frames-sha256 : Frames (opcode_sha256 c)
  unfolding opcode_sha256
  Frames-sha256 = search frames

  Frames-blake2b : Frames (opcode_blake2b c)
  unfolding opcode_blake2b
  Frames-blake2b = search frames

  Frames-check_sig : Frames (opcode_check_sig c)
  unfolding opcode_check_sig
  Frames-check_sig = search (frames, Frames-push_verdict) depth 12 fits 4000

  Frames-check_sig_ecdsa : Frames (opcode_check_sig_ecdsa c)
  unfolding opcode_check_sig_ecdsa
  Frames-check_sig_ecdsa = search (frames, Frames-push_verdict) depth 12 fits 4000

module _ (c : Crypto) (multi multi_ecdsa : Handler) (fm : Frames multi)
    (fe : Frames multi_ecdsa) where
  Frames-multi_verify : Frames (opcode_check_multi_sig_verify c multi multi_ecdsa)
  unfolding opcode_check_multi_sig_verify
  Frames-multi_verify = Frames->>= multi _ fm (λ _. Frames-abstract_verify check_multi_sig_verify)

  Frames-check_sig_verify : Frames (opcode_check_sig_verify c)
  unfolding opcode_check_sig_verify
  Frames-check_sig_verify =
      Frames->>= (opcode_check_sig c) _ (Frames-check_sig c)
        (λ _. Frames-abstract_verify check_sig_verify)

  Frames-invalid : Frames opcode_invalid
  unfolding opcode_invalid
  Frames-invalid = search frames

  Frames-signature_entry :
      (op : ParsedOpcode) (v : ℕ) → Frames (signature_entry c multi multi_ecdsa op v)
  unfolding signature_entry
  Frames-signature_entry op v = Frames-if _ _ _ (Frames-sha256 c) (
      Frames-if _ _ _ fe (
        Frames-if _ _ _ (Frames-blake2b c) (
          Frames-if _ _ _ (Frames-check_sig_ecdsa c) (
            Frames-if _ _ _ (Frames-check_sig c) (
              Frames-if _ _ _ Frames-check_sig_verify (
                Frames-if _ _ _ fm (
                  Frames-if _ _ _ Frames-multi_verify (
                    Frames-if _ _ _ Frames-locks
                      (Frames-if _ _ _ Frames-sequence Frames-invalid)))))))))

  Frames-arith_entry : (op : ParsedOpcode) (v : ℕ) → Frames (arith_entry c multi multi_ecdsa op v)
  unfolding arith_entry unary binary opcode_disabled opcode_1_add opcode_1_sub opcode_negate
      opcode_abs opcode_not opcode_0_not_equal opcode_add opcode_sub opcode_bool_and opcode_bool_or
      opcode_num_equal opcode_num_equal_verify opcode_num_not_equal opcode_less_than
      opcode_greater_than opcode_less_than_or_equal opcode_greater_than_or_equal opcode_min
      opcode_max opcode_within
  Frames-arith_entry op v =
      search (frames, Frames-abstract_verify, Frames-signature_entry) depth 40 fits 4000

  Frames-shuffle_entry :
      (op : ParsedOpcode) (v : ℕ) → Frames (shuffle_entry c multi multi_ecdsa op v)
  unfolding shuffle_entry opcode_disabled opcode_reserved opcode_to_alt_stack opcode_from_alt_stack
      opcode_2_drop opcode_2_dup opcode_3_dup opcode_2_over opcode_2_rot opcode_2_swap opcode_if_dup
      opcode_depth opcode_drop opcode_dup opcode_nip opcode_over opcode_pick opcode_roll opcode_rot
      opcode_swap opcode_tuck opcode_size opcode_equal opcode_equal_verify
  Frames-shuffle_entry op v =
      search (frames, Frames-abstract_verify, Frames-arith_entry) depth 40 fits 4000

  Frames-control_entry :
      (op : ParsedOpcode) (v : ℕ) → Frames (control_entry c multi multi_ecdsa op v)
  unfolding control_entry opcode_disabled opcode_reserved opcode_invalid opcode_false
      opcode_push_data opcode_1_negate opcode_n opcode_nop opcode_verify opcode_return
  Frames-control_entry op v =
      search
        (
          frames, Frames-abstract_verify, Frames-opcode_if, Frames-opcode_not_if, Frames-else,
          Frames-endif, Frames-shuffle_entry,
        )
        depth 40 fits 4000

  pub Frames-opfunc : (op : ParsedOpcode) → Frames (opfunc c multi multi_ecdsa op)
  unfolding opfunc
  Frames-opfunc op = Frames-control_entry op op.value
