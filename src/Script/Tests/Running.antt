-- ===== src/Script/Tests/Running.antt =====
-- The theorems on running scripts and on multi-signature checks at concrete engines.
use eiyaro.Common.{ℕ, ◌≡◌, ◌↔◌, ◌==◌, refl, true, false, [], ◌∷◌, arith, some, none, get_or}
use eiyaro.Script.Outcome.{Outcome, Result, ok, done}
use eiyaro.Script.Num.{Bytes}
use eiyaro.Script.Engine.{Engine, Crypto}
use eiyaro.Script.Opcode.MultiSig.{
  Scheme, fresh, match_signatures, match_loop, check_pair, check_key, parse_once, go_on,
  opcode_check_multi_sig, opcode_check_multi_sig_ecdsa,
}
use eiyaro.Script.Opcode.Signature.{is_standard_sig_hash_type}
use eiyaro.Script.Opcode.MultiSig.Matching.{Matches, match_signatures-Matches}
use eiyaro.Script.Stack.{push_byte_array, depth, drop_n}
use eiyaro.Script.Engine.{is_branch_executing}
use eiyaro.Script.Opcode.Control.{opcode_push_data}
use eiyaro.Script.Opcode.Table.{opfunc, control_entry}
use eiyaro.Script.Exec.{
  engine_at, execute, step, valid_pc, fetch, execute_opcode, is_disabled, always_illegal,
  count_operation, is_conditional, run_opfunc, check_minimal_data_push, check_stack_size,
  finish_script, drop_all, next_script, skip_empty,
}
use eiyaro.Script.Exec.Step.{engine_step}
use eiyaro.Script.Exec.Ends.{IsBounded, step-IsBounded, execute_ends}

-- A key accepts the signatures that begin with its own first byte.
abbrev first_byte : Scheme
first_byte = record {
  parse_signature = λ s. true;
  parse_pub_key = λ k. true;
  has_hash = λ h. true;
  verify = λ h s k. get_or s 0 0 == get_or k 0 0;
}

abbrev no_check : Bytes → Result (Unit {0})
no_check b = ok tt

two_of_three :
    match_signatures first_byte no_check no_check
      ((1 ∷ []) ∷ (2 ∷ []) ∷ (3 ∷ []) ∷ [])
      (fresh ((1 ∷ 1 ∷ []) ∷ (3 ∷ 1 ∷ []) ∷ []))
    ≡ ok true
unfolding match_signatures match_loop check_pair check_key parse_once go_on fresh
    is_standard_sig_hash_type
two_of_three = refl

match_signatures-Matches_example :
    (true ≡ true)
    ↔ Matches first_byte ((1 ∷ 1 ∷ []) ∷ (3 ∷ 1 ∷ []) ∷ []) ((1 ∷ []) ∷ (2 ∷ []) ∷ (3 ∷ []) ∷ [])
match_signatures-Matches_example =
    match_signatures-Matches first_byte no_check no_check ((1 ∷ []) ∷ (2 ∷ []) ∷ (3 ∷ []) ∷ [])
      ((1 ∷ 1 ∷ []) ∷ (3 ∷ 1 ∷ []) ∷ []) true two_of_three

abbrev plain_hash : Crypto
plain_hash = record {
  sha256 = λ b. b;
  blake2b = λ b. b;
  schnorr_verify = λ h s k. none;
  ecdsa_verify = λ h s k. none;
}

-- A push of 0x20, and the same with OP_VERIFY between two of them.
abbrev two_scripts : Engine
two_scripts =
    engine_at (record { lock_time = 0; sequences = 0 ∷ []; idx = 0 }) 0
      ((record { value = 1; data_bytes = 0x20 ∷ [] } ∷ [])
        ∷ (record { value = 1; data_bytes = 0x20 ∷ [] }
            ∷ record { value = 0x69; data_bytes = [] }
            ∷ record { value = 1; data_bytes = 0x20 ∷ [] }
            ∷ [])
        ∷ [])
      0 false

execute_ends_example :
    (fuel : ℕ) × (o : Outcome Engine (Unit {0})) × (execute plain_hash
        (opcode_check_multi_sig first_byte)
        (opcode_check_multi_sig_ecdsa first_byte)
        fuel
        two_scripts
      ≡ some o)
execute_ends_example = execute_ends plain_hash first_byte first_byte two_scripts

abbrev after_first : Engine
after_first = record two_scripts { script_idx = 1; dstack = (0x20 ∷ []) ∷ [] }

first_step : engine_step plain_hash first_byte first_byte two_scripts ≡ done false after_first
unfolding engine_at step valid_pc fetch execute_opcode is_disabled always_illegal count_operation
    is_branch_executing is_conditional run_opfunc check_minimal_data_push opfunc control_entry
    opcode_push_data push_byte_array check_stack_size depth finish_script drop_all next_script
    skip_empty drop_n
first_step = refl

two_scripts-IsBounded : IsBounded two_scripts
unfolding engine_at
two_scripts-IsBounded = record { stacks = omega arith; saved = omega arith }

step-IsBounded_example : IsBounded after_first
step-IsBounded_example =
    step-IsBounded plain_hash first_byte first_byte two_scripts after_first false
      two_scripts-IsBounded first_step
