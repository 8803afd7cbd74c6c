-- ===== src/Script/Exec.antt =====
-- Running scripts: executeOpcode, validPC, CheckErrorCondition, Step and Execute of engine.go, with
-- the classes of opcodes and checkMinimalDataPush of opcode.go.
pub mod Conditions
pub mod Program
pub mod Step
pub mod Finish
pub mod Ends
pub mod Skipped
use eiyaro.Common.{
  ℕ, zero, suc, ◌+◌, ◌-◌, ◌*◌, Bool, true, false, List, [], ◌∷◌, ◌++◌, ◌&&◌, ◌||◌, not, ◌==◌, ltb,
  leb, if◌then◌else◌, length, get_elem?, get_or, take, Option, none, some, pos,
}
use eiyaro.Script.Outcome.{
  M, Outcome, Result, ok, err, done, fail, panic, ◌>>=◌, ◌>>◌, pure, throw, lift, disabled_opcode,
  reserved_opcode, too_many_operations, element_too_big, minimal_data, invalid_program_counter,
  script_unfinished, clean_stack, empty_stack, eval_false, stack_overflow, unbalanced_conditional,
  invalid_index, not_push_only,
}
use eiyaro.Script.Num.{Bytes}
use eiyaro.Script.Stack.{Stack, depth, drop_n, push_byte_array, pop_bool}
use eiyaro.Script.Engine.{
  Engine, Handler, ParsedOpcode, Crypto, max_ops_per_script, on_dstack, on_astack,
  is_branch_executing,
}
use eiyaro.Script.Parse.{
  parse_script, parse_script_and_verify_size, is_push_only, is_script_hash, op_16,
}
use eiyaro.Script.Opcode.Table.{opfunc}

unfoldable pub is_disabled : ParsedOpcode → Bool
is_disabled pop =
    let v = pop.value in
    v == 0x7e
    || v == 0x7f
    || v == 0x80
    || v == 0x81
    || v == 0x83
    || v == 0x84
    || v == 0x85
    || v == 0x86
    || v == 0x8d
    || v == 0x8e
    || v == 0x95
    || v == 0x96
    || v == 0x97
    || v == 0x98
    || v == 0x99

unfoldable pub always_illegal : ParsedOpcode → Bool
always_illegal pop = pop.value == 0x65 || pop.value == 0x66

unfoldable pub is_conditional : ParsedOpcode → Bool
is_conditional pop =
    pop.value == 0x63 || pop.value == 0x64 || pop.value == 0x67 || pop.value == 0x68

unfoldable pub check_minimal_data_push : ParsedOpcode → Result (Unit {0})
check_minimal_data_push pop =
    let data_len = length pop.data_bytes in
    let first = get_or pop.data_bytes 0 0 in
    let require = λ (expected : ℕ). if pop.value == expected then ok tt else err minimal_data in
    if data_len == 0 && not (pop.value == 0)
    then err minimal_data
    else if data_len == 1 && (leb 1 first && leb first 16)
    then require (0x51 + first - 1)
    else if data_len == 1 && first == 0x81
    then require 0x4f
    else if leb data_len 75
    then require data_len
    else if leb data_len 255
    then require 0x4c
    else if leb data_len 65535
    then require 0x4d
    else ok tt

abbrev pub max_script_element_size : ℕ
max_script_element_size = 520

abbrev pub max_stack_size : ℕ
max_stack_size = 244

-- The operation count of `executeOpcode`, or the size of the element that is pushed.
unfoldable pub count_operation : ParsedOpcode → Handler
count_operation pop vm =
    if ltb op_16 pop.value
    then (if ltb max_ops_per_script (vm.num_ops + 1)
        then fail too_many_operations (record vm { num_ops = vm.num_ops + 1 })
        else done tt (record vm { num_ops = vm.num_ops + 1 }))
    else if ltb max_script_element_size (length pop.data_bytes)
    then fail element_too_big vm
    else done tt vm

unfoldable pub valid_pc : Handler
valid_pc vm = elim (get_elem? vm.scripts vm.script_idx) [
  | none ↦ fail invalid_program_counter vm
  | some script ↦
      if leb (length script) vm.script_off then fail invalid_program_counter vm else done tt vm
]

-- `vm.scripts[vm.scriptIdx][vm.scriptOff]` and `vm.scriptOff++`.
unfoldable pub fetch : M Engine ParsedOpcode
fetch vm = elim (get_elem? vm.scripts vm.script_idx) [
  | none ↦ panic
  | some script ↦ elim (get_elem? script vm.script_off) [
    | none ↦ panic
    | some pop ↦ done pop (record vm { script_off = vm.script_off + 1 })
  ]
]

unfoldable pub check_error_condition : Bool → Handler
check_error_condition final_script vm =
    if ltb vm.script_idx (length vm.scripts)
    then fail script_unfinished vm
    else (on_dstack depth >>= λ n.
          if final_script && ltb 1 n
          then throw clean_stack
          else if final_script && ltb n 1
          then throw empty_stack
          else on_dstack pop_bool >>= λ v. if v then pure tt else throw eval_false)
        vm

-- A call whose error is dropped.
abbrev pub ignore : {S : Type 0} → M S (Unit {0}) → M S (Unit {0})
ignore m s = elim (m s) [ done a t ↦ done a t | fail e t ↦ done tt t | panic ↦ panic ]

unfoldable pub drop_all : M Stack (Unit {0})
drop_all = depth >>= λ n. ignore (drop_n (pos n))

unfoldable pub push_all : List Bytes → M Stack (Unit {0})
push_all [] = pure tt
push_all (b ∷ bs) = push_byte_array b >> push_all bs

unfoldable pub set_stack : List Bytes → M Stack (Unit {0})
set_stack items = drop_all >> push_all items

-- The third script of a pay-to-script-hash input: the last item of the saved stack.
unfoldable pub load_redeem_script : Handler
load_redeem_script vm = elim (get_elem? vm.saved_first_stack (length vm.saved_first_stack - 1)) [
  | none ↦ panic
  | some script ↦ elim (parse_script script) [
    | err e ↦ fail e vm
    | ok pops ↦
        on_dstack (set_stack (take (length vm.saved_first_stack - 1) vm.saved_first_stack))
          (record vm { scripts = vm.scripts ++ pops ∷ [] })
  ]
]

-- The `switch` at the end of a script. `GetStack` copies the slice of the data stack.
unfoldable pub next_script : Handler
next_script vm =
    let advanced = record vm { script_idx = vm.script_idx + 1 } in
    if vm.script_idx == 0 && vm.is_p2sh
    then done tt (record advanced { saved_first_stack = vm.dstack })
    else if vm.script_idx == 1 && vm.is_p2sh
    then (check_error_condition false >> load_redeem_script) advanced
    else done tt advanced

-- The length of the current script; past the last one there is nothing to skip.
abbrev pub at_end : Engine → Bool
at_end vm = elim (get_elem? vm.scripts vm.script_idx) [
  | none ↦ false
  | some script ↦ leb (length script) vm.script_off
]

unfoldable pub skip_empty : M Engine Bool
skip_empty vm =
    let idx = if at_end vm then vm.script_idx + 1 else vm.script_idx in
    done (leb (length vm.scripts) idx) (record vm { script_idx = idx })

-- The part of `Step` behind "Prepare for next instruction".
unfoldable pub finish_script : M Engine Bool
finish_script vm =
    if not (length vm.cond_stack == 0)
    then fail unbalanced_conditional vm
    else (on_astack drop_all
          >> (λ w. (next_script >> skip_empty) (record w { num_ops = 0; script_off = 0 })))
        vm

unfoldable pub check_stack_size : Handler
check_stack_size = on_dstack depth >>= λ n.
    on_astack depth >>= λ m. if ltb max_stack_size (n + m) then throw stack_overflow else pure tt

module _ (c : Crypto) (opcode_check_multi_sig opcode_check_multi_sig_ecdsa : Handler) where
  unfoldable pub run_opfunc : ParsedOpcode → Handler
  run_opfunc pop vm =
      if is_branch_executing vm && (not (pop.value == 0) && leb pop.value 0x4e)
      then (lift (check_minimal_data_push pop)
            >> opfunc c opcode_check_multi_sig opcode_check_multi_sig_ecdsa pop)
          vm
      else opfunc c opcode_check_multi_sig opcode_check_multi_sig_ecdsa pop vm

  unfoldable pub execute_opcode : ParsedOpcode → Handler
  execute_opcode pop =
      if is_disabled pop
      then throw disabled_opcode
      else if always_illegal pop
      then throw reserved_opcode
      else (count_operation pop >> λ vm.
          if not (is_branch_executing vm) && not (is_conditional pop)
          then done tt vm
          else run_opfunc pop vm)

  -- The result says whether the last opcode has been executed.
  unfoldable pub step : M Engine Bool
  step = do
    valid_pc
    pop ← fetch
    execute_opcode pop
    check_stack_size
    λ vm. if at_end vm then finish_script vm else done false vm

  -- The loop of `Execute`, on fuel: `none` is that the fuel ran out.
  unfoldable pub after_step :
      (Engine → Option (Outcome Engine (Unit {0})))
      → Outcome Engine Bool
      → Option (Outcome Engine (Unit {0}))
  after_step loop (done true w) = some (check_error_condition true w)
  after_step loop (done false w) = loop w
  after_step loop (fail e w) = some (fail e w)
  after_step loop panic = some panic

  unfoldable pub execute_loop : ℕ → Engine → Option (Outcome Engine (Unit {0}))
  execute_loop zero vm = none
  execute_loop (suc fuel) vm = after_step (execute_loop fuel) (step vm)

  unfoldable pub execute : ℕ → Engine → Option (Outcome Engine (Unit {0}))
  execute fuel vm = if ltb 0 vm.script_version then some (done tt vm) else execute_loop fuel vm

-- What the transaction gives: its lock time, the sequences of its inputs and the input's index.
pub record Spend : Type 0 where
  pub lock_time : ℕ
  pub sequences : List ℕ
  pub idx : ℕ

-- The fields that `Init` sets, the others at their zero values.
unfoldable pub engine_at : Spend → ℕ → List (List ParsedOpcode) → ℕ → Bool → Engine
engine_at tx version scripts idx p2sh = record {
  script_version = version;
  scripts = scripts;
  script_idx = idx;
  script_off = 0;
  dstack = [];
  astack = [];
  tx_lock_time = tx.lock_time;
  tx_sequences = tx.sequences;
  tx_idx = tx.idx;
  cond_stack = [];
  num_ops = 0;
  is_p2sh = p2sh;
  saved_first_stack = [];
}

-- `Init`, for one input with its signature script and the public key script. The second test that
-- the signature script only pushes data, for pay-to-script-hash, cannot fail after the first.
unfoldable pub init_engine : Spend → ℕ → Bytes → Bytes → Result Engine
init_engine tx version script_sig script_pub_key =
    if leb (length tx.sequences) tx.idx
    then err invalid_index
    else if length script_sig == 0 && length script_pub_key == 0
    then err eval_false
    else if ltb 0 version
    then ok (engine_at tx version [] 0 false)
    else elim (parse_script_and_verify_size script_sig) [
      | err e ↦ err e
      | ok sig_ops ↦
          if not (is_push_only sig_ops)
          then err not_push_only
          else elim (parse_script_and_verify_size script_pub_key) [
            | err e ↦ err e
            | ok key_ops ↦ ok (
                engine_at tx version (sig_ops ∷ key_ops ∷ [])
                  (if length script_sig == 0 then 1 else 0) (is_script_hash key_ops))
          ]
    ]
