-- ===== src/Script/Tests.antt =====
-- The theorems on the script engine at concrete stacks, numbers and scripts, and runs of the code.
mod Running
use eiyaro.Common.{
  ℕ, length, ◌+◌, ◌-◌, ◌≡◌, ◌≢◌, ◌⊎◌, inl, inr, refl, true, false, List, [], ◌∷◌, ◌++◌, arith, some,
  pos, negsuc, ◌+ℤ◌, ◌-ℤ◌,
}
use eiyaro.Script.Outcome.{
  ok, err, done, fail, malformed_push, invalid_stack_operation, equal_verify,
}
use eiyaro.Script.Num.{Bytes, bytes, make_script_num}
use eiyaro.Script.Num.RoundTrip.{make_script_num-bytes}
use eiyaro.Script.Num.Canonical.{bytes-make_script_num}
use eiyaro.Script.Stack.{
  Stack, nip_n, peek_byte_array, swap_n, over_n, rot_n, dup_n, drop_n, tuck, pick_n, roll_n,
  from_bool,
}
use eiyaro.Script.Stack.Loops.{nip_n-append}
use eiyaro.Script.Stack.Sizes.{Sized, groups-Sized}
use eiyaro.Script.Stack.Laws.{groups_lem}
use eiyaro.Script.Engine.{Engine, Crypto, ParsedOpcode, is_branch_executing}
use eiyaro.Script.Parse.{
  parse_script, unparse_script, parse_loop, then_parse, parse_one, prepend, table_value, layout,
  pop_bytes, join_bytes,
}
use eiyaro.Script.Parse.RoundTrip.{parse_script-total, unparse_script-parse_script}
use eiyaro.Script.Parse.Reparse.{parse_script-unparse_script}
use eiyaro.Script.Opcode.Control.{opcode_else, opcode_nop, flip, flip_top}
use eiyaro.Script.Opcode.Arith.{
  opcode_add, opcode_sub, opcode_less_than, opcode_greater_than, opcode_less_than_or_equal,
  opcode_greater_than_or_equal, opcode_num_equal, opcode_num_not_equal, opcode_min, opcode_max,
  opcode_within,
}
use eiyaro.Script.Opcode.Shuffle.{opcode_equal_verify}
use eiyaro.Script.Opcode.Numbers.{
  Operand, with_dstack, add_sub_exact, comparisons_exact, min_max_exact, within_exact,
}
use eiyaro.Common.{get_elem?}
use eiyaro.Script.Outcome.{unsatisfied_lock_time}
use eiyaro.Script.Opcode.Locks.{uint64, opcode_check_lock_time_verify, opcode_check_sequence_verify}
use eiyaro.Script.Opcode.TimeLocks.{
  IsUnlocked, IsMature, opcode_check_lock_time_verify_lem, opcode_check_sequence_verify_lem,
}
use eiyaro.Script.Opcode.Arith.{opcode_1_add, opcode_1_sub, opcode_negate, opcode_abs}
use eiyaro.Script.Opcode.Unary.{unary_exact}
use eiyaro.Script.Opcode.Frame.{Frames, Frames-pure, SameProgram}
use eiyaro.Script.Exec.Program.{execute_opcode-SameProgram}
use eiyaro.Script.Opcode.Verify.{opcode_equal_verify_lem}
use eiyaro.Script.Exec.{
  engine_at, execute_opcode, count_operation, is_disabled, always_illegal, is_conditional,
}
use eiyaro.Script.Exec.Conditions.{
  IsNested, by_else, is_branch_executing-all_taken, RunsConditional-IsNested,
}
use eiyaro.Script.Exec.Skipped.{
  IsAllowed, IsBlock, closed, plain, opens, alternates, closes, execute_all,
}
use eiyaro.Script.Exec.Skipped.Block.{execute_all_skipped}

-- -300 is 0x2c 0x81 as a script number.
minus_300 : bytes (negsuc 299) ≡ some (0x2c ∷ 0x81 ∷ [])
unfolding bytes
minus_300 = refl

make_script_num-bytes_example :
    (v : Bytes) × (bytes (negsuc 299) ≡ some v) × (make_script_num v 4 ≡ ok (negsuc 299))
make_script_num-bytes_example = make_script_num-bytes (negsuc 299) 3 (omega arith) (omega arith)

read_300 : make_script_num (0x2c ∷ 0x81 ∷ []) 4 ≡ ok (negsuc 299)
unfolding make_script_num
read_300 = refl

bytes-make_script_num_example : bytes (negsuc 299) ≡ some (0x2c ∷ 0x81 ∷ [])
bytes-make_script_num_example =
    bytes-make_script_num (0x2c ∷ 0x81 ∷ []) 4 (negsuc 299) (omega arith, (omega arith, tt))
      read_300

abbrev item_1 : Bytes
item_1 = 1 ∷ []

abbrev item_2 : Bytes
item_2 = 2 ∷ []

abbrev item_3 : Bytes
item_3 = 3 ∷ []

abbrev bottom : Stack
bottom = (7 ∷ []) ∷ []

abbrev group_a : Stack
group_a = item_1 ∷ item_2 ∷ []

abbrev group_b : Stack
group_b = item_3 ∷ [] ∷ []

abbrev group_c : Stack
group_c = (9 ∷ 9 ∷ []) ∷ (8 ∷ []) ∷ []

nip_n-append_example : nip_n (pos 2) (bottom ++ item_1 ∷ group_b) ≡ done item_1 (bottom ++ group_b)
nip_n-append_example = nip_n-append bottom item_1 group_b (omega arith)

groups-Sized_example :
    Sized bottom [] 1 (length bottom - 1) (drop_n (pos 1) bottom)
    × Sized bottom bottom 1 (length bottom + 1) (dup_n (pos 1) bottom)
    × Sized bottom bottom 3 (length bottom) (rot_n (pos 1) bottom)
    × Sized bottom bottom 2 (length bottom) (swap_n (pos 1) bottom)
    × Sized bottom bottom 2 (length bottom + 1) (over_n (pos 1) bottom)
groups-Sized_example = groups-Sized 0 bottom (omega arith) (omega arith)

groups_lem_example :
    (swap_n (pos 2) (bottom ++ (group_a ++ group_b)) ≡ done tt (bottom ++ (group_b ++ group_a)))
    × (over_n (pos 2) (bottom ++ (group_a ++ group_b))
        ≡ done tt (bottom ++ (group_a ++ (group_b ++ group_a))))
    × (rot_n (pos 2) (bottom ++ (group_a ++ (group_b ++ group_c)))
        ≡ done tt (bottom ++ ((group_b ++ group_c) ++ group_a)))
    × (dup_n (pos 2) (bottom ++ group_a) ≡ done tt (bottom ++ (group_a ++ group_a)))
    × (drop_n (pos 2) (bottom ++ group_a) ≡ done tt bottom)
groups_lem_example = groups_lem bottom group_a group_b group_c 1 refl refl refl (omega arith)

-- Pay to public key hash, with a data push of two bytes in place of the hash: OP_DUP OP_BLAKE2B
-- push OP_EQUALVERIFY OP_CHECKSIG.
abbrev pay_script : Bytes
pay_script = 0x76 ∷ 0xaa ∷ 2 ∷ 5 ∷ 6 ∷ 0x88 ∷ 0xac ∷ []

abbrev pay_ops : List ParsedOpcode
pay_ops =
    record { value = 0x76; data_bytes = [] }
    ∷ record { value = 0xaa; data_bytes = [] }
    ∷ record { value = 2; data_bytes = 5 ∷ 6 ∷ [] }
    ∷ record { value = 0x88; data_bytes = [] }
    ∷ record { value = 0xac; data_bytes = [] }
    ∷ []

parse_pay : parse_script pay_script ≡ ok pay_ops
unfolding parse_script parse_loop then_parse parse_one prepend table_value layout
parse_pay = refl

parse_script-total_example :
    (parse_script pay_script ≡ err malformed_push)
    ⊎ ((pops : List ParsedOpcode) × (parse_script pay_script ≡ ok pops))
parse_script-total_example = parse_script-total pay_script (ground arith)

unparse_script-parse_script_example : unparse_script pay_ops ≡ ok pay_script
unparse_script-parse_script_example =
    unparse_script-parse_script pay_script pay_ops (ground arith) parse_pay (
      inl (omega arith),
      (inl (omega arith), (inl (omega arith), (inl (omega arith), (inl (omega arith), tt)))),
    )

-- One opcode of the table's misnumbered entries, which is written as the one ten places on.
parse_180 : parse_script (180 ∷ []) ≡ ok (record { value = 190; data_bytes = [] } ∷ [])
unfolding parse_script parse_loop then_parse parse_one prepend table_value layout
parse_180 = refl

unparse_190 : unparse_script (record { value = 190; data_bytes = [] } ∷ []) ≡ ok (190 ∷ [])
unfolding unparse_script pop_bytes join_bytes layout
unparse_190 = refl

parse_script-unparse_script_example :
    (script' : Bytes) × (unparse_script (record { value = 190; data_bytes = [] } ∷ []) ≡ ok script')
    × (length script' ≡ 1)
    × (parse_script script' ≡ ok (record { value = 190; data_bytes = [] } ∷ []))
parse_script-unparse_script_example =
    parse_script-unparse_script (180 ∷ []) (record { value = 190; data_bytes = [] } ∷ [])
      (ground arith) parse_180

abbrev start : Engine
start = engine_at (record { lock_time = 0; sequences = 0 ∷ []; idx = 0 }) 0 [] 0 false

two-Operand : Operand (pos 2) (2 ∷ [])
unfolding bytes
two-Operand = record { small = omega arith; encoded = refl }

minus_300-Operand : Operand (negsuc 299) (0x2c ∷ 0x81 ∷ [])
minus_300-Operand = record { small = omega arith; encoded = minus_300 }

abbrev operands : Stack
operands = bottom ++ (2 ∷ []) ∷ (0x2c ∷ 0x81 ∷ []) ∷ []

add_sub_exact_example :
    ((r : Bytes) × (bytes (pos 2 +ℤ negsuc 299) ≡ some r)
      × (opcode_add (with_dstack start operands) ≡ done tt (with_dstack start (bottom ++ r ∷ []))))
    × ((r : Bytes) × (bytes (pos 2 -ℤ negsuc 299) ≡ some r)
        × (opcode_sub (with_dstack start operands)
            ≡ done tt (with_dstack start (bottom ++ r ∷ []))))
add_sub_exact_example =
    add_sub_exact start bottom (pos 2) (negsuc 299) (2 ∷ []) (0x2c ∷ 0x81 ∷ []) two-Operand
      minus_300-Operand (omega arith)

abbrev answer : Bytes → Engine
answer b = with_dstack start (bottom ++ b ∷ [])

comparisons_exact_example :
    (opcode_less_than (with_dstack start operands) ≡ done tt (answer (from_bool false)))
    × (opcode_greater_than (with_dstack start operands) ≡ done tt (answer (from_bool true)))
    × (opcode_less_than_or_equal (with_dstack start operands) ≡ done tt (answer (from_bool false)))
    × (opcode_greater_than_or_equal (with_dstack start operands)
        ≡ done tt (answer (from_bool true)))
    × (opcode_num_equal (with_dstack start operands) ≡ done tt (answer (from_bool false)))
    × (opcode_num_not_equal (with_dstack start operands) ≡ done tt (answer (from_bool true)))
comparisons_exact_example =
    comparisons_exact start bottom (pos 2) (negsuc 299) (2 ∷ []) (0x2c ∷ 0x81 ∷ []) two-Operand
      minus_300-Operand (omega arith)

min_max_exact_example :
    (opcode_min (with_dstack start operands) ≡ done tt (answer (0x2c ∷ 0x81 ∷ [])))
    × (opcode_max (with_dstack start operands) ≡ done tt (answer (2 ∷ [])))
min_max_exact_example =
    min_max_exact start bottom (pos 2) (negsuc 299) (2 ∷ []) (0x2c ∷ 0x81 ∷ []) two-Operand
      minus_300-Operand (omega arith)

within_exact_example :
    opcode_within (with_dstack start (bottom ++ (2 ∷ []) ∷ (0x2c ∷ 0x81 ∷ []) ∷ (2 ∷ []) ∷ []))
    ≡ done tt (answer (from_bool false))
within_exact_example =
    within_exact start bottom (pos 2) (negsuc 299) (pos 2) (2 ∷ []) (0x2c ∷ 0x81 ∷ []) (2 ∷ [])
      two-Operand minus_300-Operand two-Operand (omega arith)

opcode_equal_verify_lem_example :
    ((item_2 ≡ item_3)
      × (opcode_equal_verify (with_dstack start (bottom ++ item_2 ∷ item_3 ∷ []))
          ≡ done tt (with_dstack start bottom)))
    ⊎ ((item_2 ≢ item_3)
        × (opcode_equal_verify (with_dstack start (bottom ++ item_2 ∷ item_3 ∷ []))
            ≡ fail equal_verify (with_dstack start bottom)))
opcode_equal_verify_lem_example = opcode_equal_verify_lem start bottom item_2 item_3 (omega arith)

-- Two conditionals, the outer one taken and the inner one not, and after its OP_ELSE.
abbrev inner_not_taken : Engine
inner_not_taken = record start { cond_stack = 1 ∷ 0 ∷ [] }

abbrev inner_taken : Engine
inner_taken = record start { cond_stack = 1 ∷ 1 ∷ [] }

is_branch_executing-all_taken_example : is_branch_executing inner_not_taken ≡ false
is_branch_executing-all_taken_example =
    is_branch_executing-all_taken inner_not_taken (inl (refl, inr (refl, tt)))

flip_inner : opcode_else inner_not_taken ≡ done tt inner_taken
unfolding opcode_else flip_top flip
flip_inner = refl

RunsConditional-IsNested_example : IsNested true (1 ∷ 1 ∷ [])
RunsConditional-IsNested_example =
    RunsConditional-IsNested inner_not_taken inner_taken (by_else flip_inner)
      (inl (refl, inr (refl, tt)))

abbrev no_crypto : Crypto
no_crypto = record {
  sha256 = λ b. b;
  blake2b = λ b. b;
  schnorr_verify = λ t s k. some false;
  ecdsa_verify = λ t s k. some false;
}

not_taken-is_branch_executing : is_branch_executing inner_not_taken ≡ false
unfolding is_branch_executing
not_taken-is_branch_executing = refl

-- OP_IF OP_DUP OP_ELSE OP_ENDIF, all of which count as operations.
abbrev bare : ℕ → ParsedOpcode
bare v = record { value = v; data_bytes = [] }

abbrev skipped_block : List ParsedOpcode
skipped_block = bare 99 ∷ bare 0x76 ∷ bare 103 ∷ bare 104 ∷ []

bare-IsAllowed :
    IsAllowed (bare 99) × IsAllowed (bare 0x76) × IsAllowed (bare 103) × IsAllowed (bare 104)
unfolding is_disabled always_illegal
bare-IsAllowed = (
  (refl, refl, omega arith),
  (refl, refl, omega arith),
  (refl, refl, omega arith),
  (refl, refl, omega arith),
)

dup-is_conditional : is_conditional (bare 0x76) ≡ false
unfolding is_conditional
dup-is_conditional = refl

skipped-IsBlock : IsBlock 0 skipped_block
skipped-IsBlock =
    let (if_ok, dup_ok, else_ok, endif_ok) = bare-IsAllowed in
    opens 0 (bare 99) _ if_ok (inl refl) (
      plain 1 (bare 0x76) _ dup_ok dup-is_conditional
        (alternates 0 (bare 103) _ else_ok refl (closes 0 (bare 104) _ endif_ok refl closed)))

execute_all_skipped_example :
    execute_all no_crypto opcode_nop opcode_nop skipped_block inner_not_taken
    ≡ done tt (record inner_not_taken { num_ops = 4 })
unfolding engine_at
execute_all_skipped_example =
    execute_all_skipped no_crypto opcode_nop opcode_nop skipped_block inner_not_taken
      not_taken-is_branch_executing skipped-IsBlock (omega arith)

skip_dup :
    execute_opcode no_crypto opcode_nop opcode_nop (bare 0x76) inner_not_taken
    ≡ done tt (record inner_not_taken { num_ops = 1 })
unfolding execute_opcode count_operation is_disabled always_illegal is_conditional
    is_branch_executing engine_at
skip_dup = refl

-- A transaction locked until score 9, and operands of 5.
abbrev locked : Engine
locked = engine_at (record { lock_time = 9; sequences = 6 ∷ []; idx = 0 }) 0 [] 0 false

locked-input : get_elem? locked.tx_sequences locked.tx_idx ≡ some 6
unfolding engine_at
locked-input = refl

opcode_check_lock_time_verify_lem_example :
    (IsUnlocked locked.tx_lock_time 6 (uint64 (5 ∷ []))
      × (opcode_check_lock_time_verify (with_dstack locked (bottom ++ (5 ∷ []) ∷ []))
          ≡ done tt (with_dstack locked bottom)))
    ⊎ ((¬ IsUnlocked locked.tx_lock_time 6 (uint64 (5 ∷ [])))
        × (opcode_check_lock_time_verify (with_dstack locked (bottom ++ (5 ∷ []) ∷ []))
            ≡ fail unsatisfied_lock_time (with_dstack locked bottom)))
opcode_check_lock_time_verify_lem_example =
    opcode_check_lock_time_verify_lem locked bottom (5 ∷ []) 6 (omega arith) (omega arith)
      locked-input

opcode_check_sequence_verify_lem_example :
    (IsMature 6 (uint64 (5 ∷ []))
      × (opcode_check_sequence_verify (with_dstack locked (bottom ++ (5 ∷ []) ∷ []))
          ≡ done tt (with_dstack locked bottom)))
    ⊎ ((¬ IsMature 6 (uint64 (5 ∷ [])))
        × (opcode_check_sequence_verify (with_dstack locked (bottom ++ (5 ∷ []) ∷ []))
            ≡ fail unsatisfied_lock_time (with_dstack locked bottom)))
opcode_check_sequence_verify_lem_example =
    opcode_check_sequence_verify_lem locked bottom (5 ∷ []) 6 (omega arith) (omega arith)
      locked-input

unary_exact_example :
    ((r : Bytes) × (bytes (negsuc 298) ≡ some r)
      × (opcode_1_add (with_dstack start (bottom ++ (0x2c ∷ 0x81 ∷ []) ∷ [])) ≡ done tt (answer r)))
    × ((r : Bytes) × (bytes (negsuc 300) ≡ some r)
        × (opcode_1_sub (with_dstack start (bottom ++ (0x2c ∷ 0x81 ∷ []) ∷ []))
            ≡ done tt (answer r)))
    × ((r : Bytes) × (bytes (pos 300) ≡ some r)
        × (opcode_negate (with_dstack start (bottom ++ (0x2c ∷ 0x81 ∷ []) ∷ []))
            ≡ done tt (answer r)))
    × ((r : Bytes) × (bytes (pos 300) ≡ some r)
        × (opcode_abs (with_dstack start (bottom ++ (0x2c ∷ 0x81 ∷ []) ∷ [])) ≡ done tt (answer r)))
unary_exact_example =
    unary_exact start bottom (negsuc 299) (0x2c ∷ 0x81 ∷ []) minus_300-Operand (omega arith)

nop-Frames : Frames opcode_nop
unfolding opcode_nop
nop-Frames = Frames-pure tt

execute_opcode-SameProgram_example :
    SameProgram inner_not_taken (record inner_not_taken { num_ops = 1 })
execute_opcode-SameProgram_example =
    execute_opcode-SameProgram no_crypto opcode_nop opcode_nop nop-Frames nop-Frames
      (record { value = 0x76; data_bytes = [] }) inner_not_taken
      (record inner_not_taken { num_ops = 1 }) skip_dup
