-- ===== src/Script/Opcode/Control.antt =====
-- Constants, flow control and verification: opcode.go from opcodeDisabled to opcodeReturn.
use eiyaro.Common.{
  ℕ, ◌-◌, Bool, true, false, List, [], ◌∷◌, ◌++◌, ◌==◌, if◌then◌else◌, length, get_or, set, take,
  pos, negsuc, not,
}
use eiyaro.Script.Outcome.{
  M, done, fail, ◌>>=◌, pure, throw, ErrorCode, disabled_opcode, reserved_opcode, minimal_if,
  unbalanced_conditional, verify_failed, early_return,
}
use eiyaro.Script.Num.{Bytes}
use eiyaro.Script.Stack.{push_byte_array, push_int, pop_byte_array, pop_bool}
use eiyaro.Script.Engine.{
  Engine, Handler, ParsedOpcode, on_dstack, is_branch_executing, cond_true, cond_false, cond_skip,
}

unfoldable pub opcode_disabled : Handler
opcode_disabled = throw disabled_opcode

unfoldable pub opcode_reserved : Handler
opcode_reserved = throw reserved_opcode

unfoldable pub opcode_invalid : Handler
opcode_invalid = throw reserved_opcode

unfoldable pub opcode_false : Handler
opcode_false = on_dstack (push_byte_array [])

unfoldable pub opcode_push_data : ParsedOpcode → Handler
opcode_push_data op = on_dstack (push_byte_array op.data_bytes)

unfoldable pub opcode_1_negate : Handler
opcode_1_negate = on_dstack (push_int (negsuc 0))

-- `Op1 - 1` is 0x50; the function stands in the table only from Op1 to Op16.
unfoldable pub opcode_n : ParsedOpcode → Handler
opcode_n op = on_dstack (push_int (pos (op.value - 0x50)))

unfoldable pub opcode_nop : Handler
opcode_nop = pure tt

-- `len(so) == 1 && so[0] == 0x01`, then `len(so) == 0`.
unfoldable pub if_bool : Bytes → M Engine Bool
if_bool [] = pure false
if_bool (b ∷ []) = if b == 1 then pure true else throw minimal_if
if_bool (b ∷ c ∷ so) = throw minimal_if

unfoldable pub pop_if_bool : M Engine Bool
pop_if_bool = on_dstack pop_byte_array >>= if_bool

unfoldable pub push_cond : ℕ → Handler
push_cond c vm = done tt (record vm { cond_stack = vm.cond_stack ++ c ∷ [] })

unfoldable pub opcode_if : Handler
opcode_if vm =
    if is_branch_executing vm
    then (pop_if_bool >>= λ b. push_cond (if b then cond_true else cond_false)) vm
    else push_cond cond_skip vm

unfoldable pub opcode_not_if : Handler
opcode_not_if vm =
    if is_branch_executing vm
    then (pop_if_bool >>= λ b. push_cond (if not b then cond_true else cond_false)) vm
    else push_cond cond_skip vm

-- The `switch` of `opcodeElse` on the top of the conditional stack.
unfoldable pub flip : ℕ → ℕ
flip c = if c == cond_true then cond_false else if c == cond_false then cond_true else c

-- The write to `condStack[conditionalIdx]`, and the slice without its last element.
unfoldable pub flip_top : List ℕ → List ℕ
flip_top cs = set cs (length cs - 1) (flip (get_or cs (length cs - 1) cond_skip))

unfoldable pub drop_top : List ℕ → List ℕ
drop_top cs = take (length cs - 1) cs

unfoldable pub opcode_else : Handler
opcode_else vm =
    if length vm.cond_stack == 0
    then fail unbalanced_conditional vm
    else done tt (record vm { cond_stack = flip_top vm.cond_stack })

unfoldable pub opcode_endif : Handler
opcode_endif vm =
    if length vm.cond_stack == 0
    then fail unbalanced_conditional vm
    else done tt (record vm { cond_stack = drop_top vm.cond_stack })

unfoldable pub abstract_verify : ErrorCode → Handler
abstract_verify c = on_dstack pop_bool >>= λ verified. if verified then pure tt else throw c

unfoldable pub opcode_verify : Handler
opcode_verify = abstract_verify verify_failed

unfoldable pub opcode_return : Handler
opcode_return = throw early_return
