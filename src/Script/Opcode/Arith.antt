-- ===== src/Script/Opcode/Arith.antt =====
-- The numeric opcodes of opcode.go, from opcode1Add to opcodeWithin. An operand has at most 4 bytes
-- and the result is an int64, which `wrap64` keeps exact.
use eiyaro.Common.{
  Bool, ◌&&◌, ◌||◌, not, if◌then◌else◌, ℤ, pos, ◌+ℤ◌, ◌-ℤ◌, neg, wrap64, ltb_ℤ, leb_ℤ, eqb_ℤ,
}
use eiyaro.Script.Outcome.{◌>>=◌, ◌>>◌, num_equal_verify}
use eiyaro.Script.Stack.{push_int, pop_int}
use eiyaro.Script.Engine.{Handler, on_dstack}
use eiyaro.Script.Opcode.Control.{abstract_verify}

-- The common shapes: pop one or two operands (`v0` is the top one) and push the result.
unfoldable pub unary : (ℤ → ℤ) → Handler
unary f = do m ← on_dstack pop_int; on_dstack (push_int (f m))

unfoldable pub binary : (ℤ → ℤ → ℤ) → Handler
binary f = do v0 ← on_dstack pop_int; v1 ← on_dstack pop_int; on_dstack (push_int (f v0 v1))

abbrev pub truth : Bool → ℤ
truth b = if b then pos 1 else pos 0

abbrev pub is_zero : ℤ → Bool
is_zero m = eqb_ℤ m (pos 0)

unfoldable pub opcode_1_add : Handler
opcode_1_add = unary (λ m. wrap64 (m +ℤ pos 1))

unfoldable pub opcode_1_sub : Handler
opcode_1_sub = unary (λ m. wrap64 (m -ℤ pos 1))

unfoldable pub opcode_negate : Handler
opcode_negate = unary (λ m. wrap64 (neg m))

unfoldable pub opcode_abs : Handler
opcode_abs = unary (λ m. if ltb_ℤ m (pos 0) then wrap64 (neg m) else m)

unfoldable pub opcode_not : Handler
opcode_not = unary (λ m. truth (is_zero m))

unfoldable pub opcode_0_not_equal : Handler
opcode_0_not_equal = unary (λ m. if not (is_zero m) then pos 1 else m)

unfoldable pub opcode_add : Handler
opcode_add = binary (λ v0 v1. wrap64 (v0 +ℤ v1))

unfoldable pub opcode_sub : Handler
opcode_sub = binary (λ v0 v1. wrap64 (v1 -ℤ v0))

unfoldable pub opcode_bool_and : Handler
opcode_bool_and = binary (λ v0 v1. truth (not (is_zero v0) && not (is_zero v1)))

unfoldable pub opcode_bool_or : Handler
opcode_bool_or = binary (λ v0 v1. truth (not (is_zero v0) || not (is_zero v1)))

unfoldable pub opcode_num_equal : Handler
opcode_num_equal = binary (λ v0 v1. truth (eqb_ℤ v0 v1))

unfoldable pub opcode_num_equal_verify : Handler
opcode_num_equal_verify = opcode_num_equal >> abstract_verify num_equal_verify

unfoldable pub opcode_num_not_equal : Handler
opcode_num_not_equal = binary (λ v0 v1. truth (not (eqb_ℤ v0 v1)))

unfoldable pub opcode_less_than : Handler
opcode_less_than = binary (λ v0 v1. truth (ltb_ℤ v1 v0))

unfoldable pub opcode_greater_than : Handler
opcode_greater_than = binary (λ v0 v1. truth (ltb_ℤ v0 v1))

unfoldable pub opcode_less_than_or_equal : Handler
opcode_less_than_or_equal = binary (λ v0 v1. truth (leb_ℤ v1 v0))

unfoldable pub opcode_greater_than_or_equal : Handler
opcode_greater_than_or_equal = binary (λ v0 v1. truth (leb_ℤ v0 v1))

unfoldable pub opcode_min : Handler
opcode_min = binary (λ v0 v1. if ltb_ℤ v1 v0 then v1 else v0)

unfoldable pub opcode_max : Handler
opcode_max = binary (λ v0 v1. if ltb_ℤ v0 v1 then v1 else v0)

unfoldable pub opcode_within : Handler
opcode_within = do
  max_val ← on_dstack pop_int
  min_val ← on_dstack pop_int
  x ← on_dstack pop_int
  on_dstack (push_int (truth (leb_ℤ min_val x && ltb_ℤ x max_val)))
