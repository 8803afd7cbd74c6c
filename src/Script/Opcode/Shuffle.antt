-- ===== src/Script/Opcode/Shuffle.antt =====
-- Stack manipulation, splice and crypto-free bitwise opcodes: opcode.go from opcodeToAltStack to
-- opcodeEqualVerify.
use eiyaro.Common.{Bool, true, false, [], ◌∷◌, ◌&&◌, ◌==◌, if◌then◌else◌, length, pos}
use eiyaro.Script.Outcome.{◌>>=◌, ◌>>◌, pure, equal_verify}
use eiyaro.Script.Num.{Bytes, int32}
use eiyaro.Script.Stack.{
  push_byte_array, push_int, push_bool, pop_byte_array, pop_int, peek_byte_array, depth, drop_n,
  dup_n, over_n, rot_n, swap_n, nip, pick_n, roll_n, tuck, as_bool,
}
use eiyaro.Script.Engine.{Handler, on_dstack, on_astack}
use eiyaro.Script.Opcode.Control.{abstract_verify}

unfoldable pub opcode_to_alt_stack : Handler
opcode_to_alt_stack = do so ← on_dstack pop_byte_array; on_astack (push_byte_array so)

unfoldable pub opcode_from_alt_stack : Handler
opcode_from_alt_stack = do so ← on_astack pop_byte_array; on_dstack (push_byte_array so)

unfoldable pub opcode_2_drop : Handler
opcode_2_drop = on_dstack (drop_n (pos 2))

unfoldable pub opcode_2_dup : Handler
opcode_2_dup = on_dstack (dup_n (pos 2))

unfoldable pub opcode_3_dup : Handler
opcode_3_dup = on_dstack (dup_n (pos 3))

unfoldable pub opcode_2_over : Handler
opcode_2_over = on_dstack (over_n (pos 2))

unfoldable pub opcode_2_rot : Handler
opcode_2_rot = on_dstack (rot_n (pos 2))

unfoldable pub opcode_2_swap : Handler
opcode_2_swap = on_dstack (swap_n (pos 2))

unfoldable pub opcode_if_dup : Handler
opcode_if_dup = do
  so ← on_dstack (peek_byte_array (pos 0))
  if as_bool so then on_dstack (push_byte_array so) else pure tt

unfoldable pub opcode_depth : Handler
opcode_depth = do n ← on_dstack depth; on_dstack (push_int (pos n))

unfoldable pub opcode_drop : Handler
opcode_drop = on_dstack (drop_n (pos 1))

unfoldable pub opcode_dup : Handler
opcode_dup = on_dstack (dup_n (pos 1))

unfoldable pub opcode_nip : Handler
opcode_nip = on_dstack (nip (pos 1))

unfoldable pub opcode_over : Handler
opcode_over = on_dstack (over_n (pos 1))

unfoldable pub opcode_pick : Handler
opcode_pick = do val ← on_dstack pop_int; on_dstack (pick_n (int32 val))

unfoldable pub opcode_roll : Handler
opcode_roll = do val ← on_dstack pop_int; on_dstack (roll_n (int32 val))

unfoldable pub opcode_rot : Handler
opcode_rot = on_dstack (rot_n (pos 1))

unfoldable pub opcode_swap : Handler
opcode_swap = on_dstack (swap_n (pos 1))

unfoldable pub opcode_tuck : Handler
opcode_tuck = on_dstack tuck

unfoldable pub opcode_size : Handler
opcode_size = do so ← on_dstack (peek_byte_array (pos 0)); on_dstack (push_int (pos (length so)))

-- `bytes.Equal`
unfoldable pub bytes_equal : Bytes → Bytes → Bool
bytes_equal [] [] = true
bytes_equal (a ∷ v) (b ∷ w) = a == b && bytes_equal v w
bytes_equal v w = false

unfoldable pub opcode_equal : Handler
opcode_equal = do
  a ← on_dstack pop_byte_array
  b ← on_dstack pop_byte_array
  on_dstack (push_bool (bytes_equal a b))

unfoldable pub opcode_equal_verify : Handler
opcode_equal_verify = opcode_equal >> abstract_verify equal_verify
