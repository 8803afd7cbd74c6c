-- ===== src/Script/Opcode/Table.antt =====
-- The column `opfunc` of opcodeArray in opcode.go, by value, in four runs of the table. The entries
-- of the two multi-signature checks are parameters; opcodeCheckMultiSigVerify is built on the first.
use eiyaro.Common.{ℕ, ◌&&◌, ◌==◌, leb, if◌then◌else◌}
use eiyaro.Script.Outcome.{◌>>◌, check_multi_sig_verify}
use eiyaro.Script.Engine.{Handler, ParsedOpcode, Crypto}
use eiyaro.Script.Opcode.Control.{
  opcode_1_negate, opcode_disabled, opcode_else, opcode_endif, opcode_false, opcode_if,
  opcode_invalid, opcode_n, opcode_nop, opcode_not_if, opcode_push_data, opcode_reserved,
  opcode_return, opcode_verify, abstract_verify,
}
use eiyaro.Script.Opcode.Locks.{opcode_check_lock_time_verify, opcode_check_sequence_verify}
use eiyaro.Script.Opcode.Shuffle.{
  opcode_2_drop, opcode_2_dup, opcode_2_over, opcode_2_rot, opcode_2_swap, opcode_3_dup,
  opcode_depth, opcode_drop, opcode_dup, opcode_equal, opcode_equal_verify, opcode_from_alt_stack,
  opcode_if_dup, opcode_nip, opcode_over, opcode_pick, opcode_roll, opcode_rot, opcode_size,
  opcode_swap, opcode_to_alt_stack, opcode_tuck,
}
use eiyaro.Script.Opcode.Arith.{
  opcode_0_not_equal, opcode_1_add, opcode_1_sub, opcode_abs, opcode_add, opcode_bool_and,
  opcode_bool_or, opcode_greater_than, opcode_greater_than_or_equal, opcode_less_than,
  opcode_less_than_or_equal, opcode_max, opcode_min, opcode_negate, opcode_not, opcode_num_equal,
  opcode_num_equal_verify, opcode_num_not_equal, opcode_sub, opcode_within,
}
use eiyaro.Script.Opcode.Signature.{
  opcode_blake2b, opcode_check_sig, opcode_check_sig_ecdsa, opcode_check_sig_verify, opcode_sha256,
}

module _ (c : Crypto) (opcode_check_multi_sig opcode_check_multi_sig_ecdsa : Handler) where
  unfoldable pub opcode_check_multi_sig_verify : Handler
  opcode_check_multi_sig_verify = opcode_check_multi_sig >> abstract_verify check_multi_sig_verify

  unfoldable pub signature_entry : ParsedOpcode → ℕ → Handler
  signature_entry op v =
      if v == 168
      then opcode_sha256 c
      else if v == 169
      then opcode_check_multi_sig_ecdsa
      else if v == 170
      then opcode_blake2b c
      else if v == 171
      then opcode_check_sig_ecdsa c
      else if v == 172
      then opcode_check_sig c
      else if v == 173
      then opcode_check_sig_verify c
      else if v == 174
      then opcode_check_multi_sig
      else if v == 175
      then opcode_check_multi_sig_verify
      else if v == 176
      then opcode_check_lock_time_verify
      else if v == 177
      then opcode_check_sequence_verify
      else opcode_invalid

  unfoldable pub arith_entry : ParsedOpcode → ℕ → Handler
  arith_entry op v =
      if v == 139
      then opcode_1_add
      else if v == 140
      then opcode_1_sub
      else if leb 141 v && leb v 142
      then opcode_disabled
      else if v == 143
      then opcode_negate
      else if v == 144
      then opcode_abs
      else if v == 145
      then opcode_not
      else if v == 146
      then opcode_0_not_equal
      else if v == 147
      then opcode_add
      else if v == 148
      then opcode_sub
      else if leb 149 v && leb v 153
      then opcode_disabled
      else if v == 154
      then opcode_bool_and
      else if v == 155
      then opcode_bool_or
      else if v == 156
      then opcode_num_equal
      else if v == 157
      then opcode_num_equal_verify
      else if v == 158
      then opcode_num_not_equal
      else if v == 159
      then opcode_less_than
      else if v == 160
      then opcode_greater_than
      else if v == 161
      then opcode_less_than_or_equal
      else if v == 162
      then opcode_greater_than_or_equal
      else if v == 163
      then opcode_min
      else if v == 164
      then opcode_max
      else if v == 165
      then opcode_within
      else signature_entry op v

  unfoldable pub shuffle_entry : ParsedOpcode → ℕ → Handler
  shuffle_entry op v =
      if v == 107
      then opcode_to_alt_stack
      else if v == 108
      then opcode_from_alt_stack
      else if v == 109
      then opcode_2_drop
      else if v == 110
      then opcode_2_dup
      else if v == 111
      then opcode_3_dup
      else if v == 112
      then opcode_2_over
      else if v == 113
      then opcode_2_rot
      else if v == 114
      then opcode_2_swap
      else if v == 115
      then opcode_if_dup
      else if v == 116
      then opcode_depth
      else if v == 117
      then opcode_drop
      else if v == 118
      then opcode_dup
      else if v == 119
      then opcode_nip
      else if v == 120
      then opcode_over
      else if v == 121
      then opcode_pick
      else if v == 122
      then opcode_roll
      else if v == 123
      then opcode_rot
      else if v == 124
      then opcode_swap
      else if v == 125
      then opcode_tuck
      else if leb 126 v && leb v 129
      then opcode_disabled
      else if v == 130
      then opcode_size
      else if leb 131 v && leb v 134
      then opcode_disabled
      else if v == 135
      then opcode_equal
      else if v == 136
      then opcode_equal_verify
      else if leb 137 v && leb v 138
      then opcode_reserved
      else arith_entry op v

  unfoldable pub control_entry : ParsedOpcode → ℕ → Handler
  control_entry op v =
      if v == 0
      then opcode_false
      else if leb 1 v && leb v 78
      then opcode_push_data op
      else if v == 79
      then opcode_1_negate
      else if v == 80
      then opcode_reserved
      else if leb 81 v && leb v 96
      then opcode_n op
      else if v == 97
      then opcode_nop
      else if v == 98
      then opcode_reserved
      else if v == 99
      then opcode_if
      else if v == 100
      then opcode_not_if
      else if leb 101 v && leb v 102
      then opcode_reserved
      else if v == 103
      then opcode_else
      else if v == 104
      then opcode_endif
      else if v == 105
      then opcode_verify
      else if v == 106
      then opcode_return
      else shuffle_entry op v

  unfoldable pub opfunc : ParsedOpcode → Handler
  opfunc op = control_entry op op.value
