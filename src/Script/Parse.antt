-- ===== src/Script/Parse.antt =====
-- Parsing and unparsing of scripts: parseScriptTemplate, unparseScript, isPushOnly and isScriptHash
-- of script.go, and the columns `value` and `length` of opcodeArray in opcode.go. Offsets into the
-- script become the rest of the script; a length is at most 2 ^ 32 - 1 and fits Go's int.
pub mod Round
pub mod RoundTrip
pub mod Reparse
use eiyaro.Common.{
  ℕ, zero, suc, ◌+◌, ◌-◌, ◌*◌, ◌%◌, ◌/◌, ◌^◌, Bool, true, false, List, [], ◌∷◌, ◌++◌, ◌&&◌, ◌||◌,
  not, ◌==◌, ltb, leb, if◌then◌else◌, length, get_or, take, drop, ℤ, pos, negsuc,
}
use eiyaro.Script.Outcome.{Result, ok, err, malformed_push, script_too_big, internal}
use eiyaro.Script.Num.{Bytes, decode}
use eiyaro.Script.Engine.{ParsedOpcode}

-- The entries of OpUnknown178 to OpUnknown187 carry the value of the opcode ten places on.
unfoldable pub table_value : ℕ → ℕ
table_value b = if leb 178 b && leb b 187 then b + 10 else b

-- `op.length`: one byte, a fixed amount of data, or a length field of 1, 2 or 4 bytes.
pub data Layout : Type 0 where
  single : Layout
  fixed : ℕ → Layout
  counted : ℕ → Layout

unfoldable pub layout : ℕ → Layout
layout b =
    if leb 1 b && leb b 75
    then fixed b
    else if b == 76
    then counted 1
    else if b == 77
    then counted 2
    else if b == 78
    then counted 4
    else single

-- One round of the loop, with the bytes after the instruction: the opcode and what is left.
unfoldable pub parse_one : Layout → ℕ → Bytes → Result (ParsedOpcode × Bytes)
parse_one single v rest = ok (record { value = v; data_bytes = [] }, rest)
parse_one (fixed n) v rest =
    if ltb (length rest) n
    then err malformed_push
    else ok (record { value = v; data_bytes = take n rest }, drop n rest)
parse_one (counted w) v rest =
    let l = decode (take w rest) in
    let after = drop w rest in
    if ltb (length rest) w
    then err malformed_push
    else if ltb (length after) l
    then err malformed_push
    else ok (record { value = v; data_bytes = take l after }, drop l after)

unfoldable pub prepend : ParsedOpcode → Result (List ParsedOpcode) → Result (List ParsedOpcode)
prepend pop (err e) = err e
prepend pop (ok pops) = ok (pop ∷ pops)

unfoldable pub then_parse :
    (Bytes → Result (List ParsedOpcode))
    → Result (ParsedOpcode × Bytes)
    → Result (List ParsedOpcode)
then_parse parse_rest (err e) = err e
then_parse parse_rest (ok (pop, rest)) = prepend pop (parse_rest rest)

unfoldable pub parse_loop : ℕ → Bytes → Result (List ParsedOpcode)
parse_loop zero [] = ok []
parse_loop zero (instr ∷ rest) = err internal
parse_loop (suc fuel) [] = ok []
parse_loop (suc fuel) (instr ∷ rest) =
    then_parse (parse_loop fuel) (parse_one (layout instr) (table_value instr) rest)

-- Each round consumes a byte at least, so that the length of the script is enough fuel.
unfoldable pub parse_script : Bytes → Result (List ParsedOpcode)
parse_script script = parse_loop (length script) script

abbrev pub max_script_size : ℕ
max_script_size = 10000

unfoldable pub parse_script_and_verify_size : Bytes → Result (List ParsedOpcode)
parse_script_and_verify_size script =
    if ltb max_script_size (length script) then err script_too_big else parse_script script

abbrev pub op_16 : ℕ
op_16 = 0x60

unfoldable pub is_push_only : List ParsedOpcode → Bool
is_push_only [] = true
is_push_only (pop ∷ pops) =
    let rest = is_push_only pops in if ltb op_16 pop.value then false else rest

unfoldable pub is_script_hash : List ParsedOpcode → Bool
is_script_hash (a ∷ b ∷ c ∷ []) = a.value == 0xaa && b.value == 0x20 && c.value == 0x87
is_script_hash pops = false

-- The little-endian length field of `bytes()`, of w bytes.
unfoldable pub length_field : ℕ → ℕ → Bytes
length_field zero n = []
length_field (suc w) n = (n % 256) ∷ length_field w (n / 256)

-- `pop.bytes()`; the layout is that of the table entry that the opcode points to.
unfoldable pub pop_bytes : Layout → ParsedOpcode → Result Bytes
pop_bytes single pop = if length pop.data_bytes == 0 then ok (pop.value ∷ []) else err internal
pop_bytes (fixed n) pop =
    if length pop.data_bytes == n then ok (pop.value ∷ pop.data_bytes) else err internal
pop_bytes (counted w) pop =
    let l = length pop.data_bytes in
    if l == decode (length_field w l)
    then ok (pop.value ∷ (length_field w l ++ pop.data_bytes))
    else err internal

unfoldable pub join_bytes : Result Bytes → Result Bytes → Result Bytes
join_bytes (err e) rest = err e
join_bytes (ok b) (err e) = err e
join_bytes (ok b) (ok rest) = ok (b ++ rest)

unfoldable pub unparse_script : List ParsedOpcode → Result Bytes
unparse_script [] = ok []
unparse_script (pop ∷ pops) = join_bytes (pop_bytes (layout pop.value) pop) (unparse_script pops)
