-- ===== src/Script/Stack.antt =====
-- domain/consensus/utils/txscript/stack.go. A stack is its slice `stk`, bottom first, as in Go; a
-- method is a function of the slice that returns the new slice, also beside an error. A count or an
-- index of type int32 is an integer. `String` only prints and is left out.
pub mod Loops
pub mod Laws
pub mod Sizes
use eiyaro.Common.{
  ℕ, zero, suc, ◌+◌, ◌-◌, ◌*◌, Bool, true, false, List, [], ◌∷◌, ◌++◌, not, ◌&&◌, ltb, leb, ◌==◌,
  if◌then◌else◌, length, get_or, take, drop, ℤ, pos, negsuc, ◌-ℤ◌, wrap32, wrap64, ltb_ℤ, Option,
  none, some,
}
use eiyaro.Script.Outcome.{
  Result, ok, err, M, Outcome, done, fail, panic, ◌>>=◌, ◌>>◌, pure, throw, lift,
  invalid_stack_operation,
}
use eiyaro.Script.Num.{Bytes, max_int32, bytes, make_script_num, default_script_num_len}

abbrev pub Stack : Type 0
Stack = List Bytes

-- The loop of `asBool`: a last byte 0x80 alone is negative zero.
unfoldable pub as_bool : Bytes → Bool
as_bool [] = false
as_bool (b ∷ t) =
    let rest = as_bool t in
    if not (b == 0) then (if length t == 0 && b == 128 then false else true) else rest

unfoldable pub from_bool : Bool → Bytes
from_bool true = 1 ∷ []
from_bool false = []

-- `checkedStackSize(len(s.stk))` panics above the largest int32.
unfoldable pub depth : M Stack ℕ
depth s = if ltb max_int32 (length s) then panic else done (length s) s

unfoldable pub push_byte_array : Bytes → M Stack (Unit {0})
push_byte_array so s = done tt (s ++ so ∷ [])

-- `val.Bytes()` panics for the least int64.
unfoldable pub push_int : ℤ → M Stack (Unit {0})
push_int val = elim (bytes val) [ none ↦ (λ s. panic) | some b ↦ push_byte_array b ]

unfoldable pub push_bool : Bool → M Stack (Unit {0})
push_bool val = push_byte_array (from_bool val)

-- The `switch` of `nipN`, at an index that is on the stack of `sz` items.
unfoldable pub remove_at : Stack → ℕ → ℕ → Stack
remove_at s sz idx =
    if idx == 0
    then take (sz - 1) s
    else if idx == sz - 1
    then drop 1 s
    else take (sz - idx - 1) s ++ take idx (drop (sz - idx) s)

unfoldable pub nip_n : ℤ → M Stack Bytes
nip_n (negsuc n) = depth >>= λ _. throw invalid_stack_operation
nip_n (pos idx) = depth >>= λ sz.
    if ltb idx sz
    then (λ s. done (get_or s (sz - idx - 1) []) (remove_at s sz idx))
    else throw invalid_stack_operation

unfoldable pub pop_byte_array : M Stack Bytes
pop_byte_array = nip_n (pos 0)

unfoldable pub pop_int : M Stack ℤ
pop_int = do so ← pop_byte_array; lift (make_script_num so default_script_num_len)

unfoldable pub pop_bool : M Stack Bool
pop_bool = do so ← pop_byte_array; pure (as_bool so)

unfoldable pub peek_byte_array : ℤ → M Stack Bytes
peek_byte_array (negsuc n) = depth >>= λ _. throw invalid_stack_operation
peek_byte_array (pos idx) = depth >>= λ sz.
    if leb sz idx then throw invalid_stack_operation else (λ s. done (get_or s (sz - idx - 1) []) s)

unfoldable pub peek_int : ℤ → M Stack ℤ
peek_int idx = do so ← peek_byte_array idx; lift (make_script_num so default_script_num_len)

unfoldable pub peek_bool : ℤ → M Stack Bool
peek_bool idx = do so ← peek_byte_array idx; pure (as_bool so)

unfoldable pub nip : ℤ → M Stack (Unit {0})
nip idx = nip_n idx >>= λ _. pure tt

unfoldable pub tuck : M Stack (Unit {0})
tuck = do
  so2 ← pop_byte_array
  so1 ← pop_byte_array
  push_byte_array so2
  push_byte_array so1
  push_byte_array so2

-- The bodies of the counting loops, for the number of rounds left.
unfoldable pub drop_loop : ℕ → M Stack (Unit {0})
drop_loop zero = pure tt
drop_loop (suc n) = pop_byte_array >>= λ _. drop_loop n

unfoldable pub peek_loop : ℕ → ℤ → M Stack (Unit {0})
peek_loop zero entry = pure tt
peek_loop (suc n) entry = peek_byte_array entry >>= λ so. push_byte_array so >> peek_loop n entry

unfoldable pub nip_loop : ℕ → ℤ → M Stack (Unit {0})
nip_loop zero entry = pure tt
nip_loop (suc n) entry = nip_n entry >>= λ so. push_byte_array so >> nip_loop n entry

-- `if n < 1`; the int32 products wrap.
unfoldable pub drop_n : ℤ → M Stack (Unit {0})
drop_n (pos (suc n)) = drop_loop (suc n)
drop_n n = throw invalid_stack_operation

unfoldable pub dup_n : ℤ → M Stack (Unit {0})
dup_n (pos (suc n)) = peek_loop (suc n) (pos n)
dup_n n = throw invalid_stack_operation

unfoldable pub rot_n : ℤ → M Stack (Unit {0})
rot_n (pos (suc n)) = nip_loop (suc n) (wrap32 (wrap32 (pos (3 * suc n)) -ℤ pos 1))
rot_n n = throw invalid_stack_operation

unfoldable pub swap_n : ℤ → M Stack (Unit {0})
swap_n (pos (suc n)) = nip_loop (suc n) (wrap32 (wrap32 (pos (2 * suc n)) -ℤ pos 1))
swap_n n = throw invalid_stack_operation

unfoldable pub over_n : ℤ → M Stack (Unit {0})
over_n (pos (suc n)) = peek_loop (suc n) (wrap32 (wrap32 (pos (2 * suc n)) -ℤ pos 1))
over_n n = throw invalid_stack_operation

unfoldable pub pick_n : ℤ → M Stack (Unit {0})
pick_n n = do so ← peek_byte_array n; push_byte_array so

unfoldable pub roll_n : ℤ → M Stack (Unit {0})
roll_n n = do so ← nip_n n; push_byte_array so
