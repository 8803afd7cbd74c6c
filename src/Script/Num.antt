-- ===== src/Script/Num.antt =====
-- domain/consensus/utils/txscript/scriptnum.go: numbers on the stack, little endian with a sign bit.
-- A byte is a number below 256 and a `scriptNum` (int64) an integer. Under the bounds of a byte
-- `b & 0x80 != 0` is `128 ≤ b`, `b & 0x7f` is `b % 128`, and `b |= 0x80` with the bit clear is `b + 128`.
mod Weight
pub mod RoundTrip
pub mod Canonical
use eiyaro.Common.{
  ℕ, zero, suc, ◌+◌, ◌-◌, ◌*◌, ◌/◌, ◌%◌, ◌^◌, ◌<◌, Bool, true, false, List, [], ◌∷◌, ◌++◌, Option,
  none, some, not, ◌||◌, ltb, leb, ◌==◌, if◌then◌else◌, length, get_or, set, ℤ, pos, negsuc, wrap64,
}
use eiyaro.Script.Outcome.{Result, ok, err, minimal_data, number_too_big}

abbrev pub Bytes : Type 0
Bytes = List ℕ

abbrev pub IsByte : ℕ → Type 0
IsByte b = b < 256

abbrev pub max_int32 : ℕ
max_int32 = 2 ^ 31 - 1

abbrev pub default_script_num_len : ℕ
default_script_num_len = 4

-- Whether the encoding is the shortest; the two indices are those that the Go code guards.
unfoldable pub is_minimal : Bytes → Bool
is_minimal v =
    if length v == 0
    then true
    else if get_or v (length v - 1) 0 % 128 == 0
    then (if length v == 1 || ltb (get_or v (length v - 2) 0) 128 then false else true)
    else true

unfoldable pub check_minimal_data_encoding : Bytes → Result (Unit {0})
unfolding is_minimal
check_minimal_data_encoding v = if is_minimal v then ok tt else err minimal_data

-- The loop `for n > 0` of `Bytes`; it runs at most 8 times for an int64.
unfoldable pub le_bytes : ℕ → ℕ → Bytes
le_bytes zero n = []
le_bytes (suc fuel) n = elim (n == 0) [ true ↦ [] | false ↦ (n % 256) ∷ le_bytes fuel (n / 256) ]

-- The rest of `Bytes`: a byte more, or the sign in the last byte.
unfoldable pub add_sign : Bool → Bytes → Bytes
add_sign is_negative result =
    let last = get_or result (length result - 1) 0 in
    if leb 128 last
    then result ++ (if is_negative then 128 else 0) ∷ []
    else if is_negative
    then set result (length result - 1) (last + 128)
    else result

-- `-n` wraps at the least int64, which stays negative: the loop is skipped and the index of the
-- last byte panics (`none`).
unfoldable pub magnitude_bytes : Bool → ℤ → Option Bytes
unfolding le_bytes add_sign
magnitude_bytes is_negative (pos n) = some (add_sign is_negative (le_bytes 8 n))
magnitude_bytes is_negative (negsuc n) = none

unfoldable pub bytes : ℤ → Option Bytes
unfolding magnitude_bytes
bytes (pos zero) = some []
bytes (pos (suc n)) = magnitude_bytes false (pos (suc n))
bytes (negsuc n) = magnitude_bytes true (wrap64 (pos (suc n)))

-- `Int32`: the number clamped to an int32.
unfoldable pub int32 : ℤ → ℤ
int32 (pos n) = if ltb max_int32 n then pos max_int32 else pos n
int32 (negsuc n) = if ltb max_int32 n then negsuc max_int32 else negsuc n

-- The loop that sets byte i at the bits from 8 * i on: the bytes do not overlap, so `|=` adds.
unfoldable pub decode : Bytes → ℕ
decode [] = 0
decode (b ∷ v) = b + 256 * decode v

-- The place value of byte i.
abbrev pub weight : ℕ → ℕ
weight zero = 1
weight (suc i) = 256 * weight i

abbrev pub minus : ℕ → ℤ
minus zero = pos 0
minus (suc n) = negsuc n

unfoldable pub make_script_num : Bytes → ℕ → Result ℤ
unfolding is_minimal decode
make_script_num v script_num_len =
    if ltb script_num_len (length v)
    then err number_too_big
    else if ltb 8 (length v)
    then err number_too_big
    else if not (is_minimal v)
    then err minimal_data
    else if length v == 0
    then ok (pos 0)
    else if leb 128 (get_or v (length v - 1) 0)
    then ok (minus (decode v - 128 * weight (length v - 1)))
    else ok (pos (decode v))
