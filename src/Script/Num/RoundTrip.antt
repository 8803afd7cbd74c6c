-- ===== src/Script/Num/RoundTrip.antt =====
-- `Bytes` and `makeScriptNum` are inverse to each other.
use eiyaro.Common.{
  ℕ, zero, suc, ◌+◌, ◌-◌, ◌*◌, ◌%◌, ◌≤◌, ◌<◌, ◌≡◌, refl, sym, ap, ◌∙◌, [], ◌∷◌, ◌++◌, arith, true,
  false, Bool, length, Bool-cases, inl, inr, leb, if◌then◌else◌, get_or, some, length-snoc,
  get_or-append, set-append, ℤ, pos, negsuc, abs_ℕ, wrap64_id, leb→le, le→leb, lt→leb_false,
  le→ltb_false, ◌≢◌,
}
use mathlib.Core.List.{append_assoc}
use eiyaro.Script.Outcome.{ok}
use eiyaro.Script.Num.{
  Bytes, weight, decode, le_bytes, minus, add_sign, bytes, is_minimal, make_script_num,
}
use eiyaro.Script.Num.Weight.{Digits, le_bytes-Digits, decode-snoc, weight_mono}

pub last_index : (xs : Bytes) (b : ℕ) → length (xs ++ b ∷ []) - 1 ≡ length xs
last_index xs b = omega (arith, length-snoc xs b)

pub last_byte : (xs : Bytes) (b : ℕ) → get_or (xs ++ b ∷ []) (length (xs ++ b ∷ []) - 1) 0 ≡ b
last_byte xs b = rw (last_index xs b) (get_or-append xs b [] 0)

pub second_last :
    (xs : Bytes) (c b : ℕ)
    → get_or ((xs ++ c ∷ []) ++ b ∷ []) (length ((xs ++ c ∷ []) ++ b ∷ []) - 2) 0 ≡ c
second_last xs c b =
    let e : length ((xs ++ c ∷ []) ++ b ∷ []) - 2 ≡ length xs =
      omega (arith, length-snoc (xs ++ c ∷ []) b, length-snoc xs c) in
    rw (e, append_assoc) (get_or-append xs c (b ∷ []) 0)

-- A last byte with a low bit is minimal.
is_minimal_top : (xs : Bytes) (b : ℕ) → 0 < b % 128 → is_minimal (xs ++ b ∷ []) ≡ true
unfolding is_minimal
is_minimal_top xs b h = rw (last_byte xs b) (ground (arith, length-snoc xs b))

-- So is a sign byte after a byte with the high bit.
is_minimal_extra : (xs : Bytes) (c b : ℕ) → 128 ≤ c → is_minimal ((xs ++ c ∷ []) ++ b ∷ []) ≡ true
unfolding is_minimal
is_minimal_extra xs c b h =
    rw (second_last xs c b, le→ltb_false c 128 h)
      (ground (arith, length-snoc (xs ++ c ∷ []) b, length-snoc xs c))

-- The result of the decoder on a minimal encoding.
pub make_minimal :
    (xs : Bytes) (b n : ℕ)
    → length xs < n
    → length xs < 8
    → is_minimal (xs ++ b ∷ []) ≡ true
    → make_script_num (xs ++ b ∷ []) n ≡ (
        if leb 128 b
        then ok (minus (decode xs + weight (length xs) * b - 128 * weight (length xs)))
        else ok (pos (decode xs + weight (length xs) * b)))
unfolding make_script_num
make_minimal xs b n h k m =
    rw (m, last_byte xs b, last_index xs b, decode-snoc xs b) (ground (arith, length-snoc xs b))

-- `add_sign` on digits, by the three branches of the code.
pub add_sign_extra :
    (xs : Bytes) (b : ℕ) (neg : Bool)
    → 128 ≤ b
    → add_sign neg (xs ++ b ∷ []) ≡ (xs ++ b ∷ []) ++ (if neg then 128 else 0) ∷ []
unfolding add_sign
add_sign_extra xs b neg h = rw (last_byte xs b, le→leb 128 b h)

pub add_sign_neg :
    (xs : Bytes) (b : ℕ) → b < 128 → add_sign true (xs ++ b ∷ []) ≡ xs ++ (b + 128) ∷ []
unfolding add_sign
add_sign_neg xs b h =
    rw (last_byte xs b, lt→leb_false 128 b h, last_index xs b) (set-append xs b (b + 128) [])

pub add_sign_pos : (xs : Bytes) (b : ℕ) → b < 128 → add_sign false (xs ++ b ∷ []) ≡ xs ++ b ∷ []
unfolding add_sign
add_sign_pos xs b h = rw (last_byte xs b, lt→leb_false 128 b h)

-- A magnitude and its sign, as an integer.
abbrev pub with_sign : Bool → ℕ → ℤ
with_sign true m = minus m
with_sign false m = pos m

-- Decoding what `add_sign` makes of digits: one lemma for each branch.
make_extra :
    (neg : Bool) (xs : Bytes) (b n : ℕ)
    → 128 ≤ b
    → suc (length xs) < n
    → suc (length xs) < 8
    → make_script_num (add_sign neg (xs ++ b ∷ [])) n
      ≡ ok (with_sign neg (decode xs + weight (length xs) * b))
make_extra true xs b n h k l =
    rw
      (
        add_sign_extra xs b true h,
        make_minimal (xs ++ b ∷ []) 128 n (omega (arith, length-snoc xs b))
            (omega (arith, length-snoc xs b)) (is_minimal_extra xs b 128 h),
        decode-snoc xs b,
      )
      (ap (λ t. ok (minus t)) (omega arith))
make_extra false xs b n h k l =
    rw
      (
        add_sign_extra xs b false h,
        make_minimal (xs ++ b ∷ []) 0 n (omega (arith, length-snoc xs b))
            (omega (arith, length-snoc xs b)) (is_minimal_extra xs b 0 h),
        decode-snoc xs b,
      )
      (ap (λ t. ok (pos t)) (omega arith))

make_plain :
    (neg : Bool) (xs : Bytes) (b n : ℕ)
    → 0 < b
    → b < 128
    → length xs < n
    → length xs < 8
    → make_script_num (add_sign neg (xs ++ b ∷ [])) n
      ≡ ok (with_sign neg (decode xs + weight (length xs) * b))
make_plain true xs b n p h k l =
    rw
      (
        add_sign_neg xs b h,
        make_minimal xs (b + 128) n k l (is_minimal_top xs (b + 128) (omega arith)),
        le→leb 128 (b + 128) (omega arith),
      )
      (ap (λ t. ok (minus t)) (omega arith))
make_plain false xs b n p h k l =
    rw
      (
        add_sign_pos xs b h,
        make_minimal xs b n k l (is_minimal_top xs b (omega arith)),
        lt→leb_false 128 b h,
      )
      refl

pub mul_mono : (w a b : ℕ) → a ≤ b → w * a ≤ w * b
mul_mono w a b h = grind arith

-- A digit with the high bit leaves the last place of j + 1 free.
no_room :
    (j l top m front : ℕ) → 128 ≤ top → front + weight l * top ≡ m → m < 128 * weight j → l ≢ j
no_room j l top m front h value lt e =
    let w : weight j ≡ weight l = ap weight (sym e) in
    absurd (omega (arith, value, lt, w, mul_mono (weight l) 128 top h))

make-Digits :
    (neg : Bool) (j m : ℕ) (v : Bytes) (d : Digits (suc j) m v)
    → j < 8
    → m < 128 * weight j
    → make_script_num (add_sign neg v) (suc j) ≡ ok (with_sign neg m)
make-Digits neg j m v d hj lt = rw d.shape (elim (Bool-cases (leb 128 d.top)) [
  | inl high ↦
      let h : 128 ≤ d.top = leb→le _ _ high in
      let room : length d.front ≢ j =
        no_room j (length d.front) d.top m (decode d.front) h d.value lt in
      make_extra neg d.front d.top (suc j) h (omega (arith, d.short, room))
        (omega (arith, d.short, room))
      ∙ ap (λ t. ok (with_sign neg t)) d.value
  | inr low ↦
      make_plain neg d.front d.top (suc j) d.top_pos (ground arith) d.short (omega (arith, d.short))
      ∙ ap (λ t. ok (with_sign neg t)) d.value
])

pub make_empty : (n : ℕ) → make_script_num [] n ≡ ok (pos 0)
unfolding make_script_num
make_empty n = rw (le→ltb_false n 0 (omega arith)) refl

-- Every number of magnitude below 128 * 256 ^ j, for j below 8, is encoded, and its encoding is
-- accepted as an operand of j + 1 bytes and read back as that number.
pub make_script_num-bytes :
    (z : ℤ) (j : ℕ)
    → j < 8
    → abs_ℕ z < 128 * weight j
    → (v : Bytes) × (bytes z ≡ some v) × (make_script_num v (suc j) ≡ ok z)
unfolding bytes
make_script_num-bytes (pos zero) j hj lt = ([], refl, make_empty (suc j))
make_script_num-bytes (pos (suc n)) j hj lt = (
  add_sign false (le_bytes 8 (suc n)),
  refl,
  make-Digits false j (suc n) _
      (le_bytes-Digits 8 (suc j) (suc n) (omega arith) (omega arith) (omega arith)) hj lt,
)
make_script_num-bytes (negsuc n) j hj lt = (
  add_sign true (le_bytes 8 (suc n)),
  rw (wrap64_id (pos (suc n)) (omega (arith, weight_mono j 7 (omega arith)))) refl,
  make-Digits true j (suc n) _
      (le_bytes-Digits 8 (suc j) (suc n) (omega arith) (omega arith) (omega arith)) hj lt,
)
