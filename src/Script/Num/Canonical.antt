-- ===== src/Script/Num/Canonical.antt =====
-- The converse: an accepted operand is the encoding of the number that it stands for.
use mathlib.Core.Path.{subst}
use eiyaro.Common.{
  ℕ, zero, suc, ◌+◌, ◌-◌, ◌*◌, ◌%◌, ◌^◌, ◌≤◌, ◌<◌, ◌≡◌, refl, sym, ap, ◌∙◌, [], ◌∷◌, ◌++◌, arith,
  true, false, Bool, length, All, Bool-cases, inl, inr, leb, if◌then◌else◌, ◌⊎◌, some, length-snoc,
  ℤ, pos, wrap64_id, leb→le, le→leb, lt→leb_false, snoc_view, All-append_left, All-append_right,
}
use eiyaro.Script.Outcome.{ok}
use eiyaro.Script.Num.{
  Bytes, IsByte, weight, decode, le_bytes, minus, add_sign, bytes, is_minimal, make_script_num,
}
use eiyaro.Script.Num.Weight.{
  decode-snoc, le_bytes-decode, weight-pos, weight_mono, mul_pos, decode-lt,
}
use eiyaro.Script.Num.RoundTrip.{
  last_byte, second_last, make_minimal, add_sign_extra, add_sign_neg, add_sign_pos, make_empty,
  with_sign, mul_mono,
}

-- A last byte without a low bit is minimal only behind a byte with the high bit.
data MinimalEnd (xs : Bytes) (b : ℕ) : Type 0 where
  low_bits : 0 < b % 128 → MinimalEnd xs b
  extra : (ys : Bytes) (c : ℕ) → xs ≡ ys ++ c ∷ [] → 128 ≤ c → b % 128 ≡ 0 → MinimalEnd xs b

is_minimal_one : (b : ℕ) → is_minimal (b ∷ []) ≡ true → 0 < b % 128
unfolding is_minimal
is_minimal_one b h = ground arith

is_minimal_two :
    (ys : Bytes) (c b : ℕ)
    → is_minimal ((ys ++ c ∷ []) ++ b ∷ []) ≡ true
    → (0 < b % 128) ⊎ ((128 ≤ c) × (b % 128 ≡ 0))
unfolding is_minimal
is_minimal_two ys c b h =
    let h' = rw (second_last ys c b, last_byte (ys ++ c ∷ []) b) at h in
    ground (arith, h', length-snoc (ys ++ c ∷ []) b, length-snoc ys c)

minimal_end : (xs : Bytes) (b : ℕ) → is_minimal (xs ++ b ∷ []) ≡ true → MinimalEnd xs b
minimal_end xs b h = elim (snoc_view xs) [
  | inl e ↦ low_bits (is_minimal_one b (rw e at h))
  | inr (ys, c, e) ↦ elim (is_minimal_two ys c b (rw e at h)) [
    | inl p ↦ low_bits p
    | inr (p, q) ↦ extra ys c e p q
  ]
]

-- An accepted operand is minimal, and as short as asked.
accepted :
    (v : Bytes) (n : ℕ) (z : ℤ)
    → make_script_num v n ≡ ok z
    → (is_minimal v ≡ true) × (length v ≤ n) × (length v ≤ 8)
unfolding make_script_num
accepted v n z h = ground arith

bytes_zero : bytes (pos 0) ≡ some []
unfolding bytes
bytes_zero = refl

bytes-with_sign :
    (neg : Bool) (m : ℕ)
    → 0 < m
    → m < 2 ^ 63
    → bytes (with_sign neg m) ≡ some (add_sign neg (le_bytes 8 m))
unfolding bytes
bytes-with_sign true (suc n) p h = rw (wrap64_id (pos (suc n)) h) refl
bytes-with_sign false (suc n) p h = refl
bytes-with_sign true zero p h = absurd (omega arith)
bytes-with_sign false zero p h = absurd (omega arith)

-- The encoding of the number whose digits are `front` and a `top` that is not zero.
bytes-digits :
    (neg : Bool) (front : Bytes) (top : ℕ)
    → length front < 8
    → All IsByte front
    → 0 < top
    → top < 256
    → decode (front ++ top ∷ []) < 2 ^ 63
    → bytes (with_sign neg (decode (front ++ top ∷ []))) ≡ some (add_sign neg (front ++ top ∷ []))
bytes-digits neg front top l h p q small =
    let positive : 0 < decode (front ++ top ∷ []) =
      rw (decode-snoc front top)
        (omega (arith, mul_pos (weight (length front)) top (weight-pos (length front)) p)) in
    bytes-with_sign neg (decode (front ++ top ∷ [])) positive small
    ∙ ap (λ t. some (add_sign neg t)) (le_bytes-decode 8 front top l h p q)

fits :
    (front : Bytes) (top : ℕ)
    → length front < 8
    → All IsByte front
    → top < 128
    → decode (front ++ top ∷ []) < 2 ^ 63
fits front top l h q = rw (decode-snoc front top) (
    omega (
      arith,
      decode-lt front h,
      mul_mono (weight (length front)) top 127 (omega arith),
      weight_mono (length front) 7 (omega arith),
    ))

fits_below : (front : Bytes) → length front < 8 → All IsByte front → decode front < 2 ^ 63
fits_below front l h = omega (arith, decode-lt front h, weight_mono (length front) 7 (omega arith))

-- The two shapes of a minimal encoding, with and without the sign bit.
bytes-plain :
    (xs : Bytes) (b : ℕ)
    → length xs < 8
    → All IsByte xs
    → 0 < b
    → b < 128
    → bytes (pos (decode xs + weight (length xs) * b)) ≡ some (xs ++ b ∷ [])
bytes-plain xs b l h p q =
    rw (← decode-snoc xs b) (
      bytes-digits false xs b l h p (omega arith) (fits xs b l h q) ∙ ap some (add_sign_pos xs b q))

bytes-signed :
    (xs : Bytes) (b : ℕ)
    → length xs < 8
    → All IsByte xs
    → 0 < b
    → b < 128
    → bytes (minus (decode xs + weight (length xs) * b)) ≡ some (xs ++ (b + 128) ∷ [])
bytes-signed xs b l h p q =
    rw (← decode-snoc xs b)
      (bytes-digits true xs b l h p (omega arith) (fits xs b l h q) ∙ ap some (add_sign_neg xs b q))

bytes-extra :
    (neg : Bool) (ys : Bytes) (c : ℕ)
    → suc (length ys) < 8
    → All IsByte (ys ++ c ∷ [])
    → 128 ≤ c
    → bytes (with_sign neg (decode (ys ++ c ∷ [])))
      ≡ some ((ys ++ c ∷ []) ++ (if neg then 128 else 0) ∷ [])
bytes-extra neg ys c l h p =
    bytes-digits neg ys c (omega arith) (All-append_left IsByte ys (c ∷ []) h) (omega arith)
      (All-append_right IsByte ys (c ∷ []) h).0
      (fits_below (ys ++ c ∷ []) (omega (arith, length-snoc ys c)) h)
    ∙ ap some (add_sign_extra ys c neg p)

ok_injective : {A : Type 0} (a b : A) → ok a ≡ ok b → a ≡ b
ok_injective a b h = cc

-- What the decoder said of a minimal encoding, as an equation on the number.
module _ (xs : Bytes) (b n : ℕ) (z : ℤ) (is_byte : b < 256) (h : All IsByte xs)
    (e : make_script_num (xs ++ b ∷ []) n ≡ ok z) where
  bound : (is_minimal (xs ++ b ∷ []) ≡ true) × (length xs < n) × (length xs < 8)
  bound =
      let a = accepted (xs ++ b ∷ []) n z e in
      (a.0, omega (arith, a.1, length-snoc xs b), omega (arith, a.2, length-snoc xs b))

  number : ok z ≡ (
      if leb 128 b
      then ok (minus (decode xs + weight (length xs) * b - 128 * weight (length xs)))
      else ok (pos (decode xs + weight (length xs) * b)))
  number = sym e ∙ make_minimal xs b n bound.1 bound.2 bound.0

  number_low : b < 128 → pos (decode xs + weight (length xs) * b) ≡ z
  number_low p = ok_injective _ _ (sym (rw (lt→leb_false 128 b p) at number))

  number_high : 128 ≤ b → minus (decode xs + weight (length xs) * b - 128 * weight (length xs)) ≡ z
  number_high p = ok_injective _ _ (sym (rw (le→leb 128 b p) at number))

  canonical_low_bits : 0 < b % 128 → bytes z ≡ some (xs ++ b ∷ [])
  canonical_low_bits p = elim (Bool-cases (leb 128 b)) [
    | inl high ↦
        let q : 128 ≤ b = leb→le _ _ high in
        let same : b - 128 + 128 ≡ b = omega arith in
        let m : decode xs + weight (length xs) * b - 128 * weight (length xs)
            ≡ decode xs + weight (length xs) * (b - 128) =
          omega (arith, ap (λ (t : ℕ). weight (length xs) * t) same) in
        let s : minus (decode xs + weight (length xs) * (b - 128)) ≡ z =
          ap minus (sym m) ∙ number_high q in
        rw (← s) (
          bytes-signed xs (b - 128) bound.2 h (omega arith) (omega arith)
          ∙ ap (λ t. some (xs ++ t ∷ [])) same)
    | inr low ↦
        let q : b < 128 = ground arith in
        rw (← number_low q) (bytes-plain xs b bound.2 h (omega arith) q)
  ]

  canonical_extra :
      (ys : Bytes) (c : ℕ)
      → xs ≡ ys ++ c ∷ []
      → 128 ≤ c
      → b % 128 ≡ 0
      → bytes z ≡ some (xs ++ b ∷ [])
  canonical_extra ys c shape p q = elim (Bool-cases (leb 128 b)) [
    | inl high ↦
        let eb : b ≡ 128 = omega (arith, leb→le 128 b high) in
        let m : decode xs ≡ decode xs + weight (length xs) * b - 128 * weight (length xs) =
          rw eb (omega arith) in
        rw (← number_high (omega arith), ← m, eb, shape)
          (bytes-extra true ys c (omega (arith, bound.2, ap length shape, length-snoc ys c))
            (subst (All IsByte) shape h) p)
    | inr low ↦
        let eb : b ≡ 0 = ground arith in
        let m : decode xs ≡ decode xs + weight (length xs) * b = rw eb (omega arith) in
        rw (← number_low (omega arith), ← m, eb, shape)
          (bytes-extra false ys c (omega (arith, bound.2, ap length shape, length-snoc ys c))
            (subst (All IsByte) shape h) p)
  ]

  canonical_snoc : bytes z ≡ some (xs ++ b ∷ [])
  canonical_snoc = elim (minimal_end xs b bound.0) [
    | low_bits p ↦ canonical_low_bits p
    | extra ys c shape p q ↦ canonical_extra ys c shape p q
  ]

-- A byte string that is accepted as an operand is the encoding of the number that it is read as,
-- so no number has two accepted encodings.
pub bytes-make_script_num :
    (v : Bytes) (n : ℕ) (z : ℤ) → All IsByte v → make_script_num v n ≡ ok z → bytes z ≡ some v
bytes-make_script_num v n z h e = elim (snoc_view v) [
  | inl empty ↦ zero_case empty
  | inr (xs, b, shape) ↦
      let h' : All IsByte (xs ++ b ∷ []) = subst (All IsByte) shape h in
      rw shape (
        canonical_snoc xs b n z (All-append_right IsByte xs (b ∷ []) h').0
          (All-append_left IsByte xs (b ∷ []) h') (rw shape at e))
]
  where
    zero_case : v ≡ [] → bytes z ≡ some v
    zero_case empty =
        let z0 : pos 0 ≡ z = ok_injective _ _ (sym (make_empty n) ∙ (rw empty at e)) in
        rw (← z0, empty) bytes_zero
