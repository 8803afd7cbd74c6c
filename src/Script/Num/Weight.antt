-- ===== src/Script/Num/Weight.antt =====
-- Place values, and the loops of `Bytes` and `makeScriptNum` against each other.
use eiyaro.Common.{
  ℕ, zero, suc, ◌+◌, ◌*◌, ◌/◌, ◌%◌, ◌≤◌, ◌<◌, ◌≡◌, refl, ap, ◌∙◌, [], ◌∷◌, ◌++◌, arith, length,
  ◌==◌, All, Bool-cases, inl, inr, ==_iff,
}
use eiyaro.Script.Num.{Bytes, IsByte, weight, decode, le_bytes}

pub weight-pos : (k : ℕ) → 0 < weight k
weight-pos zero = omega arith
weight-pos (suc k) = omega (arith, weight-pos k)

pub weight_mono : (j k : ℕ) → j ≤ k → weight j ≤ weight k
weight_mono zero k h = weight-pos k
weight_mono (suc j) zero h = absurd (omega arith)
weight_mono (suc j) (suc k) h = omega (arith, weight_mono j k (omega arith))

pub mul_pos : (a b : ℕ) → 0 < a → 0 < b → 0 < a * b
mul_pos (suc a) (suc b) h k = omega arith
mul_pos zero b h k = absurd (omega arith)
mul_pos (suc a) zero h k = absurd (omega arith)

pub decode-snoc : (xs : Bytes) (b : ℕ) → decode (xs ++ b ∷ []) ≡ decode xs + weight (length xs) * b
unfolding decode
decode-snoc [] b = omega arith
decode-snoc (x ∷ xs) b = omega (arith, decode-snoc xs b)

pub decode-lt : (xs : Bytes) → All IsByte xs → decode xs < weight (length xs)
unfolding decode
decode-lt [] h = omega arith
decode-lt (x ∷ xs) h = omega (arith, decode-lt xs h.1)

pub record Digits (k m : ℕ) (v : Bytes) : Type 0 where
  pub front : Bytes
  pub top : ℕ
  pub shape : v ≡ front ++ top ∷ []
  pub top_pos : 0 < top
  pub top_byte : top < 256
  pub value : decode front + weight (length front) * top ≡ m
  pub short : length front < k

le_bytes-zero : (f : ℕ) → le_bytes f 0 ≡ []
unfolding le_bytes
le_bytes-zero zero = refl
le_bytes-zero (suc f) = refl

le_bytes-pos : (f m : ℕ) → 0 < m → le_bytes (suc f) m ≡ (m % 256) ∷ le_bytes f (m / 256)
unfolding le_bytes
le_bytes-pos f zero h = absurd (omega arith)
le_bytes-pos f (suc m) h = ground arith

-- The loop writes the digits of the number, the last one not zero.
pub le_bytes-Digits : (f k m : ℕ) → k ≤ f → 0 < m → m < weight k → Digits k m (le_bytes f m)
unfolding decode
le_bytes-Digits f zero m le pos lt = absurd (omega arith)
le_bytes-Digits zero (suc k) m le pos lt = absurd (omega arith)
le_bytes-Digits (suc f) (suc k) m le pos lt = elim (Bool-cases (m / 256 == 0)) [
  | inl small ↦
      let e : m / 256 ≡ 0 = (==_iff _ _).0 small in
      record {
        front = [];
        top = m % 256;
        shape = rw (le_bytes-pos f m pos, e, le_bytes-zero f) refl;
        top_pos = omega arith;
        top_byte = omega arith;
        value = omega arith;
        short = omega arith;
      }
  | inr large ↦
      let d : Digits k (m / 256) (le_bytes f (m / 256)) =
        le_bytes-Digits f k (m / 256) (omega arith) (ground arith) (omega arith) in
      record {
        front = (m % 256) ∷ d.front;
        top = d.top;
        shape = le_bytes-pos f m pos ∙ ap (◌∷◌ (m % 256)) d.shape;
        top_pos = d.top_pos;
        top_byte = d.top_byte;
        value = omega (arith, d.value);
        short = omega (arith, d.short);
      }
]

-- The digits of a number, the last one not zero, are what the loop writes.
pub le_bytes-decode :
    (f : ℕ) (xs : Bytes) (b : ℕ)
    → length xs < f
    → All IsByte xs
    → 0 < b
    → b < 256
    → le_bytes f (decode (xs ++ b ∷ [])) ≡ xs ++ b ∷ []
unfolding decode
le_bytes-decode zero xs b l h p q = absurd (omega arith)
le_bytes-decode (suc f) [] b l h p q =
    let e : b + 256 * 0 ≡ b = omega arith in
    let e₁ : b % 256 ≡ b = omega arith in
    let e₂ : b / 256 ≡ 0 = omega arith in rw (e, le_bytes-pos f b p, e₁, e₂, le_bytes-zero f) refl
le_bytes-decode (suc f) (x ∷ xs) b l h p q =
    let r = decode (xs ++ b ∷ []) in
    let rest : 0 < r =
      rw (decode-snoc xs b)
        (omega (arith, mul_pos (weight (length xs)) b (weight-pos (length xs)) p)) in
    let e₁ : (x + 256 * r) % 256 ≡ x = omega arith in
    let e₂ : (x + 256 * r) / 256 ≡ r = omega arith in
    rw
      (
        le_bytes-pos f (x + 256 * r) (omega arith),
        e₁,
        e₂,
        le_bytes-decode f xs b (omega arith) h.1 p q,
      )
      refl
