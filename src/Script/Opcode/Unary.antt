-- ===== src/Script/Opcode/Unary.antt =====
-- What the numeric opcodes on one operand leave on the stack.
use eiyaro.Common.{
  ◌^◌, ◌≤◌, ◌<◌, ◌≡◌, sym, ◌∙◌, ap, [], ◌∷◌, ◌++◌, arith, if◌then◌else◌, length, some, ℤ, pos,
  negsuc, ◌+ℤ◌, ◌-ℤ◌, neg, abs_ℕ, wrap64, wrap64_id, ltb_ℤ,
}
use eiyaro.Script.Outcome.{done}
use eiyaro.Script.Num.{Bytes, bytes, max_int32}
use eiyaro.Script.Stack.{Stack}
use eiyaro.Script.Engine.{Engine}
use eiyaro.Script.Opcode.Arith.{unary, opcode_1_add, opcode_1_sub, opcode_negate, opcode_abs}
use eiyaro.Script.Opcode.Numbers.{Operand, with_dstack, unary_lem}

module _ (vm : Engine) (s : Stack) (x : ℤ) (bx : Bytes) (ox : Operand x bx)
    (small : length (s ++ bx ∷ []) ≤ max_int32) where
  -- The opcode computes a function that stays below 2 ^ 32 in magnitude.
  unary_value :
      (f : ℤ → ℤ) (y : ℤ)
      → f x ≡ y
      → abs_ℕ y < 2 ^ 33
      → (r : Bytes) × (bytes y ≡ some r)
        × (unary f (with_dstack vm (s ++ bx ∷ [])) ≡ done tt (with_dstack vm (s ++ r ∷ [])))
  unary_value f y e h =
      let bound : abs_ℕ (f x) < 2 ^ 39 = rw e (omega (arith, h)) in
      let (r, k, u) = unary_lem vm s x bx ox small f bound in (r, ap bytes (sym e) ∙ k, u)

  -- On an operand below 2 ^ 31 in magnitude, on a stack within the largest int32, OP_1ADD, OP_1SUB,
  -- OP_NEGATE and OP_ABS leave the encoding of the exact successor, predecessor, negation and absolute
  -- value, which always exists.
  pub unary_exact :
      ((r : Bytes) × (bytes (x +ℤ pos 1) ≡ some r)
        × (opcode_1_add (with_dstack vm (s ++ bx ∷ [])) ≡ done tt (with_dstack vm (s ++ r ∷ []))))
      × ((r : Bytes) × (bytes (x -ℤ pos 1) ≡ some r)
          × (opcode_1_sub (with_dstack vm (s ++ bx ∷ [])) ≡ done tt (with_dstack vm (s ++ r ∷ []))))
      × ((r : Bytes) × (bytes (neg x) ≡ some r)
          × (opcode_negate (with_dstack vm (s ++ bx ∷ []))
              ≡ done tt (with_dstack vm (s ++ r ∷ []))))
      × ((r : Bytes) × (bytes (pos (abs_ℕ x)) ≡ some r)
          × (opcode_abs (with_dstack vm (s ++ bx ∷ [])) ≡ done tt (with_dstack vm (s ++ r ∷ []))))
  unfolding opcode_1_add opcode_1_sub opcode_negate opcode_abs
  unary_exact =
      let plus : abs_ℕ (x +ℤ pos 1) < 2 ^ 33 = ground (arith, ox.small) in
      let minus : abs_ℕ (x -ℤ pos 1) < 2 ^ 33 = ground (arith, ox.small) in
      let negated : abs_ℕ (neg x) < 2 ^ 33 = ground (arith, ox.small) in
      (
        unary_value _ (x +ℤ pos 1) (wrap64_id (x +ℤ pos 1) (omega (arith, plus))) plus,
        unary_value _ (x -ℤ pos 1) (wrap64_id (x -ℤ pos 1) (omega (arith, minus))) minus,
        unary_value _ (neg x) (wrap64_id (neg x) (omega (arith, negated))) negated,
        unary_value _ (pos (abs_ℕ x)) (absolute x (omega (arith, negated)))
            (omega (arith, ox.small)),
      )
    where
      absolute :
          (z : ℤ)
          → abs_ℕ (neg z) < 2 ^ 63
          → (if ltb_ℤ z (pos 0) then wrap64 (neg z) else z) ≡ pos (abs_ℕ z)
      absolute (pos n) h = ground arith
      absolute (negsuc n) h = ground (arith, wrap64_id (neg (negsuc n)) h)
