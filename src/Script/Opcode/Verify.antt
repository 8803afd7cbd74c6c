-- ===== src/Script/Opcode/Verify.antt =====
-- OP_EQUALVERIFY against the equality of byte strings.
use mathlib.Core.List.{append_assoc}
use eiyaro.Common.{
  ◌≤◌, ◌≡◌, ◌≢◌, ◌⊎◌, inl, inr, refl, sym, ap, ◌∙◌, Bool, true, false, [], ◌∷◌, ◌++◌, arith,
  if◌then◌else◌, length, length-append, Bool-cases,
}
use eiyaro.Script.Outcome.{done, fail, ◌>>=◌, pure, throw, equal_verify}
use eiyaro.Script.Num.{Bytes, max_int32}
use eiyaro.Script.Stack.{Stack, pop_bool, push_bool, push_byte_array, from_bool, as_bool}
use eiyaro.Script.Stack.Loops.{pop_byte_array-snoc}
use eiyaro.Script.Engine.{Engine}
use eiyaro.Script.Opcode.Control.{abstract_verify}
use eiyaro.Script.Opcode.Shuffle.{bytes_equal, opcode_equal, opcode_equal_verify}
use eiyaro.Script.Opcode.Numbers.{with_dstack}

bytes_equal_refl : (a : Bytes) → bytes_equal a a ≡ true
unfolding bytes_equal
bytes_equal_refl [] = refl
bytes_equal_refl (b ∷ a) = ground (arith, bytes_equal_refl a)

eq_of_bytes_equal : (a b : Bytes) → bytes_equal a b ≡ true → a ≡ b
unfolding bytes_equal
eq_of_bytes_equal [] [] h = refl
eq_of_bytes_equal [] (y ∷ b) h = cc
eq_of_bytes_equal (x ∷ a) [] h = cc
eq_of_bytes_equal (x ∷ a) (y ∷ b) h = ground (arith, eq_of_bytes_equal a b)

as_bool-from_bool : (b : Bool) → as_bool (from_bool b) ≡ b
unfolding as_bool from_bool
as_bool-from_bool true = refl
as_bool-from_bool false = refl

module _ (vm : Engine) (s : Stack) (a b : Bytes)
    (small : length (s ++ a ∷ b ∷ []) ≤ max_int32) where
  opcode_equal_lem :
      opcode_equal (with_dstack vm (s ++ a ∷ b ∷ []))
      ≡ done tt (with_dstack vm (s ++ from_bool (bytes_equal b a) ∷ []))
  unfolding opcode_equal push_bool push_byte_array
  opcode_equal_lem =
      let e : s ++ a ∷ b ∷ [] ≡ (s ++ a ∷ []) ++ b ∷ [] = sym (append_assoc s (a ∷ []) (b ∷ [])) in
      let s₁ : length ((s ++ a ∷ []) ++ b ∷ []) ≤ max_int32 = rw (← e) small in
      let s₂ : length (s ++ a ∷ []) ≤ max_int32 =
        omega (arith, s₁, length-append (s ++ a ∷ []) (b ∷ [])) in
      rw (e, pop_byte_array-snoc (s ++ a ∷ []) b s₁, ◌>>=◌, pop_byte_array-snoc s a s₂, ◌>>=◌) refl

  verify_lem :
      (c : Bool)
      → abstract_verify equal_verify (with_dstack vm (s ++ from_bool c ∷ []))
        ≡ (if c then done tt (with_dstack vm s) else fail equal_verify (with_dstack vm s))
  unfolding abstract_verify pop_bool
  verify_lem c =
      let s₁ : length (s ++ from_bool c ∷ []) ≤ max_int32 =
        omega (arith, small, length-append s (a ∷ b ∷ []), length-append s (from_bool c ∷ [])) in
      rw (pop_byte_array-snoc s (from_bool c) s₁, ◌>>=◌, as_bool-from_bool c) (by_cases c)
    where
      by_cases :
          (c : Bool)
          → (if c then pure tt else throw equal_verify) (with_dstack vm s)
            ≡ (if c then done tt (with_dstack vm s) else fail equal_verify (with_dstack vm s))
      by_cases true = refl
      by_cases false = refl

  -- On a stack within the largest int32, OP_EQUALVERIFY takes two items off; it goes on if they are
  -- equal and fails if not.
  pub opcode_equal_verify_lem :
      ((a ≡ b)
        × (opcode_equal_verify (with_dstack vm (s ++ a ∷ b ∷ [])) ≡ done tt (with_dstack vm s)))
      ⊎ ((a ≢ b)
          × (opcode_equal_verify (with_dstack vm (s ++ a ∷ b ∷ []))
              ≡ fail equal_verify (with_dstack vm s)))
  unfolding opcode_equal_verify
  opcode_equal_verify_lem = elim (Bool-cases (bytes_equal b a)) [
    | inl same ↦ inl (
      sym (eq_of_bytes_equal b a same),
      rw (opcode_equal_lem, ◌>>=◌, verify_lem (bytes_equal b a), same) refl,
    )
    | inr other ↦ inr (
      (λ e. cc (sym other ∙ ap (λ t. bytes_equal t a) (sym e) ∙ bytes_equal_refl a)),
      rw (opcode_equal_lem, ◌>>=◌, verify_lem (bytes_equal b a), other) refl,
    )
  ]
