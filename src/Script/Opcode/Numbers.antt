-- ===== src/Script/Opcode/Numbers.antt =====
-- What the numeric opcodes leave on the stack, for operands of at most 4 bytes.
use mathlib.Core.List.{append_assoc}
use eiyaro.Common.{
  ◌^◌, ◌≤◌, ◌<◌, ◌≡◌, refl, sym, Bool, true, false, [], ◌∷◌, ◌++◌, ◌&&◌, not, arith, if◌then◌else◌,
  length, length-append, Option, some, ℤ, ◌+ℤ◌, ◌-ℤ◌, abs_ℕ, wrap64_id, ltb_ℤ, leb_ℤ, eqb_ℤ,
}
use eiyaro.Script.Outcome.{ok, done, ◌>>=◌}
use eiyaro.Script.Num.{Bytes, bytes, make_script_num, max_int32, default_script_num_len}
use eiyaro.Script.Num.RoundTrip.{make_script_num-bytes}
use eiyaro.Script.Stack.{Stack, pop_int, push_int, push_byte_array, from_bool}
use eiyaro.Script.Stack.Loops.{pop_byte_array-snoc}
use eiyaro.Script.Engine.{Engine, on_dstack}
use eiyaro.Script.Opcode.Arith.{
  unary, binary, truth, opcode_add, opcode_sub, opcode_num_equal, opcode_num_not_equal,
  opcode_less_than, opcode_greater_than, opcode_less_than_or_equal, opcode_greater_than_or_equal,
  opcode_min, opcode_max, opcode_within,
}

-- A byte string that stands for an operand: the encoding of a number below 2 ^ 31 in magnitude.
pub record Operand (z : ℤ) (b : Bytes) : Type 0 where
  pub small : abs_ℕ z < 2 ^ 31
  pub encoded : bytes z ≡ some b

same_bytes : (v b : Bytes) (o : Option Bytes) → o ≡ some v → o ≡ some b → v ≡ b
same_bytes v b o e f = cc

pub Operand-make :
    (z : ℤ) (b : Bytes) → Operand z b → make_script_num b default_script_num_len ≡ ok z
Operand-make z b o =
    let (v, e, m) = make_script_num-bytes z 3 (omega arith) o.small in
    let same : v ≡ b = same_bytes v b (bytes z) e o.encoded in rw (← same) m

-- The engine with another data stack.
abbrev pub with_dstack : Engine → Stack → Engine
with_dstack vm s = record vm { dstack = s }

pub pop_int-snoc :
    (s : Stack) (z : ℤ) (b : Bytes)
    → Operand z b
    → length (s ++ b ∷ []) ≤ max_int32
    → pop_int (s ++ b ∷ []) ≡ done z s
unfolding pop_int
pop_int-snoc s z b o small = rw (pop_byte_array-snoc s b small, ◌>>=◌, Operand-make z b o) refl

push_int-some :
    (s : Stack) (z : ℤ) (b : Bytes) → bytes z ≡ some b → push_int z s ≡ done tt (s ++ b ∷ [])
unfolding push_int push_byte_array
push_int-some s z b e = rw (e, push_int) refl

snoc_two : (s : Stack) (a b : Bytes) → s ++ a ∷ b ∷ [] ≡ (s ++ a ∷ []) ++ b ∷ []
snoc_two s a b = sym (append_assoc s (a ∷ []) (b ∷ []))

module _ (vm : Engine) (s : Stack) (x y : ℤ) (bx by : Bytes) (ox : Operand x bx) (oy : Operand y by)
    (small : length (s ++ bx ∷ by ∷ []) ≤ max_int32) where
  -- The shape of the opcodes with two operands; the top operand is the function's first argument.
  binary_lem :
      (f : ℤ → ℤ → ℤ) (r : Bytes)
      → bytes (f y x) ≡ some r
      → binary f (with_dstack vm (s ++ bx ∷ by ∷ [])) ≡ done tt (with_dstack vm (s ++ r ∷ []))
  unfolding binary
  binary_lem f r e =
      let small' : length ((s ++ bx ∷ []) ++ by ∷ []) ≤ max_int32 = rw (← snoc_two s bx by) small in
      let fewer : length (s ++ bx ∷ []) ≤ max_int32 =
        omega (arith, small', length-append (s ++ bx ∷ []) (by ∷ [])) in
      rw
        (
          snoc_two s bx by,
          pop_int-snoc (s ++ bx ∷ []) y by oy small',
          ◌>>=◌,
          pop_int-snoc s x bx ox fewer,
          ◌>>=◌,
          on_dstack,
          push_int-some s (f y x) r e,
        )
        refl

  -- On two operands below 2 ^ 31 in magnitude, on a stack within the largest int32, OP_ADD and OP_SUB
  -- leave the encoding of the exact sum and difference: nothing wraps, and the result always has an
  -- encoding.
  pub add_sub_exact :
      ((r : Bytes) × (bytes (x +ℤ y) ≡ some r)
        × (opcode_add (with_dstack vm (s ++ bx ∷ by ∷ []))
            ≡ done tt (with_dstack vm (s ++ r ∷ []))))
      × ((r : Bytes) × (bytes (x -ℤ y) ≡ some r)
          × (opcode_sub (with_dstack vm (s ++ bx ∷ by ∷ []))
              ≡ done tt (with_dstack vm (s ++ r ∷ []))))
  unfolding opcode_add opcode_sub
  add_sub_exact =
      let sum : abs_ℕ (x +ℤ y) < 2 ^ 32 = ground (arith, ox.small, oy.small) in
      let difference : abs_ℕ (x -ℤ y) < 2 ^ 32 = ground (arith, ox.small, oy.small) in
      let comm : y +ℤ x ≡ x +ℤ y = ground arith in
      let (r, e, _) = make_script_num-bytes (x +ℤ y) 4 (omega arith) (omega (arith, sum)) in
      let (r', e', _) =
        make_script_num-bytes (x -ℤ y) 4 (omega arith) (omega (arith, difference)) in
      (
        (r, e, binary_lem _ r (rw (comm, wrap64_id (x +ℤ y) (omega (arith, sum))) e)),
        (r', e', binary_lem _ r' (rw (wrap64_id (x -ℤ y) (omega (arith, difference))) e')),
      )

truth-from_bool : (b : Bool) → bytes (truth b) ≡ some (from_bool b)
unfolding bytes from_bool
truth-from_bool true = refl
truth-from_bool false = refl

module _ (vm : Engine) (s : Stack) (x y : ℤ) (bx by : Bytes) (ox : Operand x bx) (oy : Operand y by)
    (small : length (s ++ bx ∷ by ∷ []) ≤ max_int32) where
  test_lem :
      (f : ℤ → ℤ → Bool)
      → binary (λ v0 v1. truth (f v0 v1)) (with_dstack vm (s ++ bx ∷ by ∷ []))
        ≡ done tt (with_dstack vm (s ++ from_bool (f y x) ∷ []))
  test_lem f =
      binary_lem vm s x y bx by ox oy small (λ v0 v1. truth (f v0 v1)) (from_bool (f y x))
        (truth-from_bool (f y x))

  -- On two operands below 2 ^ 31 in magnitude, x under y, on a stack within the largest int32, each of
  -- the six comparisons leaves the Boolean of x against y.
  pub comparisons_exact :
      (opcode_less_than (with_dstack vm (s ++ bx ∷ by ∷ []))
        ≡ done tt (with_dstack vm (s ++ from_bool (ltb_ℤ x y) ∷ [])))
      × (opcode_greater_than (with_dstack vm (s ++ bx ∷ by ∷ []))
          ≡ done tt (with_dstack vm (s ++ from_bool (ltb_ℤ y x) ∷ [])))
      × (opcode_less_than_or_equal (with_dstack vm (s ++ bx ∷ by ∷ []))
          ≡ done tt (with_dstack vm (s ++ from_bool (leb_ℤ x y) ∷ [])))
      × (opcode_greater_than_or_equal (with_dstack vm (s ++ bx ∷ by ∷ []))
          ≡ done tt (with_dstack vm (s ++ from_bool (leb_ℤ y x) ∷ [])))
      × (opcode_num_equal (with_dstack vm (s ++ bx ∷ by ∷ []))
          ≡ done tt (with_dstack vm (s ++ from_bool (eqb_ℤ y x) ∷ [])))
      × (opcode_num_not_equal (with_dstack vm (s ++ bx ∷ by ∷ []))
          ≡ done tt (with_dstack vm (s ++ from_bool (not (eqb_ℤ y x)) ∷ [])))
  unfolding opcode_less_than opcode_greater_than opcode_less_than_or_equal
      opcode_greater_than_or_equal opcode_num_equal opcode_num_not_equal
  comparisons_exact = (test_lem _, test_lem _, test_lem _, test_lem _, test_lem _, test_lem _)

  -- On two operands below 2 ^ 31 in magnitude, on a stack within the largest int32, OP_MIN and OP_MAX
  -- leave the encoding of the smaller and of the larger one.
  pub min_max_exact :
      (opcode_min (with_dstack vm (s ++ bx ∷ by ∷ []))
        ≡ done tt (with_dstack vm (s ++ (if ltb_ℤ x y then bx else by) ∷ [])))
      × (opcode_max (with_dstack vm (s ++ bx ∷ by ∷ []))
          ≡ done tt (with_dstack vm (s ++ (if ltb_ℤ y x then bx else by) ∷ [])))
  unfolding opcode_min opcode_max
  min_max_exact = (
    binary_lem vm s x y bx by ox oy small (λ v0 v1. if ltb_ℤ v1 v0 then v1 else v0) _
        (pick (ltb_ℤ x y)),
    binary_lem vm s x y bx by ox oy small (λ v0 v1. if ltb_ℤ v0 v1 then v1 else v0) _
        (pick (ltb_ℤ y x)),
  )
    where
      pick : (b : Bool) → bytes (if b then x else y) ≡ some (if b then bx else by)
      pick true = ox.encoded
      pick false = oy.encoded

module _ (vm : Engine) (s : Stack) (x : ℤ) (bx : Bytes) (ox : Operand x bx)
    (small : length (s ++ bx ∷ []) ≤ max_int32) where
  pub unary_lem :
      (f : ℤ → ℤ)
      → abs_ℕ (f x) < 2 ^ 39
      → (r : Bytes) × (bytes (f x) ≡ some r)
        × (unary f (with_dstack vm (s ++ bx ∷ [])) ≡ done tt (with_dstack vm (s ++ r ∷ [])))
  unfolding unary
  unary_lem f h =
      let (r, e, _) = make_script_num-bytes (f x) 4 (omega arith) (omega (arith, h)) in
      (r, e, rw (pop_int-snoc s x bx ox small, ◌>>=◌, on_dstack, push_int-some s (f x) r e) refl)

-- On three operands below 2 ^ 31 in magnitude, on a stack within the largest int32, OP_WITHIN leaves
-- whether the third item is at least the second and below the top.
pub within_exact :
    (vm : Engine) (s : Stack) (x lo hi : ℤ) (bx bl bh : Bytes)
    → Operand x bx
    → Operand lo bl
    → Operand hi bh
    → length (s ++ bx ∷ bl ∷ bh ∷ []) ≤ max_int32
    → opcode_within (with_dstack vm (s ++ bx ∷ bl ∷ bh ∷ []))
      ≡ done tt (with_dstack vm (s ++ from_bool (leb_ℤ lo x && ltb_ℤ x hi) ∷ []))
unfolding opcode_within
within_exact vm s x lo hi bx bl bh ox ol oh small =
    let e₁ : s ++ bx ∷ bl ∷ bh ∷ [] ≡ ((s ++ bx ∷ []) ++ bl ∷ []) ++ bh ∷ [] = simp append_assoc in
    let s₁ : length (((s ++ bx ∷ []) ++ bl ∷ []) ++ bh ∷ []) ≤ max_int32 = rw (← e₁) small in
    let s₂ : length ((s ++ bx ∷ []) ++ bl ∷ []) ≤ max_int32 =
      omega (arith, s₁, length-append ((s ++ bx ∷ []) ++ bl ∷ []) (bh ∷ [])) in
    let s₃ : length (s ++ bx ∷ []) ≤ max_int32 =
      omega (arith, s₂, length-append (s ++ bx ∷ []) (bl ∷ [])) in
    rw
      (
        e₁,
        pop_int-snoc ((s ++ bx ∷ []) ++ bl ∷ []) hi bh oh s₁,
        ◌>>=◌,
        pop_int-snoc (s ++ bx ∷ []) lo bl ol s₂,
        ◌>>=◌,
        pop_int-snoc s x bx ox s₃,
        ◌>>=◌,
        on_dstack,
        push_int-some s (truth (leb_ℤ lo x && ltb_ℤ x hi)) (from_bool (leb_ℤ lo x && ltb_ℤ x hi))
            (truth-from_bool (leb_ℤ lo x && ltb_ℤ x hi)),
      )
      refl
