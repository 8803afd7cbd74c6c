-- ===== src/Script/Stack/Laws.antt =====
-- The documented transformation of each stack operation, on a stack of any depth.
use mathlib.Core.List.{append-nil, append_assoc}
use eiyaro.Common.{
  ℕ, zero, suc, ◌+◌, ◌-◌, ◌*◌, ◌^◌, ◌≤◌, ◌<◌, ◌≡◌, refl, sym, ap, ◌∙◌, [], ◌∷◌, ◌++◌, arith, length,
  length-append, pos, ◌-ℤ◌, wrap32, wrap32_id,
}
use eiyaro.Script.Outcome.{done, ◌>>=◌}
use eiyaro.Script.Num.{Bytes, max_int32}
use eiyaro.Script.Stack.{
  Stack, push_byte_array, nip_loop, peek_loop, drop_loop, pop_byte_array, drop_n, dup_n, rot_n,
  swap_n, over_n, pick_n, roll_n, tuck,
}
use eiyaro.Script.Stack.Loops.{
  nip_n-append, peek_byte_array-append, pop_byte_array-snoc, nip_loop-append, peek_loop-append,
}

-- The entry k * n - 1 does not wrap while the stack is within the limit.
pub entry_id : (m : ℕ) → m < 2 ^ 31 → 0 < m → wrap32 (wrap32 (pos m) -ℤ pos 1) ≡ pos (m - 1)
entry_id m h p =
    let e : pos m -ℤ pos 1 ≡ pos (m - 1) = ground arith in
    rw (wrap32_id (pos m) h, e) (wrap32_id (pos (m - 1)) (omega arith))

module _ (base a rest : Stack) (k entry : ℕ) (la : length a ≡ k) where
  nip_group :
      length base + length a + length rest ≤ max_int32
      → length a + length rest ≡ suc entry
      → nip_loop k (pos entry) (base ++ (a ++ rest)) ≡ done tt (base ++ (rest ++ a))
  nip_group small e = rw (← la) (nip_loop-append base a rest entry small e)

  peek_group :
      length base + length a + length rest + length a ≤ max_int32
      → length a + length rest ≡ suc entry
      → peek_loop k (pos entry) (base ++ (a ++ rest)) ≡ done tt (base ++ (a ++ (rest ++ a)))
  peek_group small e = rw (← la) (peek_loop-append base a rest entry small e)

module _ (base a b : Stack) (n : ℕ) (la : length a ≡ suc n) (lb : length b ≡ suc n) where
  -- [... a b] becomes [... b a], for two groups of the n items that SwapN is called for, n at least 1,
  -- on a stack within the largest int32.
  pub swap_n_lem :
      length base + length a + length b ≤ max_int32
      → swap_n (pos (suc n)) (base ++ (a ++ b)) ≡ done tt (base ++ (b ++ a))
  unfolding swap_n
  swap_n_lem small =
      rw (entry_id (2 * suc n) (omega arith) (omega arith))
        (nip_group base a b (suc n) (2 * suc n - 1) la small (omega arith))

  -- [... a b] becomes [... a b a], for two groups of the n items that OverN is called for, n at least
  -- 1, where the result is within the largest int32.
  pub over_n_lem :
      length base + length a + length b + length a ≤ max_int32
      → over_n (pos (suc n)) (base ++ (a ++ b)) ≡ done tt (base ++ (a ++ (b ++ a)))
  unfolding over_n
  over_n_lem small =
      rw (entry_id (2 * suc n) (omega arith) (omega arith))
        (peek_group base a b (suc n) (2 * suc n - 1) la small (omega arith))

  -- [... a b c] becomes [... b c a], for three groups of the n items that RotN is called for, n at
  -- least 1, on a stack within the largest int32.
  pub rot_n_lem :
      (c : Stack)
      → length c ≡ suc n
      → length base + length a + length b + length c ≤ max_int32
      → rot_n (pos (suc n)) (base ++ (a ++ (b ++ c))) ≡ done tt (base ++ ((b ++ c) ++ a))
  unfolding rot_n
  rot_n_lem c lc small = rw (entry_id (3 * suc n) (omega arith) (omega arith)) (
      nip_group base a (b ++ c) (suc n) (3 * suc n - 1) la (omega (arith, length-append b c))
        (omega (arith, length-append b c)))

-- [... a] becomes [... a a], for a group of the n items that DupN is called for, n at least 1, where
-- the result is within the largest int32.
pub dup_n_lem :
    (base a : Stack) (n : ℕ)
    → length a ≡ suc n
    → length base + length a + length a ≤ max_int32
    → dup_n (pos (suc n)) (base ++ a) ≡ done tt (base ++ (a ++ a))
unfolding dup_n
dup_n_lem base a n la small =
    ap (λ (t : Stack). peek_loop (suc n) (pos n) (base ++ t)) (sym (append-nil a))
    ∙ peek_group base a [] (suc n) n la (omega arith) (omega arith)

snoc_of :
    (x : Bytes) (a : Stack)
    → (front : Stack) × (top : Bytes) × (x ∷ a ≡ front ++ top ∷ []) × (length front ≡ length a)
snoc_of x [] = ([], x, refl, refl)
snoc_of x (y ∷ a) = let (front, top, e, l) = snoc_of y a in (x ∷ front, top, ap (◌∷◌ x) e, ap suc l)

pop_step :
    (base front : Stack) (top : Bytes)
    → length (base ++ (front ++ top ∷ [])) ≤ max_int32
    → pop_byte_array (base ++ (front ++ top ∷ [])) ≡ done top (base ++ front)
pop_step base front top small =
    ap pop_byte_array (sym (append_assoc base front (top ∷ [])))
    ∙ pop_byte_array-snoc (base ++ front) top (rw append_assoc small)

-- The top item is popped as often as there are items in `a`.
drop_loop-append :
    (k : ℕ) (base a : Stack)
    → length a ≡ k
    → length (base ++ a) ≤ max_int32
    → drop_loop k (base ++ a) ≡ done tt base
unfolding drop_loop
drop_loop-append zero base [] l small = ap (done tt) (append-nil base)
drop_loop-append zero base (x ∷ a) l small = absurd (omega arith)
drop_loop-append (suc k) base [] l small = absurd (omega arith)
drop_loop-append (suc k) base (x ∷ a) l small =
    let (front, top, e, m) = snoc_of x a in
    let small' : length (base ++ (front ++ top ∷ [])) ≤ max_int32 = rw (← e) small in
    rw (e, pop_step base front top small', ◌>>=◌)
      (drop_loop-append k base front (omega arith) (
        omega (
          arith,
          small',
          length-append base (front ++ top ∷ []),
          length-append front (top ∷ []),
          length-append base front,
        )))

-- [... a] becomes [...], for a group of the n items that DropN is called for, n at least 1, on a stack
-- within the largest int32.
pub drop_n_lem :
    (base a : Stack) (n : ℕ)
    → length a ≡ suc n
    → length (base ++ a) ≤ max_int32
    → drop_n (pos (suc n)) (base ++ a) ≡ done tt base
unfolding drop_n
drop_n_lem base a n l small = drop_loop-append (suc n) base a l small

-- On groups a, b and c of n items, n at least 1, at the top of a stack, where the result is within
-- the largest int32: SwapN makes [... b a] of [... a b], OverN [... a b a]; RotN makes [... b c a]
-- of [... a b c]; DupN makes [... a a] of [... a], and DropN removes a.
pub groups_lem :
    (base a b c : Stack) (n : ℕ)
    → length a ≡ suc n
    → length b ≡ suc n
    → length c ≡ suc n
    → length base + 3 * suc n ≤ max_int32
    → (swap_n (pos (suc n)) (base ++ (a ++ b)) ≡ done tt (base ++ (b ++ a)))
      × (over_n (pos (suc n)) (base ++ (a ++ b)) ≡ done tt (base ++ (a ++ (b ++ a))))
      × (rot_n (pos (suc n)) (base ++ (a ++ (b ++ c))) ≡ done tt (base ++ ((b ++ c) ++ a)))
      × (dup_n (pos (suc n)) (base ++ a) ≡ done tt (base ++ (a ++ a)))
      × (drop_n (pos (suc n)) (base ++ a) ≡ done tt base)
groups_lem base a b c n la lb lc small = (
  swap_n_lem base a b n la lb (omega (arith, la, lb, small)),
  over_n_lem base a b n la lb (omega (arith, la, lb, small)),
  rot_n_lem base a b n la lb c lc (omega (arith, la, lb, lc, small)),
  dup_n_lem base a n la (omega (arith, la, small)),
  drop_n_lem base a n la (omega (arith, la, small, length-append base a)),
)

-- [... x1 x2] becomes [... x2 x1 x2], on a stack within the largest int32.
tuck_lem :
    (base : Stack) (x y : Bytes)
    → length (base ++ x ∷ y ∷ []) ≤ max_int32
    → tuck (base ++ x ∷ y ∷ []) ≡ done tt (base ++ y ∷ x ∷ y ∷ [])
unfolding tuck push_byte_array
tuck_lem base x y small =
    let second : length (base ++ x ∷ []) ≤ max_int32 =
      omega (arith, small, length-append base (x ∷ y ∷ []), length-append base (x ∷ [])) in
    rw (pop_step base (x ∷ []) y small, pop_byte_array-snoc base x second, ◌>>=◌)
      (ap (done tt) (simp append_assoc))

-- On a stack within the largest int32, the item with `length above` items above it is copied to the
-- top by PickN, and moved there by RollN.
pick_n-roll_n :
    (below : Stack) (x : Bytes) (above : Stack)
    → length (below ++ x ∷ above) ≤ max_int32
    → (pick_n (pos (length above)) (below ++ x ∷ above) ≡ done tt ((below ++ x ∷ above) ++ x ∷ []))
      × (roll_n (pos (length above)) (below ++ x ∷ above) ≡ done tt ((below ++ above) ++ x ∷ []))
unfolding pick_n roll_n push_byte_array
pick_n-roll_n below x above small = (
  rw (peek_byte_array-append below x above small, ◌>>=◌) refl,
  rw (nip_n-append below x above small, ◌>>=◌) refl,
)
