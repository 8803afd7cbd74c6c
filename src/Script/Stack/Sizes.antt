-- ===== src/Script/Stack/Sizes.antt =====
-- How many items the operations on groups need, and how many they leave.
use eiyaro.Common.{
  ℕ, zero, suc, ◌+◌, ◌-◌, ◌*◌, ◌≤◌, ◌<◌, ◌≡◌, inl, inr, refl, sym, ap, ◌∙◌, [], ◌∷◌, ◌++◌, arith,
  ltb, length, length-append, length-snoc, Bool-cases, le→leb, pos, le→ltb_false,
}
use mathlib.Core.Path.{subst}
use eiyaro.Script.Outcome.{Outcome, done, fail, invalid_stack_operation, ◌>>=◌}
use eiyaro.Script.Num.{Bytes, max_int32}
use eiyaro.Script.Stack.{
  Stack, depth, nip_n, peek_byte_array, push_byte_array, nip_loop, peek_loop, drop_loop,
  pop_byte_array, drop_n, dup_n, rot_n, swap_n, over_n,
}
use eiyaro.Script.Stack.Laws.{entry_id}
use eiyaro.Script.Stack.Loops.{nip_n-append, peek_byte_array-append}

-- With enough items an operation leaves a stack of a certain size; with fewer it is refused as an
-- invalid stack operation, and what it leaves of the stack is `rest`.
pub data Sized (s rest : Stack) (need left : ℕ) : Outcome Stack (Unit {0}) → Type 0 where
  applied : (t : Stack) → need ≤ length s → length t ≡ left → Sized s rest need left (done tt t)
  refused : length s < need → Sized s rest need left (fail invalid_stack_operation rest)

-- The item with `idx` items above it.
record Split (s : Stack) (idx : ℕ) : Type 0 where
  below : Stack
  item : Bytes
  above : Stack
  joined : s ≡ below ++ item ∷ above
  at : length above ≡ idx

split_at : (s : Stack) (idx : ℕ) → idx < length s → Split s idx
split_at [] idx h = absurd (omega arith)
split_at (x ∷ s) idx h = elim (Bool-cases (ltb idx (length s))) [
  | inl inside ↦
      let r = split_at s idx (ground (arith, inside)) in
      record {
        below = x ∷ r.below;
        item = r.item;
        above = r.above;
        joined = ap (◌∷◌ x) r.joined;
        at = r.at;
      }
  | inr here ↦ record {
    below = [];
    item = x;
    above = s;
    joined = refl;
    at = ground (arith, here, h);
  }
]

nip_n_within :
    (s : Stack) (idx : ℕ)
    → idx < length s
    → length s ≤ max_int32
    → (x : Bytes) × (t : Stack) × (nip_n (pos idx) s ≡ done x t) × (suc (length t) ≡ length s)
nip_n_within s idx h small =
    let r = split_at s idx h in
    let short : length (r.below ++ r.item ∷ r.above) ≤ max_int32 =
      subst (λ t. length t ≤ max_int32) r.joined small in
    (
      r.item,
      r.below ++ r.above,
      ap (nip_n (pos idx)) r.joined
          ∙ ap (λ k. nip_n (pos k) (r.below ++ r.item ∷ r.above)) (sym r.at)
          ∙ nip_n-append r.below r.item r.above short,
      omega (
        arith,
        ap length r.joined,
        length-append r.below (r.item ∷ r.above),
        length-append r.below r.above,
      ),
    )

peek_byte_array_within :
    (s : Stack) (idx : ℕ)
    → idx < length s
    → length s ≤ max_int32
    → (x : Bytes) × (peek_byte_array (pos idx) s ≡ done x s)
peek_byte_array_within s idx h small =
    let r = split_at s idx h in
    let short : length (r.below ++ r.item ∷ r.above) ≤ max_int32 =
      subst (λ t. length t ≤ max_int32) r.joined small in
    (
      r.item,
      ap (peek_byte_array (pos idx)) r.joined
          ∙ ap (λ k. peek_byte_array (pos k) (r.below ++ r.item ∷ r.above)) (sym r.at)
          ∙ peek_byte_array-append r.below r.item r.above short
          ∙ ap (done r.item) (sym r.joined),
    )

nip_n_beyond :
    (s : Stack) (idx : ℕ)
    → length s ≤ idx
    → length s ≤ max_int32
    → nip_n (pos idx) s ≡ fail invalid_stack_operation s
unfolding nip_n depth
nip_n_beyond s idx h small =
    rw (le→ltb_false max_int32 (length s) small, le→ltb_false idx (length s) h, ◌>>=◌) refl

peek_byte_array_beyond :
    (s : Stack) (idx : ℕ)
    → length s ≤ idx
    → length s ≤ max_int32
    → peek_byte_array (pos idx) s ≡ fail invalid_stack_operation s
unfolding peek_byte_array depth
peek_byte_array_beyond s idx h small =
    rw (le→ltb_false max_int32 (length s) small, le→leb (length s) idx h, ◌>>=◌) refl

nip_loop_within :
    (n entry : ℕ) (s : Stack)
    → entry < length s
    → length s ≤ max_int32
    → (t : Stack) × (nip_loop n (pos entry) s ≡ done tt t) × (length t ≡ length s)
unfolding nip_loop push_byte_array
nip_loop_within zero entry s h small = (s, refl, refl)
nip_loop_within (suc n) entry s h small =
    let (x, t, nipped, e) = nip_n_within s entry h small in
    let back : length (t ++ x ∷ []) ≡ length s = length-snoc t x ∙ e in
    let (u, looped, f) = nip_loop_within n entry (t ++ x ∷ []) (rw back h) (rw back small) in
    (u, rw (nipped, ◌>>=◌) looped, f ∙ back)

peek_loop_within :
    (n entry : ℕ) (s : Stack)
    → entry < length s
    → length s + n ≤ max_int32
    → (t : Stack) × (peek_loop n (pos entry) s ≡ done tt t) × (length t ≡ length s + n)
unfolding peek_loop push_byte_array
peek_loop_within zero entry s h small = (s, refl, omega arith)
peek_loop_within (suc n) entry s h small =
    let (x, peeked) = peek_byte_array_within s entry h (omega (arith, small)) in
    let more : length (s ++ x ∷ []) ≡ suc (length s) = length-snoc s x in
    let (u, looped, f) =
      peek_loop_within n entry (s ++ x ∷ []) (omega (arith, more, h))
        (omega (arith, more, small)) in
    (u, rw (peeked, ◌>>=◌) looped, omega (arith, f, more))

nip_loop-Sized :
    (n entry : ℕ) (s : Stack)
    → length s ≤ max_int32
    → Sized s s (suc entry) (length s) (nip_loop (suc n) (pos entry) s)
unfolding nip_loop
nip_loop-Sized n entry s small = elim (Bool-cases (ltb entry (length s))) [
  | inl enough ↦
      let (t, looped, e) = nip_loop_within (suc n) entry s (ground (arith, enough)) small in
      rw looped (applied t (ground (arith, enough)) e)
  | inr few ↦
      rw (nip_loop, nip_n_beyond s entry (ground (arith, few)) small, ◌>>=◌)
        (refused (ground (arith, few)))
]

peek_loop-Sized :
    (n entry : ℕ) (s : Stack)
    → length s + suc n ≤ max_int32
    → Sized s s (suc entry) (length s + suc n) (peek_loop (suc n) (pos entry) s)
unfolding peek_loop
peek_loop-Sized n entry s small = elim (Bool-cases (ltb entry (length s))) [
  | inl enough ↦
      let (t, looped, e) = peek_loop_within (suc n) entry s (ground (arith, enough)) small in
      rw looped (applied t (ground (arith, enough)) e)
  | inr few ↦
      rw
        (
          peek_loop,
          peek_byte_array_beyond s entry (ground (arith, few)) (omega (arith, small)),
          ◌>>=◌,
        )
        (refused (ground (arith, few)))
]

Sized-pop :
    (s t : Stack) (n left : ℕ) (r : Outcome Stack (Unit {0}))
    → suc (length t) ≡ length s
    → Sized t [] n left r
    → Sized s [] (suc n) left r
Sized-pop s t n left r e (applied u enough l) = applied u (omega (arith, e, enough)) l
Sized-pop s t n left r e (refused few) = refused (omega (arith, e, few))

drop_loop-Sized :
    (n : ℕ) (s : Stack) → length s ≤ max_int32 → Sized s [] n (length s - n) (drop_loop n s)
unfolding drop_loop pop_byte_array
drop_loop-Sized zero s small = applied s (omega arith) (omega arith)
drop_loop-Sized (suc n) [] small =
    rw (nip_n_beyond [] 0 (omega arith) small, ◌>>=◌) (refused (omega arith))
drop_loop-Sized (suc n) (x ∷ s) small =
    let (y, t, popped, e) = nip_n_within (x ∷ s) 0 (omega arith) small in
    let left : length t - n ≡ length (x ∷ s) - suc n = omega (arith, e) in
    rw (popped, ◌>>=◌, ← left)
      (Sized-pop (x ∷ s) t n (length t - n) (drop_loop n t) e
        (drop_loop-Sized n t (omega (arith, e, small))))

-- On a stack that stays within the largest int32 when n items are added, for n at least 1 with 3n
-- within it too: DropN needs n items and leaves n fewer; DupN needs n and leaves n more; RotN needs 3n
-- and SwapN 2n, and both leave as many; OverN needs 2n and leaves n more. On a smaller stack each is
-- refused as an invalid stack operation: DropN has then removed every item, and the other four leave
-- the stack as it is.
pub groups-Sized :
    (n : ℕ) (s : Stack)
    → length s + suc n ≤ max_int32
    → 3 * suc n ≤ max_int32
    → Sized s [] (suc n) (length s - suc n) (drop_n (pos (suc n)) s)
      × Sized s s (suc n) (length s + suc n) (dup_n (pos (suc n)) s)
      × Sized s s (3 * suc n) (length s) (rot_n (pos (suc n)) s)
      × Sized s s (2 * suc n) (length s) (swap_n (pos (suc n)) s)
      × Sized s s (2 * suc n) (length s + suc n) (over_n (pos (suc n)) s)
unfolding drop_n dup_n rot_n swap_n over_n
groups-Sized n s small few =
    let three : suc (3 * suc n - 1) ≡ 3 * suc n = omega arith in
    let two : suc (2 * suc n - 1) ≡ 2 * suc n = omega arith in
    let entry_2 = entry_id (2 * suc n) (omega (arith, few)) (omega arith) in
    let entry_3 = entry_id (3 * suc n) (omega (arith, few)) (omega arith) in
    (
      drop_loop-Sized (suc n) s (omega (arith, small)),
      peek_loop-Sized n n s small,
      rw entry_3 (
          subst (λ k. Sized s s k (length s) (nip_loop (suc n) (pos (3 * suc n - 1)) s)) three
            (nip_loop-Sized n (3 * suc n - 1) s (omega (arith, small)))),
      rw entry_2 (
          subst (λ k. Sized s s k (length s) (nip_loop (suc n) (pos (2 * suc n - 1)) s)) two
            (nip_loop-Sized n (2 * suc n - 1) s (omega (arith, small)))),
      rw entry_2 (
          subst (λ k. Sized s s k (length s + suc n) (peek_loop (suc n) (pos (2 * suc n - 1)) s))
            two (peek_loop-Sized n (2 * suc n - 1) s small)),
    )
