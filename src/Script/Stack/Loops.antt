-- ===== src/Script/Stack/Loops.antt =====
-- The primitive accesses on a stack that is written `below ++ item ∷ above`, and the two loops.
use mathlib.Core.List.{append-nil, append_assoc}
use mathlib.Core.Path.{ap₂}
use eiyaro.Common.{
  ℕ, suc, ◌+◌, ◌-◌, ◌≤◌, ◌<◌, ◌≡◌, refl, sym, ap, ◌∙◌, [], ◌∷◌, ◌++◌, arith, length, length-append,
  get_or, get_or-append, take, drop, take-append, take-length, drop-suc_append, pos, lt→ltb,
  le→ltb_false, lt→leb_false,
}
use eiyaro.Script.Outcome.{done, ◌>>=◌}
use eiyaro.Script.Num.{Bytes, max_int32}
use eiyaro.Script.Stack.{
  Stack, depth, nip_n, remove_at, peek_byte_array, push_byte_array, nip_loop, peek_loop,
  pop_byte_array,
}

length-middle :
    (xs : Stack) (x : Bytes) (ys : Stack) → length (xs ++ x ∷ ys) ≡ length xs + length ys + 1
length-middle xs x ys = omega (arith, length-append xs (x ∷ ys))

remove_at_middle :
    (s : Stack) (sz idx : ℕ)
    → 0 < idx
    → idx < sz - 1
    → remove_at s sz idx ≡ take (sz - idx - 1) s ++ take idx (drop (sz - idx) s)
unfolding remove_at
remove_at_middle s sz idx h k = ground arith

remove_at_top : (s : Stack) (sz : ℕ) → remove_at s sz 0 ≡ take (sz - 1) s
unfolding remove_at
remove_at_top s sz = refl

remove_at_bottom : (s : Stack) (sz idx : ℕ) → 0 < idx → idx ≡ sz - 1 → remove_at s sz idx ≡ drop 1 s
unfolding remove_at
remove_at_bottom s sz idx h e = ground arith

-- The `switch` of `nipN` takes out one item, in each of its three cases.
remove_at-append :
    (xs : Stack) (x : Bytes) (ys : Stack) (n : ℕ)
    → n ≡ length xs + length ys + 1
    → remove_at (xs ++ x ∷ ys) n (length ys) ≡ xs ++ ys
remove_at-append xs x [] n h =
    let e : n - 1 ≡ length xs = omega arith in
    rw (remove_at_top (xs ++ x ∷ []) n, e, append-nil) (take-append xs (x ∷ []))
remove_at-append [] x (y ∷ ys) n h =
    remove_at_bottom (x ∷ y ∷ ys) n (length (y ∷ ys)) (omega arith) (omega arith)
remove_at-append (w ∷ xs) x (y ∷ ys) n h =
    let e₁ : n - length (y ∷ ys) - 1 ≡ length (w ∷ xs) = omega arith in
    let e₂ : n - length (y ∷ ys) ≡ suc (length (w ∷ xs)) = omega arith in
    remove_at_middle (w ∷ xs ++ x ∷ y ∷ ys) n (length (y ∷ ys)) (omega arith) (omega arith)
    ∙ ap₂
        (λ a b.
          take a (w ∷ xs ++ x ∷ y ∷ ys) ++ take (length (y ∷ ys)) (drop b (w ∷ xs ++ x ∷ y ∷ ys)))
        e₁ e₂
    ∙ ap₂ (λ (a b : Stack). a ++ b) (take-append (w ∷ xs) (x ∷ y ∷ ys))
        (ap (take (length (y ∷ ys))) (drop-suc_append (w ∷ xs) x (y ∷ ys)) ∙ take-length (y ∷ ys))

-- The item with `length ys` items above it, out of the slice and in it.
pub item :
    (xs : Stack) (x : Bytes) (ys : Stack) (n : ℕ)
    → n ≡ length xs + length ys + 1
    → get_or (xs ++ x ∷ ys) (n - length ys - 1) [] ≡ x
item xs x ys n h =
    let e : n - length ys - 1 ≡ length xs = omega arith in rw e (get_or-append xs x ys [])

-- Below the limit of `checkedStackSize`, removing the item with `length ys` items above it returns
-- that item and closes the gap.
pub nip_n-append :
    (xs : Stack) (x : Bytes) (ys : Stack)
    → length (xs ++ x ∷ ys) ≤ max_int32
    → nip_n (pos (length ys)) (xs ++ x ∷ ys) ≡ done x (xs ++ ys)
unfolding nip_n depth
nip_n-append xs x ys small =
    rw
      (
        le→ltb_false max_int32 (length (xs ++ x ∷ ys)) small,
        lt→ltb (length ys) (length (xs ++ x ∷ ys)) (omega (arith, length-middle xs x ys)),
        item xs x ys (length (xs ++ x ∷ ys)) (length-middle xs x ys),
        remove_at-append xs x ys (length (xs ++ x ∷ ys)) (length-middle xs x ys),
        ◌>>=◌,
      )
      refl

pub peek_byte_array-append :
    (xs : Stack) (x : Bytes) (ys : Stack)
    → length (xs ++ x ∷ ys) ≤ max_int32
    → peek_byte_array (pos (length ys)) (xs ++ x ∷ ys) ≡ done x (xs ++ x ∷ ys)
unfolding peek_byte_array depth
peek_byte_array-append xs x ys small =
    rw
      (
        le→ltb_false max_int32 (length (xs ++ x ∷ ys)) small,
        lt→leb_false (length (xs ++ x ∷ ys)) (length ys) (omega (arith, length-middle xs x ys)),
        item xs x ys (length (xs ++ x ∷ ys)) (length-middle xs x ys),
        ◌>>=◌,
      )
      refl

pub pop_byte_array-snoc :
    (xs : Stack) (x : Bytes)
    → length (xs ++ x ∷ []) ≤ max_int32
    → pop_byte_array (xs ++ x ∷ []) ≡ done x xs
unfolding pop_byte_array
pop_byte_array-snoc xs x small = nip_n-append xs x [] small ∙ ap (done x) (append-nil xs)

module _ (xs ws rest : Stack) (a : Bytes) where
  regroup : push_byte_array a (xs ++ (ws ++ rest)) ≡ done tt (xs ++ (ws ++ (rest ++ a ∷ [])))
  unfolding push_byte_array
  regroup = simp append_assoc

  regroup_copy :
      push_byte_array a (xs ++ a ∷ (ws ++ rest))
      ≡ done tt ((xs ++ a ∷ []) ++ (ws ++ (rest ++ a ∷ [])))
  unfolding push_byte_array
  regroup_copy = simp append_assoc

  regrouped :
      (xs ++ a ∷ []) ++ (ws ++ ((rest ++ a ∷ []) ++ ws)) ≡ xs ++ (a ∷ ws ++ (rest ++ a ∷ ws))
  regrouped = simp append_assoc

module _ (xs : Stack) (a : Bytes) (ys : Stack) (entry : ℕ) (e : length ys ≡ entry)
    (small : length (xs ++ a ∷ ys) ≤ max_int32) where
  nip_at : nip_n (pos entry) (xs ++ a ∷ ys) ≡ done a (xs ++ ys)
  nip_at = rw (← e) (nip_n-append xs a ys small)

  peek_at : peek_byte_array (pos entry) (xs ++ a ∷ ys) ≡ done a (xs ++ a ∷ ys)
  peek_at = rw (← e) (peek_byte_array-append xs a ys small)

-- n rounds of `nipN(entry)` and `PushByteArray` bring the n lowest of the entry + 1 top items up.
pub nip_loop-append :
    (xs ws rest : Stack) (entry : ℕ)
    → length xs + length ws + length rest ≤ max_int32
    → length ws + length rest ≡ suc entry
    → nip_loop (length ws) (pos entry) (xs ++ (ws ++ rest)) ≡ done tt (xs ++ (rest ++ ws))
unfolding nip_loop
nip_loop-append xs [] rest entry small e = ap (λ t. done tt (xs ++ t)) (sym (append-nil rest))
nip_loop-append xs (a ∷ ws) rest entry small e =
    let here : nip_n (pos entry) (xs ++ a ∷ (ws ++ rest)) ≡ done a (xs ++ (ws ++ rest)) =
      nip_at xs a (ws ++ rest) entry (omega (arith, length-append ws rest))
        (omega (arith, small, length-middle xs a (ws ++ rest), length-append ws rest)) in
    rw (here, ◌>>=◌, regroup xs ws rest a)
      (nip_loop-append xs ws (rest ++ a ∷ []) entry
          (omega (arith, small, length-append rest (a ∷ [])))
          (omega (arith, e, length-append rest (a ∷ [])))
        ∙ ap (λ t. done tt (xs ++ t)) (append_assoc rest (a ∷ []) ws))

-- n rounds of `PeekByteArray(entry)` and `PushByteArray` copy the n lowest of those items up.
pub peek_loop-append :
    (xs ws rest : Stack) (entry : ℕ)
    → length xs + length ws + length rest + length ws ≤ max_int32
    → length ws + length rest ≡ suc entry
    → peek_loop (length ws) (pos entry) (xs ++ (ws ++ rest)) ≡ done tt (xs ++ (ws ++ (rest ++ ws)))
unfolding peek_loop
peek_loop-append xs [] rest entry small e = ap (λ t. done tt (xs ++ t)) (sym (append-nil rest))
peek_loop-append xs (a ∷ ws) rest entry small e =
    let here : peek_byte_array (pos entry) (xs ++ a ∷ (ws ++ rest))
        ≡ done a (xs ++ a ∷ (ws ++ rest)) =
      peek_at xs a (ws ++ rest) entry (omega (arith, length-append ws rest))
        (omega (arith, small, length-middle xs a (ws ++ rest), length-append ws rest)) in
    rw (here, ◌>>=◌, regroup_copy xs ws rest a)
      (peek_loop-append (xs ++ a ∷ []) ws (rest ++ a ∷ []) entry
          (omega (arith, small, length-append xs (a ∷ []), length-append rest (a ∷ [])))
          (omega (arith, e, length-append rest (a ∷ [])))
        ∙ ap (done tt) (regrouped xs ws rest a))
