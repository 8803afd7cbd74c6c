-- ===== src/Script/Exec/Conditions.antt =====
-- Nested conditionals: the conditional stack is well formed, and its top says which branch runs.
use mathlib.Core.Path.{subst}
use eiyaro.Common.{
  ℕ, suc, ◌-◌, ◌≡◌, ◌⊎◌, inl, inr, refl, sym, ap, ◌∙◌, Bool, true, false, List, [], ◌∷◌, ◌++◌, ◌&&◌,
  not, arith, ◌==◌, if◌then◌else◌, length, get_or, get_or-append, set-append, take-append,
  length-snoc, snoc_view, Bool-cases,
}
use eiyaro.Script.Outcome.{done, >>=-eq-done, ◌>>=◌}
use eiyaro.Script.Engine.{Engine, is_branch_executing, cond_true, cond_false, cond_skip}
use eiyaro.Script.Opcode.Control.{
  if_bool, pop_if_bool, push_cond, opcode_if, opcode_not_if, opcode_else, opcode_endif, flip,
  flip_top, drop_top,
}

-- A slice of conditions is nested well: each is 0, 1 or 2, and over one that is not taken (0 or 2)
-- all are skipped (2). The flag says whether all the conditions so far are taken.
abbrev pub IsNested : Bool → List ℕ → Type 0
IsNested taken [] = Unit
IsNested true (c ∷ cs) = (((c ≡ 1) × IsNested true cs) ⊎ ((c ≡ 0) × IsNested false cs))
IsNested false (c ∷ cs) = (c ≡ 2) × IsNested false cs

-- Whether every condition is taken.
abbrev pub all_taken : List ℕ → Bool
all_taken [] = true
all_taken (c ∷ cs) = c == 1 && all_taken cs

-- The last condition alone decides, below `taken`.
abbrev last_true : Bool → List ℕ → Bool
last_true taken [] = taken
last_true taken (c ∷ cs) = last_true (c == 1) cs

last_true-nested : (cs : List ℕ) (c : ℕ) → IsNested false (c ∷ cs) → last_true (c == 1) cs ≡ false
last_true-nested [] c h = ground arith
last_true-nested (d ∷ cs) c h = last_true-nested cs d h.1

last_true-taken : (cs : List ℕ) → IsNested true cs → last_true true cs ≡ all_taken cs
last_true-taken [] h = refl
last_true-taken (c ∷ cs) (inl (e, h)) = rw e (last_true-taken cs h)
last_true-taken (c ∷ []) (inr (e, h)) = rw e refl
last_true-taken (c ∷ d ∷ cs) (inr (e, h)) = rw e (last_true-nested cs d h)

last_index :
    (c : ℕ) (cs : List ℕ)
    → (get_or (c ∷ cs) (length cs) cond_false == cond_true) ≡ last_true (c == 1) cs
last_index c [] = refl
last_index c (d ∷ cs) = last_index d cs

top_of :
    (cs : List ℕ)
    → IsNested true cs
    → (if length cs == 0 then true else get_or cs (length cs - 1) cond_false == cond_true)
      ≡ all_taken cs
top_of [] h = refl
top_of (c ∷ cs) h =
    let e : suc (length cs) - 1 ≡ length cs = omega arith in
    let e₀ : (suc (length cs) == 0) ≡ false = ground arith in
    rw (e₀, e) (last_index c cs ∙ taken_first c cs h)
  where
    taken_first :
        (c : ℕ) (cs : List ℕ) → IsNested true (c ∷ cs) → last_true (c == 1) cs ≡ all_taken (c ∷ cs)
    taken_first c cs h = last_true-taken (c ∷ cs) h

-- On a well nested conditional stack the top alone, which the code reads, says whether every
-- enclosing branch is taken.
pub is_branch_executing-all_taken :
    (vm : Engine) → IsNested true vm.cond_stack → is_branch_executing vm ≡ all_taken vm.cond_stack
unfolding is_branch_executing
is_branch_executing-all_taken vm h = top_of vm.cond_stack h

IsNested-taken :
    (cs : List ℕ) (c : ℕ)
    → IsNested true cs
    → all_taken cs ≡ true
    → (c ≡ 1) ⊎ (c ≡ 0)
    → IsNested true (cs ++ c ∷ [])
IsNested-taken [] c h a (inl e) = inl (e, tt)
IsNested-taken [] c h a (inr e) = inr (e, tt)
IsNested-taken (d ∷ cs) c (inl (e, h)) a p = inl (e, IsNested-taken cs c h (ground arith) p)
IsNested-taken (d ∷ cs) c (inr (e, h)) a p = absurd (ground arith)

IsNested-skip_false : (cs : List ℕ) → IsNested false cs → IsNested false (cs ++ 2 ∷ [])
IsNested-skip_false [] h = (refl, tt)
IsNested-skip_false (d ∷ cs) h = (h.0, IsNested-skip_false cs h.1)

IsNested-skip :
    (cs : List ℕ) → IsNested true cs → all_taken cs ≡ false → IsNested true (cs ++ 2 ∷ [])
IsNested-skip [] h a = absurd (ground arith)
IsNested-skip (d ∷ cs) (inl (e, h)) a = inl (e, IsNested-skip cs h (ground arith))
IsNested-skip (d ∷ cs) (inr (e, h)) a = inr (e, IsNested-skip_false cs h)

IsNested-flip-false :
    (cs : List ℕ) (c : ℕ) → IsNested false (cs ++ c ∷ []) → IsNested false (cs ++ flip c ∷ [])
unfolding flip
IsNested-flip-false [] c h = rw h.0 (refl, tt)
IsNested-flip-false (d ∷ cs) c h = (h.0, IsNested-flip-false cs c h.1)

IsNested-flip :
    (cs : List ℕ) (c : ℕ) → IsNested true (cs ++ c ∷ []) → IsNested true (cs ++ flip c ∷ [])
unfolding flip
IsNested-flip [] c (inl (e, h)) = rw e (inr (refl, tt))
IsNested-flip [] c (inr (e, h)) = rw e (inl (refl, tt))
IsNested-flip (d ∷ cs) c (inl (e, h)) = inl (e, IsNested-flip cs c h)
IsNested-flip (d ∷ cs) c (inr (e, h)) = inr (e, IsNested-flip-false cs c h)

IsNested-front :
    (taken : Bool) (cs : List ℕ) (c : ℕ) → IsNested taken (cs ++ c ∷ []) → IsNested taken cs
IsNested-front taken [] c h = tt
IsNested-front true (d ∷ cs) c (inl (e, h)) = inl (e, IsNested-front true cs c h)
IsNested-front true (d ∷ cs) c (inr (e, h)) = inr (e, IsNested-front false cs c h)
IsNested-front false (d ∷ cs) c h = (h.0, IsNested-front false cs c h.1)

-- Popping the condition leaves the conditional stack alone.
pop_if_bool_frame :
    (vm w : Engine) (b : Bool) → pop_if_bool vm ≡ done b w → w.cond_stack ≡ vm.cond_stack
unfolding pop_if_bool if_bool
pop_if_bool_frame vm w b h = ground arith

push_stack :
    (c : ℕ) (u w : Engine) → push_cond c u ≡ done tt w → w.cond_stack ≡ u.cond_stack ++ c ∷ []
unfolding push_cond
push_stack c u w e = ground arith

chain_stack :
    (f : Bool → ℕ) (vm w : Engine)
    → (pop_if_bool >>= λ b. push_cond (f b)) vm ≡ done tt w
    → (b : Bool) × (w.cond_stack ≡ vm.cond_stack ++ f b ∷ [])
chain_stack f vm w e =
    let (b, u, popped, pushed) = >>=-eq-done pop_if_bool (λ b. push_cond (f b)) vm e in
    (b, push_stack (f b) u w pushed ∙ ap (λ t. t ++ f b ∷ []) (pop_if_bool_frame vm u b popped))

-- The code pushes a taken or a not taken condition only where the branch runs, and a skip elsewhere.
pushed_cond :
    (f : Bool → ℕ) (vm w : Engine)
    → ((b : Bool) → (f b ≡ 1) ⊎ (f b ≡ 0))
    → IsNested true vm.cond_stack
    → (if is_branch_executing vm
        then (pop_if_bool >>= λ b. push_cond (f b)) vm
        else push_cond cond_skip vm)
      ≡ done tt w
    → IsNested true w.cond_stack
pushed_cond f vm w two h e = elim (Bool-cases (is_branch_executing vm)) [
  | inl runs ↦
      let (b, stack) = chain_stack f vm w (rw runs at e) in
      rw stack (
        IsNested-taken vm.cond_stack (f b) h (sym (is_branch_executing-all_taken vm h) ∙ runs)
          (two b))
  | inr idle ↦
      rw (push_stack cond_skip vm w (rw idle at e))
        (IsNested-skip vm.cond_stack h (sym (is_branch_executing-all_taken vm h) ∙ idle))
]

flip_top-IsNested : (cs : List ℕ) → IsNested true cs → IsNested true (flip_top cs)
unfolding flip_top
flip_top-IsNested cs h = elim (snoc_view cs) [
  | inl e ↦ rw e tt
  | inr (front, c, e) ↦
      let n : length (front ++ c ∷ []) - 1 ≡ length front = omega (arith, length-snoc front c) in
      rw (e, n, get_or-append front c [] cond_skip, set-append front c (flip c) [])
        (IsNested-flip front c (subst (IsNested true) e h))
]

drop_top-IsNested : (cs : List ℕ) → IsNested true cs → IsNested true (drop_top cs)
unfolding drop_top
drop_top-IsNested cs h = elim (snoc_view cs) [
  | inl e ↦ rw e tt
  | inr (front, c, e) ↦
      let n : length (front ++ c ∷ []) - 1 ≡ length front = omega (arith, length-snoc front c) in
      rw (e, n, take-append front (c ∷ []))
        (IsNested-front true front c (subst (IsNested true) e h))
]

else_stack : (vm w : Engine) → opcode_else vm ≡ done tt w → w.cond_stack ≡ flip_top vm.cond_stack
unfolding opcode_else
else_stack vm w e = ground arith

endif_stack : (vm w : Engine) → opcode_endif vm ≡ done tt w → w.cond_stack ≡ drop_top vm.cond_stack
unfolding opcode_endif
endif_stack vm w e = ground arith

-- One of the four conditional opcodes ran from the first engine to the second.
pub data RunsConditional (vm w : Engine) : Type 0 where
  by_if : opcode_if vm ≡ done tt w → RunsConditional vm w
  by_not_if : opcode_not_if vm ≡ done tt w → RunsConditional vm w
  by_else : opcode_else vm ≡ done tt w → RunsConditional vm w
  by_endif : opcode_endif vm ≡ done tt w → RunsConditional vm w

-- Each of OP_IF, OP_NOTIF, OP_ELSE and OP_ENDIF keeps the conditional stack well nested.
pub RunsConditional-IsNested :
    (vm w : Engine)
    → RunsConditional vm w
    → IsNested true vm.cond_stack
    → IsNested true w.cond_stack
unfolding opcode_if opcode_not_if
RunsConditional-IsNested vm w (by_if e) h =
    pushed_cond (λ b. if b then cond_true else cond_false) vm w (λ b. ground arith) h e
RunsConditional-IsNested vm w (by_not_if e) h =
    pushed_cond (λ b. if not b then cond_true else cond_false) vm w (λ b. ground arith) h e
RunsConditional-IsNested vm w (by_else e) h =
    rw (else_stack vm w e) (flip_top-IsNested vm.cond_stack h)
RunsConditional-IsNested vm w (by_endif e) h =
    rw (endif_stack vm w e) (drop_top-IsNested vm.cond_stack h)
