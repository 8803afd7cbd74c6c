-- ===== src/Script/Exec/Finish.antt =====
-- What the end of a script does to the engine: the part of `Step` behind "Prepare for next
-- instruction".
use mathlib.Core.List.{append-nil, append_assoc}
use mathlib.Core.Path.{ap₂}
use eiyaro.Common.{
  ℕ, zero, suc, ◌+◌, ◌-◌, ◌≤◌, ◌≡◌, refl, sym, ◌∙◌, ap, Bool, true, false, List, [], ◌∷◌, ◌++◌,
  ◌&&◌, length, get_elem?, leb, ◌==◌, if◌then◌else◌, take, arith, pos, Option-cases, Bool-cases,
  ◌⊎◌, inl, inr,
}
use eiyaro.Script.Outcome.{M, Outcome, Result, ok, err, done, fail, panic, ◌>>◌, >>=-eq-done}
use eiyaro.Script.Num.{max_int32}
use eiyaro.Script.Stack.{Stack, depth, drop_n, push_byte_array}
use eiyaro.Script.Stack.Laws.{drop_n_lem}
use eiyaro.Script.Engine.{Engine, ParsedOpcode, on_dstack, on_astack}
use eiyaro.Script.Parse.{parse_script}
use eiyaro.Script.Exec.{
  ignore, drop_all, push_all, set_stack, check_error_condition, load_redeem_script, next_script,
  at_end, skip_empty, finish_script,
}

done_eq : (s t : Stack) → ◌≡◌ {A = Outcome Stack (Unit {0})} (done tt s) (done tt t) → s ≡ t
done_eq s t h = ground arith

depth-done :
    (s t : Stack) (n : ℕ) → depth s ≡ done n t → (n ≡ length s) × (t ≡ s) × (length s ≤ max_int32)
unfolding depth
depth-done s t n h = ground arith

-- All is dropped: DropN fails on an empty stack only, where there is nothing to drop.
drop_all-nil : (s t : Stack) → drop_all s ≡ done tt t → t ≡ []
unfolding drop_all depth drop_n
drop_all-nil [] t h = sym (done_eq [] t h)
drop_all-nil (x ∷ s) t h =
    let (n, u, counted, dropped) = >>=-eq-done depth _ (x ∷ s) h in
    let (e, f, small) = depth-done (x ∷ s) u n counted in
    let all_gone : drop_n (pos (suc (length s))) (x ∷ s) ≡ done tt [] =
      drop_n_lem [] (x ∷ s) (length s) refl small in
    let same : ignore (drop_n (pos (suc (length s)))) (x ∷ s) ≡ done tt t =
      ap₂ (λ k v. ignore (drop_n (pos k)) v) (sym e) (sym f) ∙ dropped in
    sym (done_eq [] t (rw (ignore, all_gone) at same))

push_all-append : (items s : Stack) → push_all items s ≡ done tt (s ++ items)
unfolding push_all push_byte_array
push_all-append [] s = ap (done tt) (sym (append-nil s))
push_all-append (b ∷ items) s =
    push_all-append items (s ++ b ∷ []) ∙ ap (done tt) (append_assoc s (b ∷ []) items)

set_stack-eq : (items s t : Stack) → set_stack items s ≡ done tt t → t ≡ items
unfolding set_stack
set_stack-eq items s t h =
    let (_, u, dropped, pushed) = >>=-eq-done drop_all _ s h in
    let none_left : u ≡ [] = drop_all-nil s u dropped in
    sym (done_eq (u ++ items) t (sym (push_all-append items u) ∙ pushed))
    ∙ ap (λ v. v ++ items) none_left

-- The engine after the switch at the end of a script.
pub data Switched (u w : Engine) : Type 0 where
  to_next :
      w.scripts ≡ u.scripts
      → w.script_idx ≡ suc u.script_idx
      → w.dstack ≡ u.dstack
      → (w.saved_first_stack ≡ u.saved_first_stack) ⊎ (w.saved_first_stack ≡ u.dstack)
      → Switched u w
  to_redeem :
      u.is_p2sh ≡ true
      → u.script_idx ≡ 1
      → w.script_idx ≡ 2
      → length w.dstack ≤ length u.saved_first_stack
      → w.saved_first_stack ≡ u.saved_first_stack
      → Switched u w

-- What the end of a script leaves alone.
pub record Kept (u w : Engine) : Type 0 where
  pub same_offset : w.script_off ≡ u.script_off
  pub same_kind : w.is_p2sh ≡ u.is_p2sh
  pub same_astack : w.astack ≡ u.astack

checked :
    (v w : Engine) → check_error_condition false v ≡ done tt w → w ≡ record v { dstack = w.dstack }
unfolding check_error_condition
checked v w h = ground arith

on_dstack-done :
    (m : M Stack (Unit {0})) (v w : Engine)
    → on_dstack m v ≡ done tt w
    → (t : Stack) × (m v.dstack ≡ done tt t) × (w ≡ record v { dstack = t })
on_dstack-done m v w h = of_outcome (m v.dstack) refl h
  where
    of_outcome :
        (o : Outcome Stack (Unit {0}))
        → m v.dstack ≡ o
        → (elim o [
          | done a s ↦ done a (record v { dstack = s })
          | fail e s ↦ fail e (record v { dstack = s })
          | panic ↦ panic
        ])
          ≡ done tt w
        → (t : Stack) × (m v.dstack ≡ done tt t) × (w ≡ record v { dstack = t })
    of_outcome (done a s) e h = (s, e, ground arith)
    of_outcome (fail x s) e h = absurd (ground (arith, h))
    of_outcome panic e h = absurd (ground (arith, h))

length-take-le : (n : ℕ) (xs : Stack) → length (take n xs) ≤ length xs
length-take-le zero xs = omega arith
length-take-le (suc n) [] = omega arith
length-take-le (suc n) (x ∷ xs) = omega (arith, length-take-le n xs)

redeemed_from :
    (v w : Engine) (items : Stack) (r : Result (List ParsedOpcode))
    → (elim r [
      | err e ↦ fail e v
      | ok pops ↦ on_dstack (set_stack items) (record v { scripts = v.scripts ++ pops ∷ [] })
    ])
      ≡ done tt w
    → (w.dstack ≡ items) × (w ≡ record v { scripts = w.scripts; dstack = w.dstack })
redeemed_from v w items (err e) h = absurd (ground (arith, h))
redeemed_from v w items (ok pops) h =
    let (t, set, e) =
      on_dstack-done (set_stack items) (record v { scripts = v.scripts ++ pops ∷ [] }) w h in
    let same : w.dstack ≡ t = ap (λ u. u.dstack) e in
    (same ∙ set_stack-eq items v.dstack t set, ground (arith, e, same))

redeemed :
    (v w : Engine)
    → load_redeem_script v ≡ done tt w
    → (length w.dstack ≤ length v.saved_first_stack)
      × (w ≡ record v { scripts = w.scripts; dstack = w.dstack })
unfolding load_redeem_script
redeemed v w h =
    elim (Option-cases (get_elem? v.saved_first_stack (length v.saved_first_stack - 1))) [
      | inl e ↦ absurd (ground (arith, (rw (e, load_redeem_script) at h)))
      | inr (script, e) ↦
          let (same, kept) =
            redeemed_from v w (take (length v.saved_first_stack - 1) v.saved_first_stack)
              (parse_script script) (rw (e, load_redeem_script) at h) in
          (rw same (length-take-le (length v.saved_first_stack - 1) v.saved_first_stack), kept)
    ]

redeem :
    (u w : Engine)
    → u.is_p2sh ≡ true
    → u.script_idx ≡ 1
    → (check_error_condition false >> load_redeem_script)
        (record u { script_idx = u.script_idx + 1 })
      ≡ done tt w
    → Switched u w × Kept u w
redeem u w k i h =
    let (_, v, c, r) =
      >>=-eq-done (check_error_condition false) _ (record u { script_idx = u.script_idx + 1 }) h in
    let e = checked (record u { script_idx = u.script_idx + 1 }) v c in
    let (small, f) = redeemed v w r in
    (
      to_redeem k i (ap (λ t. t.script_idx) f ∙ ap (λ t. t.script_idx) e ∙ omega (arith, i))
          (omega (arith, small, ap (λ t. length t.saved_first_stack) e))
          (ap (λ t. t.saved_first_stack) f ∙ ap (λ t. t.saved_first_stack) e),
      record {
        same_offset = ap (λ t. t.script_off) f ∙ ap (λ t. t.script_off) e;
        same_kind = ap (λ t. t.is_p2sh) f ∙ ap (λ t. t.is_p2sh) e;
        same_astack = ap (λ t. t.astack) f ∙ ap (λ t. t.astack) e;
      },
    )

advance :
    (u w : Engine) (saved : Stack)
    → (saved ≡ u.saved_first_stack) ⊎ (saved ≡ u.dstack)
    → record u { script_idx = u.script_idx + 1; saved_first_stack = saved } ≡ w
    → Switched u w × Kept u w
advance u w saved s e = (
  to_next (sym (ap (λ t. t.scripts) e)) (sym (ap (λ t. t.script_idx) e) ∙ omega arith)
      (sym (ap (λ t. t.dstack) e))
      (elim s [
        | inl k ↦ inl (sym (ap (λ t. t.saved_first_stack) e) ∙ k)
        | inr k ↦ inr (sym (ap (λ t. t.saved_first_stack) e) ∙ k)
      ]),
  record {
    same_offset = sym (ap (λ t. t.script_off) e);
    same_kind = sym (ap (λ t. t.is_p2sh) e);
    same_astack = sym (ap (λ t. t.astack) e);
  },
)

done_state : (s t : Engine) → ◌≡◌ {A = Outcome Engine (Unit {0})} (done tt s) (done tt t) → s ≡ t
done_state s t h = ground arith

both : (a b : Bool) → a && b ≡ true → (a ≡ true) × (b ≡ true)
both a b h = ground arith

is_one : (i : ℕ) → i == 1 ≡ true → i ≡ 1
is_one i h = ground arith

pub next_script-Switched : (u w : Engine) → next_script u ≡ done tt w → Switched u w × Kept u w
unfolding next_script
next_script-Switched u w h = elim (Bool-cases (u.script_idx == 0 && u.is_p2sh)) [
  | inl first ↦ advance u w u.dstack (inr refl) (done_state _ w (rw (first, next_script) at h))
  | inr later ↦ elim (Bool-cases (u.script_idx == 1 && u.is_p2sh)) [
    | inl second ↦
        let (i, k) = both (u.script_idx == 1) u.is_p2sh second in
        redeem u w k (is_one u.script_idx i) (rw (later, second, next_script) at h)
    | inr other ↦
        advance u w u.saved_first_stack (inl refl)
          (done_state _ w (rw (later, other, next_script) at h))
  ]
]

on_or_stay : (b : Bool) (i : ℕ) → i ≤ (if b then i + 1 else i)
on_or_stay true i = omega arith
on_or_stay false i = omega arith

done_parts : (a b : Bool) (s t : Engine) → done a s ≡ done b t → (a ≡ b) × (s ≡ t)
done_parts a b s t h = (ground arith, ground arith)

-- The end of a script, as a whole.
pub record Finished (v w : Engine) (last : Bool) : Type 0 where
  pub arrived : Engine
  pub switched : Switched v arrived
  pub same_kind : arrived.is_p2sh ≡ v.is_p2sh
  pub alt_empty : arrived.astack ≡ []
  pub at_start : arrived.script_off ≡ 0
  pub skipped : w ≡ record arrived { script_idx = w.script_idx }
  pub onwards : arrived.script_idx ≤ w.script_idx
  pub is_last : last ≡ leb (length w.scripts) w.script_idx

-- `skip_empty` from the index that it goes to.
skipped_to :
    (u w : Engine) (idx : ℕ) (last : Bool)
    → u.script_idx ≤ idx
    → done (leb (length u.scripts) idx) (record u { script_idx = idx }) ≡ done last w
    → (w ≡ record u { script_idx = w.script_idx })
      × (u.script_idx ≤ w.script_idx)
      × (last ≡ leb (length w.scripts) w.script_idx)
skipped_to u w idx last on h =
    let (e, f) = done_parts (leb (length u.scripts) idx) last _ w h in
    let i : idx ≡ w.script_idx = ap (λ t. t.script_idx) f in
    (
      sym f ∙ ap (λ k. record u { script_idx = k }) i,
      omega (arith, on, i),
      sym e ∙ ap₂ (λ xs k. leb (length xs) k) (ap (λ t. t.scripts) f) i,
    )

skipped_empty :
    (u w : Engine) (last : Bool)
    → skip_empty u ≡ done last w
    → (w ≡ record u { script_idx = w.script_idx })
      × (u.script_idx ≤ w.script_idx)
      × (last ≡ leb (length w.scripts) w.script_idx)
unfolding skip_empty
skipped_empty u w last h =
    skipped_to u w (if at_end u then u.script_idx + 1 else u.script_idx) last
      (on_or_stay (at_end u) u.script_idx) h

-- A switch from an engine that differs in what the switch does not read.
from_reset :
    (v u : Engine) (s : Stack)
    → Switched (record v { astack = s; num_ops = 0; script_off = 0 }) u
    → Switched v u
from_reset v u s (to_next a b c d) = to_next a b c d
from_reset v u s (to_redeem a b c d e) = to_redeem a b c d e

on_astack-done :
    (m : M Stack (Unit {0})) (v w : Engine)
    → on_astack m v ≡ done tt w
    → (t : Stack) × (m v.astack ≡ done tt t) × (w ≡ record v { astack = t })
on_astack-done m v w h = of_outcome (m v.astack) refl h
  where
    of_outcome :
        (o : Outcome Stack (Unit {0}))
        → m v.astack ≡ o
        → (elim o [
          | done a s ↦ done a (record v { astack = s })
          | fail e s ↦ fail e (record v { astack = s })
          | panic ↦ panic
        ])
          ≡ done tt w
        → (t : Stack) × (m v.astack ≡ done tt t) × (w ≡ record v { astack = t })
    of_outcome (done a s) e h = (s, e, ground arith)
    of_outcome (fail x s) e h = absurd (ground (arith, h))
    of_outcome panic e h = absurd (ground (arith, h))

Finished-from :
    (v w : Engine) (last : Bool)
    → (on_astack drop_all
          >> (λ u. (next_script >> skip_empty) (record u { num_ops = 0; script_off = 0 })))
        v
      ≡ done last w
    → Finished v w last
Finished-from v w last h =
    let (_, v₁, dropped, h₁) = >>=-eq-done (on_astack drop_all) _ v h in
    let (s, cleared, e) = on_astack-done drop_all v v₁ dropped in
    let (_, u, switched, h₂) =
      >>=-eq-done next_script _ (record v { astack = s; num_ops = 0; script_off = 0 })
        (ap (λ t. (next_script >> skip_empty) (record t { num_ops = 0; script_off = 0 })) (sym e)
          ∙ h₁) in
    let (sw, kept) = next_script-Switched _ u switched in
    let (skipped, onwards, is_last) = skipped_empty u w last h₂ in
    record {
      arrived = u;
      switched = from_reset v u s sw;
      same_kind = kept.same_kind;
      alt_empty = kept.same_astack ∙ drop_all-nil v.astack s cleared;
      at_start = kept.same_offset;
      skipped = skipped;
      onwards = onwards;
      is_last = is_last;
    }

pub finish_script-Finished :
    (v w : Engine) (last : Bool) → finish_script v ≡ done last w → Finished v w last
unfolding finish_script
finish_script-Finished v w last h = elim (Bool-cases (length v.cond_stack == 0)) [
  | inl closed ↦ Finished-from v w last (rw (closed, finish_script) at h)
  | inr pending ↦ absurd (ground (arith, (rw (pending, finish_script) at h)))
]
