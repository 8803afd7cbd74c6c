-- ===== src/Script/Exec/Ends.antt =====
-- `Step` keeps the stacks within their limit, and `Execute` ends.
use mathlib.Core.Path.{subst}
use eiyaro.Common.{
  ℕ, zero, suc, ◌+◌, ◌-◌, ◌≤◌, ◌<◌, ◌≡◌, refl, sym, ◌∙◌, ap, Bool, true, false, List, [], ◌∷◌, inl,
  inr, Option, some, length, get_elem?, arith, Bool-cases, ltb,
}
use eiyaro.Script.Outcome.{Outcome, done, fail, panic}
use eiyaro.Script.Engine.{Engine, ParsedOpcode, Crypto}
use eiyaro.Script.Opcode.MultiSig.{Scheme, opcode_check_multi_sig, opcode_check_multi_sig_ecdsa}
use eiyaro.Script.Exec.{
  after_step, at_end, check_error_condition, execute, execute_loop, max_stack_size,
}
use eiyaro.Script.Exec.Step.{Ran, engine_step, step-Ran}
use eiyaro.Script.Exec.Finish.{Finished, finish_script-Finished, Switched, to_next, to_redeem}

-- The stacks of the engine are within the limit, and so is the saved one.
pub record IsBounded (vm : Engine) : Type 0 where
  pub stacks : length vm.dstack + length vm.astack ≤ max_stack_size
  pub saved : length vm.saved_first_stack ≤ max_stack_size

-- The opcodes from the start of a script on.
total_from : ℕ → List (List ParsedOpcode) → ℕ
total_from i [] = 0
total_from zero (s ∷ scripts) = length s + total_from zero scripts
total_from (suc i) (s ∷ scripts) = total_from i scripts

total_from-suc :
    (scripts : List (List ParsedOpcode)) (i : ℕ) → total_from (suc i) scripts ≤ total_from i scripts
unfolding total_from
total_from-suc [] i = omega arith
total_from-suc (s ∷ []) zero = omega arith
total_from-suc (s ∷ t ∷ scripts) zero = omega arith
total_from-suc (s ∷ scripts) (suc i) = total_from-suc scripts i

first_length :
    (t s : List ParsedOpcode) (scripts : List (List ParsedOpcode))
    → get_elem? (t ∷ scripts) 0 ≡ some s
    → length t ≡ length s
first_length t s scripts h = ground arith

total_from-get_elem? :
    (scripts : List (List ParsedOpcode)) (i : ℕ) (s : List ParsedOpcode)
    → get_elem? scripts i ≡ some s
    → total_from i scripts ≡ length s + total_from (suc i) scripts
unfolding total_from
total_from-get_elem? [] i s h = ground arith
total_from-get_elem? (t ∷ []) zero s h = omega (arith, first_length t s [] h)
total_from-get_elem? (t ∷ u ∷ scripts) zero s h = omega (arith, first_length t s (u ∷ scripts) h)
total_from-get_elem? (t ∷ scripts) (suc i) s h = total_from-get_elem? scripts i s h

total_from_mono :
    (scripts : List (List ParsedOpcode)) (i j : ℕ)
    → i ≤ j
    → total_from j scripts ≤ total_from i scripts
total_from_mono scripts i zero h = ap_le (omega (arith, h))
  where
    ap_le : i ≡ zero → total_from zero scripts ≤ total_from i scripts
    ap_le e = rw e (omega arith)
total_from_mono scripts i (suc j) h = elim (Bool-cases (ltb j i)) [
  | inl reached ↦ same (ground (arith, h, reached))
  | inr before ↦
      omega (arith, total_from_mono scripts i j (ground (arith, before)), total_from-suc scripts j)
]
  where
    same : i ≡ suc j → total_from (suc j) scripts ≤ total_from i scripts
    same e = rw e (omega arith)

-- What is left to run.
weight : Engine → ℕ
weight vm = total_from vm.script_idx vm.scripts - vm.script_off

-- A redeem script is loaded once: at the end of the second script.
data Shrunk (vm w : Engine) : Type 0 where
  less : weight w < weight vm → vm.script_idx ≤ w.script_idx → Shrunk vm w
  loaded : vm.script_idx ≡ 1 → 2 ≤ w.script_idx → Shrunk vm w

same_engine : (v w : Engine) → done false v ≡ done false w → v ≡ w
same_engine v w h = ground arith

forward : (vm v : Engine) → Ran vm v → Shrunk vm v
unfolding weight
forward vm v r =
    less
      (rw (r.same_scripts, r.same_script, r.further)
        (omega
          (arith, r.in_script, total_from-get_elem? vm.scripts vm.script_idx r.script r.current)))
      (omega (arith, r.same_script))

Switched-Shrunk :
    (vm v w : Engine) → Ran vm v → (f : Finished v w false) → Switched v f.arrived → Shrunk vm w
unfolding weight
Switched-Shrunk vm v w r f (to_next a b c d) =
    let scripts : w.scripts ≡ vm.scripts = ap (λ t. t.scripts) f.skipped ∙ a ∙ r.same_scripts in
    let start : w.script_off ≡ 0 = ap (λ t. t.script_off) f.skipped ∙ f.at_start in
    let later : suc vm.script_idx ≤ w.script_idx = omega (arith, b, f.onwards, r.same_script) in
    less
      (rw (scripts, start)
        (omega (
          arith,
          r.in_script,
          total_from_mono vm.scripts (suc vm.script_idx) w.script_idx later,
          total_from-get_elem? vm.scripts vm.script_idx r.script r.current,
        )))
      (omega (arith, later))
Switched-Shrunk vm v w r f (to_redeem a b c d e) =
    loaded (sym r.same_script ∙ b) (omega (arith, c, f.onwards))

same_done : (v w : Engine) (last : Bool) → done false v ≡ done last w → v ≡ w
same_done v w last h = ground arith

IsBounded-cong : (vm v w : Engine) → IsBounded vm → Ran vm v → v ≡ w → IsBounded w
IsBounded-cong vm v w b r e =
    subst (λ t. IsBounded t) e (record { stacks = r.within_limit; saved = rw r.same_saved b.saved })

Finished-IsBounded :
    (vm v w : Engine) (last : Bool)
    → IsBounded vm
    → Ran vm v
    → (f : Finished v w last) → Switched v f.arrived
    → IsBounded w
Finished-IsBounded vm v w last b r f s = record {
  stacks =
      rw (ap (λ t. t.astack) f.skipped ∙ f.alt_empty, ap (λ t. t.dstack) f.skipped)
        (omega (arith, data_of s));
  saved = rw (ap (λ t. t.saved_first_stack) f.skipped) (saved_of s);
}
  where
    data_of : Switched v f.arrived → length f.arrived.dstack ≤ max_stack_size
    data_of (to_next a b' c d) = rw c (omega (arith, r.within_limit))
    data_of (to_redeem a b' c d e) = omega (arith, d, ap length r.same_saved, b.saved)

    saved_of : Switched v f.arrived → length f.arrived.saved_first_stack ≤ max_stack_size
    saved_of (to_next a b' c (inl d)) = rw (d, r.same_saved) b.saved
    saved_of (to_next a b' c (inr d)) = rw d (omega (arith, r.within_limit))
    saved_of (to_redeem a b' c d e) = rw (e, r.same_saved) b.saved

module _ (c : Crypto) (schnorr ecdsa : Scheme) where
  engine_step-Shrunk : (vm w : Engine) → engine_step c schnorr ecdsa vm ≡ done false w → Shrunk vm w
  engine_step-Shrunk vm w h =
      let (v, r, e) = step-Ran c schnorr ecdsa vm w false h in
      elim (Bool-cases (at_end v)) [
        | inl finished ↦
            let f = finish_script-Finished v w false (rw finished at e) in
            Switched-Shrunk vm v w r f f.switched
        | inr going ↦ subst_shrunk vm v w r (same_engine v w (rw going at e))
      ]
    where
      subst_shrunk : (vm v w : Engine) → Ran vm v → v ≡ w → Shrunk vm w
      subst_shrunk vm v w r e = rw (sym e) (forward vm v r)

  abbrev run : ℕ → Engine → Option (Outcome Engine (Unit {0}))
  run = execute_loop c (opcode_check_multi_sig schnorr) (opcode_check_multi_sig_ecdsa ecdsa)

  abbrev then_loop :
      (Engine → Option (Outcome Engine (Unit {0})))
      → Outcome Engine Bool
      → Option (Outcome Engine (Unit {0}))
  then_loop = after_step c (opcode_check_multi_sig schnorr) (opcode_check_multi_sig_ecdsa ecdsa)

  -- Some fuel gives an outcome.
  abbrev Ends : Engine → Type 0
  Ends vm = (fuel : ℕ) × (o : Outcome Engine (Unit {0})) × (run fuel vm ≡ some o)

  after :
      (vm : Engine) (o : Outcome Engine Bool)
      → engine_step c schnorr ecdsa vm ≡ o
      → ((w : Engine) → engine_step c schnorr ecdsa vm ≡ done false w → Ends w)
      → Ends vm
  unfolding execute_loop after_step
  after vm (done true w) e next = (1, check_error_condition true w, ap (then_loop (run 0)) e)
  after vm (done false w) e next =
      let (fuel, o, r) = next w e in (suc fuel, o, ap (then_loop (run fuel)) e ∙ r)
  after vm (fail x w) e next = (1, fail x w, ap (then_loop (run 0)) e)
  after vm panic e next = (1, panic, ap (then_loop (run 0)) e)

  -- Past the second script every step has less to run.
  late_next :
      (n : ℕ) (vm w : Engine)
      → weight vm < suc n
      → 2 ≤ vm.script_idx
      → ((w : Engine) → weight w < n → 2 ≤ w.script_idx → Ends w)
      → Shrunk vm w
      → Ends w
  late_next n vm w small late rest (less l i) =
      rest w (omega (arith, l, small)) (omega (arith, late, i))
  late_next n vm w small late rest (loaded once two) = absurd (omega (arith, once, late))

  late_Ends : (n : ℕ) (vm : Engine) → weight vm < n → 2 ≤ vm.script_idx → Ends vm
  late_Ends zero vm small late = absurd (omega (arith, small))
  late_Ends (suc n) vm small late =
      after vm (engine_step c schnorr ecdsa vm) refl
        (λ w s. late_next n vm w small late (late_Ends n) (engine_step-Shrunk vm w s))

  any_next :
      (n : ℕ) (vm w : Engine)
      → weight vm < suc n
      → ((w : Engine) → weight w < n → Ends w)
      → Shrunk vm w
      → Ends w
  any_next n vm w small rest (less l i) = rest w (omega (arith, l, small))
  any_next n vm w small rest (loaded once two) = late_Ends (suc (weight w)) w (omega arith) two

  any_Ends : (n : ℕ) (vm : Engine) → weight vm < n → Ends vm
  any_Ends zero vm small = absurd (omega (arith, small))
  any_Ends (suc n) vm small =
      after vm (engine_step c schnorr ecdsa vm) refl
        (λ w s. any_next n vm w small (any_Ends n) (engine_step-Shrunk vm w s))

  -- From every engine there is a fuel with which Execute comes to an outcome: the loop of steps ends.
  pub execute_ends :
      (vm : Engine)
      → (fuel : ℕ) × (o : Outcome Engine (Unit {0})) × (execute c
            (opcode_check_multi_sig schnorr)
            (opcode_check_multi_sig_ecdsa ecdsa)
            fuel
            vm
          ≡ some o)
  unfolding execute
  execute_ends vm = elim (Bool-cases (ltb 0 vm.script_version)) [
    | inl skipped ↦ (0, done tt vm, rw skipped refl)
    | inr checked ↦
        let (fuel, o, r) = any_Ends (suc (weight vm)) vm (omega arith) in (fuel, o, rw checked r)
  ]

  -- A successful Step from an engine whose stacks are within the limit leaves stacks within the
  -- limit: the data and alternative stacks together, and the saved stack.
  pub step-IsBounded :
      (vm w : Engine) (last : Bool)
      → IsBounded vm
      → engine_step c schnorr ecdsa vm ≡ done last w
      → IsBounded w
  step-IsBounded vm w last b h =
      let (v, r, e) = step-Ran c schnorr ecdsa vm w last h in
      elim (Bool-cases (at_end v)) [
        | inl finished ↦
            let f = finish_script-Finished v w last (rw finished at e) in
            Finished-IsBounded vm v w last b r f f.switched
        | inr going ↦ IsBounded-cong vm v w b r (same_done v w last (rw going at e))
      ]
