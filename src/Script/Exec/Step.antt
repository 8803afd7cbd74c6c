-- ===== src/Script/Exec/Step.antt =====
-- What a successful `Step` did: it ran the opcode at the program counter, within the limits.
use eiyaro.Common.{
  ℕ, zero, suc, ◌+◌, ◌≤◌, ◌<◌, ◌≡◌, refl, sym, ◌∙◌, ap, Bool, false, List, [], ◌∷◌, Option, none,
  some, length, get_elem?, if◌then◌else◌, arith, Option-cases, inl, inr,
}
use eiyaro.Script.Outcome.{M, done, panic, >>=-eq-done}
use eiyaro.Script.Stack.{depth}
use eiyaro.Script.Engine.{Engine, Handler, ParsedOpcode, Crypto}
use eiyaro.Script.Opcode.MultiSig.{Scheme, opcode_check_multi_sig, opcode_check_multi_sig_ecdsa}
use eiyaro.Script.Opcode.Frame.{SameProgram}
use eiyaro.Script.Opcode.Frame.MultiSig.{
  Frames-opcode_check_multi_sig, Frames-opcode_check_multi_sig_ecdsa,
}
use eiyaro.Script.Exec.{
  valid_pc, fetch, execute_opcode, check_stack_size, max_stack_size, at_end, finish_script, step,
}
use eiyaro.Script.Exec.Program.{execute_opcode-SameProgram}

-- The opcode at the program counter has run: the same program, one opcode further, with stacks that
-- are within the limit.
pub record Ran (vm w : Engine) : Type 0 where
  pub script : List ParsedOpcode
  pub current : get_elem? vm.scripts vm.script_idx ≡ some script
  pub in_script : vm.script_off < length script
  pub same_scripts : w.scripts ≡ vm.scripts
  pub same_script : w.script_idx ≡ vm.script_idx
  pub further : w.script_off ≡ suc vm.script_off
  pub same_kind : w.is_p2sh ≡ vm.is_p2sh
  pub same_saved : w.saved_first_stack ≡ vm.saved_first_stack
  pub within_limit : length w.dstack + length w.astack ≤ max_stack_size

valid_pc-done : (vm w : Engine) → valid_pc vm ≡ done tt w → w ≡ vm
unfolding valid_pc
valid_pc-done vm w h = ground arith

get_elem?-lt :
    (xs : List ParsedOpcode) (i : ℕ) (x : ParsedOpcode) → get_elem? xs i ≡ some x → i < length xs
get_elem?-lt [] i x h = ground arith
get_elem?-lt (y ∷ xs) zero x h = omega arith
get_elem?-lt (y ∷ xs) (suc i) x h = omega (arith, get_elem?-lt xs i x h)

-- What is fetched.
record Fetched (vm w : Engine) (pop : ParsedOpcode) : Type 0 where
  script : List ParsedOpcode
  current : get_elem? vm.scripts vm.script_idx ≡ some script
  in_script : vm.script_off < length script
  moved : w ≡ record vm { script_off = vm.script_off + 1 }

fetch_from :
    (vm w : Engine) (pop : ParsedOpcode) (s : List ParsedOpcode) (p : Option ParsedOpcode)
    → get_elem? vm.scripts vm.script_idx ≡ some s
    → get_elem? s vm.script_off ≡ p
    → (elim p [ none ↦ panic | some q ↦ done q (record vm { script_off = vm.script_off + 1 }) ])
      ≡ done pop w
    → Fetched vm w pop
fetch_from vm w pop s none e f h = absurd (ground (arith, h))
fetch_from vm w pop s (some q) e f h = record {
  script = s;
  current = e;
  in_script = get_elem?-lt s vm.script_off q f;
  moved = ground arith;
}

Fetched-fetch : (vm w : Engine) (pop : ParsedOpcode) → fetch vm ≡ done pop w → Fetched vm w pop
unfolding fetch
Fetched-fetch vm w pop h = elim (Option-cases (get_elem? vm.scripts vm.script_idx)) [
  | inl e ↦ absurd (ground (arith, (rw (e, fetch) at h)))
  | inr (s, e) ↦ fetch_from vm w pop s (get_elem? s vm.script_off) e refl (rw (e, fetch) at h)
]

within :
    (v w : Engine)
    → check_stack_size v ≡ done tt w
    → (w ≡ v) × (length v.dstack + length v.astack ≤ max_stack_size)
unfolding check_stack_size depth
within v w h = ground arith

module _ (c : Crypto) (schnorr ecdsa : Scheme) where
  -- `Step`, with the multi-signature checks of opcode.go.
  abbrev pub engine_step : M Engine Bool
  engine_step = step c (opcode_check_multi_sig schnorr) (opcode_check_multi_sig_ecdsa ecdsa)

  abbrev run_opcode : ParsedOpcode → Handler
  run_opcode =
      execute_opcode c (opcode_check_multi_sig schnorr) (opcode_check_multi_sig_ecdsa ecdsa)

  Ran-of :
      (vm u v : Engine) (pop : ParsedOpcode)
      → Fetched vm u pop
      → SameProgram u v
      → length v.dstack + length v.astack ≤ max_stack_size
      → Ran vm v
  Ran-of vm u v pop f p small = record {
    script = f.script;
    current = f.current;
    in_script = f.in_script;
    same_scripts = p.same_scripts ∙ ap (λ t. t.scripts) f.moved;
    same_script = p.same_script ∙ ap (λ t. t.script_idx) f.moved;
    further = p.same_offset ∙ ap (λ t. t.script_off) f.moved ∙ omega arith;
    same_kind = p.same_kind ∙ ap (λ t. t.is_p2sh) f.moved;
    same_saved = p.same_saved ∙ ap (λ t. t.saved_first_stack) f.moved;
    within_limit = small;
  }

  -- A successful step ran the opcode, and then finished the script if that was its last.
  pub step-Ran :
      (vm w : Engine) (last : Bool)
      → engine_step vm ≡ done last w
      → (v : Engine) × Ran vm v
        × ((if at_end v then finish_script v else done false v) ≡ done last w)
  unfolding step
  step-Ran vm w last h =
      let (_, vm₁, valid, h₁) = >>=-eq-done valid_pc _ vm h in
      let (pop, u, fetched, h₂) = >>=-eq-done fetch _ vm₁ h₁ in
      let (_, v, ran, h₃) = >>=-eq-done (run_opcode pop) _ u h₂ in
      let (_, v₁, sized, h₄) = >>=-eq-done check_stack_size _ v h₃ in
      let (same, small) = within v v₁ sized in
      (
        v,
        Ran-of vm u v pop
            (Fetched-fetch vm u pop (ap fetch (sym (valid_pc-done vm vm₁ valid)) ∙ fetched))
            (execute_opcode-SameProgram c _ _ (Frames-opcode_check_multi_sig schnorr)
              (Frames-opcode_check_multi_sig_ecdsa ecdsa) pop u v ran)
            small,
        ap (λ t. if at_end t then finish_script t else done false t) (sym same) ∙ h₄,
      )
