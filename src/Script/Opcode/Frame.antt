-- ===== src/Script/Opcode/Frame.antt =====
-- The handlers change the stacks and the conditional stack, and nothing of the program that runs.
pub mod Handlers
pub mod MultiSig
use eiyaro.Common.{
  ℕ, Bool, true, false, List, ◌≡◌, refl, ◌∙◌, arith, if◌then◌else◌, length, [], ◌==◌, Option, none,
  some,
}
use eiyaro.Script.Outcome.{
  M, Outcome, Result, ok, err, done, fail, panic, ◌>>=◌, ◌>>◌, pure, throw, lift, >>=-eq-done,
  ErrorCode,
}
use eiyaro.Script.Num.{Bytes}
use eiyaro.Script.Stack.{Stack}
use eiyaro.Script.Engine.{Engine, Handler, ParsedOpcode, on_dstack, on_astack, is_branch_executing}
use eiyaro.Common.{get_elem?, ◌∷◌}
use eiyaro.Script.Engine.{Crypto, cond_true, cond_false, cond_skip}
use eiyaro.Common.{not}
use eiyaro.Script.Outcome.{unbalanced_conditional, check_multi_sig_verify, check_sig_verify}
use eiyaro.Script.Opcode.Control.{
  flip_top, drop_top, opcode_false, opcode_push_data, opcode_1_negate, opcode_n, opcode_nop,
  opcode_verify, opcode_return, opcode_disabled, opcode_reserved, opcode_invalid, abstract_verify,
  opcode_if, opcode_not_if, opcode_else, opcode_endif, if_bool, pop_if_bool, push_cond,
}
use eiyaro.Script.Opcode.Shuffle.{
  opcode_to_alt_stack, opcode_from_alt_stack, opcode_2_drop, opcode_2_dup, opcode_3_dup,
  opcode_2_over, opcode_2_rot, opcode_2_swap, opcode_if_dup, opcode_depth, opcode_drop, opcode_dup,
  opcode_nip, opcode_over, opcode_pick, opcode_roll, opcode_rot, opcode_swap, opcode_tuck,
  opcode_size, opcode_equal, opcode_equal_verify,
}
use eiyaro.Script.Opcode.Arith.{
  unary, binary, opcode_1_add, opcode_1_sub, opcode_negate, opcode_abs, opcode_not,
  opcode_0_not_equal, opcode_add, opcode_sub, opcode_bool_and, opcode_bool_or, opcode_num_equal,
  opcode_num_equal_verify, opcode_num_not_equal, opcode_less_than, opcode_greater_than,
  opcode_less_than_or_equal, opcode_greater_than_or_equal, opcode_min, opcode_max, opcode_within,
}
use eiyaro.Script.Opcode.Signature.{
  opcode_sha256, opcode_blake2b, push_verdict, opcode_check_sig, opcode_check_sig_ecdsa,
  opcode_check_sig_verify,
}
use eiyaro.Script.Outcome.{unsatisfied_lock_time}
use eiyaro.Script.Opcode.Locks.{
  verify_lock_time_with_threshold, lock_time_threshold, max_tx_in_sequence_num, tx_sequence,
  opcode_check_lock_time_verify, opcode_check_sequence_verify,
}
use eiyaro.Script.Opcode.Table.{
  opcode_check_multi_sig_verify, signature_entry, arith_entry, shuffle_entry, control_entry, opfunc,
}

-- The second engine runs the same program at the same place.
pub record SameProgram (vm w : Engine) : Type 0 where
  pub same_scripts : w.scripts ≡ vm.scripts
  pub same_script : w.script_idx ≡ vm.script_idx
  pub same_offset : w.script_off ≡ vm.script_off
  pub same_kind : w.is_p2sh ≡ vm.is_p2sh
  pub same_saved : w.saved_first_stack ≡ vm.saved_first_stack

pub record Frames {A : Type 0} (m : M Engine A) : Type 0 where
  pub frame : (vm w : Engine) (a : A) → m vm ≡ done a w → SameProgram vm w

SameProgram-trans : (u v w : Engine) → SameProgram u v → SameProgram v w → SameProgram u w
SameProgram-trans u v w p q = record {
  same_scripts = q.same_scripts ∙ p.same_scripts;
  same_script = q.same_script ∙ p.same_script;
  same_offset = q.same_offset ∙ p.same_offset;
  same_kind = q.same_kind ∙ p.same_kind;
  same_saved = q.same_saved ∙ p.same_saved;
}

SameProgram-refl : (vm : Engine) → SameProgram vm vm
SameProgram-refl vm = record {
  same_scripts = refl;
  same_script = refl;
  same_offset = refl;
  same_kind = refl;
  same_saved = refl;
}

dstack_frame :
    {A : Type 0} (vm w : Engine) (a : A) (o : Outcome Stack A)
    → (elim o [
      | done a s ↦ done a (record vm { dstack = s })
      | fail e s ↦ fail e (record vm { dstack = s })
      | panic ↦ panic
    ])
      ≡ done a w
    → SameProgram vm w
dstack_frame vm w a o h = record {
  same_scripts = ground arith;
  same_script = ground arith;
  same_offset = ground arith;
  same_kind = ground arith;
  same_saved = ground arith;
}

pub Frames-on_dstack : {A : Type 0} (m : M Stack A) → Frames (on_dstack m)
Frames-on_dstack m = record { frame = λ vm w a h. dstack_frame vm w a (m vm.dstack) h }

pub Frames->>= :
    {A B : Type 0} (m : M Engine A) (f : A → M Engine B)
    → Frames m
    → ((a : A) → Frames (f a))
    → Frames (m >>= f)
Frames->>= m f p q = record {
  frame = λ vm w b h.
      let (a, u, e, g) = >>=-eq-done m f vm h in
      SameProgram-trans vm u w (p.frame vm u a e) ((q a).frame u w b g);
}

pub Frames-if :
    {A : Type 0} (b : Bool) (h k : M Engine A) → Frames h → Frames k → Frames (if b then h else k)
Frames-if true h k p q = p
Frames-if false h k p q = q

done_frame :
    {A : Type 0} (vm w : Engine) (a b : A) → Outcome.done a vm ≡ done b w → SameProgram vm w
done_frame vm w a b h = record {
  same_scripts = ground arith;
  same_script = ground arith;
  same_offset = ground arith;
  same_kind = ground arith;
  same_saved = ground arith;
}

pub Frames-pure : {A : Type 0} (a : A) → Frames (pure a)
Frames-pure a = record { frame = λ vm w b h. done_frame vm w a b h }

pub Frames-throw : {A : Type 0} (e : ErrorCode) → Frames {A = A} (throw e)
Frames-throw e = record { frame = λ vm w b h. absurd (ground (arith, h)) }

pub Frames-lift : {A : Type 0} (r : Result A) → Frames (lift r)
Frames-lift (ok a) = Frames-pure a
Frames-lift (err e) = Frames-throw e

astack_frame :
    {A : Type 0} (vm w : Engine) (a : A) (o : Outcome Stack A)
    → (elim o [
      | done a s ↦ done a (record vm { astack = s })
      | fail e s ↦ fail e (record vm { astack = s })
      | panic ↦ panic
    ])
      ≡ done a w
    → SameProgram vm w
astack_frame vm w a o h = record {
  same_scripts = ground arith;
  same_script = ground arith;
  same_offset = ground arith;
  same_kind = ground arith;
  same_saved = ground arith;
}

pub Frames-on_astack : {A : Type 0} (m : M Stack A) → Frames (on_astack m)
Frames-on_astack m = record { frame = λ vm w a h. astack_frame vm w a (m vm.astack) h }

pub ruleset frames = (
  Frames->>=, Frames-if, Frames-on_dstack, Frames-on_astack, Frames-pure, Frames-throw, Frames-lift,
)
