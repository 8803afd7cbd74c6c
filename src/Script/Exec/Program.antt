-- ===== src/Script/Exec/Program.antt =====
-- Running an opcode does not change the program: the scripts and the position in them.
use eiyaro.Common.{◌≡◌, arith, leb, not, ◌&&◌, ◌==◌}
use eiyaro.Script.Outcome.{done, ◌>>◌, pure, lift}
use eiyaro.Script.Engine.{Engine, Handler, ParsedOpcode, Crypto, is_branch_executing}
use eiyaro.Script.Opcode.Table.{opfunc}
use eiyaro.Script.Opcode.Frame.{
  SameProgram, Frames, Frames->>=, Frames-if, Frames-pure, Frames-throw, Frames-lift,
}
use eiyaro.Script.Opcode.Frame.Handlers.{Frames-test, Frames-opfunc}
use eiyaro.Script.Exec.{
  count_operation, run_opfunc, execute_opcode, is_disabled, always_illegal, is_conditional,
  check_minimal_data_push,
}

Frames-count_operation : (pop : ParsedOpcode) → Frames (count_operation pop)
unfolding count_operation
Frames-count_operation pop = record {
  frame = λ vm w a h. record {
    same_scripts = ground arith;
    same_script = ground arith;
    same_offset = ground arith;
    same_kind = ground arith;
    same_saved = ground arith;
  };
}

module _ (c : Crypto) (multi multi_ecdsa : Handler) (fm : Frames multi) (fe : Frames multi_ecdsa)
    (pop : ParsedOpcode) where
  Frames-run_opfunc : Frames (run_opfunc c multi multi_ecdsa pop)
  unfolding run_opfunc
  Frames-run_opfunc =
      Frames-test (λ vm. is_branch_executing vm && (not (pop.value == 0) && leb pop.value 0x4e))
        (lift (check_minimal_data_push pop) >> opfunc c multi multi_ecdsa pop)
        (opfunc c multi multi_ecdsa pop)
        (Frames->>= (lift (check_minimal_data_push pop)) _ (Frames-lift _)
          (λ _. Frames-opfunc c multi multi_ecdsa fm fe pop))
        (Frames-opfunc c multi multi_ecdsa fm fe pop)

  Frames-execute_opcode : Frames (execute_opcode c multi multi_ecdsa pop)
  unfolding execute_opcode
  Frames-execute_opcode = Frames-if (is_disabled pop) _ _ (Frames-throw _) (
      Frames-if (always_illegal pop) _ _ (Frames-throw _) (
        Frames->>= (count_operation pop) _ (Frames-count_operation pop) (λ _.
          Frames-test (λ vm. not (is_branch_executing vm) && not (is_conditional pop)) (pure tt)
            (run_opfunc c multi multi_ecdsa pop) (Frames-pure tt) Frames-run_opfunc)))

  -- If the two multi-signature checks leave the scripts, the position in them, the pay-to-script-hash
  -- flag and the saved stack alone, then so does every opcode that executes without an error.
  pub execute_opcode-SameProgram :
      (vm w : Engine) → execute_opcode c multi multi_ecdsa pop vm ≡ done tt w → SameProgram vm w
  execute_opcode-SameProgram vm w h = Frames-execute_opcode.frame vm w tt h
