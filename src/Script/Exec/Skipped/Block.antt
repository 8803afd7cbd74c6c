-- ===== src/Script/Exec/Skipped/Block.antt =====
-- A branch that is not taken runs nothing, whatever conditionals are nested in it.
use mathlib.Core.Path.{ap₂}
use eiyaro.Common.{
  ℕ, suc, ◌+◌, ◌≤◌, ◌≡◌, ◌⊎◌, inl, inr, refl, ap, ◌∙◌, true, false, List, [], ◌∷◌, ◌++◌, arith,
}
use eiyaro.Script.Outcome.{done, ◌>>=◌}
use eiyaro.Script.Engine.{
  Engine, Handler, ParsedOpcode, Crypto, is_branch_executing, cond_skip, max_ops_per_script,
}
use eiyaro.Script.Exec.{is_conditional, execute_opcode}
use eiyaro.Script.Exec.Skipped.{
  IsBlock, closed, plain, opens, alternates, closes, operation, operations, execute_all, runs,
  under, under_idle, execute-plain, execute-conditional, opens_lem, alternates_lem, closes_lem,
}

module _ (c : Crypto) (multi multi_ecdsa : Handler) where
  -- One opcode that changes the conditional stack and the count, and the others after it.
  chained :
      (pop : ParsedOpcode) (pops : List ParsedOpcode) (vm : Engine) (between cs : List ℕ)
      → execute_opcode c multi multi_ecdsa pop vm
        ≡ done tt (record vm { cond_stack = between; num_ops = vm.num_ops + operation pop })
      → execute_all c multi multi_ecdsa pops
          (record vm { cond_stack = between; num_ops = vm.num_ops + operation pop })
        ≡ done tt
            (record vm { cond_stack = cs; num_ops = vm.num_ops + operation pop + operations pops })
      → execute_all c multi multi_ecdsa (pop ∷ pops) vm
        ≡ done tt (record vm { cond_stack = cs; num_ops = vm.num_ops + operations (pop ∷ pops) })
  chained pop pops vm between cs one others =
      let e : vm.num_ops + operation pop + operations pops
          ≡ vm.num_ops + (operation pop + operations pops) =
        omega arith in
      rw (one, ◌>>=◌) (others ∙ ap (λ n. done tt (record vm { cond_stack = cs; num_ops = n })) e)

  if_value :
      (pop : ParsedOpcode)
      → (pop.value ≡ 99) ⊎ (pop.value ≡ 100)
      → (pop.value ≡ 99) ⊎ (pop.value ≡ 100) ⊎ (pop.value ≡ 103) ⊎ (pop.value ≡ 104)
  if_value pop (inl e) = inl e
  if_value pop (inr e) = inr (inl e)

  is_conditional_value :
      (pop : ParsedOpcode)
      → (pop.value ≡ 99) ⊎ (pop.value ≡ 100) ⊎ (pop.value ≡ 103) ⊎ (pop.value ≡ 104)
      → is_conditional pop ≡ true
  unfolding is_conditional
  is_conditional_value pop h = ground arith

  skipped :
      (open_ifs : ℕ) (pops : List ParsedOpcode) (cs : List ℕ) (vm : Engine)
      → IsBlock open_ifs pops
      → runs cs ≡ false
      → vm.cond_stack ≡ under cs open_ifs
      → vm.num_ops + operations pops ≤ max_ops_per_script
      → execute_all c multi multi_ecdsa pops vm
        ≡ done tt (record vm { cond_stack = cs; num_ops = vm.num_ops + operations pops })
  skipped _ _ cs vm closed idle stack room =
      let e : vm.num_ops ≡ vm.num_ops + 0 = omega arith in
      ap₂ (λ ds n. done tt (record vm { cond_stack = ds; num_ops = n })) stack e
  skipped _ _ cs vm (plain open_ifs pop pops allowed other block) idle stack room =
      let now : runs vm.cond_stack ≡ false = rw stack (under_idle cs open_ifs idle) in
      let counted_vm = record vm { num_ops = vm.num_ops + operation pop } in
      chained pop pops vm vm.cond_stack cs
        (execute-plain c multi multi_ecdsa pop vm allowed other now (omega (arith, room)))
        (skipped open_ifs pops cs counted_vm block idle stack (omega (arith, room)))
  skipped _ _ cs vm (opens open_ifs pop pops allowed e block) idle stack room =
      let now : runs vm.cond_stack ≡ false = rw stack (under_idle cs open_ifs idle) in
      let counted_vm = record vm { num_ops = vm.num_ops + operation pop } in
      let between = vm.cond_stack ++ cond_skip ∷ [] in
      chained pop pops vm between cs
        (execute-conditional c multi multi_ecdsa pop vm allowed
            (is_conditional_value pop (if_value pop e)) now (omega (arith, room))
          ∙ opens_lem c multi multi_ecdsa pop counted_vm e now)
        (skipped (suc open_ifs) pops cs (record counted_vm { cond_stack = between }) block idle
          (ap (λ t. t ++ cond_skip ∷ []) stack) (omega (arith, room)))
  skipped _ _ cs vm (alternates open_ifs pop pops allowed e block) idle stack room =
      let now : runs vm.cond_stack ≡ false = rw stack (under_idle cs (suc open_ifs) idle) in
      let counted_vm = record vm { num_ops = vm.num_ops + operation pop } in
      let between = under cs open_ifs ++ cond_skip ∷ [] in
      chained pop pops vm between cs
        (execute-conditional c multi multi_ecdsa pop vm allowed
            (is_conditional_value pop (inr (inr (inl e)))) now (omega (arith, room))
          ∙ alternates_lem c multi multi_ecdsa pop counted_vm (under cs open_ifs) e stack)
        (skipped (suc open_ifs) pops cs (record counted_vm { cond_stack = between }) block idle refl
          (omega (arith, room)))
  skipped _ _ cs vm (closes open_ifs pop pops allowed e block) idle stack room =
      let now : runs vm.cond_stack ≡ false = rw stack (under_idle cs (suc open_ifs) idle) in
      let counted_vm = record vm { num_ops = vm.num_ops + operation pop } in
      let between = under cs open_ifs in
      chained pop pops vm between cs
        (execute-conditional c multi multi_ecdsa pop vm allowed
            (is_conditional_value pop (inr (inr (inr e)))) now (omega (arith, room))
          ∙ closes_lem c multi multi_ecdsa pop counted_vm (under cs open_ifs) e stack)
        (skipped open_ifs pops cs (record counted_vm { cond_stack = between }) block idle refl
          (omega (arith, room)))

-- In a branch that is not taken, a list of opcodes that are neither disabled nor always illegal, whose
-- data is within the limit of an element, in which every conditional that is opened is closed and
-- OP_ELSE stands inside those only, and which the limit of operations leaves room for, executes
-- without an error. It adds the number of its opcodes above OP_16 to the operation count, and changes
-- nothing else.
pub execute_all_skipped :
    (c : Crypto) (multi multi_ecdsa : Handler) (pops : List ParsedOpcode) (vm : Engine)
    → is_branch_executing vm ≡ false
    → IsBlock 0 pops
    → vm.num_ops + operations pops ≤ max_ops_per_script
    → execute_all c multi multi_ecdsa pops vm
      ≡ done tt (record vm { num_ops = vm.num_ops + operations pops })
unfolding is_branch_executing
execute_all_skipped c multi multi_ecdsa pops vm idle block room =
    skipped c multi multi_ecdsa 0 pops vm.cond_stack vm block idle refl room
