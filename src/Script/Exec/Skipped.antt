-- ===== src/Script/Exec/Skipped.antt =====
-- The opcodes of a branch that is not taken, one by one.
pub mod Block
use mathlib.Core.Path.{ap₂}
use eiyaro.Common.{
  ℕ, zero, suc, ◌+◌, ◌-◌, ◌≤◌, ◌≡◌, ◌⊎◌, inl, inr, refl, sym, ap, ◌∙◌, Bool, true, false, List, [],
  ◌∷◌, ◌++◌, ◌==◌, ◌&&◌, not, if◌then◌else◌, arith, ltb, length, get_or, get_or-append, set-append,
  take-append, length-snoc,
}
use eiyaro.Script.Outcome.{Outcome, done, ◌>>◌, ◌>>=◌, pure}
use eiyaro.Script.Parse.{op_16}
use eiyaro.Script.Engine.{
  Engine, Handler, ParsedOpcode, Crypto, is_branch_executing, cond_true, cond_false, cond_skip,
  max_ops_per_script,
}
use eiyaro.Script.Opcode.Control.{
  opcode_if, opcode_not_if, opcode_else, opcode_endif, push_cond, flip, flip_top, drop_top,
}
use eiyaro.Script.Opcode.Table.{opfunc, control_entry}
use eiyaro.Script.Exec.{
  is_disabled, always_illegal, is_conditional, count_operation, run_opfunc, execute_opcode,
  max_script_element_size,
}

-- An opcode that is refused nowhere: it is not disabled, not always illegal, and its data is not too long.
abbrev pub IsAllowed : ParsedOpcode → Type 0
IsAllowed pop =
    (is_disabled pop ≡ false)
    × (always_illegal pop ≡ false)
    × (length pop.data_bytes ≤ max_script_element_size)

-- Allowed opcodes in which `open` conditionals from before are closed, and every one that is opened.
-- OP_ELSE stands inside a conditional only.
pub data IsBlock : ℕ → List ParsedOpcode → Type 0 where
  closed : IsBlock zero []
  plain :
      (open_ifs : ℕ) (pop : ParsedOpcode) (pops : List ParsedOpcode)
      → IsAllowed pop
      → is_conditional pop ≡ false
      → IsBlock open_ifs pops
      → IsBlock open_ifs (pop ∷ pops)
  opens :
      (open_ifs : ℕ) (pop : ParsedOpcode) (pops : List ParsedOpcode)
      → IsAllowed pop
      → (pop.value ≡ 99) ⊎ (pop.value ≡ 100)
      → IsBlock (suc open_ifs) pops
      → IsBlock open_ifs (pop ∷ pops)
  alternates :
      (open_ifs : ℕ) (pop : ParsedOpcode) (pops : List ParsedOpcode)
      → IsAllowed pop
      → pop.value ≡ 103
      → IsBlock (suc open_ifs) pops
      → IsBlock (suc open_ifs) (pop ∷ pops)
  closes :
      (open_ifs : ℕ) (pop : ParsedOpcode) (pops : List ParsedOpcode)
      → IsAllowed pop
      → pop.value ≡ 104
      → IsBlock open_ifs pops
      → IsBlock (suc open_ifs) (pop ∷ pops)

-- What an opcode, and what a list of them, adds to the operation count.
abbrev pub operation : ParsedOpcode → ℕ
operation pop = if ltb op_16 pop.value then 1 else 0

abbrev pub operations : List ParsedOpcode → ℕ
operations [] = 0
operations (pop ∷ pops) = operation pop + operations pops

-- The opcodes one after the other.
abbrev pub execute_all : Crypto → Handler → Handler → List ParsedOpcode → Handler
execute_all c multi multi_ecdsa [] = pure tt
execute_all c multi multi_ecdsa (pop ∷ pops) =
    execute_opcode c multi multi_ecdsa pop >> execute_all c multi multi_ecdsa pops

-- The test of `isBranchExecuting`, on the conditional stack.
abbrev pub runs : List ℕ → Bool
runs cs = if length cs == 0 then true else get_or cs (length cs - 1) cond_false == cond_true

-- A conditional stack with the conditionals that a skipped block has opened.
abbrev pub under : List ℕ → ℕ → List ℕ
under cs zero = cs
under cs (suc n) = under cs n ++ cond_skip ∷ []

snoc_index : (cs : List ℕ) (x : ℕ) → length (cs ++ x ∷ []) - 1 ≡ length cs
snoc_index cs x = omega (arith, length-snoc cs x)

snoc_some : (cs : List ℕ) (x : ℕ) → (length (cs ++ x ∷ []) == 0) ≡ false
snoc_some cs x = ground (arith, length-snoc cs x)

pub under_idle : (cs : List ℕ) (n : ℕ) → runs cs ≡ false → runs (under cs n) ≡ false
under_idle cs zero idle = idle
under_idle cs (suc n) idle =
    rw
      (
        snoc_some (under cs n) cond_skip,
        snoc_index (under cs n) cond_skip,
        get_or-append (under cs n) cond_skip [] cond_false,
      )
      refl

flip_skip : (cs : List ℕ) → flip_top (cs ++ cond_skip ∷ []) ≡ cs ++ cond_skip ∷ []
unfolding flip_top flip
flip_skip cs =
    rw
      (
        snoc_index cs cond_skip,
        get_or-append cs cond_skip [] cond_skip,
        set-append cs cond_skip cond_skip [],
      )
      refl

drop_skip : (cs : List ℕ) → drop_top (cs ++ cond_skip ∷ []) ≡ cs
unfolding drop_top
drop_skip cs = rw (snoc_index cs cond_skip) (take-append cs (cond_skip ∷ []))

module _ (c : Crypto) (multi multi_ecdsa : Handler) where
  counted :
      (pop : ParsedOpcode) (vm : Engine)
      → length pop.data_bytes ≤ max_script_element_size
      → vm.num_ops + operation pop ≤ max_ops_per_script
      → count_operation pop vm ≡ done tt (record vm { num_ops = vm.num_ops + operation pop })
  unfolding count_operation
  counted pop vm small room = ground arith

  pub execute-plain :
      (pop : ParsedOpcode) (vm : Engine)
      → IsAllowed pop
      → is_conditional pop ≡ false
      → runs vm.cond_stack ≡ false
      → vm.num_ops + operation pop ≤ max_ops_per_script
      → execute_opcode c multi multi_ecdsa pop vm
        ≡ done tt (record vm { num_ops = vm.num_ops + operation pop })
  unfolding execute_opcode is_branch_executing
  execute-plain pop vm (enabled, legal, small) other idle room =
      rw (enabled, legal, counted pop vm small room, ◌>>=◌, idle, other) refl

  pub execute-conditional :
      (pop : ParsedOpcode) (vm : Engine)
      → IsAllowed pop
      → is_conditional pop ≡ true
      → runs vm.cond_stack ≡ false
      → vm.num_ops + operation pop ≤ max_ops_per_script
      → execute_opcode c multi multi_ecdsa pop vm
        ≡ opfunc c multi multi_ecdsa pop (record vm { num_ops = vm.num_ops + operation pop })
  unfolding execute_opcode run_opfunc is_branch_executing
  execute-conditional pop vm (enabled, legal, small) conditional idle room =
      rw (enabled, legal, counted pop vm small room, ◌>>=◌, idle, conditional) refl

  pub opens_lem :
      (pop : ParsedOpcode) (vm : Engine)
      → (pop.value ≡ 99) ⊎ (pop.value ≡ 100)
      → runs vm.cond_stack ≡ false
      → opfunc c multi multi_ecdsa pop vm
        ≡ done tt (record vm { cond_stack = vm.cond_stack ++ cond_skip ∷ [] })
  unfolding opfunc control_entry opcode_if opcode_not_if push_cond is_branch_executing
  opens_lem pop vm (inl e) idle = rw (e, idle) refl
  opens_lem pop vm (inr e) idle = rw (e, idle) refl

  pub alternates_lem :
      (pop : ParsedOpcode) (vm : Engine) (cs : List ℕ)
      → pop.value ≡ 103
      → vm.cond_stack ≡ cs ++ cond_skip ∷ []
      → opfunc c multi multi_ecdsa pop vm
        ≡ done tt (record vm { cond_stack = cs ++ cond_skip ∷ [] })
  unfolding opfunc control_entry opcode_else
  alternates_lem pop vm cs e stack = rw (e, stack, snoc_some cs cond_skip, flip_skip cs) refl

  pub closes_lem :
      (pop : ParsedOpcode) (vm : Engine) (cs : List ℕ)
      → pop.value ≡ 104
      → vm.cond_stack ≡ cs ++ cond_skip ∷ []
      → opfunc c multi multi_ecdsa pop vm ≡ done tt (record vm { cond_stack = cs })
  unfolding opfunc control_entry opcode_endif
  closes_lem pop vm cs e stack = rw (e, stack, snoc_some cs cond_skip, drop_skip cs) refl
