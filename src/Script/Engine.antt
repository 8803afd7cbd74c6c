-- ===== src/Script/Engine.antt =====
-- The `Engine` of domain/consensus/utils/txscript/engine.go and the parsed opcodes that it runs.
-- `flags` and the signature caches are left out: no flag is read, and a cache only saves a second
-- verification. Of the transaction the engine reads the lock time and the inputs' sequences;
-- signature checks read the rest, and stand in `Crypto`.
use eiyaro.Common.{ℕ, Bool, true, List, Option, ◌==◌, length, get_or, ◌-◌, if◌then◌else◌}
use eiyaro.Script.Outcome.{M, done, fail, panic}
use eiyaro.Script.Num.{Bytes}
use eiyaro.Script.Stack.{Stack}

-- An opcode by its value; the table gives name, length and function of it.
pub record ParsedOpcode : Type 0 where
  pub value : ℕ
  pub data_bytes : Bytes

pub record Engine : Type 0 where
  pub script_version : ℕ
  pub scripts : List (List ParsedOpcode)
  pub script_idx : ℕ
  pub script_off : ℕ
  pub dstack : Stack
  pub astack : Stack
  pub tx_lock_time : ℕ
  pub tx_sequences : List ℕ
  pub tx_idx : ℕ
  pub cond_stack : List ℕ
  pub num_ops : ℕ
  pub is_p2sh : Bool
  pub saved_first_stack : Stack

-- What the engine takes from hash and signature libraries: the two hashes, and whether a signature
-- is valid under a hash type, `none` where the hash cannot be computed or a key or signature does
-- not parse.
pub record Crypto : Type 0 where
  pub sha256 : Bytes → Bytes
  pub blake2b : Bytes → Bytes
  pub schnorr_verify : ℕ → Bytes → Bytes → Option Bool
  pub ecdsa_verify : ℕ → Bytes → Bytes → Option Bool

abbrev pub Handler : Type 0
Handler = M Engine (Unit {0})

abbrev pub max_ops_per_script : ℕ
max_ops_per_script = 201

-- A method of `vm.dstack` or `vm.astack`.
abbrev pub on_dstack : {A : Type 0} → M Stack A → M Engine A
on_dstack m vm = elim (m vm.dstack) [
  | done a s ↦ done a (record vm { dstack = s })
  | fail e s ↦ fail e (record vm { dstack = s })
  | panic ↦ panic
]

abbrev pub on_astack : {A : Type 0} → M Stack A → M Engine A
on_astack m vm = elim (m vm.astack) [
  | done a s ↦ done a (record vm { astack = s })
  | fail e s ↦ fail e (record vm { astack = s })
  | panic ↦ panic
]

abbrev pub cond_false : ℕ
cond_false = 0

abbrev pub cond_true : ℕ
cond_true = 1

abbrev pub cond_skip : ℕ
cond_skip = 2

-- The conditional stack is a slice, its top the last element.
unfoldable pub is_branch_executing : Engine → Bool
is_branch_executing vm =
    if length vm.cond_stack == 0
    then true
    else get_or vm.cond_stack (length vm.cond_stack - 1) cond_false == cond_true
