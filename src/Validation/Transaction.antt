-- ===== src/Validation/Transaction.antt =====
-- The transactions of domain/consensus/model/externalapi/transaction.go as validation reads them, the
-- constants and rule errors, and the result of a check.
use eiyaro.Common.{false, ◌≡◌, ◌↔◌, refl, arith, ℕ, Bool, List, ◌==◌, ◌||◌, if◌then◌else◌, Option}
use eiyaro.Utxo.Collection.{Outpoint, UtxoEntry}

-- The errors of domain/consensus/ruleerrors/rule_error.go that the checks return, and the others.
pub data RuleError : Type 0 where
  no_tx_inputs tx_out_value_zero bad_tx_out_value duplicate_tx_inputs bad_coinbase_payload_len :
      RuleError
  coinbase_with_inputs coinbase_too_many_outputs coinbase_too_long_script_public_key : RuleError
  invalid_gas subnetwork_registry invalid_payload too_large_payload subnetworks_disabled : RuleError
  transaction_version_is_unknown immature_spend spend_too_high unfinalized_tx other_error :
      RuleError
  missing_tx_out : List Outpoint → RuleError

pub data Check (A : Type 0) : Type 0 where
  pass : A → Check A
  reject : RuleError → Check A

infixl 3 ◌>>=◌
abbrev pub ◌>>=◌ : {A B : Type 0} → Check A → (A → Check B) → Check B
pass a >>= f = f a
reject e >>= f = reject e

infixl 3 ◌>>◌
abbrev pub ◌>>◌ : {B : Type 0} → Check (Unit {0}) → Check B → Check B
m >> n = m >>= λ _. n

-- A passing chain, in its two parts.
pub >>=_parts :
    {A B : Type 0} (first : Check A) (then_on : A → Check B) {result : B}
    → (first >>= then_on) ≡ pass result
    → (given : A) × (first ≡ pass given) × (then_on given ≡ pass result)
>>=_parts (pass given) then_on chain = (given, refl, chain)
>>=_parts (reject e) then_on chain = absurd (ground (arith, chain))

pub >>_iff : (m n : Check (Unit {0})) → ((m >> n) ≡ pass tt) ↔ ((m ≡ pass tt) × (n ≡ pass tt))
>>_iff (pass u) n = ((λ h. (refl, h)), (λ p. p.1))
>>_iff (reject e) n = ((λ h. absurd (ground (arith, h))), (λ p. absurd (ground (arith, p.0))))

-- `if b { return e }`.
abbrev pub reject_if : Bool → RuleError → Check (Unit {0})
reject_if b e = if b then reject e else pass tt

pub reject_if_iff : (b : Bool) (e : RuleError) → (reject_if b e ≡ pass tt) ↔ (b ≡ false)
reject_if_iff b e = ground arith

-- A populated input has its UTXO entry.
pub record DomainTransactionInput : Type 0 where
  pub previous_outpoint : Outpoint
  pub sequence : ℕ
  pub utxo_entry : Option UtxoEntry

pub record DomainTransactionOutput : Type 0 where
  pub value : ℕ
  pub script : List ℕ

-- The subnetwork, of which only equality is used, is a number: its first byte for those below.
pub record DomainTransaction : Type 0 where
  pub version : ℕ
  pub inputs : List DomainTransactionInput
  pub outputs : List DomainTransactionOutput
  pub lock_time : ℕ
  pub subnetwork_id : ℕ
  pub gas : ℕ
  pub payload : List ℕ

abbrev pub subnetwork_id_native : ℕ
subnetwork_id_native = 0

abbrev pub subnetwork_id_coinbase : ℕ
subnetwork_id_coinbase = 1

abbrev pub subnetwork_id_registry : ℕ
subnetwork_id_registry = 2

abbrev pub subnetwork_id_data : ℕ
subnetwork_id_data = 3

unfoldable pub is_built_in : ℕ → Bool
is_built_in id =
    id == subnetwork_id_coinbase || id == subnetwork_id_registry || id == subnetwork_id_data

unfoldable pub is_built_in_or_native : ℕ → Bool
is_built_in_or_native id = id == subnetwork_id_native || is_built_in id

unfoldable pub is_coinbase : DomainTransaction → Bool
is_coinbase tx = tx.subnetwork_id == subnetwork_id_coinbase

-- `17_100_000_000 * SeyPerEY`.
abbrev pub max_sey : ℕ
max_sey = 1710000000000000000

abbrev pub max_transaction_version : ℕ
max_transaction_version = 0

-- The settings of a `transactionValidator`.
pub record TransactionValidator : Type 0 where
  pub block_coinbase_maturity : ℕ
  pub enable_non_native_subnetworks : Bool
  pub max_coinbase_payload_length : ℕ
  pub merge_set_size_limit : ℕ
  pub coinbase_payload_script_public_key_max_length : ℕ
