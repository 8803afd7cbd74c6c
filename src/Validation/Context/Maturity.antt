-- ===== src/Validation/Context/Maturity.antt =====
-- When the coinbase outputs that a transaction spends are old enough:
-- checkTransactionCoinbaseMaturity.
use mathlib.Core.Path.{subst}
use mathlib.Core.Option.{some-injective}
use eiyaro.Common.{
  ◌^◌, ℕ, ◌+◌, ◌≤◌, ◌<◌, ◌≡◌, ◌↔◌, ◌⊎◌, refl, sym, ◌∙◌, false, List, [], ◌∷◌, ◌++◌, if◌then◌else◌,
  ltb, arith, none, some, add64, add64_exact,
}
use eiyaro.Utxo.Collection.{Outpoint, UtxoEntry}
use eiyaro.Validation.Transaction.{
  DomainTransaction, DomainTransactionInput, TransactionValidator, Check, pass, reject_if,
  immature_spend, >>_iff,
}
use eiyaro.Validation.Context.{check_maturity, check_transaction_coinbase_maturity, unless_missing}

-- An entry may be spent at a score: it is no coinbase output, or as many scores have passed since
-- the entry's as the maturity asks for.
abbrev pub IsMature : ℕ → ℕ → UtxoEntry → Type 0
IsMature maturity pov entry = (entry.is_coinbase ≡ false) ⊎ (entry.block_daa_score + maturity ≤ pov)

pub data AllMature (maturity pov : ℕ) : List DomainTransactionInput → Type 0 where
  none_spent : AllMature maturity pov []
  mature :
      (input : DomainTransactionInput) (inputs : List DomainTransactionInput) (entry : UtxoEntry)
      → input.utxo_entry ≡ some entry
      → IsMature maturity pov entry
      → AllMature maturity pov inputs
      → AllMature maturity pov (input ∷ inputs)

-- Each input has no entry, or one whose score leaves room for the maturity in a uint64.
pub data HasRoom (maturity : ℕ) : List DomainTransactionInput → Type 0 where
  no_scores : HasRoom maturity []
  absent :
      (input : DomainTransactionInput) (inputs : List DomainTransactionInput)
      → input.utxo_entry ≡ none
      → HasRoom maturity inputs
      → HasRoom maturity (input ∷ inputs)
  present :
      (input : DomainTransactionInput) (inputs : List DomainTransactionInput) (entry : UtxoEntry)
      → input.utxo_entry ≡ some entry
      → entry.block_daa_score + maturity < 2 ^ 64
      → HasRoom maturity inputs
      → HasRoom maturity (input ∷ inputs)

AllMature-parts :
    (maturity pov : ℕ) (input : DomainTransactionInput) (inputs : List DomainTransactionInput)
    (entry : UtxoEntry)
    → input.utxo_entry ≡ some entry
    → AllMature maturity pov (input ∷ inputs)
    → IsMature maturity pov entry × AllMature maturity pov inputs
AllMature-parts maturity pov input inputs entry e (mature _ _ other f one all) =
    let same : other ≡ entry = some-injective other entry (sym f ∙ e) in
    (subst (λ t. IsMature maturity pov t) same one, all)

AllMature-missing :
    (maturity pov : ℕ) (input : DomainTransactionInput) (inputs : List DomainTransactionInput)
    → input.utxo_entry ≡ none
    → ¬ AllMature maturity pov (input ∷ inputs)
AllMature-missing maturity pov input inputs e (mature _ _ entry f one all) =
    absurd (ground (arith, e, f))

-- The check of one entry.
abbrev maturity_check : TransactionValidator → ℕ → UtxoEntry → Check (Unit {0})
maturity_check v pov entry =
    if entry.is_coinbase
    then reject_if (ltb pov (add64 entry.block_daa_score v.block_coinbase_maturity)) immature_spend
    else pass tt

matured_iff :
    (v : TransactionValidator) (pov : ℕ) (entry : UtxoEntry)
    → entry.block_daa_score + v.block_coinbase_maturity < 2 ^ 64
    → (maturity_check v pov entry ≡ pass tt) ↔ IsMature v.block_coinbase_maturity pov entry
matured_iff v pov entry small =
    let exact = add64_exact entry.block_daa_score v.block_coinbase_maturity small in
    ground (arith, exact)

unless_missing_iff : (o : List Outpoint) → (unless_missing o tt ≡ pass tt) ↔ (o ≡ [])
unfolding unless_missing
unless_missing_iff [] = ((λ h. refl), (λ h. refl))
unless_missing_iff (o ∷ missing) = ground arith

not_missing : (o : List Outpoint) (p : Outpoint) → ¬ ((o ++ p ∷ []) ≡ [])
not_missing [] p e = ground (arith, e)
not_missing (a ∷ o) p e = ground (arith, e)

check_maturity-AllMature :
    (v : TransactionValidator) (pov : ℕ) (missing : List Outpoint)
    (inputs : List DomainTransactionInput)
    → HasRoom v.block_coinbase_maturity inputs
    → (check_maturity v pov missing inputs ≡ pass tt)
      ↔ ((missing ≡ []) × AllMature v.block_coinbase_maturity pov inputs)
unfolding check_maturity
check_maturity-AllMature v pov missing _ no_scores =
    let (none_left, passes) = unless_missing_iff missing in
    ((λ h. (none_left h, none_spent)), (λ p. passes p.0))
check_maturity-AllMature v pov missing _ (absent input inputs e rest) =
    let (there, back) =
      check_maturity-AllMature v pov (missing ++ input.previous_outpoint ∷ []) inputs rest in
    (
      (λ h.
          absurd
            (not_missing missing input.previous_outpoint (there (rw (check_maturity, e) at h)).0)),
      (λ p. absurd (AllMature-missing v.block_coinbase_maturity pov input inputs e p.1)),
    )
check_maturity-AllMature v pov missing _ (present input inputs entry e small rest) =
    let (one_there, one_back) = matured_iff v pov entry small in
    let (there, back) = check_maturity-AllMature v pov missing inputs rest in
    let (both, from_both) =
      >>_iff (maturity_check v pov entry) (check_maturity v pov missing inputs) in
    (
      (λ h.
          let (one, others) = both (rw (check_maturity, e) at h) in
          let (empty, all) = there others in
          (empty, mature input inputs entry e (one_there one) all)),
      (λ p.
          let (one, all) = AllMature-parts v.block_coinbase_maturity pov input inputs entry e p.1 in
          rw (check_maturity, e) (from_both (one_back one, back (p.0, all)))),
    )

-- For a transaction whose inputs each have no entry or one whose score leaves room for the maturity
-- in a uint64: the check of the coinbase maturity passes exactly if every input has its entry, and
-- the entry is no coinbase output or as many scores have passed since the entry's as the maturity
-- asks for.
pub check_transaction_coinbase_maturity-AllMature :
    (v : TransactionValidator) (tx : DomainTransaction) (pov : ℕ)
    → HasRoom v.block_coinbase_maturity tx.inputs
    → (check_transaction_coinbase_maturity v tx pov ≡ pass tt)
      ↔ AllMature v.block_coinbase_maturity pov tx.inputs
unfolding check_transaction_coinbase_maturity
check_transaction_coinbase_maturity-AllMature v tx pov room =
    let (there, back) = check_maturity-AllMature v pov [] tx.inputs room in
    ((λ h. (there h).1), (λ a. back (refl, a)))
