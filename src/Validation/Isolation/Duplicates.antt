-- ===== src/Validation/Isolation/Duplicates.antt =====
-- The inputs that pass the check for duplicates spend different outpoints.
use mathlib.Core.Path.{subst}
use mathlib.Core.Option.{some-injective}
use eiyaro.Common.{
  ℕ, zero, suc, ◌<◌, ◌≡◌, ◌≢◌, ◌↔◌, refl, Bool, true, false, List, [], ◌∷◌, ◌||◌, arith, some,
  get_elem?, Bool-cases, inl, inr,
}
use eiyaro.Utxo.Collection.{Outpoint, same_outpoint}
use eiyaro.Utxo.Collection.Lookup.{same_outpoint-eq, same_outpoint_refl}
use eiyaro.Validation.Transaction.{
  pass, >>_iff, reject_if, reject_if_iff, duplicate_tx_inputs, DomainTransactionInput,
}
use eiyaro.Validation.Isolation.{seen, check_duplicates}

-- No two places spend one outpoint.
abbrev pub AreApart : List DomainTransactionInput → Type 0
AreApart inputs =
    (i j : ℕ) (a b : DomainTransactionInput)
    → get_elem? inputs i ≡ some a
    → get_elem? inputs j ≡ some b
    → i < j
    → a.previous_outpoint ≢ b.previous_outpoint

-- None has been seen before.
abbrev Unseen : List Outpoint → List DomainTransactionInput → Type 0
Unseen existing inputs =
    (i : ℕ) (a : DomainTransactionInput)
    → get_elem? inputs i ≡ some a
    → seen existing a.previous_outpoint ≡ false

either_false : (a b : Bool) → (a || b) ≡ false → (a ≡ false) × (b ≡ false)
either_false a b h = (ground (arith, h), ground (arith, h))

differs : (a b : Outpoint) → same_outpoint a b ≡ false → a ≢ b
differs a b h e =
    absurd (ground (arith, subst (λ t. same_outpoint a t ≡ true) e (same_outpoint_refl a), h))

differs_back : (a b : Outpoint) → a ≢ b → same_outpoint a b ≡ false
differs_back a b ne = elim (Bool-cases (same_outpoint a b)) [
  | inl same ↦ absurd (ne (same_outpoint-eq a b same))
  | inr other ↦ other
]

no_element : {a : DomainTransactionInput} (i : ℕ) → ¬ (get_elem? [] i ≡ some a)
no_element i h = ground (arith, h)

at_head :
    (existing : List Outpoint) (x a : DomainTransactionInput)
    → some x ≡ some a
    → seen existing x.previous_outpoint ≡ false
    → seen existing a.previous_outpoint ≡ false
at_head existing x a h e =
    subst (λ t. seen existing t.previous_outpoint ≡ false) (some-injective x a h) e

grown :
    (existing : List Outpoint) (x : DomainTransactionInput) (inputs : List DomainTransactionInput)
    → seen existing x.previous_outpoint ≡ false
    → Unseen (x.previous_outpoint ∷ existing) inputs
    → AreApart inputs
    → Unseen existing (x ∷ inputs) × AreApart (x ∷ inputs)
unfolding seen
grown existing x inputs new unseen apart =
    (λ i a g. old i a g, λ i j a b g h lt. two i j a b g h lt)
  where
    old :
        (i : ℕ) (a : DomainTransactionInput)
        → get_elem? (x ∷ inputs) i ≡ some a
        → seen existing a.previous_outpoint ≡ false
    old zero a g = at_head existing x a g new
    old (suc i) a g =
        (either_false (same_outpoint x.previous_outpoint a.previous_outpoint)
          (seen existing a.previous_outpoint) (unseen i a g)).1

    two :
        (i j : ℕ) (a b : DomainTransactionInput)
        → get_elem? (x ∷ inputs) i ≡ some a
        → get_elem? (x ∷ inputs) j ≡ some b
        → i < j
        → a.previous_outpoint ≢ b.previous_outpoint
    two i zero a b g h lt = absurd (omega (arith, lt))
    two zero (suc j) a b g h lt =
        subst (λ t. t.previous_outpoint ≢ b.previous_outpoint) (some-injective x a g)
          (differs x.previous_outpoint b.previous_outpoint
            (either_false (same_outpoint x.previous_outpoint b.previous_outpoint)
              (seen existing b.previous_outpoint) (unseen j b h)).0)
    two (suc i) (suc j) a b g h lt = apart i j a b g h (omega (arith, lt))

both_false : (a b : Bool) → a ≡ false → b ≡ false → (a || b) ≡ false
both_false a b h k = ground (arith, h, k)

shrunk :
    (existing : List Outpoint) (x : DomainTransactionInput) (inputs : List DomainTransactionInput)
    → Unseen existing (x ∷ inputs)
    → AreApart (x ∷ inputs)
    → Unseen (x.previous_outpoint ∷ existing) inputs × AreApart inputs
unfolding seen
shrunk existing x inputs unseen apart = (
  (λ i a g.
      both_false (same_outpoint x.previous_outpoint a.previous_outpoint)
        (seen existing a.previous_outpoint)
        (differs_back x.previous_outpoint a.previous_outpoint
          (apart 0 (suc i) x a refl g (omega arith)))
        (unseen (suc i) a g)),
  (λ i j a b g h lt. apart (suc i) (suc j) a b g h (omega (arith, lt))),
)

check_duplicates_sound :
    (existing : List Outpoint) (inputs : List DomainTransactionInput)
    → check_duplicates existing inputs ≡ pass tt
    → Unseen existing inputs × AreApart inputs
unfolding check_duplicates
check_duplicates_sound existing [] h =
    ((λ i a g. absurd (no_element i g)), (λ i j a b g k lt. absurd (no_element i g)))
check_duplicates_sound existing (x ∷ inputs) h =
    let (test, rest) =
      (>>_iff (reject_if (seen existing x.previous_outpoint) duplicate_tx_inputs)
          (check_duplicates (x.previous_outpoint ∷ existing) inputs)).0
        h in
    let (unseen, apart) = check_duplicates_sound (x.previous_outpoint ∷ existing) inputs rest in
    grown existing x inputs
      ((reject_if_iff (seen existing x.previous_outpoint) duplicate_tx_inputs).0 test) unseen apart

check_duplicates_complete :
    (existing : List Outpoint) (inputs : List DomainTransactionInput)
    → Unseen existing inputs
    → AreApart inputs
    → check_duplicates existing inputs ≡ pass tt
unfolding check_duplicates
check_duplicates_complete existing [] unseen apart = refl
check_duplicates_complete existing (x ∷ inputs) unseen apart =
    let (less, fewer) = shrunk existing x inputs unseen apart in
    (>>_iff (reject_if (seen existing x.previous_outpoint) duplicate_tx_inputs)
        (check_duplicates (x.previous_outpoint ∷ existing) inputs)).1
      (
        (reject_if_iff (seen existing x.previous_outpoint) duplicate_tx_inputs).1 (unseen 0 x refl),
        check_duplicates_complete (x.previous_outpoint ∷ existing) inputs less fewer,
      )

-- The check for duplicates passes exactly if no two places spend one outpoint.
pub check_duplicates-AreApart :
    (inputs : List DomainTransactionInput)
    → (check_duplicates [] inputs ≡ pass tt) ↔ AreApart inputs
unfolding seen
check_duplicates-AreApart inputs = (
  (λ h. (check_duplicates_sound [] inputs h).1),
  (λ apart. check_duplicates_complete [] inputs (λ i a g. refl) apart),
)
