-- ===== src/Validation/Context/Locks.antt =====
-- The relative lock times of a transaction with populated inputs.
use mathlib.Core.Path.{subst}
use mathlib.Core.Option.{some-injective}
use eiyaro.Common.{
  ◌^◌, ℕ, zero, suc, ◌+◌, ◌≤◌, ◌<◌, ◌≡◌, ◌↔◌, ◌⊎◌, inl, inr, refl, sym, ap, ◌∙◌, Bool, true, false,
  List, [], ◌∷◌, ltb, leb, ◌==◌, not, arith, some, Bool-cases, ℤ, pos, negsuc, ltb_ℤ, wrap64,
  wrap64_id, abs_ℕ, ◌+ℤ◌, ◌-ℤ◌,
}
use eiyaro.Utxo.Collection.{UtxoEntry}
use eiyaro.Validation.Transaction.{
  pass, reject_if_iff, unfinalized_tx, DomainTransaction, DomainTransactionInput, is_coinbase,
}
use eiyaro.Validation.Context.{
  unless_missing, raise_lock, calc_lock, calc_tx_sequence_lock_from_referenced_utxo_entries,
  sequence_lock_active, check_transaction_sequence_lock, relative_lock, max_int64,
  unaccepted_daa_score, sequence_lock_time_disabled, later, lock_until,
}

-- An input may be spent at a score: its lock is disabled, its entry is not accepted yet, or as many
-- scores as the lock asks for have passed since the entry's.
abbrev pub IsReleased : ℕ → ℕ → ℕ → Type 0
IsReleased pov sequence score =
    (sequence_lock_time_disabled ≤ sequence)
    ⊎ (score ≡ unaccepted_daa_score)
    ⊎ (score + relative_lock sequence ≤ pov)

-- A score of an entry that is not accepted yet, or one that leaves room for a lock in an int64.
abbrev pub IsScore : ℕ → Type 0
IsScore score = (score ≡ unaccepted_daa_score) ⊎ (score + 4294967296 ≤ max_int64)

pub data AllReleased (pov : ℕ) : List DomainTransactionInput → Type 0 where
  none_locked : AllReleased pov []
  released :
      (input : DomainTransactionInput) (inputs : List DomainTransactionInput) (entry : UtxoEntry)
      → input.utxo_entry ≡ some entry
      → IsReleased pov input.sequence entry.block_daa_score
      → AllReleased pov inputs
      → AllReleased pov (input ∷ inputs)

pub data IsPopulated : List DomainTransactionInput → Type 0 where
  no_inputs : IsPopulated []
  populated :
      (input : DomainTransactionInput) (inputs : List DomainTransactionInput) (entry : UtxoEntry)
      → input.utxo_entry ≡ some entry
      → IsScore entry.block_daa_score
      → IsPopulated inputs
      → IsPopulated (input ∷ inputs)

pos_add : (a b : ℕ) → (pos a +ℤ pos b) ≡ pos (a + b)
pos_add a b = ground arith

abs_before : (t : ℕ) → t < 2 ^ 63 → abs_ℕ (pos t -ℤ pos 1) < 2 ^ 63
abs_before t small = ground arith

-- The score before which an accepted input is locked: nothing wraps.
exact_score :
    (score rel : ℕ) → score + rel < 2 ^ 63 → lock_until score rel ≡ (pos (score + rel) -ℤ pos 1)
unfolding lock_until
exact_score score rel small =
    ap (λ z. wrap64 (z -ℤ pos 1))
      (ap wrap64 (pos_add score rel) ∙ wrap64_id (pos (score + rel)) (ground (arith, small)))
    ∙ wrap64_id (pos (score + rel) -ℤ pos 1) (abs_before (score + rel) small)

raised_iff :
    (lock : ℤ) (s pov : ℕ)
    → (ltb_ℤ (later lock (pos s -ℤ pos 1)) (pos pov) ≡ true)
      ↔ ((ltb_ℤ lock (pos pov) ≡ true) × (s ≤ pov))
unfolding later
raised_iff (pos n) zero pov = ground arith
raised_iff (pos n) (suc s) pov = ground arith
raised_iff (negsuc n) zero pov = ground arith
raised_iff (negsuc n) (suc s) pov = ground arith

-- The lock after an input lets a score through exactly if the lock before does and the input is
-- released.
record Raised (pov sequence score : ℕ) (lock : ℤ) : Type 0 where
  raised : ℤ
  is_raised : raise_lock sequence score lock ≡ pass raised
  lets_through :
      (ltb_ℤ raised (pos pov) ≡ true)
      ↔ ((ltb_ℤ lock (pos pov) ≡ true) × IsReleased pov sequence score)

mask_small : (sequence : ℕ) → ltb max_int64 (relative_lock sequence) ≡ false
mask_small sequence = ground arith

is_unaccepted : (score : ℕ) → score ≡ unaccepted_daa_score → score == unaccepted_daa_score ≡ true
is_unaccepted score e = ground (arith, e)

is_accepted :
    (score : ℕ)
    → score + 4294967296 ≤ max_int64
    → (score == unaccepted_daa_score ≡ false) × (ltb max_int64 score ≡ false)
is_accepted score h = (ground (arith, h), ground (arith, h))

accepted_released :
    (pov sequence score : ℕ)
    → leb sequence_lock_time_disabled sequence ≡ false
    → score + 4294967296 ≤ max_int64
    → IsReleased pov sequence score
    → score + relative_lock sequence ≤ pov
accepted_released pov sequence score enabled small (inl d) = absurd (ground (arith, enabled, d))
accepted_released pov sequence score enabled small (inr (inl e)) = absurd (omega (arith, e, small))
accepted_released pov sequence score enabled small (inr (inr le)) = le

room :
    (sequence score : ℕ) → score + 4294967296 ≤ max_int64 → score + relative_lock sequence < 2 ^ 63
room sequence score h = ground (arith, h)

raise_lock-Raised :
    (pov sequence score : ℕ) (lock : ℤ) → IsScore score → Raised pov sequence score lock
unfolding raise_lock
raise_lock-Raised pov sequence score lock known =
    elim (Bool-cases (leb sequence_lock_time_disabled sequence)) [
      | inl disabled ↦ record {
        raised = lock;
        is_raised = rw (mask_small sequence, disabled) refl;
        lets_through = ((λ h. (h, inl (ground (arith, disabled)))), (λ p. p.0));
      }
      | inr enabled ↦ elim known [
        | inl unaccepted ↦ record {
          raised = lock;
          is_raised = rw (mask_small sequence, enabled, is_unaccepted score unaccepted) refl;
          lets_through = ((λ h. (h, inr (inl unaccepted))), (λ p. p.0));
        }
        | inr small ↦
            let (accepted, fits) = is_accepted score small in
            let until = score + relative_lock sequence in
            let (there, back) = raised_iff lock until pov in
            record {
              raised = later lock (pos until -ℤ pos 1);
              is_raised =
                  rw
                    (
                      mask_small sequence,
                      enabled,
                      accepted,
                      fits,
                      exact_score score (relative_lock sequence) (room sequence score small),
                    )
                    refl;
              lets_through = (
                (λ h. ((there h).0, inr (inr (there h).1))),
                (λ p. back (p.0, accepted_released pov sequence score enabled small p.1)),
              );
            }
      ]
    ]

AllReleased-parts :
    (pov : ℕ) (input : DomainTransactionInput) (inputs : List DomainTransactionInput)
    (entry : UtxoEntry)
    → input.utxo_entry ≡ some entry
    → AllReleased pov (input ∷ inputs)
    → IsReleased pov input.sequence entry.block_daa_score × AllReleased pov inputs
AllReleased-parts pov input inputs entry e (released _ _ other f one all) =
    let same : other ≡ entry = some-injective other entry (sym f ∙ e) in
    (subst (λ t. IsReleased pov input.sequence t.block_daa_score) same one, all)

calc_lock-AllReleased :
    (pov : ℕ) (lock : ℤ) (inputs : List DomainTransactionInput)
    → IsPopulated inputs
    → (raised : ℤ) × (calc_lock [] lock inputs ≡ pass raised)
      × ((ltb_ℤ raised (pos pov) ≡ true) ↔ ((ltb_ℤ lock (pos pov) ≡ true) × AllReleased pov inputs))
unfolding calc_lock unless_missing
calc_lock-AllReleased pov lock _ no_inputs = (lock, refl, ((λ h. (h, none_locked)), (λ p. p.0)))
calc_lock-AllReleased pov lock _ (populated input inputs entry e known rest) =
    let r = raise_lock-Raised pov input.sequence entry.block_daa_score lock known in
    let (last, calculated, (there, back)) = calc_lock-AllReleased pov r.raised inputs rest in
    (
      last,
      rw (calc_lock, e, r.is_raised) calculated,
      (
        (λ h.
            let (up, all) = there h in
            let (low, one) = r.lets_through.0 up in (low, released input inputs entry e one all)),
        (λ p.
            let (one, all) = AllReleased-parts pov input inputs entry e p.1 in
            back (r.lets_through.1 (p.0, one), all)),
      ),
    )

active_iff :
    (pov : ℕ) (lock : ℤ)
    → pov ≤ max_int64
    → (sequence_lock_active lock pov ≡ true) ↔ (ltb_ℤ lock (pos pov) ≡ true)
unfolding sequence_lock_active
active_iff pov (pos n) small = ground (arith, small)
active_iff pov (negsuc n) small = ground (arith, small)

is_active : (b : Bool) → (not b ≡ false) ↔ (b ≡ true)
is_active b = ground arith

-- For a transaction that is no coinbase, whose inputs all have an entry, with a score that is either
-- the one of entries not accepted yet or at least 2^32 below the largest int64, and a DAA score
-- that is an int64: the check of the sequence locks passes exactly if every input's lock is
-- disabled, its entry not accepted yet, or as many scores passed since the entry's as it asks for.
pub check_transaction_sequence_lock-AllReleased :
    (tx : DomainTransaction) (pov : ℕ)
    → is_coinbase tx ≡ false
    → IsPopulated tx.inputs
    → pov ≤ max_int64
    → (check_transaction_sequence_lock tx pov ≡ pass tt) ↔ AllReleased pov tx.inputs
unfolding check_transaction_sequence_lock calc_tx_sequence_lock_from_referenced_utxo_entries
check_transaction_sequence_lock-AllReleased tx pov plain p small =
    let (lock, calculated, (there, back)) = calc_lock-AllReleased pov (negsuc 0) tx.inputs p in
    let (up, down) = active_iff pov lock small in
    let (test, tested) = reject_if_iff (not (sequence_lock_active lock pov)) unfinalized_tx in
    let (live, lived) = is_active (sequence_lock_active lock pov) in
    rw (plain, calculated)
      ((λ h. (there (up (live (test h)))).1), (λ a. tested (lived (down (back (ground arith, a))))))
