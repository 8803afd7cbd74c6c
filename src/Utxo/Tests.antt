-- ===== src/Utxo/Tests.antt =====
-- The theorems on UTXO diffs at concrete sets and diffs.
use eiyaro.Common.{
  Bool, true, false, [], ◌∷◌, Option, none, some, ◌≡◌, refl, arith, if◌then◌else◌, ◌==◌,
}
use eiyaro.Utxo.Collection.{Outpoint, UtxoEntry, UtxoCollection, same_outpoint, get}
use eiyaro.Utxo.Diff.{UtxoDiff, success, with_diff, diff_from, reversed}
use eiyaro.Utxo.Diff.Point.{Change, untouched, spent, replaced, UtxoSet, Leads, Agree}
use eiyaro.Utxo.Diff.WithDiff.{with_diff-Leads}
use eiyaro.Utxo.Diff.DiffFrom.{diff_from-Leads, Leads-reversed}
use eiyaro.Utxo.Diff.Laws.{with_diff-diff_from}
use eiyaro.Utxo.Transaction.{Transaction, add_transaction, new_utxo_entry}
use eiyaro.Utxo.Transaction.Entries.{Restores}
use eiyaro.Utxo.Transaction.Apply.{spend_all, create_all, outpoint_at, add_transaction-Leads}

-- Three sets over one outpoint: an entry, the same outpoint with a later score, and none.
abbrev point : Outpoint
point = record { transaction_id = 5; index = 0 }

abbrev early : UtxoEntry
early = record {
  amount = 10;
  script_version = 0;
  script = [];
  block_daa_score = 3;
  is_coinbase = false;
}

abbrev late : UtxoEntry
late = record early { block_daa_score = 7 }

abbrev set_of : Option UtxoEntry → UtxoSet
set_of x o = if same_outpoint point o then x else none

abbrev replacing : UtxoDiff
replacing = record { to_add = (point, late) ∷ []; to_remove = (point, early) ∷ [] }

abbrev spending_late : UtxoDiff
spending_late = record { to_add = []; to_remove = (point, late) ∷ [] }

abbrev spending_early : UtxoDiff
spending_early = record { to_add = []; to_remove = (point, early) ∷ [] }

late_differs : (late.block_daa_score == early.block_daa_score) ≡ false
late_differs = refl

at_key :
    (b : Bool) (x y to_add to_remove : Option UtxoEntry)
    → Change x y to_add to_remove
    → Change
        (if b then x else none)
        (if b then y else none)
        (if b then to_add else none)
        (if b then to_remove else none)
at_key true x y to_add to_remove c = c
at_key false x y to_add to_remove c = untouched none

spent_key :
    (b : Bool) (r : UtxoEntry) (after : Option UtxoEntry)
    → after ≡ none
    → Change
        (if b then some r else none)
        (if b then after else none)
        none
        (if b then some r else none)
spent_key true r after h = rw h (spent r)
spent_key false r after h = untouched none

replacing-Leads : Leads (set_of (some early)) replacing (set_of (some late))
unfolding get
replacing-Leads = record {
  to_add_map = (refl, tt);
  to_remove_map = (refl, tt);
  change = λ o. at_key (same_outpoint point o) _ _ _ _ (replaced early late late_differs);
}

spending_late-Leads : Leads (set_of (some late)) spending_late (set_of none)
unfolding get
spending_late-Leads = record {
  to_add_map = tt;
  to_remove_map = (refl, tt);
  change = λ o. spent_key (same_outpoint point o) late none refl;
}

spending_early-Leads : Leads (set_of (some early)) spending_early (set_of none)
unfolding get
spending_early-Leads = record {
  to_add_map = tt;
  to_remove_map = (refl, tt);
  change = λ o. spent_key (same_outpoint point o) early none refl;
}

nothing_added : (c : UtxoCollection) → Agree c []
unfolding get
nothing_added c = record { same_entry = λ o x y h k e. absurd (ground arith) }

with_diff-Leads_example :
    (d : UtxoDiff) × (with_diff replacing spending_late ≡ success d)
    × Leads (set_of (some early)) d (set_of none)
with_diff-Leads_example =
    with_diff-Leads (set_of (some early)) (set_of (some late)) (set_of none) replacing spending_late
      replacing-Leads spending_late-Leads (nothing_added ((point, early) ∷ []))

diff_from-Leads_example :
    (d : UtxoDiff) × (diff_from replacing spending_early ≡ success d)
    × Leads (set_of (some late)) d (set_of none)
diff_from-Leads_example =
    diff_from-Leads (set_of (some early)) (set_of (some late)) (set_of none) replacing
      spending_early replacing-Leads spending_early-Leads (nothing_added ((point, late) ∷ []))

with_diff-diff_from_example :
    (d : UtxoDiff) × (sum : UtxoDiff) × (diff_from replacing spending_early ≡ success d)
    × (with_diff replacing d ≡ success sum)
    × Leads (set_of (some early)) sum (set_of none)
with_diff-diff_from_example =
    with_diff-diff_from (set_of (some early)) (set_of (some late)) (set_of none) replacing
      spending_early replacing-Leads spending_early-Leads (nothing_added ((point, late) ∷ []))

Leads-reversed_example : Leads (set_of (some late)) (reversed replacing) (set_of (some early))
Leads-reversed_example =
    Leads-reversed (set_of (some early)) (set_of (some late)) replacing replacing-Leads

abbrev payment : Transaction
payment = record {
  id = 9;
  is_coinbase = false;
  inputs = record { previous_outpoint = point; utxo_entry = early } ∷ [];
  outputs = record { value = 8; script_version = 0; script = 0x51 ∷ [] } ∷ [];
}

abbrev no_change : UtxoDiff
no_change = record { to_add = []; to_remove = [] }

no_change-Leads : Leads (set_of (some early)) no_change (set_of (some early))
unfolding get
no_change-Leads = record { to_add_map = tt; to_remove_map = tt; change = λ o. untouched _ }

new_output-Restores :
    Restores
      (set_of (some early))
      (outpoint_at payment 7 0)
      (new_utxo_entry (record { value = 8; script_version = 0; script = 0x51 ∷ [] }) false 7)
new_output-Restores = record { same_entry = λ x h e. absurd (ground arith) }

add_transaction-Leads_example :
    (d : UtxoDiff) × (add_transaction no_change payment 7 ≡ success d)
    × Leads
        (set_of (some early))
        d
        (create_all payment 7 0 payment.outputs (spend_all payment.inputs (set_of (some early))))
add_transaction-Leads_example =
    add_transaction-Leads (set_of (some early)) (set_of (some early)) no_change payment 7
      no_change-Leads (refl, tt) (refl, new_output-Restores, omega arith, tt)
