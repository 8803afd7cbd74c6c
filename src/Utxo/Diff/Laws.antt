-- ===== src/Utxo/Diff/Laws.antt =====
-- Laws of the diff algebra over UTXO sets: a diff determines where it leads, and adding the
-- difference of two diffs to the first gives one that does what the second does.
use eiyaro.Utxo.Diff.Loops.{over}
use eiyaro.Common.{sym, ◌∙◌, if◌then◌else◌, Option, none, some, ◌==◌, ◌≡◌, refl, true, arith}
use eiyaro.Utxo.Collection.{UtxoEntry, Outpoint, is_some}
use eiyaro.Utxo.Diff.{UtxoDiff, success, with_diff, diff_from}
use eiyaro.Utxo.Diff.Point.{Change, untouched, created, spent, replaced, UtxoSet, Leads, Agree}
use eiyaro.Utxo.Diff.WithDiff.{with_diff-Leads}
use eiyaro.Utxo.Diff.DiffFrom.{diff_from-Leads}

Change-after :
    (b c ta tr : Option UtxoEntry) → Change b c ta tr → c ≡ over ta (if is_some tr then none else b)
Change-after b c ta tr (untouched _) = refl
Change-after b c ta tr (created a) = refl
Change-after b c ta tr (spent r) = refl
Change-after b c ta tr (replaced r a n) = refl

-- The sets that one diff leads to from one set have the same entries.
pub Leads-unique :
    (before after after' : UtxoSet) (d : UtxoDiff)
    → Leads before d after
    → Leads before d after'
    → (o : Outpoint) → after o ≡ after' o
Leads-unique before after after' d p q o =
    Change-after _ _ _ _ (p.change o) ∙ sym (Change-after _ _ _ _ (q.change o))

-- An entry that the first step removes and the difference adds back is the one of the base, unless
-- the second step replaced it by one with another score.
restored_at :
    (b c1 c2 ta tr oa ot da dt : Option UtxoEntry) (x y : UtxoEntry)
    → Change b c1 ta tr
    → Change b c2 oa ot
    → Change c1 c2 da dt
    → tr ≡ some x
    → da ≡ some y
    → (x.block_daa_score == y.block_daa_score) ≡ true
    → x ≡ y
restored_at b c1 c2 ta tr oa ot da dt x y (untouched _) q s h k e = absurd (ground arith)
restored_at b c1 c2 ta tr oa ot da dt x y (created a) q s h k e = absurd (ground arith)
restored_at b c1 c2 ta tr oa ot da dt x y (spent r) (untouched _) (created _) h k e = cc
restored_at b c1 c2 ta tr oa ot da dt x y (spent r) (spent _) (untouched _) h k e =
    absurd (ground arith)
restored_at b c1 c2 ta tr oa ot da dt x y (spent r) (replaced _ a n) (created _) h k e =
    absurd (ground arith)
restored_at b c1 c2 ta tr oa ot da dt x y (replaced r a n) q (untouched _) h k e =
    absurd (ground arith)
restored_at b c1 c2 ta tr oa ot da dt x y (replaced r a n) (untouched _) (replaced _ _ m) h k e = cc
restored_at b c1 c2 ta tr oa ot da dt x y (replaced r a n) (spent _) (spent _) h k e =
    absurd (ground arith)
restored_at b c1 c2 ta tr oa ot da dt x y (replaced r a n) (replaced _ a2 n2) (replaced _ _ m) h k
      e =
    absurd (ground arith)

module _ (base first second : UtxoSet) (this other : UtxoDiff) (p : Leads base this first)
    (q : Leads base other second) where
  -- Of two diffs from one set, the difference of the second and the first can be added to the first,
  -- and the sum leads from the base to the set of the second; an entry that both add with one DAA
  -- score must be the same.
  pub with_diff-diff_from :
      Agree this.to_add other.to_add
      → (d : UtxoDiff) × (sum : UtxoDiff) × (diff_from this other ≡ success d)
        × (with_diff this d ≡ success sum)
        × Leads base sum second
  with_diff-diff_from agree =
      let (d, e, s) = diff_from-Leads base first second this other p q agree in
      let (sum, f, t) = with_diff-Leads base first second this d p s (restored d s) in
      (d, sum, e, f, t)
    where
      restored : (d : UtxoDiff) → Leads first d second → Agree this.to_remove d.to_add
      restored d s = record {
        same_entry = λ o x y h k e.
            restored_at _ _ _ _ _ _ _ _ _ x y (p.change o) (q.change o) (s.change o) h k e;
      }
