-- ===== src/Utxo/Diff/WithDiff.antt =====
-- `withDiffInPlace` composes: it succeeds on two diffs that follow each other, and makes one step of
-- the two.
use eiyaro.Common.{true, false, [], not, ◌==◌, Option, none, some, ◌≡◌, refl, ap, ◌∙◌, arith}
use eiyaro.Utxo.Collection.{
  Outpoint, UtxoEntry, UtxoCollection, get, IsMap, contains_with_daa_score,
}
use eiyaro.Utxo.Collection.Lookup.{get-remove_multiple, IsMap-remove_multiple}
use eiyaro.Utxo.Diff.{
  UtxoDiff, success, with_diff, with_diff_in_place, merge, in_collection,
  intersection_having_daa_score, subtraction_having_daa_score,
}
use eiyaro.Utxo.Diff.Loops.{
  keep, over, get-collect, IsMap-collect, check_intersection_with_rule-clear,
}
use eiyaro.Utxo.Diff.Point.{
  Change, untouched, created, spent, replaced, UtxoSet, Leads, Agree, in_option, merge_add_at,
  merge_remove_at, compose_at,
}

pub get-intersection :
    (c1 c2 result : UtxoCollection) (o : Outpoint)
    → IsMap c1
    → get (intersection_having_daa_score c1 c2 result) o
      ≡ over (keep (in_option (get c2 o)) (get c1 o)) (get result o)
unfolding intersection_having_daa_score in_collection contains_with_daa_score
get-intersection c1 c2 result o h = get-collect _ c1 result o h

pub get-subtraction :
    (c1 c2 result : UtxoCollection) (o : Outpoint)
    → IsMap c1
    → get (subtraction_having_daa_score c1 c2 result) o
      ≡ over (keep (λ e. not (in_option (get c2 o) e)) (get c1 o)) (get result o)
unfolding subtraction_having_daa_score in_collection contains_with_daa_score
get-subtraction c1 c2 result o h = get-collect _ c1 result o h

pub IsMap-intersection :
    (c1 c2 result : UtxoCollection)
    → IsMap result
    → IsMap (intersection_having_daa_score c1 c2 result)
unfolding intersection_having_daa_score
IsMap-intersection c1 c2 result h = IsMap-collect _ c1 result h

pub IsMap-subtraction :
    (c1 c2 result : UtxoCollection)
    → IsMap result
    → IsMap (subtraction_having_daa_score c1 c2 result)
unfolding subtraction_having_daa_score
IsMap-subtraction c1 c2 result h = IsMap-collect _ c1 result h

pub over-none : (p : Option UtxoEntry) → over p none ≡ p
over-none none = refl
over-none (some e) = refl

pub get-nil : (o : Outpoint) → get [] o ≡ none
unfolding get
get-nil o = refl

pub get-intersection_new :
    (c1 c2 : UtxoCollection) (o : Outpoint)
    → IsMap c1
    → get (intersection_having_daa_score c1 c2 []) o ≡ keep (in_option (get c2 o)) (get c1 o)
get-intersection_new c1 c2 o h =
    get-intersection c1 c2 [] o h
    ∙ ap (over (keep (in_option (get c2 o)) (get c1 o))) (get-nil o)
    ∙ over-none _

module _ (this other : UtxoDiff) (m₁ : IsMap this.to_add) (m₂ : IsMap this.to_remove)
    (n₁ : IsMap other.to_add) (n₂ : IsMap other.to_remove) (o : Outpoint) where
  get-merge_remove :
      get (merge this other).to_remove o
      ≡ merge_remove_at
          (get this.to_add o)
          (get this.to_remove o)
          (get other.to_add o)
          (get other.to_remove o)
  unfolding merge
  get-merge_remove =
      rw
        (
          get-remove_multiple,
          get-intersection_new other.to_add _ o n₁,
          get-subtraction other.to_remove this.to_add this.to_remove o n₂,
        )
        refl

  get-merge_add :
      get (merge this other).to_add o
      ≡ merge_add_at
          (get this.to_add o)
          (get this.to_remove o)
          (get other.to_add o)
          (get other.to_remove o)
  unfolding merge
  get-merge_add =
      rw
        (
          get-subtraction other.to_add _ _ o n₁,
          get-remove_multiple,
          get-intersection_new other.to_remove this.to_add o n₂,
          get-subtraction other.to_remove this.to_add this.to_remove o n₂,
        )
        refl

pub same_entry_score :
    (a e : UtxoEntry) → some a ≡ some e → (a.block_daa_score == e.block_daa_score) ≡ true
same_entry_score a e h = ground arith

-- What the second step spends is not spent by the first, unless the first created it anew.
removed_once :
    (b m c ta tr oa ot : Option UtxoEntry) (e d : UtxoEntry)
    → Change b m ta tr
    → Change m c oa ot
    → ot ≡ some e
    → tr ≡ some d
    → not (in_option ta e) ≡ false
removed_once b m c ta tr oa ot e d (untouched _) q h k = absurd (ground arith)
removed_once b m c ta tr oa ot e d (created a) q h k = absurd (ground arith)
removed_once b m c ta tr oa ot e d (spent r) (untouched _) h k = absurd (ground arith)
removed_once b m c ta tr oa ot e d (spent r) (created _) h k = absurd (ground arith)
removed_once b m c ta tr oa ot e d (replaced r a n) (untouched _) h k = absurd (ground arith)
removed_once b m c ta tr oa ot e d (replaced r a n) (spent _) h k = rw (same_entry_score a e h) refl
removed_once b m c ta tr oa ot e d (replaced r a n) (replaced _ a2 n2) h k =
    rw (same_entry_score a e h) refl

-- What the second step creates is not there already, unless the second spends that.
added_once :
    (b m c ta tr oa ot : Option UtxoEntry) (e d : UtxoEntry)
    → Change b m ta tr
    → Change m c oa ot
    → oa ≡ some e
    → ta ≡ some d
    → not (in_option ot d) ≡ false
added_once b m c ta tr oa ot e d (untouched _) q h k = absurd (ground arith)
added_once b m c ta tr oa ot e d (spent r) q h k = absurd (ground arith)
added_once b m c ta tr oa ot e d (created a) (untouched _) h k = absurd (ground arith)
added_once b m c ta tr oa ot e d (created a) (spent _) h k = rw (same_entry_score a d k) refl
added_once b m c ta tr oa ot e d (created a) (replaced _ a2 n) h k =
    rw (same_entry_score a d k) refl
added_once b m c ta tr oa ot e d (replaced r a n) (untouched _) h k = absurd (ground arith)
added_once b m c ta tr oa ot e d (replaced r a n) (spent _) h k = rw (same_entry_score a d k) refl
added_once b m c ta tr oa ot e d (replaced r a n) (replaced _ a2 n2) h k =
    rw (same_entry_score a d k) refl

module _ (before middle after : UtxoSet) (this other : UtxoDiff) (p : Leads before this middle)
    (q : Leads middle other after) where
  with_diff_in_place-clear : with_diff_in_place this other ≡ success (merge this other)
  unfolding with_diff_in_place in_collection contains_with_daa_score
  with_diff_in_place-clear =
      rw
        (
          check_intersection_with_rule-clear other.to_remove this.to_remove
              (λ o e _. not (in_collection this.to_add o e)) q.to_remove_map
              (λ o e d. removed_once _ _ _ _ _ _ _ e d (p.change o) (q.change o)),
          check_intersection_with_rule-clear other.to_add this.to_add
              (λ o _ d. not (in_collection other.to_remove o d)) q.to_add_map
              (λ o e d. added_once _ _ _ _ _ _ _ e d (p.change o) (q.change o)),
        )
        refl

  IsMap-merge_add : IsMap (merge this other).to_add
  unfolding merge
  IsMap-merge_add = IsMap-subtraction other.to_add _ _ (IsMap-remove_multiple _ _ p.to_add_map)

  IsMap-merge_remove : IsMap (merge this other).to_remove
  unfolding merge
  IsMap-merge_remove =
      IsMap-remove_multiple _ _ (IsMap-subtraction other.to_remove _ _ p.to_remove_map)

  Leads-merge : Agree this.to_remove other.to_add → Leads before (merge this other) after
  Leads-merge agree = record {
    to_add_map = IsMap-merge_add;
    to_remove_map = IsMap-merge_remove;
    change = λ o.
        rw
          (
            get-merge_add this other p.to_add_map p.to_remove_map q.to_add_map q.to_remove_map o,
            get-merge_remove this other p.to_add_map p.to_remove_map q.to_add_map q.to_remove_map o,
          )
          (compose_at _ _ _ _ _ _ _ (p.change o) (q.change o)
            (λ x y h k s. agree.same_entry o x y h k s));
  }

  -- Of two diffs where the second starts from the set that the first leads to, withDiff succeeds,
  -- and its result leads from the first set to the last; an entry that the first removes and the
  -- second adds back with the same DAA score must be the same entry.
  pub with_diff-Leads :
      Agree this.to_remove other.to_add
      → (d : UtxoDiff) × (with_diff this other ≡ success d) × Leads before d after
  unfolding with_diff
  with_diff-Leads agree = (merge this other, with_diff_in_place-clear, Leads-merge agree)
