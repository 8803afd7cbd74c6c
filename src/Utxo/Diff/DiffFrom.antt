-- ===== src/Utxo/Diff/DiffFrom.antt =====
-- `diffFrom` subtracts: it succeeds on two diffs from one set, and leads from the end of the first to
-- the end of the second.
use eiyaro.Common.{
  Bool, true, false, [], ◌&&◌, ◌||◌, not, ◌==◌, Option, some, ◌≡◌, refl, sym, ap, ◌∙◌, arith,
}
use eiyaro.Utxo.Collection.{
  Outpoint, UtxoEntry, UtxoCollection, get, is_some, IsMap, contains_with_daa_score,
}
use eiyaro.Utxo.Diff.{
  UtxoDiff, success, diff_from, difference, in_collection, unexplained, unequal,
  intersection_having_daa_score, subtraction_having_daa_score, check_intersection, reversed,
}
use eiyaro.Utxo.Diff.Loops.{keep, over, check_intersection_with_rule-clear, check_intersection-same}
use eiyaro.Utxo.Diff.Point.{
  Change, untouched, created, spent, replaced, UtxoSet, Leads, Agree, in_option, difference_add_at,
  difference_remove_at, difference_at, reverse_at,
}
use eiyaro.Utxo.Diff.WithDiff.{
  get-subtraction, get-intersection_new, get-nil, over-none, IsMap-intersection, IsMap-subtraction,
  same_entry_score,
}

get-subtraction_new :
    (c1 c2 : UtxoCollection) (o : Outpoint)
    → IsMap c1
    → get (subtraction_having_daa_score c1 c2 []) o
      ≡ keep (λ e. not (in_option (get c2 o) e)) (get c1 o)
get-subtraction_new c1 c2 o h =
    get-subtraction c1 c2 [] o h
    ∙ ap (over (keep (λ e. not (in_option (get c2 o) e)) (get c1 o))) (get-nil o)
    ∙ over-none _

module _ (this other : UtxoDiff) (m₁ : IsMap this.to_add) (m₂ : IsMap this.to_remove)
    (n₁ : IsMap other.to_add) (n₂ : IsMap other.to_remove) (o : Outpoint) where
  get-difference_add :
      get (difference this other).to_add o
      ≡ difference_add_at
          (get this.to_add o)
          (get this.to_remove o)
          (get other.to_add o)
          (get other.to_remove o)
  unfolding difference
  get-difference_add =
      rw
        (
          get-subtraction other.to_add this.to_add _ o n₁,
          get-subtraction_new this.to_remove other.to_remove o m₂,
        )
        refl

  get-difference_remove :
      get (difference this other).to_remove o
      ≡ difference_remove_at
          (get this.to_add o)
          (get this.to_remove o)
          (get other.to_add o)
          (get other.to_remove o)
  unfolding difference
  get-difference_remove =
      rw
        (
          get-subtraction other.to_remove this.to_remove _ o n₂,
          get-subtraction_new this.to_add other.to_add o m₁,
        )
        refl

other_score :
    (r a e d : UtxoEntry)
    → (a.block_daa_score == r.block_daa_score) ≡ false
    → some r ≡ some e
    → some a ≡ some d
    → (d.block_daa_score == e.block_daa_score) ≡ false
other_score r a e d n h k = ground arith

score_other :
    (r a e d : UtxoEntry)
    → (a.block_daa_score == r.block_daa_score) ≡ false
    → some a ≡ some e
    → some r ≡ some d
    → (d.block_daa_score == e.block_daa_score) ≡ false
score_other r a e d n h k = ground arith

or_true : (b : Bool) → (b || true) ≡ true
or_true true = refl
or_true false = refl

-- An outpoint that the first removes and the second adds: the second replaces its entry.
readded :
    (b c1 c2 ta tr oa ot : Option UtxoEntry) (e d : UtxoEntry)
    → Change b c1 ta tr
    → Change b c2 oa ot
    → tr ≡ some e
    → oa ≡ some d
    → not (not (d.block_daa_score == e.block_daa_score) && (in_option ta d || in_option ot e))
      ≡ false
readded b c1 c2 ta tr oa ot e d (untouched _) q h k = absurd (ground arith)
readded b c1 c2 ta tr oa ot e d (created a) q h k = absurd (ground arith)
readded b c1 c2 ta tr oa ot e d (spent r) (untouched _) h k = absurd (ground arith)
readded b c1 c2 ta tr oa ot e d (spent r) (spent _) h k = absurd (ground arith)
readded b c1 c2 ta tr oa ot e d (spent r) (replaced _ a n) h k =
    rw (other_score r a e d n h k, same_entry_score r e h) refl
readded b c1 c2 ta tr oa ot e d (replaced r a n) (untouched _) h k = absurd (ground arith)
readded b c1 c2 ta tr oa ot e d (replaced r a n) (spent _) h k = absurd (ground arith)
readded b c1 c2 ta tr oa ot e d (replaced r a n) (replaced _ a2 n2) h k =
    rw (other_score r a2 e d n2 h k, same_entry_score r e h, or_true) refl

-- An outpoint that the first adds and the second removes: the first replaced its entry.
reremoved :
    (b c1 c2 ta tr oa ot : Option UtxoEntry) (e d : UtxoEntry)
    → Change b c1 ta tr
    → Change b c2 oa ot
    → ta ≡ some e
    → ot ≡ some d
    → not (not (d.block_daa_score == e.block_daa_score) && (in_option tr d || in_option oa e))
      ≡ false
reremoved b c1 c2 ta tr oa ot e d (untouched _) q h k = absurd (ground arith)
reremoved b c1 c2 ta tr oa ot e d (spent r) q h k = absurd (ground arith)
reremoved b c1 c2 ta tr oa ot e d (created a) (untouched _) h k = absurd (ground arith)
reremoved b c1 c2 ta tr oa ot e d (created a) (created _) h k = absurd (ground arith)
reremoved b c1 c2 ta tr oa ot e d (replaced r a n) (untouched _) h k = absurd (ground arith)
reremoved b c1 c2 ta tr oa ot e d (replaced r a n) (spent _) h k =
    rw (score_other r a e d n h k, same_entry_score r d k) refl
reremoved b c1 c2 ta tr oa ot e d (replaced r a n) (replaced _ a2 n2) h k =
    rw (score_other r a e d n h k, same_entry_score r d k) refl

-- What both remove is the same entry.
removed_alike :
    (b c1 c2 ta tr oa ot : Option UtxoEntry) (e d : UtxoEntry)
    → Change b c1 ta tr
    → Change b c2 oa ot
    → tr ≡ some e
    → ot ≡ some d
    → not (e.block_daa_score == d.block_daa_score) ≡ false
removed_alike b c1 c2 ta tr oa ot e d (untouched _) q h k = absurd (ground arith)
removed_alike b c1 c2 ta tr oa ot e d (created a) q h k = absurd (ground arith)
removed_alike b c1 c2 ta tr oa ot e d (spent r) (untouched _) h k = absurd (ground arith)
removed_alike b c1 c2 ta tr oa ot e d (spent r) (spent _) h k = ground arith
removed_alike b c1 c2 ta tr oa ot e d (spent r) (replaced _ a n) h k = ground arith
removed_alike b c1 c2 ta tr oa ot e d (replaced r a n) (untouched _) h k = absurd (ground arith)
removed_alike b c1 c2 ta tr oa ot e d (replaced r a n) (spent _) h k = ground arith
removed_alike b c1 c2 ta tr oa ot e d (replaced r a n) (replaced _ a2 n2) h k = ground arith

-- What both add, both removed before or neither did.
added_alike :
    (b c1 c2 ta tr oa ot : Option UtxoEntry) (e : UtxoEntry)
    → Change b c1 ta tr
    → Change b c2 oa ot
    → keep (in_option oa) ta ≡ some e
    → is_some tr ≡ is_some ot
added_alike b c1 c2 ta tr oa ot e (untouched _) q h = absurd (ground arith)
added_alike b c1 c2 ta tr oa ot e (spent r) q h = absurd (ground arith)
added_alike b c1 c2 ta tr oa ot e (created a) (untouched _) h = absurd (ground arith)
added_alike b c1 c2 ta tr oa ot e (created a) (created _) h = refl
added_alike b c1 c2 ta tr oa ot e (replaced r a n) (untouched _) h = absurd (ground arith)
added_alike b c1 c2 ta tr oa ot e (replaced r a n) (spent _) h = refl
added_alike b c1 c2 ta tr oa ot e (replaced r a n) (replaced _ a2 n2) h = refl

unequal_refl : (b : Bool) → unequal b b ≡ false
unequal_refl true = refl
unequal_refl false = refl

module _ (base first second : UtxoSet) (this other : UtxoDiff) (p : Leads base this first)
    (q : Leads base other second) where
  in_both_alike :
      check_intersection (intersection_having_daa_score this.to_add other.to_add []) this.to_remove
      ≡ check_intersection
          (intersection_having_daa_score this.to_add other.to_add [])
          other.to_remove
  in_both_alike =
      check_intersection-same _ this.to_remove other.to_remove
        (IsMap-intersection this.to_add other.to_add [] tt)
        (λ o e h.
          added_alike _ _ _ _ _ _ _ e (p.change o) (q.change o)
            (sym (get-intersection_new this.to_add other.to_add o p.to_add_map) ∙ h))

  diff_from-clear : diff_from this other ≡ success (difference this other)
  unfolding diff_from unexplained in_collection contains_with_daa_score
  diff_from-clear =
      rw
        (
          check_intersection_with_rule-clear this.to_remove other.to_add
              (unexplained this.to_add other.to_remove) p.to_remove_map
              (λ o e d. readded _ _ _ _ _ _ _ e d (p.change o) (q.change o)),
          check_intersection_with_rule-clear this.to_add other.to_remove
              (unexplained this.to_remove other.to_add) p.to_add_map
              (λ o e d. reremoved _ _ _ _ _ _ _ e d (p.change o) (q.change o)),
          check_intersection_with_rule-clear this.to_remove other.to_remove
              (λ _ e d. not (e.block_daa_score == d.block_daa_score)) p.to_remove_map
              (λ o e d. removed_alike _ _ _ _ _ _ _ e d (p.change o) (q.change o)),
          in_both_alike,
          unequal_refl,
        )
        refl

  Leads-difference : Agree this.to_add other.to_add → Leads first (difference this other) second
  unfolding difference
  Leads-difference agree = record {
    to_add_map = IsMap-subtraction other.to_add _ _ (IsMap-subtraction this.to_remove _ _ tt);
    to_remove_map = IsMap-subtraction other.to_remove _ _ (IsMap-subtraction this.to_add _ _ tt);
    change = λ o.
        rw
          (
            get-difference_add this other p.to_add_map p.to_remove_map q.to_add_map q.to_remove_map
                o,
            get-difference_remove this other p.to_add_map p.to_remove_map q.to_add_map
                q.to_remove_map o,
          )
          (difference_at _ _ _ _ _ _ _ (p.change o) (q.change o)
            (λ x y h k s. agree.same_entry o x y h k s));
  }

  -- Of two diffs from one set, diffFrom succeeds, and its result leads from the set that the first
  -- leads to, to that of the second; an entry that both add with one DAA score must be the same.
  pub diff_from-Leads :
      Agree this.to_add other.to_add
      → (d : UtxoDiff) × (diff_from this other ≡ success d) × Leads first d second
  diff_from-Leads agree = (difference this other, diff_from-clear, Leads-difference agree)

-- The reversed diff leads back.
pub Leads-reversed :
    (before after : UtxoSet) (d : UtxoDiff) → Leads before d after → Leads after (reversed d) before
unfolding reversed
Leads-reversed before after d p = record {
  to_add_map = p.to_remove_map;
  to_remove_map = p.to_add_map;
  change = λ o. reverse_at _ _ _ _ (p.change o);
}
