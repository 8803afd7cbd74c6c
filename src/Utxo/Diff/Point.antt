-- ===== src/Utxo/Diff/Point.antt =====
-- The meaning of a diff: a step from one UTXO set to another. This is the specification that the
-- diff algebra is proved against, first at one outpoint.
use eiyaro.Common.{
  Bool, true, false, not, ◌==◌, if◌then◌else◌, Option, none, some, ◌≡◌, refl, arith, inl, inr,
  Bool-cases,
}
use eiyaro.Utxo.Collection.{Outpoint, UtxoEntry, UtxoCollection, get, is_some, has_score, IsMap}
use eiyaro.Utxo.Diff.{UtxoDiff}
use eiyaro.Utxo.Diff.Loops.{keep, over}

-- What happens at one outpoint: the entry before and after, and those of toAdd and toRemove. Entries
-- at one outpoint are told apart by their DAA score.
pub data Change : (before after to_add to_remove : Option UtxoEntry) → Type 0 where
  untouched : (b : Option UtxoEntry) → Change b b none none
  created : (a : UtxoEntry) → Change none (some a) (some a) none
  spent : (r : UtxoEntry) → Change (some r) none none (some r)
  replaced :
      (r a : UtxoEntry)
      → (a.block_daa_score == r.block_daa_score) ≡ false
      → Change (some r) (some a) (some a) (some r)

abbrev pub UtxoSet : Type 0
UtxoSet = Outpoint → Option UtxoEntry

-- The diff leads from the first set to the second.
pub record Leads (before : UtxoSet) (d : UtxoDiff) (after : UtxoSet) : Type 0 where
  pub to_add_map : IsMap d.to_add
  pub to_remove_map : IsMap d.to_remove
  pub change : (o : Outpoint) → Change (before o) (after o) (get d.to_add o) (get d.to_remove o)

-- Entries of the two collections that have the same outpoint and DAA score are the same.
pub record Agree (c1 c2 : UtxoCollection) : Type 0 where
  pub same_entry :
      (o : Outpoint) (x y : UtxoEntry)
      → get c1 o ≡ some x
      → get c2 o ≡ some y
      → (x.block_daa_score == y.block_daa_score) ≡ true
      → x ≡ y

abbrev pub in_option : Option UtxoEntry → UtxoEntry → Bool
in_option option entry = has_score option entry.block_daa_score

-- `merge` and `difference` at one outpoint.
module _ (ta tr oa ot : Option UtxoEntry) where
  abbrev pub removed_at : Option UtxoEntry
  removed_at = over (keep (λ e. not (in_option ta e)) ot) tr

  abbrev pub merge_remove_at : Option UtxoEntry
  merge_remove_at = if is_some (keep (in_option removed_at) oa) then none else removed_at

  abbrev pub merge_add_at : Option UtxoEntry
  merge_add_at =
      over (keep (λ e. not (in_option removed_at e)) oa)
        (if is_some (keep (in_option ta) ot) then none else ta)

  abbrev pub difference_add_at : Option UtxoEntry
  difference_add_at =
      over (keep (λ e. not (in_option ta e)) oa) (keep (λ e. not (in_option ot e)) tr)

  abbrev pub difference_remove_at : Option UtxoEntry
  difference_remove_at =
      over (keep (λ e. not (in_option tr e)) ot) (keep (λ e. not (in_option oa e)) ta)

score_refl : (e : UtxoEntry) → (e.block_daa_score == e.block_daa_score) ≡ true
score_refl e = ground arith

score_flip :
    (a r : UtxoEntry)
    → (a.block_daa_score == r.block_daa_score) ≡ false
    → (r.block_daa_score == a.block_daa_score) ≡ false
score_flip a r h = ground arith

abbrev AgreeAt : Option UtxoEntry → Option UtxoEntry → Type 0
AgreeAt p q =
    (x y : UtxoEntry)
    → p ≡ some x
    → q ≡ some y
    → (x.block_daa_score == y.block_daa_score) ≡ true
    → x ≡ y

-- An entry spent and then created again: gone from both maps if it is the same one.
recreated :
    (r a : UtxoEntry)
    → AgreeAt (some r) (some a)
    → Change
        (some r)
        (some a)
        (over (keep (λ e. not (in_option (some r) e)) (some a)) none)
        (if is_some (keep (in_option (some r)) (some a)) then none else some r)
recreated r a same = elim (Bool-cases (r.block_daa_score == a.block_daa_score)) [
  | inl e ↦ rw (e, same r a refl refl e) (untouched (some a))
  | inr e ↦ rw e (replaced r a (score_flip r a e))
]

-- A step and a step after it.
pub compose_at :
    (b m c ta tr oa ot : Option UtxoEntry)
    → Change b m ta tr
    → Change m c oa ot
    → AgreeAt tr oa
    → Change b c (merge_add_at ta tr oa ot) (merge_remove_at ta tr oa ot)
compose_at b m c ta tr oa ot (untouched _) (untouched _) same = untouched _
compose_at b m c ta tr oa ot (untouched _) (created a) same = created a
compose_at b m c ta tr oa ot (untouched _) (spent r) same = spent r
compose_at b m c ta tr oa ot (untouched _) (replaced r a d) same =
    rw (score_flip a r d) (replaced r a d)
compose_at b m c ta tr oa ot (created a) (untouched _) same = created a
compose_at b m c ta tr oa ot (created a) (spent _) same = rw (score_refl a) (untouched none)
compose_at b m c ta tr oa ot (created a) (replaced _ a2 d) same = rw (score_refl a) (created a2)
compose_at b m c ta tr oa ot (spent r) (untouched _) same = spent r
compose_at b m c ta tr oa ot (spent r) (created a) same = recreated r a same
compose_at b m c ta tr oa ot (replaced r a d) (untouched _) same = replaced r a d
compose_at b m c ta tr oa ot (replaced r a d) (spent _) same = rw (score_refl a) (spent r)
compose_at b m c ta tr oa ot (replaced r a d) (replaced _ a2 d2) same =
    rw (score_refl a) (recreated r a2 same)

-- The change from the entry of one diff to that of the other, where both create or replace.
redone :
    (a a2 : UtxoEntry)
    → AgreeAt (some a) (some a2)
    → Change
        (some a)
        (some a2)
        (over (keep (λ e. not (in_option (some a) e)) (some a2)) none)
        (over none (keep (λ e. not (in_option (some a2) e)) (some a)))
redone a a2 same = elim (Bool-cases (a.block_daa_score == a2.block_daa_score)) [
  | inl e ↦ rw (e, same a a2 refl refl e, score_refl a2) (untouched (some a2))
  | inr e ↦ rw (e, score_flip a a2 e) (replaced a a2 (score_flip a a2 e))
]

-- Two steps from one set: the step from the end of the first to the end of the second.
pub difference_at :
    (b c1 c2 ta tr oa ot : Option UtxoEntry)
    → Change b c1 ta tr
    → Change b c2 oa ot
    → AgreeAt ta oa
    → Change c1 c2 (difference_add_at ta tr oa ot) (difference_remove_at ta tr oa ot)
difference_at b c1 c2 ta tr oa ot (untouched _) (untouched _) same = untouched _
difference_at b c1 c2 ta tr oa ot (untouched _) (created a) same = created a
difference_at b c1 c2 ta tr oa ot (untouched _) (spent r) same = spent r
difference_at b c1 c2 ta tr oa ot (untouched _) (replaced r a d) same = replaced r a d
difference_at b c1 c2 ta tr oa ot (created a) (untouched _) same = spent a
difference_at b c1 c2 ta tr oa ot (created a) (created a2) same = redone a a2 same
difference_at b c1 c2 ta tr oa ot (spent r) (untouched _) same = created r
difference_at b c1 c2 ta tr oa ot (spent r) (spent _) same = rw (score_refl r) (untouched none)
difference_at b c1 c2 ta tr oa ot (spent r) (replaced _ a d) same = rw (score_refl r) (created a)
difference_at b c1 c2 ta tr oa ot (replaced r a d) (untouched _) same =
    replaced a r (score_flip a r d)
difference_at b c1 c2 ta tr oa ot (replaced r a d) (spent _) same = rw (score_refl r) (spent a)
difference_at b c1 c2 ta tr oa ot (replaced r a d) (replaced _ a2 d2) same =
    rw (score_refl r) (redone a a2 same)

-- The step back.
pub reverse_at : (b c ta tr : Option UtxoEntry) → Change b c ta tr → Change c b tr ta
reverse_at b c ta tr (untouched _) = untouched _
reverse_at b c ta tr (created a) = spent a
reverse_at b c ta tr (spent r) = created r
reverse_at b c ta tr (replaced r a d) = replaced a r (score_flip a r d)
