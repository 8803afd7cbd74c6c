-- ===== src/Utxo/Diff.antt =====
-- domain/consensus/utils/utxo/diff_algebra.go and the state of mutable_utxo_diff.go. The references
-- to immutable views, and the outpoint that an error message prints, are left out. A loop that adds
-- to two maps is two runs of `collect`, one for each map.
pub mod Loops
pub mod Point
pub mod WithDiff
pub mod DiffFrom
pub mod Laws
use eiyaro.Common.{
  ℕ, Bool, true, false, List, [], ◌∷◌, ◌&&◌, ◌||◌, not, ◌==◌, if◌then◌else◌, Option, none, some,
  ◌≡◌,
}
use eiyaro.Utxo.Collection.{
  Outpoint, UtxoEntry, UtxoCollection, get, is_some, contains, add, remove, remove_multiple,
  contains_with_daa_score, has_score,
}

pub record UtxoDiff : Type 0 where
  pub to_add : UtxoCollection
  pub to_remove : UtxoCollection

-- The errors, one for each message.
pub data DiffError : Type 0 where
  removed_by_both added_by_both removed_and_added added_and_removed : DiffError
  removed_with_other_score unequal_removals added_twice removed_twice : DiffError
  index_not_uint32 : DiffError

pub data DiffResult : Type 0 where
  success : UtxoDiff → DiffResult
  failure : DiffError → DiffResult

unfoldable pub check_intersection : UtxoCollection → UtxoCollection → Bool
check_intersection [] collection2 = false
check_intersection ((outpoint, entry) ∷ collection1) collection2 =
    contains collection2 outpoint || check_intersection collection1 collection2

-- The rule, at an outpoint that is in both.
abbrev pub offends :
    (Outpoint → UtxoEntry → UtxoEntry → Bool) → Outpoint → UtxoEntry → Option UtxoEntry → Bool
offends rule outpoint entry none = false
offends rule outpoint entry (some diff_entry) = rule outpoint entry diff_entry

unfoldable pub check_intersection_with_rule :
    UtxoCollection → UtxoCollection → (Outpoint → UtxoEntry → UtxoEntry → Bool) → Bool
check_intersection_with_rule [] collection2 rule = false
check_intersection_with_rule ((outpoint, entry) ∷ collection1) collection2 rule =
    offends rule outpoint entry (get collection2 outpoint)
    || check_intersection_with_rule collection1 collection2 rule

-- The entries of a collection that pass a test, added to a result.
unfoldable pub collect :
    (Outpoint → UtxoEntry → Bool) → UtxoCollection → UtxoCollection → UtxoCollection
collect test [] result = result
collect test ((outpoint, entry) ∷ collection) result =
    collect test collection (if test outpoint entry then add result outpoint entry else result)

-- `collection2.containsWithDAAScore(&outpoint, utxoEntry.BlockDAAScore())`
unfoldable pub in_collection : UtxoCollection → Outpoint → UtxoEntry → Bool
in_collection collection2 outpoint entry =
    contains_with_daa_score collection2 outpoint entry.block_daa_score

unfoldable pub intersection_having_daa_score :
    UtxoCollection → UtxoCollection → UtxoCollection → UtxoCollection
intersection_having_daa_score collection1 collection2 =
    collect (in_collection collection2) collection1

unfoldable pub subtraction_having_daa_score :
    UtxoCollection → UtxoCollection → UtxoCollection → UtxoCollection
subtraction_having_daa_score collection1 collection2 =
    collect (λ outpoint entry. not (in_collection collection2 outpoint entry)) collection1

-- The part of `withDiffInPlace` behind the two checks.
unfoldable pub merge : UtxoDiff → UtxoDiff → UtxoDiff
merge this other =
    let spent = intersection_having_daa_score other.to_remove this.to_add [] in
    let removed = subtraction_having_daa_score other.to_remove this.to_add this.to_remove in
    let added = remove_multiple this.to_add spent in
    let restored = intersection_having_daa_score other.to_add removed [] in
    record {
      to_add = subtraction_having_daa_score other.to_add removed added;
      to_remove = remove_multiple removed restored;
    }

unfoldable pub with_diff_in_place : UtxoDiff → UtxoDiff → DiffResult
with_diff_in_place this other =
    if check_intersection_with_rule other.to_remove this.to_remove
      (λ outpoint entry_to_add _. not (in_collection this.to_add outpoint entry_to_add))
    then failure removed_by_both
    else if check_intersection_with_rule other.to_add this.to_add
        (λ outpoint _ existing_entry. not (in_collection other.to_remove outpoint existing_entry))
    then failure added_by_both
    else success (merge this other)

-- `clone` copies the two maps, so that `this` stays as it is.
unfoldable pub with_diff : UtxoDiff → UtxoDiff → DiffResult
with_diff this diff = with_diff_in_place this diff

-- An outpoint that both collections have, unless another collection explains it: the scores differ,
-- and the entry of one is in `first` or that of the other in `second`.
unfoldable pub unexplained :
    UtxoCollection → UtxoCollection → Outpoint → UtxoEntry → UtxoEntry → Bool
unexplained first second outpoint utxo_entry diff_entry = not (
    not (diff_entry.block_daa_score == utxo_entry.block_daa_score)
    && (in_collection first outpoint diff_entry || in_collection second outpoint utxo_entry))

-- The part of `diffFrom` behind the checks.
unfoldable pub difference : UtxoDiff → UtxoDiff → UtxoDiff
difference this other = record {
  to_add =
      subtraction_having_daa_score other.to_add this.to_add
        (subtraction_having_daa_score this.to_remove other.to_remove []);
  to_remove =
      subtraction_having_daa_score other.to_remove this.to_remove
        (subtraction_having_daa_score this.to_add other.to_add []);
}

-- `!=` on Booleans.
abbrev pub unequal : Bool → Bool → Bool
unequal true b = not b
unequal false b = b

unfoldable pub diff_from : UtxoDiff → UtxoDiff → DiffResult
diff_from this other =
    let in_both_to_add = intersection_having_daa_score this.to_add other.to_add [] in
    if check_intersection_with_rule this.to_remove other.to_add
      (unexplained this.to_add other.to_remove)
    then failure removed_and_added
    else if check_intersection_with_rule this.to_add other.to_remove
        (unexplained this.to_remove other.to_add)
    then failure added_and_removed
    else if check_intersection_with_rule this.to_remove other.to_remove
        (λ _ utxo_entry diff_entry. not (utxo_entry.block_daa_score == diff_entry.block_daa_score))
    then failure removed_with_other_score
    else if unequal (check_intersection in_both_to_add this.to_remove)
        (check_intersection in_both_to_add other.to_remove)
    then failure unequal_removals
    else success (difference this other)

unfoldable pub reversed : UtxoDiff → UtxoDiff
reversed d = record { to_add = d.to_remove; to_remove = d.to_add }

unfoldable pub add_entry : UtxoDiff → Outpoint → UtxoEntry → DiffResult
add_entry d outpoint entry =
    if in_collection d.to_remove outpoint entry
    then success (record d { to_remove = remove d.to_remove outpoint })
    else if contains d.to_add outpoint
    then failure added_twice
    else success (record d { to_add = add d.to_add outpoint entry })

unfoldable pub remove_entry : UtxoDiff → Outpoint → UtxoEntry → DiffResult
remove_entry d outpoint entry =
    if in_collection d.to_add outpoint entry
    then success (record d { to_add = remove d.to_add outpoint })
    else if contains d.to_remove outpoint
    then failure removed_twice
    else success (record d { to_remove = add d.to_remove outpoint entry })
