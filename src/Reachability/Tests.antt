-- ===== src/Reachability/Tests.antt =====
-- The theorems on reachability at concrete intervals and stores.
use eiyaro.Common.{
  add64, sub64, ℕ, ◌≡◌, ◌≢◌, ◌⊎◌, refl, List, [], ◌∷◌, ◌||◌, none, some, arith, ◌==◌, if◌then◌else◌,
  ◌-◌,
}
use eiyaro.Reachability.Store.{
  Hash, ReachabilityInterval, ReachabilityData, Store, found, interval, reachability_data,
  future_covering_set,
}
use eiyaro.Reachability.Interval.{
  interval_contains, interval_split_exact, interval_split_with_exponential_bias, sum_from,
  parts_from, interval_size,
}
use eiyaro.Reachability.Interval.Split.{
  IsProper, Tiles, Covers, total, interval_split_exact-Tiles,
  interval_split_with_exponential_bias-Tiles,
}
use eiyaro.Reachability.Tree.{find_ancestor_index_of_node, index_below}
use eiyaro.Reachability.Tree.Ordered.{
  Located, located, no_nodes, IsOrdered, ordered, no_intervals, all_from, none_from, count_until,
}
use eiyaro.Reachability.Tree.Search.{find_ancestor_index_of_node-count_until}
use eiyaro.Reachability.FutureCovering.{insert_to_future_covering_set, is_dag_ancestor_of}
use eiyaro.Reachability.FutureCovering.Query.{any_contains, is_dag_ancestor_of-any_contains}
use eiyaro.Reachability.FutureCovering.Insert.{in_front, goes_behind}
use eiyaro.Reachability.FutureCovering.Insertion.{HasSet, insert_to_future_covering_set-Fits}

abbrev from_to : ℕ → ℕ → ReachabilityInterval
from_to start end = record { start = start; end = end }

whole-IsProper : IsProper (from_to 1 10)
whole-IsProper = record { above_zero = omega arith; in_order = omega arith; below = omega arith }

three_parts :
    interval_split_exact (from_to 1 10) (3 ∷ 0 ∷ 7 ∷ [])
    ≡ some (from_to 1 3 ∷ from_to 4 3 ∷ from_to 4 10 ∷ [])
unfolding interval_split_exact sum_from parts_from interval_size add64 sub64
three_parts = refl

interval_split_exact-Tiles_example :
    ((parts : List ReachabilityInterval) × (interval_split_exact (from_to 1 10) (3 ∷ 0 ∷ 7 ∷ [])
        ≡ some parts)
      × Tiles 1 (3 ∷ 0 ∷ 7 ∷ []) parts 11)
    ⊎ ((total (3 ∷ 0 ∷ 7 ∷ []) ≢ 11 - 1)
        × (interval_split_exact (from_to 1 10) (3 ∷ 0 ∷ 7 ∷ []) ≡ none))
unfolding total
interval_split_exact-Tiles_example =
    interval_split_exact-Tiles (from_to 1 10) (3 ∷ 0 ∷ 7 ∷ []) whole-IsProper (omega arith)

interval_split_with_exponential_bias-Tiles_example :
    (biased : List ℕ) × (parts : List ReachabilityInterval) × (interval_split_with_exponential_bias
        (λ sizes bias i. 2)
        (from_to 1 10)
        (3 ∷ 1 ∷ [])
      ≡ some parts)
    × Covers (3 ∷ 1 ∷ []) biased
    × Tiles 1 biased parts 11
unfolding total
interval_split_with_exponential_bias-Tiles_example =
    interval_split_with_exponential_bias-Tiles (λ sizes bias i. 2) (from_to 1 10) 3 (1 ∷ [])
      whole-IsProper (omega arith)

-- Block 1, and two blocks 2 and 3 of its set; block 4 lies between them.
abbrev data_of : ReachabilityInterval → List Hash → ReachabilityData
data_of ri tns = record {
  children = [];
  parent = none;
  interval = some ri;
  future_covering_set = tns;
}

abbrev four_blocks : Store
four_blocks h =
    if h == 1
    then some (data_of (from_to 1 100) (2 ∷ 3 ∷ []))
    else if h == 2
    then some (data_of (from_to 110 120) [])
    else if h == 3
    then some (data_of (from_to 140 150) [])
    else if h == 4
    then some (data_of (from_to 125 130) [])
    else none

abbrev two_intervals : List ReachabilityInterval
two_intervals = from_to 110 120 ∷ from_to 140 150 ∷ []

four_blocks-Located : Located four_blocks (2 ∷ 3 ∷ []) two_intervals
unfolding interval reachability_data
four_blocks-Located =
    located 2 (from_to 110 120) (3 ∷ []) (from_to 140 150 ∷ []) refl
      (located 3 (from_to 140 150) [] [] refl no_nodes)

two_intervals-IsOrdered : IsOrdered two_intervals
two_intervals-IsOrdered =
    ordered (from_to 110 120) (from_to 140 150 ∷ []) (omega arith)
      (all_from (from_to 140 150) [] (omega arith) none_from)
      (ordered (from_to 140 150) [] (omega arith) none_from no_intervals)

fourth : interval four_blocks 4 ≡ found (from_to 125 130)
unfolding interval reachability_data
fourth = refl

first_own : interval four_blocks 1 ≡ found (from_to 1 100)
unfolding interval reachability_data
first_own = refl

first_set : future_covering_set four_blocks 1 ≡ found (2 ∷ 3 ∷ [])
unfolding future_covering_set reachability_data
first_set = refl

find_ancestor_index_of_node-count_until_example :
    find_ancestor_index_of_node four_blocks (2 ∷ 3 ∷ []) 4
    ≡ found (index_below (count_until 130 two_intervals))
find_ancestor_index_of_node-count_until_example =
    find_ancestor_index_of_node-count_until four_blocks (2 ∷ 3 ∷ []) two_intervals 4
      (from_to 125 130) four_blocks-Located two_intervals-IsOrdered fourth

is_dag_ancestor_of-any_contains_example :
    is_dag_ancestor_of four_blocks 1 4
    ≡ found (any_contains (from_to 1 100 ∷ two_intervals) (from_to 125 130))
is_dag_ancestor_of-any_contains_example =
    is_dag_ancestor_of-any_contains four_blocks 1 4 (2 ∷ 3 ∷ []) two_intervals (from_to 1 100)
      (from_to 125 130) first_own first_set four_blocks-Located two_intervals-IsOrdered fourth
      (omega arith)

abbrev three_intervals : List ReachabilityInterval
three_intervals = from_to 110 120 ∷ from_to 125 130 ∷ from_to 140 150 ∷ []

insert_to_future_covering_set-Fits_example :
    (made_store : Store) × (insert_to_future_covering_set four_blocks 1 4 ≡ found made_store)
    × HasSet made_store 1 three_intervals
    × IsOrdered three_intervals
    × (any_contains three_intervals (from_to 126 126) ≡ (
        any_contains two_intervals (from_to 126 126)
        || interval_contains (from_to 125 130) (from_to 126 126)))
insert_to_future_covering_set-Fits_example =
    insert_to_future_covering_set-Fits four_blocks 1 4 (data_of (from_to 1 100) (2 ∷ 3 ∷ []))
      (from_to 1 100) (from_to 125 130) two_intervals three_intervals (from_to 126 126) refl refl
      fourth (omega arith) four_blocks-Located two_intervals-IsOrdered
      (goes_behind (from_to 110 120) (from_to 140 150 ∷ []) (from_to 125 130 ∷ from_to 140 150 ∷ [])
        (omega arith)
        (in_front (from_to 140 150 ∷ []) (all_from (from_to 140 150) [] (omega arith) none_from)))
