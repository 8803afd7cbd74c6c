-- ===== src/Reachability/Tree.antt =====
-- Queries on the reachability tree: tree.go and ordered_tree_node_set.go of
-- domain/consensus/processes/reachabilitymanager.
pub mod Search
pub mod Ordered
use eiyaro.Common.{
  add64, sub64, ℕ, zero, suc, ◌+◌, ◌-◌, ◌/◌, Bool, true, false, List, [], ◌∷◌, ltb, ◌==◌,
  if◌then◌else◌, length, get_elem?, take, drop, Option, none, some,
}
use eiyaro.Reachability.Store.{
  Hash, ReachabilityInterval, Store, Answer, found, failed, panic, ◌>>=◌, interval, children,
  parent,
}
use eiyaro.Reachability.Interval.{new_reachability_interval, interval_size, interval_contains}

-- `tns[i]`.
unfoldable pub item : List Hash → ℕ → Answer Hash
item tns i = elim (get_elem? tns i) [ none ↦ panic | some node ↦ found node ]

-- The turn of the loop at the middle.
abbrev pub narrow : (ℕ → ℕ → Answer ℕ) → ℕ → ℕ → ℕ → ℕ → ReachabilityInterval → Answer ℕ
narrow search end low high middle middle_interval =
    if ltb end middle_interval.start then search low middle else search (middle + 1) high

-- The loop of `findAncestorIndexOfNode`, on fuel.
unfoldable pub search_loop : Store → List Hash → ℕ → ℕ → ℕ → ℕ → Answer ℕ
search_loop store tns end zero low high = found low
search_loop store tns end (suc fuel) low high =
    let rest = item tns ((low + high) / 2) >>= λ node.
    interval store node
    >>= narrow (search_loop store tns end fuel) end low high ((low + high) / 2) in
    if ltb low high then rest else found low

-- The index, or none without the flag `ok`.
abbrev pub index_below : ℕ → Option ℕ
index_below zero = none
index_below (suc low) = some low

unfoldable pub find_ancestor_index_of_node : Store → List Hash → Hash → Answer (Option ℕ)
find_ancestor_index_of_node store tns node = interval store node >>= λ block_interval.
    search_loop store tns block_interval.end (length tns) 0 (length tns) >>= λ low.
    found (index_below low)

-- An error of the search is no ancestor.
unfoldable pub find_ancestor_of_node : Store → List Hash → Hash → Answer (Option Hash)
find_ancestor_of_node store tns node = elim (find_ancestor_index_of_node store tns node) [
  | found none ↦ found none
  | found (some i) ↦ item tns i >>= λ ancestor. found (some ancestor)
  | failed ↦ found none
  | panic ↦ panic
]

unfoldable pub is_reachability_tree_ancestor_of : Store → Hash → Hash → Answer Bool
is_reachability_tree_ancestor_of store node other = interval store node >>= λ node_interval.
    interval store other >>= λ other_interval.
    found (interval_contains node_interval other_interval)

unfoldable pub is_strict_ancestor_of : Store → Hash → Hash → Answer Bool
is_strict_ancestor_of store node other =
    if node == other then found false else is_reachability_tree_ancestor_of store node other

unfoldable pub find_next_ancestor : Store → Hash → Hash → Answer Hash
find_next_ancestor store descendant ancestor =
    if ancestor == descendant
    then failed
    else children store ancestor >>= λ children_of_ancestor.
        find_ancestor_of_node store children_of_ancestor descendant >>= λ next. elim next [
          | none ↦ failed
          | some next_ancestor ↦ found next_ancestor
        ]

unfoldable pub interval_range_for_child_allocation : Store → Hash → Answer ReachabilityInterval
interval_range_for_child_allocation store node =
    interval store node >>= λ ri. found (new_reachability_interval ri.start (sub64 ri.end 1))

abbrev pub last : List Hash → Option Hash
last tns = get_elem? tns (length tns - 1)

unfoldable pub remaining_interval_before : Store → Hash → Answer ReachabilityInterval
remaining_interval_before store node =
    interval_range_for_child_allocation store node >>= λ children_range.
    children store node >>= λ cs. elim (get_elem? cs 0) [
      | none ↦ found children_range
      | some first_child ↦ interval store first_child >>= λ ri.
          found (new_reachability_interval children_range.start (sub64 ri.start 1))
    ]

unfoldable pub remaining_interval_after : Store → Hash → Answer ReachabilityInterval
remaining_interval_after store node =
    interval_range_for_child_allocation store node >>= λ children_range.
    children store node >>= λ cs. elim (last cs) [
      | none ↦ found children_range
      | some last_child ↦ interval store last_child >>= λ ri.
          found (new_reachability_interval (add64 ri.end 1) children_range.end)
    ]

unfoldable pub remaining_slack_before : Store → Hash → Answer ℕ
remaining_slack_before store node =
    remaining_interval_before store node >>= λ ri. found (interval_size ri)

unfoldable pub remaining_slack_after : Store → Hash → Answer ℕ
remaining_slack_after store node =
    remaining_interval_after store node >>= λ ri. found (interval_size ri)

-- The parts of a slice around the first element that is the pivot.
unfoldable pub split_at : List Hash → Hash → Answer (List Hash × List Hash)
split_at [] pivot = failed
split_at (child ∷ cs) pivot =
    let rest = split_at cs pivot >>= λ parts. found (child ∷ parts.0, parts.1) in
    if child == pivot then found ([], cs) else rest

unfoldable pub split_children : Store → Hash → Hash → Answer (List Hash × List Hash)
split_children store node pivot = children store node >>= λ cs. split_at cs pivot
