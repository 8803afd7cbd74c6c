-- ===== src/Reachability/FutureCovering.antt =====
-- Future covering sets and queries on the DAG: future_covering_set.go and reachability.go of
-- domain/consensus/processes/reachabilitymanager.
pub mod Query
pub mod Insert
pub mod Insertion
use eiyaro.Common.{
  ℕ, suc, ◌+◌, Bool, true, false, List, [], ◌∷◌, ◌++◌, if◌then◌else◌, set, take, drop, Option, none,
  some,
}
use eiyaro.Reachability.Store.{
  Hash, ReachabilityData, Store, Answer, found, failed, panic, ◌>>=◌, future_covering_set,
  reachability_data_for_insertion, stage_data, stage_future_covering_set,
}
use eiyaro.Reachability.Tree.{item, find_ancestor_index_of_node, is_reachability_tree_ancestor_of}

-- The set with a node in the place behind an index.
abbrev pub insert_after : List Hash → ℕ → Hash → List Hash
insert_after tns i node = take (i + 1) tns ++ node ∷ drop (i + 1) tns

unfoldable pub insert_at : Store → Hash → Hash → ReachabilityData → ℕ → Hash → Answer Store
insert_at store node future_node rd ancestor_index candidate =
    is_reachability_tree_ancestor_of store candidate future_node >>= λ candidate_is_ancestor.
    if candidate_is_ancestor
    then found store
    else is_reachability_tree_ancestor_of store future_node candidate >>= λ future_node_is_ancestor.
        if future_node_is_ancestor
        then stage_future_covering_set store node
            (set rd.future_covering_set ancestor_index future_node)
        else found (
            stage_data store node (record rd {
              future_covering_set = insert_after rd.future_covering_set ancestor_index future_node;
            }))

unfoldable pub insert_to_future_covering_set : Store → Hash → Hash → Answer Store
insert_to_future_covering_set store node future_node =
    reachability_data_for_insertion store node >>= λ rd.
    find_ancestor_index_of_node store rd.future_covering_set future_node >>= λ index. elim index [
      | none ↦ found (
          stage_data store node
            (record rd { future_covering_set = future_node ∷ rd.future_covering_set }))
      | some ancestor_index ↦
          item rd.future_covering_set ancestor_index
          >>= insert_at store node future_node rd ancestor_index
    ]

unfoldable pub future_covering_set_has_ancestor_of : Store → Hash → Hash → Answer Bool
future_covering_set_has_ancestor_of store this other = future_covering_set store this >>= λ tns.
    find_ancestor_index_of_node store tns other >>= λ index. elim index [
      | none ↦ found false
      | some ancestor_index ↦ item tns ancestor_index >>= λ candidate.
          is_reachability_tree_ancestor_of store candidate other
    ]

unfoldable pub is_dag_ancestor_of : Store → Hash → Hash → Answer Bool
is_dag_ancestor_of store block_hash_a block_hash_b =
    is_reachability_tree_ancestor_of store block_hash_a block_hash_b >>= λ is_tree_ancestor.
    if is_tree_ancestor
    then found true
    else future_covering_set_has_ancestor_of store block_hash_a block_hash_b
