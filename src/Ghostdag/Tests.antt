-- ===== src/Ghostdag/Tests.antt =====
-- The theorems on GHOSTDAG at a concrete store.
use eiyaro.Common.{ℕ, ◌≡◌, refl, List, [], ◌∷◌, ◌==◌, if◌then◌else◌, none, some}
use eiyaro.Reachability.Store.{Hash, found}
use eiyaro.Ghostdag.Compare.{BlockGhostdagData, GhostdagStore, find_selected_parent}
use eiyaro.Ghostdag.Compare.Greatest.{
  stored, none_stored, IsGreatest, find_selected_parent-IsGreatest,
}

abbrev with_work : ℕ → List Hash → List Hash → BlockGhostdagData
with_work work blues reds = record {
  blue_score = work;
  blue_work = work;
  selected_parent = none;
  merge_set_blues = blues;
  merge_set_reds = reds;
  blues_anticone_sizes = [];
}

-- Block 9 has the selected parent 3, the blues 1 and 4, and the red 2.
abbrev small_store : GhostdagStore
small_store is_trusted h =
    if h == 9
    then some (with_work 100 (3 ∷ 1 ∷ 4 ∷ []) (2 ∷ []))
    else some (with_work (if h == 3 then 50 else 20) [] [])

find_selected_parent-IsGreatest_example :
    (hash : Hash) × (find_selected_parent small_store (1 ∷ 3 ∷ 2 ∷ []) ≡ found (some hash))
    × IsGreatest small_store hash (1 ∷ 3 ∷ 2 ∷ [])
find_selected_parent-IsGreatest_example =
    find_selected_parent-IsGreatest small_store 1 (3 ∷ 2 ∷ []) (
      stored 1 (with_work 20 [] []) (3 ∷ 2 ∷ []) refl (
        stored 3 (with_work 50 [] []) (2 ∷ []) refl
          (stored 2 (with_work 20 [] []) [] refl none_stored)))
