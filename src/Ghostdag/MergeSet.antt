-- ===== src/Ghostdag/MergeSet.antt =====
-- GetSortedMergeSet of domain/consensus/processes/ghostdagmanager/mergeset.go.
pub mod Sorted
use eiyaro.Common.{ℕ, zero, suc, ◌+◌, Bool, true, false, List, [], ◌∷◌, ◌++◌, if◌then◌else◌, length}
use eiyaro.Reachability.Store.{Hash, Answer, found, failed, panic, ◌>>=◌}
use eiyaro.Ghostdag.Compare.{BlockGhostdagData, GhostdagStore, get_data, is_less}

-- The loop over the blues and the reds that are left, on fuel, and the two appends behind it.
unfoldable pub merge_sorted : GhostdagStore → ℕ → List Hash → List Hash → Answer (List Hash)
merge_sorted store zero blues reds = found (blues ++ reds)
merge_sorted store (suc fuel) [] reds = found reds
merge_sorted store (suc fuel) (blue ∷ blues) [] = found (blue ∷ blues)
merge_sorted store (suc fuel) (blue ∷ blues) (red ∷ reds) =
    get_data store blue false >>= λ blue_data. get_data store red false >>= λ red_data.
    let with_blue = merge_sorted store fuel blues (red ∷ reds) >>= λ rest. found (blue ∷ rest) in
    let with_red = merge_sorted store fuel (blue ∷ blues) reds >>= λ rest. found (red ∷ rest) in
    if is_less blue blue_data red red_data then with_blue else with_red

-- Without blues the block is the genesis block.
unfoldable pub merge_blues : GhostdagStore → List Hash → List Hash → Answer (List Hash)
merge_blues store [] reds = found []
merge_blues store (selected_parent ∷ blues) reds =
    merge_sorted store (length blues + length reds) blues reds >>= λ merged.
    found (selected_parent ∷ merged)

unfoldable pub get_sorted_merge_set : GhostdagStore → Hash → Answer (List Hash)
get_sorted_merge_set store current = get_data store current false >>= λ current_data.
    merge_blues store current_data.merge_set_blues current_data.merge_set_reds
