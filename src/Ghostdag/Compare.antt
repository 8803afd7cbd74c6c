-- ===== src/Ghostdag/Compare.antt =====
-- GHOSTDAG data, and the order of blocks by blue work: domain/consensus/model/externalapi/ghostdag.go
-- and compare.go of domain/consensus/processes/ghostdagmanager. A hash is a number, and DomainHash.Less
-- the order of these numbers.
pub mod Greatest
use eiyaro.Common.{
  ℕ, Bool, true, false, List, [], ◌∷◌, ltb, ◌==◌, ◌&&◌, not, if◌then◌else◌, Option, none, some,
}
use eiyaro.Reachability.Store.{Hash, Answer, found, failed, panic, ◌>>=◌}

pub record BlockGhostdagData : Type 0 where
  pub blue_score : ℕ
  pub blue_work : ℕ
  pub selected_parent : Option Hash
  pub merge_set_blues : List Hash
  pub merge_set_reds : List Hash
  pub blues_anticone_sizes : List (Hash × ℕ)

-- The store, with the flag `isTrustedData`.
abbrev pub GhostdagStore : Type 0
GhostdagStore = Bool → Hash → Option BlockGhostdagData

unfoldable pub get_data : GhostdagStore → Hash → Bool → Answer BlockGhostdagData
get_data store block_hash is_trusted_data = elim (store is_trusted_data block_hash) [
  | none ↦ failed
  | some block_data ↦ found block_data
]

unfoldable pub is_less : Hash → BlockGhostdagData → Hash → BlockGhostdagData → Bool
is_less block_hash_a data_a block_hash_b data_b =
    if ltb data_a.blue_work data_b.blue_work
    then true
    else if ltb data_b.blue_work data_a.blue_work
    then false
    else ltb block_hash_a block_hash_b

-- The loop over the hashes, with the parent selected so far and its data.
unfoldable pub choose_from : GhostdagStore → Hash → BlockGhostdagData → List Hash → Answer Hash
choose_from store selected selected_data [] = found selected
choose_from store selected selected_data (block_hash ∷ block_hashes) =
    get_data store block_hash false >>= λ block_data.
    let better = is_less selected selected_data block_hash block_data in
    choose_from store (if better then block_hash else selected)
      (if better then block_data else selected_data) block_hashes

-- `blockHashes[0]` of no hashes panics.
unfoldable pub choose_selected_parent : GhostdagStore → List Hash → Answer Hash
choose_selected_parent store [] = panic
choose_selected_parent store (first ∷ block_hashes) = get_data store first false >>= λ first_data.
    choose_from store first first_data (first ∷ block_hashes)

-- `less`: whether the second of two blocks is chosen. The code compares pointers: if the arguments
-- are two pointers to one hash, the first is chosen.
unfoldable pub less : GhostdagStore → Hash → Hash → Answer Bool
less store block_hash_a block_hash_b =
    choose_selected_parent store (block_hash_a ∷ block_hash_b ∷ []) >>= λ chosen.
    found (chosen == block_hash_b && not (block_hash_a == block_hash_b))

unfoldable pub find_from : GhostdagStore → Hash → List Hash → Answer Hash
find_from store selected [] = found selected
find_from store selected (hash ∷ parent_hashes) = less store selected hash >>= λ is_bigger.
    find_from store (if is_bigger then hash else selected) parent_hashes

-- None for no parents.
unfoldable pub find_selected_parent : GhostdagStore → List Hash → Answer (Option Hash)
find_selected_parent store [] = found none
find_selected_parent store (hash ∷ parent_hashes) =
    find_from store hash parent_hashes >>= λ selected. found (some selected)
