-- ===== src/Ghostdag/MergeSet/Sorted.antt =====
-- The merge set is sorted, and holds the blues and the reds.
use eiyaro.Common.{◌≡◌, false, List, [], ◌∷◌, some}
use eiyaro.Reachability.Store.{Hash, Answer, found}
use eiyaro.Ghostdag.Compare.{BlockGhostdagData, GhostdagStore, is_less}

-- No block of a list is less, by blue work and then by hash.
pub data IsLeast (store : GhostdagStore) (hash : Hash) (block_data : BlockGhostdagData)
    : List Hash → Type 0 where
  least_of_none : IsLeast store hash block_data []
  least :
      (other : Hash) (other_data : BlockGhostdagData) (hashes : List Hash)
      → store false other ≡ some other_data
      → is_less other other_data hash block_data ≡ false
      → IsLeast store hash block_data hashes
      → IsLeast store hash block_data (other ∷ hashes)

-- In ascending order, all in the store.
pub data IsAscending (store : GhostdagStore) : List Hash → Type 0 where
  ascending_none : IsAscending store []
  ascending :
      (hash : Hash) (block_data : BlockGhostdagData) (hashes : List Hash)
      → store false hash ≡ some block_data
      → IsLeast store hash block_data hashes
      → IsAscending store hashes
      → IsAscending store (hash ∷ hashes)

-- The blues and the reds, each in their order.
pub data Interleaves : List Hash → List Hash → List Hash → Type 0 where
  interleaves_none : Interleaves [] [] []
  from_blues :
      (hash : Hash) (blues reds all : List Hash)
      → Interleaves blues reds all
      → Interleaves (hash ∷ blues) reds (hash ∷ all)
  from_reds :
      (hash : Hash) (blues reds all : List Hash)
      → Interleaves blues reds all
      → Interleaves blues (hash ∷ reds) (hash ∷ all)

-- The merged list.
pub record Merged (store : GhostdagStore) (blues reds : List Hash) (answer : Answer (List Hash))
    : Type 0 where
  pub all : List Hash
  pub is_found : answer ≡ found all
  pub interleaves : Interleaves blues reds all
  pub is_ascending : IsAscending store all
