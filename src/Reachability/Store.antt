-- ===== src/Reachability/Store.antt =====
-- The reachability data of blocks: domain/consensus/model/reachabilitydata.go,
-- domain/consensus/utils/reachabilitydata, and fetch.go and stage.go of
-- domain/consensus/processes/reachabilitymanager. The data store under a staging area is a map from
-- block hashes to data; a hash, of which only equality is used, is a number.
use eiyaro.Common.{ℕ, List, [], ◌∷◌, ◌++◌, ◌==◌, if◌then◌else◌, Option, none, some}

abbrev pub Hash : Type 0
Hash = ℕ

pub record ReachabilityInterval : Type 0 where
  pub start : ℕ
  pub end : ℕ

-- `interval` and `parent` are pointers.
pub record ReachabilityData : Type 0 where
  pub children : List Hash
  pub parent : Option Hash
  pub interval : Option ReachabilityInterval
  pub future_covering_set : List Hash

abbrev pub Store : Type 0
Store = Hash → Option ReachabilityData

-- The answer of a method: its value, an error, or a panic at a nil pointer or an index out of range.
pub data Answer (A : Type 0) : Type 0 where
  found : A → Answer A
  failed : Answer A
  panic : Answer A

infixl 3 ◌>>=◌
abbrev pub ◌>>=◌ : {A B : Type 0} → Answer A → (A → Answer B) → Answer B
found a >>= f = f a
failed >>= f = failed
panic >>= f = panic

abbrev pub empty_reachability_data : ReachabilityData
empty_reachability_data = record {
  children = [];
  parent = none;
  interval = none;
  future_covering_set = [];
}

-- `CloneMutable`: the clone of a nil interval reads through the pointer.
unfoldable pub clone_mutable : ReachabilityData → Answer ReachabilityData
clone_mutable rd = elim rd.interval [ none ↦ panic | some ri ↦ found rd ]

unfoldable pub reachability_data : Store → Hash → Answer ReachabilityData
reachability_data store block_hash = elim (store block_hash) [ none ↦ failed | some rd ↦ found rd ]

unfoldable pub reachability_data_for_insertion : Store → Hash → Answer ReachabilityData
reachability_data_for_insertion store block_hash = elim (store block_hash) [
  | none ↦ found empty_reachability_data
  | some rd ↦ clone_mutable rd
]

unfoldable pub future_covering_set : Store → Hash → Answer (List Hash)
future_covering_set store block_hash =
    reachability_data store block_hash >>= λ rd. found rd.future_covering_set

-- The interval, which every use reads through the pointer.
unfoldable pub interval : Store → Hash → Answer ReachabilityInterval
interval store block_hash = reachability_data store block_hash >>= λ rd. elim rd.interval [
  | none ↦ panic
  | some ri ↦ found ri
]

unfoldable pub children : Store → Hash → Answer (List Hash)
children store block_hash = reachability_data store block_hash >>= λ rd. found rd.children

unfoldable pub parent : Store → Hash → Answer (Option Hash)
parent store block_hash = reachability_data store block_hash >>= λ rd. found rd.parent

unfoldable pub stage_data : Store → Hash → ReachabilityData → Store
stage_data store block_hash rd = λ other. if other == block_hash then some rd else store other

unfoldable pub stage_future_covering_set : Store → Hash → List Hash → Answer Store
stage_future_covering_set store block_hash set =
    reachability_data_for_insertion store block_hash >>= λ rd.
    found (stage_data store block_hash (record rd { future_covering_set = set }))

unfoldable pub stage_add_child : Store → Hash → Hash → Answer Store
stage_add_child store node child = reachability_data_for_insertion store node >>= λ rd.
    found (stage_data store node (record rd { children = rd.children ++ child ∷ [] }))

unfoldable pub stage_parent : Store → Hash → Hash → Answer Store
stage_parent store node p = reachability_data_for_insertion store node >>= λ rd.
    found (stage_data store node (record rd { parent = some p }))

unfoldable pub stage_interval : Store → Hash → ReachabilityInterval → Answer Store
stage_interval store node ri = reachability_data_for_insertion store node >>= λ rd.
    found (stage_data store node (record rd { interval = some ri }))
