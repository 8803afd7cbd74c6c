-- ===== src/Reachability/FutureCovering/Insert/Staged.antt =====
-- Insertion into the future covering set of a block in the store.
use eiyaro.Common.{
  ℕ, zero, suc, ◌≡◌, refl, ◌∙◌, true, List, [], ◌∷◌, ◌++◌, take, drop, set, Option, none, some,
  arith, ◌==◌, Bool-cases, inl, inr,
}
use eiyaro.Reachability.Store.{
  Hash, ReachabilityInterval, ReachabilityData, Store, found, panic, interval, future_covering_set,
  reachability_data, reachability_data_for_insertion, clone_mutable, stage_data,
}
use eiyaro.Reachability.Tree.Ordered.{Located, no_nodes, located}

-- A store in which the future covering set of a block has been replaced.
abbrev pub with_set : Store → Hash → ReachabilityData → List Hash → Store
with_set store node rd tns = stage_data store node (record rd { future_covering_set = tns })

pub future_covering_set-with_set :
    (store : Store) (node : Hash) (rd : ReachabilityData) (tns : List Hash)
    → future_covering_set (with_set store node rd tns) node ≡ found tns
unfolding future_covering_set reachability_data stage_data
future_covering_set-with_set store node rd tns =
    rw (future_covering_set, reachability_data, stage_data, same node) refl
  where
    same : (n : ℕ) → n == n ≡ true
    same n = ground arith

-- The intervals stay.
pub interval-with_set :
    (store : Store) (node other : Hash) (rd : ReachabilityData) (tns : List Hash)
    → store node ≡ some rd
    → interval (with_set store node rd tns) other ≡ interval store other
unfolding interval reachability_data stage_data
interval-with_set store node other rd tns h = elim (Bool-cases (other == node)) [
  | inl same ↦
      rw (interval, reachability_data, stage_data, same, same_number other node same, h) refl
  | inr different ↦ rw (interval, reachability_data, stage_data, different) refl
]
  where
    same_number : (m n : ℕ) → m == n ≡ true → m ≡ n
    same_number m n e = ground (arith, e)

pub Located-with_set :
    (store : Store) (node : Hash) (rd : ReachabilityData) (set tns : List Hash)
    (ris : List ReachabilityInterval)
    → store node ≡ some rd
    → Located store tns ris
    → Located (with_set store node rd set) tns ris
Located-with_set store node rd set _ _ h no_nodes = no_nodes
Located-with_set store node rd set _ _ h (located n ri tns ris e l) =
    located n ri tns ris (interval-with_set store node n rd set h ∙ e)
      (Located-with_set store node rd set tns ris h l)

module _ (store : Store) (f : Hash) (x : ReachabilityInterval)
    (e : interval store f ≡ found x) where
  pub Located-set :
      (k : ℕ) (tns : List Hash) (ris : List ReachabilityInterval)
      → Located store tns ris
      → Located store (set tns k f) (set ris k x)
  Located-set k _ _ no_nodes = no_nodes
  Located-set zero _ _ (located n ri tns ris h l) = located f x tns ris e l
  Located-set (suc k) _ _ (located n ri tns ris h l) =
      located n ri (set tns k f) (set ris k x) h (Located-set k tns ris l)

  pub Located-insert :
      (k : ℕ) (tns : List Hash) (ris : List ReachabilityInterval)
      → Located store tns ris
      → Located store (take k tns ++ f ∷ drop k tns) (take k ris ++ x ∷ drop k ris)
  Located-insert zero tns ris l = located f x tns ris e l
  Located-insert (suc k) _ _ no_nodes = located f x [] [] e no_nodes
  Located-insert (suc k) _ _ (located n ri tns ris h l) =
      located n ri _ _ h (Located-insert k tns ris l)

pub reachability_data_for_insertion_eq :
    (store : Store) (node : Hash) (rd : ReachabilityData) (own : ReachabilityInterval)
    → store node ≡ some rd
    → rd.interval ≡ some own
    → reachability_data_for_insertion store node ≡ found rd
unfolding reachability_data_for_insertion clone_mutable
reachability_data_for_insertion_eq store node rd own h e =
    rw (reachability_data_for_insertion, h) (not_nil rd.interval e)
  where
    not_nil :
        (o : Option ReachabilityInterval)
        → o ≡ some own
        → (elim o [ none ↦ panic | some ri ↦ found rd ]) ≡ found rd
    not_nil o e = rw e refl

pub future_covering_set_eq :
    (store : Store) (node : Hash) (rd : ReachabilityData)
    → store node ≡ some rd
    → future_covering_set store node ≡ found rd.future_covering_set
unfolding future_covering_set reachability_data
future_covering_set_eq store node rd h = rw (future_covering_set, reachability_data, h) refl
