-- ===== src/Reachability/FutureCovering/Insertion.antt =====
-- insertToFutureCoveringSet keeps the set ordered, and adds the descendants of the node.
use mathlib.Core.Path.{subst}
use eiyaro.Common.{ℕ, suc, ◌+◌, ◌≤◌, ◌≡◌, refl, List, ◌∷◌, ◌++◌, ◌||◌, take, drop, set, some, arith}
use eiyaro.Reachability.Store.{
  Hash, ReachabilityInterval, ReachabilityData, Store, found, interval, future_covering_set,
  stage_future_covering_set,
}
use eiyaro.Reachability.Interval.{interval_contains}
use eiyaro.Reachability.Tree.{index_below, find_ancestor_index_of_node}
use eiyaro.Reachability.Tree.Ordered.{Located, located, IsOrdered, count_until, Located-get_elem?}
use eiyaro.Reachability.Tree.Search.{
  find_ancestor_index_of_node-count_until, item_eq, is_reachability_tree_ancestor_of_eq,
}
use eiyaro.Reachability.FutureCovering.{insert_after, insert_at, insert_to_future_covering_set}
use eiyaro.Reachability.FutureCovering.Query.{any_contains}
use eiyaro.Reachability.FutureCovering.Insert.{Fits, Fits-IsOrdered, Fits-any_contains}
use eiyaro.Reachability.FutureCovering.Insert.Place.{
  Placed, first, kept, replaced, inserted, Fits-Placed,
}
use eiyaro.Reachability.FutureCovering.Insert.Staged.{
  with_set, future_covering_set-with_set, Located-with_set, Located-set, Located-insert,
  reachability_data_for_insertion_eq, future_covering_set_eq,
}

-- The set of a block in a store is ordered, and has certain intervals.
pub record HasSet (store : Store) (node : Hash) (ris : List ReachabilityInterval) : Type 0 where
  pub tns : List Hash
  pub is_set : future_covering_set store node ≡ found tns
  pub has_intervals : Located store tns ris

next : (k : ℕ) → suc k ≡ k + 1
next k = omega arith

module _ (store : Store) (node future_node : Hash) (rd : ReachabilityData)
    (own x : ReachabilityInterval) (there : store node ≡ some rd) (proper : rd.interval ≡ some own)
    (is_x : interval store future_node ≡ found x) where
  staged :
      (tns : List Hash) (ris : List ReachabilityInterval)
      → Located store tns ris
      → HasSet (with_set store node rd tns) node ris
  staged tns ris l = record {
    tns = tns;
    is_set = future_covering_set-with_set store node rd tns;
    has_intervals = Located-with_set store node rd tns tns ris there l;
  }

  -- Each branch of the code makes the list of the place.
  placed :
      (ris made : List ReachabilityInterval)
      → Located store rd.future_covering_set ris
      → find_ancestor_index_of_node store rd.future_covering_set future_node
        ≡ found (index_below (count_until x.end ris))
      → Placed x ris made
      → (made_store : Store) × (insert_to_future_covering_set store node future_node
          ≡ found made_store)
        × HasSet made_store node made
  unfolding insert_to_future_covering_set insert_at stage_future_covering_set
  placed ris _ l search (first e) = (
    with_set store node rd (future_node ∷ rd.future_covering_set),
    rw (reachability_data_for_insertion_eq store node rd own there proper, search, e) refl,
    staged (future_node ∷ rd.future_covering_set) (x ∷ ris)
        (located future_node x rd.future_covering_set ris is_x l),
  )
  placed ris _ l search (kept k w e g c) =
      let (n, at, h) = Located-get_elem? store rd.future_covering_set ris k w l g in
      (
        store,
        rw
            (
              reachability_data_for_insertion_eq store node rd own there proper,
              search,
              e,
              item_eq rd.future_covering_set k n at,
              is_reachability_tree_ancestor_of_eq store n future_node w x h is_x,
              c,
            )
            refl,
        record {
          tns = rd.future_covering_set;
          is_set = future_covering_set_eq store node rd there;
          has_intervals = l;
        },
      )
  placed ris _ l search (replaced k w e g o c) =
      let (n, at, h) = Located-get_elem? store rd.future_covering_set ris k w l g in
      (
        with_set store node rd (set rd.future_covering_set k future_node),
        rw
            (
              reachability_data_for_insertion_eq store node rd own there proper,
              search,
              e,
              item_eq rd.future_covering_set k n at,
              is_reachability_tree_ancestor_of_eq store n future_node w x h is_x,
              o,
              is_reachability_tree_ancestor_of_eq store future_node n x w is_x h,
              c,
              reachability_data_for_insertion_eq store node rd own there proper,
            )
            refl,
        staged (set rd.future_covering_set k future_node) (set ris k x)
            (Located-set store future_node x is_x k rd.future_covering_set ris l),
      )
  placed ris _ l search (inserted k w e g o c) =
      let (n, at, h) = Located-get_elem? store rd.future_covering_set ris k w l g in
      (
        with_set store node rd (insert_after rd.future_covering_set k future_node),
        rw
            (
              reachability_data_for_insertion_eq store node rd own there proper,
              search,
              e,
              item_eq rd.future_covering_set k n at,
              is_reachability_tree_ancestor_of_eq store n future_node w x h is_x,
              o,
              is_reachability_tree_ancestor_of_eq store future_node n x w is_x h,
              c,
            )
            refl,
        staged (insert_after rd.future_covering_set k future_node)
            (take (suc k) ris ++ x ∷ drop (suc k) ris)
            (subst
              (λ m.
                Located store
                  (take m rd.future_covering_set ++ future_node ∷ drop m rd.future_covering_set)
                  (take (suc k) ris ++ x ∷ drop (suc k) ris))
              (next k)
              (Located-insert store future_node x is_x (suc k) rd.future_covering_set ris l)),
      )

-- Into the set of a block that has an interval and an ordered set, a node whose interval is not
-- empty and fits: the insertion succeeds, and leaves an ordered set in which a query answers as in
-- the old one or, besides, for what the node's interval contains.
pub insert_to_future_covering_set-Fits :
    (store : Store) (node future_node : Hash) (rd : ReachabilityData) (own x : ReachabilityInterval)
    (ris made : List ReachabilityInterval) (y : ReachabilityInterval)
    → store node ≡ some rd
    → rd.interval ≡ some own
    → interval store future_node ≡ found x
    → x.start ≤ x.end
    → Located store rd.future_covering_set ris
    → IsOrdered ris
    → Fits x ris made
    → (made_store : Store) × (insert_to_future_covering_set store node future_node
        ≡ found made_store)
      × HasSet made_store node made
      × IsOrdered made
      × (any_contains made y ≡ (any_contains ris y || interval_contains x y))
insert_to_future_covering_set-Fits store node f rd own x ris made y there proper is_x p l o t =
    let (s, e, h) =
      placed store node f rd own x there proper is_x ris made l
        (find_ancestor_index_of_node-count_until store rd.future_covering_set ris f x l o is_x)
        (Fits-Placed x ris made p t o) in
    (s, e, h, Fits-IsOrdered x ris made p t o, Fits-any_contains x ris made y t)
