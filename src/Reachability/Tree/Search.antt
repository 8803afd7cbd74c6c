-- ===== src/Reachability/Tree/Search.antt =====
-- The binary search finds what a scan of the set finds.
use eiyaro.Common.{
  ℕ, zero, suc, ◌+◌, ◌-◌, ◌/◌, ◌≤◌, ◌<◌, ◌≡◌, refl, ap, List, [], ◌∷◌, ltb, length, get_elem?, some,
  arith, Bool-cases, inl, inr,
}
use eiyaro.Reachability.Store.{Hash, ReachabilityInterval, Store, found, interval}
use eiyaro.Reachability.Interval.{interval_contains}
use eiyaro.Reachability.Tree.{
  is_reachability_tree_ancestor_of, item, search_loop, find_ancestor_index_of_node, index_below,
}
use eiyaro.Reachability.Tree.Ordered.{
  Located, IsOrdered, count_until, Cuts-count_until, IsOrdered-start_lt, Located-At, Located-length,
}

pub item_eq :
    (tns : List Hash) (i : ℕ) (node : Hash) → get_elem? tns i ≡ some node → item tns i ≡ found node
unfolding item
item_eq tns i node h = rw (h, item) refl

pub is_reachability_tree_ancestor_of_eq :
    (store : Store) (node other : Hash) (ri x : ReachabilityInterval)
    → interval store node ≡ found ri
    → interval store other ≡ found x
    → is_reachability_tree_ancestor_of store node other ≡ found (interval_contains ri x)
unfolding is_reachability_tree_ancestor_of
is_reachability_tree_ancestor_of_eq store node other ri x h e = rw (h, e) refl

past_end :
    (ris : List ReachabilityInterval) (i : ℕ) (v : ReachabilityInterval)
    → get_elem? ris i ≡ some v
    → ¬ (length ris ≤ i)
past_end [] i v g k = ground (arith, g)
past_end (ri ∷ ris) zero v g k = omega (arith, k)
past_end (ri ∷ ris) (suc i) v g k = past_end ris i v g (omega (arith, k))

module _ (store : Store) (tns : List Hash) (ris : List ReachabilityInterval) (e : ℕ)
    (l : Located store tns ris) (o : IsOrdered ris) where
  -- What is known when the search has come to a range.
  record Narrowed (low high : ℕ) : Type 0 where
    in_order : low ≤ high
    in_range : high ≤ length ris
    before :
        (i : ℕ) (ri : ReachabilityInterval) → get_elem? ris i ≡ some ri → i < low → ri.start ≤ e
    behind :
        (i : ℕ) (ri : ReachabilityInterval) → get_elem? ris i ≡ some ri → high ≤ i → e < ri.start

  closed : (low high : ℕ) → Narrowed low high → low ≡ high → low ≡ count_until e ris
  closed low high n same =
      Cuts-count_until e ris low (omega (arith, n.in_order, n.in_range)) (record {
        before = n.before;
        behind = λ i ri g le. n.behind i ri g (omega (arith, le, same));
      })

  lower :
      (low high middle : ℕ) (ri : ReachabilityInterval)
      → Narrowed low high
      → low ≤ middle
      → middle < high
      → get_elem? ris middle ≡ some ri
      → e < ri.start
      → Narrowed low middle
  lower low high middle ri n le lt at less = record {
    in_order = le;
    in_range = omega (arith, lt, n.in_range);
    before = n.before;
    behind = λ i v g k. omega (arith, less, IsOrdered-start_lt ris middle i ri v o at g k);
  }

  upper :
      (low high middle : ℕ) (ri : ReachabilityInterval)
      → Narrowed low high
      → low ≤ middle
      → middle < high
      → get_elem? ris middle ≡ some ri
      → ri.start ≤ e
      → Narrowed (middle + 1) high
  upper low high middle ri n le lt at less = record {
    in_order = omega (arith, lt);
    in_range = n.in_range;
    before = λ i v g k.
        omega (arith, less, IsOrdered-start_lt ris i middle v ri o g at (omega (arith, k)));
    behind = n.behind;
  }

  search_loop-count_until :
      (fuel low high : ℕ)
      → high - low ≤ fuel
      → Narrowed low high
      → search_loop store tns e fuel low high ≡ found (count_until e ris)
  unfolding search_loop
  search_loop-count_until zero low high enough n =
      ap found (closed low high n (omega (arith, enough, n.in_order)))
  search_loop-count_until (suc fuel) low high enough n = elim (Bool-cases (ltb low high)) [
    | inl going ↦
        let middle = (low + high) / 2 in
        let lt : low < high = ground (arith, going) in
        let above : low ≤ middle = omega (arith, lt) in
        let under : middle < high = omega (arith, lt) in
        let at =
          Located-At store tns ris middle l
            (omega (arith, under, n.in_range, Located-length store tns ris l)) in
        elim (Bool-cases (ltb e at.ri.start)) [
          | inl left ↦
              rw (going, item_eq tns middle at.node at.in_nodes, at.has_interval, left)
                (search_loop-count_until fuel low middle (omega (arith, enough, above, under)) (
                  lower low high middle at.ri n above under at.in_intervals (ground (arith, left))))
          | inr right ↦
              rw (going, item_eq tns middle at.node at.in_nodes, at.has_interval, right)
                (search_loop-count_until fuel (middle + 1) high
                  (omega (arith, enough, above, under))
                  (upper low high middle at.ri n above under at.in_intervals
                    (ground (arith, right))))
        ]
    | inr stopped ↦ rw stopped (ap found (closed low high n (ground (arith, stopped, n.in_order))))
  ]

-- On an ordered set whose nodes all have an interval, for a node that has one too, the binary
-- search of findAncestorIndexOfNode finds the last place whose interval starts at the end of the
-- node's interval at most, as a scan from the front does.
pub find_ancestor_index_of_node-count_until :
    (store : Store) (tns : List Hash) (ris : List ReachabilityInterval) (node : Hash)
    (ri : ReachabilityInterval)
    → Located store tns ris
    → IsOrdered ris
    → interval store node ≡ found ri
    → find_ancestor_index_of_node store tns node ≡ found (index_below (count_until ri.end ris))
unfolding find_ancestor_index_of_node
find_ancestor_index_of_node-count_until store tns ris node ri l o h =
    rw
      (
        h,
        search_loop-count_until store tns ris ri.end l o (length tns) 0 (length tns) (omega arith)
            (record {
              in_order = omega arith;
              in_range = omega (arith, Located-length store tns ris l);
              before = λ i v g k. absurd (omega (arith, k));
              behind = λ i v g k.
                  absurd (past_end ris i v g (omega (arith, k, Located-length store tns ris l)));
            }),
      )
      refl
