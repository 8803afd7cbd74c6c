-- ===== src/Reachability/FutureCovering/Query.antt =====
-- A query of a future covering set looks at one node, and finds what any of the nodes would give.
use eiyaro.Common.{
  ℕ, zero, suc, ◌≤◌, ◌<◌, ◌≡◌, refl, ap, Bool, true, false, List, [], ◌∷◌, ◌||◌, ltb, get_elem?,
  some, arith, Bool-cases, ◌⊎◌, inl, inr,
}
use eiyaro.Reachability.Store.{
  Hash, ReachabilityInterval, Store, found, interval, future_covering_set,
}
use eiyaro.Reachability.Interval.{interval_contains}
use eiyaro.Reachability.Tree.Ordered.{
  Located, IsOrdered, ordered, AllFrom, all_from, count_until, Located-get_elem?,
}
use eiyaro.Reachability.Tree.Search.{
  find_ancestor_index_of_node-count_until, item_eq, is_reachability_tree_ancestor_of_eq,
}
use eiyaro.Reachability.FutureCovering.{future_covering_set_has_ancestor_of, is_dag_ancestor_of}

-- Whether one of the intervals contains an interval.
unfoldable pub any_contains : List ReachabilityInterval → ReachabilityInterval → Bool
any_contains [] x = false
any_contains (ri ∷ ris) x = interval_contains ri x || any_contains ris x

or_false : (b : Bool) → (b || false) ≡ b
or_false true = refl
or_false false = refl

pub AllFrom-any_contains :
    (bound : ℕ) (ris : List ReachabilityInterval) (x : ReachabilityInterval)
    → AllFrom bound ris
    → x.start < bound
    → any_contains ris x ≡ false
unfolding any_contains interval_contains
AllFrom-any_contains bound [] x a lt = refl
AllFrom-any_contains bound (_ ∷ _) x (all_from ri ris le a) lt =
    ground (arith, le, lt, AllFrom-any_contains bound ris x a lt)

pub AllFrom-weaken :
    (a b : ℕ) (ris : List ReachabilityInterval) → a ≤ b → AllFrom b ris → AllFrom a ris
AllFrom-weaken a b [] le f = AllFrom.none_from
AllFrom-weaken a b (_ ∷ _) le (all_from ri ris c f) =
    all_from ri ris (omega (arith, le, c)) (AllFrom-weaken a b ris le f)

-- The candidate of a query: the last interval that starts at the end of `x` at most.
pub record Candidate (ris : List ReachabilityInterval) (x : ReachabilityInterval) : Type 0 where
  pub place : ℕ
  pub ri : ReachabilityInterval
  pub counted : count_until x.end ris ≡ suc place
  pub stands : get_elem? ris place ≡ some ri
  pub starts : ri.start ≤ x.end
  pub decides : any_contains ris x ≡ interval_contains ri x

not_contained :
    (ri w x : ReachabilityInterval)
    → suc ri.end ≤ w.start
    → w.start ≤ x.end
    → interval_contains ri x ≡ false
unfolding interval_contains
not_contained ri w x a b = ground arith

started_late :
    (ri x : ReachabilityInterval)
    → x.start ≤ x.end
    → ltb x.end ri.start ≡ true
    → interval_contains ri x ≡ false
unfolding interval_contains
started_late ri x a b = ground arith

AllFrom-at :
    (bound : ℕ) (ris : List ReachabilityInterval) (i : ℕ) (ri : ReachabilityInterval)
    → AllFrom bound ris
    → get_elem? ris i ≡ some ri
    → bound ≤ ri.start
AllFrom-at bound [] i ri a g = absurd (ground (arith, g))
AllFrom-at bound (_ ∷ _) zero ri (all_from _ _ le a) g = ground (arith, g, le)
AllFrom-at bound (_ ∷ _) (suc i) ri (all_from v ris le a) g = AllFrom-at bound ris i ri a g

pub scan :
    (ris : List ReachabilityInterval) (x : ReachabilityInterval)
    → IsOrdered ris
    → x.start ≤ x.end
    → ((count_until x.end ris ≡ 0) × (any_contains ris x ≡ false)) ⊎ Candidate ris x
unfolding count_until any_contains
scan [] x o p = inl (refl, refl)
scan (_ ∷ _) x (ordered ri ris proper a o) p = elim (Bool-cases (ltb x.end ri.start)) [
  | inl late ↦ inl (
    rw late refl,
    rw (started_late ri x p late)
        (AllFrom-any_contains (suc ri.end) ris x a (ground (arith, late, p, proper))),
  )
  | inr early ↦ inr (elim (scan ris x o p) [
    | inl (e, f) ↦ record {
      place = 0;
      ri = ri;
      counted = rw early (ap suc e);
      stands = refl;
      starts = ground (arith, early);
      decides = rw f (or_false (interval_contains ri x));
    }
    | inr c ↦ record {
      place = suc c.place;
      ri = c.ri;
      counted = rw early (ap suc c.counted);
      stands = c.stands;
      starts = c.starts;
      decides =
          rw
            (not_contained ri c.ri x (AllFrom-at (suc ri.end) ris c.place c.ri a c.stands) c.starts)
            c.decides;
    }
  ])
]

-- For a block with an ordered future covering set, whose nodes all have an interval, and a node
-- with an interval that is not empty: the query answers whether one of the set's intervals contains
-- the node's.
pub future_covering_set_has_ancestor_of-any_contains :
    (store : Store) (this other : Hash) (tns : List Hash) (ris : List ReachabilityInterval)
    (x : ReachabilityInterval)
    → future_covering_set store this ≡ found tns
    → Located store tns ris
    → IsOrdered ris
    → interval store other ≡ found x
    → x.start ≤ x.end
    → future_covering_set_has_ancestor_of store this other ≡ found (any_contains ris x)
unfolding future_covering_set_has_ancestor_of
future_covering_set_has_ancestor_of-any_contains store this other tns ris x s l o h p =
    let search = find_ancestor_index_of_node-count_until store tns ris other x l o h in
    elim (scan ris x o p) [
      | inl (e, f) ↦ rw (s, search, e, f) refl
      | inr c ↦
          let (node, at, e) = Located-get_elem? store tns ris c.place c.ri l c.stands in
          rw
            (
              s,
              search,
              c.counted,
              item_eq tns c.place node at,
              is_reachability_tree_ancestor_of_eq store node other c.ri x e h,
              c.decides,
            )
            refl
    ]

-- For a block with an interval and an ordered future covering set, whose nodes all have an
-- interval, and a node with an interval that is not empty: the block is found to be an ancestor of
-- the node in the DAG exactly if its own interval or one of the set's contains the node's.
pub is_dag_ancestor_of-any_contains :
    (store : Store) (a b : Hash) (tns : List Hash) (ris : List ReachabilityInterval)
    (ra x : ReachabilityInterval)
    → interval store a ≡ found ra
    → future_covering_set store a ≡ found tns
    → Located store tns ris
    → IsOrdered ris
    → interval store b ≡ found x
    → x.start ≤ x.end
    → is_dag_ancestor_of store a b ≡ found (any_contains (ra ∷ ris) x)
unfolding is_dag_ancestor_of any_contains
is_dag_ancestor_of-any_contains store a b tns ris ra x own s l o h p =
    let query = future_covering_set_has_ancestor_of-any_contains store a b tns ris x s l o h p in
    elim (Bool-cases (interval_contains ra x)) [
      | inl inside ↦ rw (is_reachability_tree_ancestor_of_eq store a b ra x own h, inside) refl
      | inr outside ↦
          rw (is_reachability_tree_ancestor_of_eq store a b ra x own h, outside, query) refl
    ]
