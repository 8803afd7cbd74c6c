-- ===== src/Reachability/Tree/Ordered.antt =====
-- The intervals of an ordered set of nodes, and the scan that the binary search stands for.
use mathlib.Core.Option.{some-injective}
use eiyaro.Common.{
  lt→ltb, le→ltb_false, ℕ, zero, suc, ◌≤◌, ◌<◌, ◌≡◌, refl, ap, ◌∙◌, List, [], ◌∷◌, ltb,
  if◌then◌else◌, length, get_elem?, some, arith,
}
use eiyaro.Reachability.Store.{Hash, ReachabilityInterval, Store, found, interval}

-- The intervals of the nodes of a slice.
pub data Located (store : Store) : List Hash → List ReachabilityInterval → Type 0 where
  no_nodes : Located store [] []
  located :
      (node : Hash) (ri : ReachabilityInterval) (tns : List Hash) (ris : List ReachabilityInterval)
      → interval store node ≡ found ri
      → Located store tns ris
      → Located store (node ∷ tns) (ri ∷ ris)

-- All start at a bound at least.
pub data AllFrom (bound : ℕ) : List ReachabilityInterval → Type 0 where
  none_from : AllFrom bound []
  all_from :
      (ri : ReachabilityInterval) (ris : List ReachabilityInterval)
      → bound ≤ ri.start
      → AllFrom bound ris
      → AllFrom bound (ri ∷ ris)

-- Intervals that are not empty, each behind the one before.
pub data IsOrdered : List ReachabilityInterval → Type 0 where
  no_intervals : IsOrdered []
  ordered :
      (ri : ReachabilityInterval) (ris : List ReachabilityInterval)
      → ri.start ≤ ri.end
      → AllFrom (suc ri.end) ris
      → IsOrdered ris
      → IsOrdered (ri ∷ ris)

-- How many intervals at the front start at a position at most.
unfoldable pub count_until : ℕ → List ReachabilityInterval → ℕ
count_until e [] = 0
count_until e (ri ∷ ris) = let rest = count_until e ris in if ltb e ri.start then 0 else suc rest

-- An index up to which the intervals start at a position at most, and from which on they do not.
pub record Cuts (e : ℕ) (ris : List ReachabilityInterval) (k : ℕ) : Type 0 where
  pub before :
      (i : ℕ) (ri : ReachabilityInterval) → get_elem? ris i ≡ some ri → i < k → ri.start ≤ e
  pub behind :
      (i : ℕ) (ri : ReachabilityInterval) → get_elem? ris i ≡ some ri → k ≤ i → e < ri.start

pub Cuts-count_until :
    (e : ℕ) (ris : List ReachabilityInterval) (k : ℕ)
    → k ≤ length ris
    → Cuts e ris k
    → k ≡ count_until e ris
unfolding count_until
Cuts-count_until e [] k le c = omega (arith, le)
Cuts-count_until e (ri ∷ ris) zero le c =
    rw (lt→ltb e ri.start (c.behind 0 ri refl (omega arith))) refl
Cuts-count_until e (ri ∷ ris) (suc k) le c =
    rw (le→ltb_false e ri.start (c.before 0 ri refl (omega arith))) (
      ap suc (
        Cuts-count_until e ris k (omega (arith, le)) (record {
          before = λ i v g l. c.before (suc i) v g (omega (arith, l));
          behind = λ i v g l. c.behind (suc i) v g (omega (arith, l));
        })))

AllFrom-get_elem? :
    (bound : ℕ) (ris : List ReachabilityInterval) (i : ℕ) (ri : ReachabilityInterval)
    → AllFrom bound ris
    → get_elem? ris i ≡ some ri
    → bound ≤ ri.start
AllFrom-get_elem? bound [] i ri a g = absurd (ground (arith, g))
AllFrom-get_elem? bound (v ∷ ris) zero ri (all_from _ _ le a) g = ground (arith, g, le)
AllFrom-get_elem? bound (v ∷ ris) (suc i) ri (all_from _ _ le a) g =
    AllFrom-get_elem? bound ris i ri a g

-- In an ordered list the starts grow.
pub IsOrdered-start_lt :
    (ris : List ReachabilityInterval) (i j : ℕ) (v w : ReachabilityInterval)
    → IsOrdered ris
    → get_elem? ris i ≡ some v
    → get_elem? ris j ≡ some w
    → i ≤ j
    → v.start ≤ w.start
IsOrdered-start_lt [] i j v w o g h le = absurd (ground (arith, g))
IsOrdered-start_lt (ri ∷ ris) zero zero v w o g h le = same_start ri v w g h
  where
    same_start :
        (ri v w : ReachabilityInterval) → some ri ≡ some v → some ri ≡ some w → v.start ≤ w.start
    same_start ri v w g h = ground (arith, g, h)
IsOrdered-start_lt (ri ∷ ris) zero (suc j) v w (ordered _ _ proper a o) g h le =
    ground (arith, g, proper, AllFrom-get_elem? (suc ri.end) ris j w a h)
IsOrdered-start_lt (ri ∷ ris) (suc i) zero v w o g h le = absurd (omega (arith, le))
IsOrdered-start_lt (ri ∷ ris) (suc i) (suc j) v w (ordered _ _ proper a o) g h le =
    IsOrdered-start_lt ris i j v w o g h (omega (arith, le))

-- What stands at an index.
pub record At (store : Store) (tns : List Hash) (ris : List ReachabilityInterval) (i : ℕ)
    : Type 0 where
  pub node : Hash
  pub ri : ReachabilityInterval
  pub in_nodes : get_elem? tns i ≡ some node
  pub in_intervals : get_elem? ris i ≡ some ri
  pub has_interval : interval store node ≡ found ri

pub Located-At :
    (store : Store) (tns : List Hash) (ris : List ReachabilityInterval) (i : ℕ)
    → Located store tns ris
    → i < length tns
    → At store tns ris i
Located-At store [] ris i l lt = absurd (omega (arith, lt))
Located-At store (_ ∷ _) _ zero (located node ri tns ris e l) lt = record {
  node = node;
  ri = ri;
  in_nodes = refl;
  in_intervals = refl;
  has_interval = e;
}
Located-At store (_ ∷ _) _ (suc i) (located node ri tns ris e l) lt =
    let a = Located-At store tns ris i l (omega (arith, lt)) in
    record {
      node = a.node;
      ri = a.ri;
      in_nodes = a.in_nodes;
      in_intervals = a.in_intervals;
      has_interval = a.has_interval;
    }

pub Located-length :
    (store : Store) (tns : List Hash) (ris : List ReachabilityInterval)
    → Located store tns ris
    → length ris ≡ length tns
Located-length store _ _ no_nodes = refl
Located-length store _ _ (located node ri tns ris e l) = ap suc (Located-length store tns ris l)

same_interval :
    (store : Store) (node : Hash) (v ri : ReachabilityInterval)
    → some v ≡ some ri
    → interval store node ≡ found v
    → interval store node ≡ found ri
same_interval store node v ri h e = e ∙ ap found (some-injective v ri h)

pub Located-get_elem? :
    (store : Store) (tns : List Hash) (ris : List ReachabilityInterval) (i : ℕ)
    (ri : ReachabilityInterval)
    → Located store tns ris
    → get_elem? ris i ≡ some ri
    → (node : Hash) × (get_elem? tns i ≡ some node) × (interval store node ≡ found ri)
Located-get_elem? store _ _ i ri no_nodes g = absurd (ground (arith, g))
Located-get_elem? store _ _ zero ri (located node v tns ris e l) g =
    (node, refl, same_interval store node v ri g e)
Located-get_elem? store _ _ (suc i) ri (located node v tns ris e l) g =
    Located-get_elem? store tns ris i ri l g
