-- ===== src/Reachability/FutureCovering/Insert/Place.antt =====
-- The place that the search gives an interval, against `Fits`.
use eiyaro.Common.{
  ℕ, suc, ◌≤◌, ◌<◌, ◌≡◌, refl, ap, true, false, List, [], ◌∷◌, ◌++◌, take, drop, set, get_elem?,
  some, arith, le→ltb_false, lt→ltb,
}
use eiyaro.Reachability.Store.{ReachabilityInterval}
use eiyaro.Reachability.Interval.{interval_contains}
use eiyaro.Reachability.Tree.Ordered.{IsOrdered, ordered, AllFrom, all_from, count_until}
use eiyaro.Reachability.FutureCovering.Query.{AllFrom-weaken}
use eiyaro.Reachability.FutureCovering.Insert.{Fits, in_front, is_covered, replaces, goes_behind}

-- The branches of the insertion, with the list that each makes.
pub data Placed (f : ReachabilityInterval) (ris : List ReachabilityInterval)
    : List ReachabilityInterval → Type 0 where
  first : count_until f.end ris ≡ 0 → Placed f ris (f ∷ ris)
  kept :
      (k : ℕ) (w : ReachabilityInterval)
      → count_until f.end ris ≡ suc k
      → get_elem? ris k ≡ some w
      → interval_contains w f ≡ true
      → Placed f ris ris
  replaced :
      (k : ℕ) (w : ReachabilityInterval)
      → count_until f.end ris ≡ suc k
      → get_elem? ris k ≡ some w
      → interval_contains w f ≡ false
      → interval_contains f w ≡ true
      → Placed f ris (set ris k f)
  inserted :
      (k : ℕ) (w : ReachabilityInterval)
      → count_until f.end ris ≡ suc k
      → get_elem? ris k ≡ some w
      → interval_contains w f ≡ false
      → interval_contains f w ≡ false
      → Placed f ris (take (suc k) ris ++ f ∷ drop (suc k) ris)

AllFrom-count_until :
    (e : ℕ) (ris : List ReachabilityInterval) → AllFrom (suc e) ris → count_until e ris ≡ 0
unfolding count_until
AllFrom-count_until e [] a = refl
AllFrom-count_until e (_ ∷ _) (all_from ri ris le a) =
    rw (lt→ltb e ri.start (omega (arith, le))) refl

contains_bounds :
    (v f : ReachabilityInterval)
    → interval_contains v f ≡ true
    → (v.start ≤ f.start) × (f.end ≤ v.end)
unfolding interval_contains
contains_bounds v f h = (ground (arith, h), ground (arith, h))

apart :
    (v f : ReachabilityInterval)
    → v.start ≤ v.end
    → f.start ≤ f.end
    → v.end < f.start
    → (interval_contains v f ≡ false) × (interval_contains f v ≡ false)
unfolding interval_contains
apart v f p q lt = (ground (arith, p, q, lt), ground (arith, p, q, lt))

counted :
    (e k : ℕ) (v : ReachabilityInterval) (ris : List ReachabilityInterval)
    → v.start ≤ e
    → count_until e ris ≡ k
    → count_until e (v ∷ ris) ≡ suc k
unfolding count_until
counted e k v ris le h = rw (le→ltb_false e v.start le) (ap suc h)

-- Behind an interval that ends before, the places move on by one.
Placed-behind :
    (f v : ReachabilityInterval) (ris made : List ReachabilityInterval)
    → v.start ≤ v.end
    → f.start ≤ f.end
    → v.end < f.start
    → Placed f ris made
    → Placed f (v ∷ ris) (v ∷ made)
Placed-behind f v ris _ p q lt (first e) =
    let (a, b) = apart v f p q lt in
    inserted 0 v (counted f.end 0 v ris (omega (arith, p, q, lt)) e) refl a b
Placed-behind f v ris _ p q lt (kept k w e g c) =
    kept (suc k) w (counted f.end (suc k) v ris (omega (arith, p, q, lt)) e) g c
Placed-behind f v ris _ p q lt (replaced k w e g n c) =
    replaced (suc k) w (counted f.end (suc k) v ris (omega (arith, p, q, lt)) e) g n c
Placed-behind f v ris _ p q lt (inserted k w e g n c) =
    inserted (suc k) w (counted f.end (suc k) v ris (omega (arith, p, q, lt)) e) g n c

pub Fits-Placed :
    (f : ReachabilityInterval) (ris made : List ReachabilityInterval)
    → f.start ≤ f.end
    → Fits f ris made
    → IsOrdered ris
    → Placed f ris made
Fits-Placed f _ _ p (in_front ris a) o = first (AllFrom-count_until f.end ris a)
Fits-Placed f _ _ p (is_covered v ris c) (ordered _ _ q a o) =
    let (b, d) = contains_bounds v f c in
    kept 0 v
      (counted f.end 0 v ris (omega (arith, b, p)) (
        AllFrom-count_until f.end ris
          (AllFrom-weaken (suc f.end) (suc v.end) ris (omega (arith, d)) a)))
      refl c
Fits-Placed f _ _ p (replaces v ris n c a) (ordered _ _ q b o) =
    let (l, r) = contains_bounds f v c in
    replaced 0 v (counted f.end 0 v ris (omega (arith, q, r)) (AllFrom-count_until f.end ris a))
      refl n c
Fits-Placed f _ _ p (goes_behind v ris made lt t) (ordered _ _ q a o) =
    Placed-behind f v ris made q p lt (Fits-Placed f ris made p t o)
