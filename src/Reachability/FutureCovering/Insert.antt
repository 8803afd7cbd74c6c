-- ===== src/Reachability/FutureCovering/Insert.antt =====
-- What an insertion makes of the intervals of an ordered set: `Fits` says where an interval goes.
pub mod Place
pub mod Staged
use eiyaro.Common.{
  ℕ, zero, suc, ◌+◌, ◌≤◌, ◌<◌, ◌≡◌, refl, sym, ap, ◌∙◌, Bool, true, false, List, [], ◌∷◌, ◌||◌,
  arith,
}
use eiyaro.Reachability.Store.{ReachabilityInterval}
use eiyaro.Reachability.Interval.{interval_contains}
use eiyaro.Reachability.Tree.Ordered.{
  IsOrdered, ordered, no_intervals, AllFrom, none_from, all_from,
}
use eiyaro.Reachability.FutureCovering.Query.{any_contains, AllFrom-weaken}

-- An interval fits into a list of intervals, with the list it makes: it goes in front of those that
-- start behind it; it is left out where one contains it; it takes the place of one that it
-- contains, if it is before all others; it goes behind those that end before it.
pub data Fits (f : ReachabilityInterval)
    : List ReachabilityInterval → List ReachabilityInterval → Type 0 where
  in_front : (ris : List ReachabilityInterval) → AllFrom (suc f.end) ris → Fits f ris (f ∷ ris)
  is_covered :
      (v : ReachabilityInterval) (ris : List ReachabilityInterval)
      → interval_contains v f ≡ true
      → Fits f (v ∷ ris) (v ∷ ris)
  replaces :
      (v : ReachabilityInterval) (ris : List ReachabilityInterval)
      → interval_contains v f ≡ false
      → interval_contains f v ≡ true
      → AllFrom (suc f.end) ris
      → Fits f (v ∷ ris) (f ∷ ris)
  goes_behind :
      (v : ReachabilityInterval) (ris made : List ReachabilityInterval)
      → v.end < f.start
      → Fits f ris made
      → Fits f (v ∷ ris) (v ∷ made)

Fits-AllFrom :
    (bound : ℕ) (f : ReachabilityInterval) (ris made : List ReachabilityInterval)
    → bound ≤ f.start
    → Fits f ris made
    → AllFrom bound ris
    → AllFrom bound made
Fits-AllFrom bound f _ _ le (in_front ris a) b = all_from f ris le b
Fits-AllFrom bound f _ _ le (is_covered v ris c) b = b
Fits-AllFrom bound f _ _ le (replaces v ris n c a) (all_from _ _ l b) = all_from f ris le b
Fits-AllFrom bound f _ _ le (goes_behind v ris made lt t) (all_from _ _ l b) =
    all_from v made l (Fits-AllFrom bound f ris made le t b)

pub Fits-IsOrdered :
    (f : ReachabilityInterval) (ris made : List ReachabilityInterval)
    → f.start ≤ f.end
    → Fits f ris made
    → IsOrdered ris
    → IsOrdered made
Fits-IsOrdered f _ _ p (in_front ris a) o = ordered f ris p a o
Fits-IsOrdered f _ _ p (is_covered v ris c) o = o
Fits-IsOrdered f _ _ p (replaces v ris n c a) (ordered _ _ q b o) = ordered f ris p a o
Fits-IsOrdered f _ _ p (goes_behind v ris made lt t) (ordered _ _ q b o) =
    ordered v made q (Fits-AllFrom (suc v.end) f ris made (omega (arith, lt)) t b)
      (Fits-IsOrdered f ris made p t o)

contains_within :
    (v f x : ReachabilityInterval)
    → interval_contains v f ≡ true
    → interval_contains f x ≡ true
    → interval_contains v x ≡ true
unfolding interval_contains
contains_within v f x a b = ground (arith, a, b)

or_comm : (a b : Bool) → (a || b) ≡ (b || a)
or_comm a b = ground arith

or_swap : (a b c d : Bool) → d ≡ (c || b) → (a || d) ≡ ((a || c) || b)
or_swap a b c d h = ground (arith, h)

covered_or : (a b c : Bool) → (b ≡ true → a ≡ true) → (a || c) ≡ ((a || c) || b)
covered_or a b c h = ground (arith, h)

replaced_or : (a b c : Bool) → (a ≡ true → b ≡ true) → (b || c) ≡ ((a || c) || b)
replaced_or a b c h = ground (arith, h)

-- The list that is made contains what the old one or the interval contains.
pub Fits-any_contains :
    (f : ReachabilityInterval) (ris made : List ReachabilityInterval) (x : ReachabilityInterval)
    → Fits f ris made
    → any_contains made x ≡ (any_contains ris x || interval_contains f x)
unfolding any_contains
Fits-any_contains f _ _ x (in_front ris a) = or_comm (interval_contains f x) (any_contains ris x)
Fits-any_contains f _ _ x (is_covered v ris c) =
    covered_or (interval_contains v x) (interval_contains f x) (any_contains ris x)
      (contains_within v f x c)
Fits-any_contains f _ _ x (replaces v ris n c a) =
    replaced_or (interval_contains v x) (interval_contains f x) (any_contains ris x)
      (contains_within f v x c)
Fits-any_contains f _ _ x (goes_behind v ris made lt t) =
    or_swap (interval_contains v x) (interval_contains f x) (any_contains ris x)
      (any_contains made x) (Fits-any_contains f ris made x t)
