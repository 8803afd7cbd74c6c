-- ===== src/Reachability/Interval.antt =====
-- Intervals of uint64, with its wrap-around: interval.go of
-- domain/consensus/processes/reachabilitymanager.
pub mod Split
use eiyaro.Common.{
  add64, sub64, ℕ, ◌+◌, ◌-◌, ◌%◌, ◌^◌, Bool, List, [], ◌∷◌, ◌&&◌, not, ltb, leb, ◌==◌,
  if◌then◌else◌, length, Option, none, some,
}
use eiyaro.Reachability.Store.{ReachabilityInterval}

abbrev pub new_reachability_interval : ℕ → ℕ → ReachabilityInterval
new_reachability_interval start end = record { start = start; end = end }

unfoldable pub interval_size : ReachabilityInterval → ℕ
interval_size ri = add64 (sub64 ri.end ri.start) 1

unfoldable pub interval_increase : ReachabilityInterval → ℕ → ReachabilityInterval
interval_increase ri offset =
    new_reachability_interval (add64 ri.start offset) (add64 ri.end offset)

unfoldable pub interval_decrease : ReachabilityInterval → ℕ → ReachabilityInterval
interval_decrease ri offset =
    new_reachability_interval (sub64 ri.start offset) (sub64 ri.end offset)

unfoldable pub interval_increase_start : ReachabilityInterval → ℕ → ReachabilityInterval
interval_increase_start ri offset = new_reachability_interval (add64 ri.start offset) ri.end

unfoldable pub interval_decrease_start : ReachabilityInterval → ℕ → ReachabilityInterval
interval_decrease_start ri offset = new_reachability_interval (sub64 ri.start offset) ri.end

unfoldable pub interval_increase_end : ReachabilityInterval → ℕ → ReachabilityInterval
interval_increase_end ri offset = new_reachability_interval ri.start (add64 ri.end offset)

unfoldable pub interval_decrease_end : ReachabilityInterval → ℕ → ReachabilityInterval
interval_decrease_end ri offset = new_reachability_interval ri.start (sub64 ri.end offset)

unfoldable pub interval_contains : ReachabilityInterval → ReachabilityInterval → Bool
interval_contains ri other = leb ri.start other.start && leb other.end ri.end

-- `sizesSum`.
unfoldable pub sum_from : ℕ → List ℕ → ℕ
sum_from acc [] = acc
sum_from acc (size ∷ sizes) = sum_from (add64 acc size) sizes

-- The parts, one after the other.
unfoldable pub parts_from : ℕ → List ℕ → List ReachabilityInterval
parts_from start [] = []
parts_from start (size ∷ sizes) =
    new_reachability_interval start (sub64 (add64 start size) 1)
    ∷ parts_from (add64 start size) sizes

unfoldable pub interval_split_exact :
    ReachabilityInterval → List ℕ → Option (List ReachabilityInterval)
interval_split_exact ri sizes =
    if sum_from 0 sizes == interval_size ri then some (parts_from ri.start sizes) else none

-- `intervalSplitFraction`, with `uint64(math.Ceil(float64(size) * fraction))` for a fraction from 0
-- to 1 given as the function `allocation` of the size.
unfoldable pub interval_split_fraction :
    (ℕ → ℕ) → ReachabilityInterval → Option (ReachabilityInterval × ReachabilityInterval)
interval_split_fraction allocation ri =
    let allocation_size = allocation (interval_size ri) in
    if interval_size ri == 0
    then none
    else some (
      new_reachability_interval ri.start (sub64 (add64 ri.start allocation_size) 1),
      new_reachability_interval (add64 ri.start allocation_size) ri.end,
    )

-- The bias of a size, with the sizes that follow it.
unfoldable pub bias_of : List ℕ → ℕ → ℕ → ℕ
bias_of sizes share remaining_bias =
    if length sizes == 0
    then remaining_bias
    else if ltb share remaining_bias
    then share
    else remaining_bias

-- The loop over the fractions. `share i` is `uint64(math.Round(float64(totalBias)*fraction))` for
-- the fraction of the i-th size.
unfoldable pub biased_sizes : (ℕ → ℕ) → ℕ → ℕ → List ℕ → List ℕ
biased_sizes share i remaining_bias [] = []
biased_sizes share i remaining_bias (size ∷ sizes) =
    let bias = bias_of sizes (share i) remaining_bias in
    add64 size bias ∷ biased_sizes share (i + 1) (sub64 remaining_bias bias) sizes

-- `shares sizes total_bias i` is the rounded share of the i-th of `exponentialFractions(sizes)`.
unfoldable pub interval_split_with_exponential_bias :
    (List ℕ → ℕ → ℕ → ℕ) → ReachabilityInterval → List ℕ → Option (List ReachabilityInterval)
interval_split_with_exponential_bias shares ri sizes =
    let sizes_sum = sum_from 0 sizes in
    let total_bias = sub64 (interval_size ri) sizes_sum in
    if ltb (interval_size ri) sizes_sum
    then none
    else if sizes_sum == interval_size ri
    then interval_split_exact ri sizes
    else interval_split_exact ri (biased_sizes (shares sizes total_bias) 0 total_bias sizes)
