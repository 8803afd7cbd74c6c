-- ===== src/Reachability/Interval/Split.antt =====
-- The parts that an interval is split into.
use mathlib.Core.Path.{subst}
use eiyaro.Common.{
  add64, sub64, add64_exact, sub64_exact, modulus, le→ltb_false, ℕ, suc, ◌+◌, ◌-◌, ◌≤◌, ◌<◌, ◌≡◌,
  ◌≢◌, ◌⊎◌, inl, inr, refl, ◌∙◌, false, List, [], ◌∷◌, ltb, ◌==◌, none, some, arith, Bool-cases,
}
use eiyaro.Reachability.Store.{ReachabilityInterval}
use eiyaro.Reachability.Interval.{
  interval_size, sum_from, parts_from, interval_split_exact, biased_sizes, bias_of,
  interval_split_with_exponential_bias,
}

unfoldable pub total : List ℕ → ℕ
total [] = 0
total (size ∷ sizes) = size + total sizes

-- Intervals of the given sizes, one after the other, from a start up to, and without, an end.
pub data Tiles : ℕ → List ℕ → List ReachabilityInterval → ℕ → Type 0 where
  no_tiles : (s : ℕ) → Tiles s [] [] s
  tile :
      (s e size : ℕ) (sizes : List ℕ) (ri : ReachabilityInterval)
      (parts : List ReachabilityInterval)
      → ri.start ≡ s
      → suc ri.end ≡ s + size
      → Tiles (s + size) sizes parts e
      → Tiles s (size ∷ sizes) (ri ∷ parts) e

-- As many sizes, each at least the one in its place.
pub data Covers : List ℕ → List ℕ → Type 0 where
  no_sizes : Covers [] []
  covers :
      (a b : ℕ) (sizes biased : List ℕ)
      → a ≤ b
      → Covers sizes biased
      → Covers (a ∷ sizes) (b ∷ biased)

-- An interval that has a start above 0, may be empty, and stays below the modulus.
pub record IsProper (ri : ReachabilityInterval) : Type 0 where
  pub above_zero : 1 ≤ ri.start
  pub in_order : ri.start ≤ suc ri.end
  pub below : suc ri.end < modulus

interval_size_exact :
    (ri : ReachabilityInterval) → IsProper ri → interval_size ri ≡ suc ri.end - ri.start
unfolding interval_size add64 sub64
interval_size_exact ri p = omega (arith, p.above_zero, p.in_order, p.below)

sum_from-total :
    (sizes : List ℕ) (acc : ℕ)
    → acc + total sizes < modulus
    → sum_from acc sizes ≡ acc + total sizes
unfolding sum_from total
sum_from-total [] acc h = omega arith
sum_from-total (size ∷ sizes) acc h =
    sum_from-total sizes (add64 acc size)
      (rw (add64_exact acc size (omega (arith, h))) (omega (arith, h)))
    ∙ rw (add64_exact acc size (omega (arith, h))) (omega arith)

part_end : (s size : ℕ) → 1 ≤ s → s + size < modulus → suc (sub64 (add64 s size) 1) ≡ s + size
unfolding add64 sub64
part_end s size one h = omega arith

Tiles-parts_from :
    (sizes : List ℕ) (s : ℕ)
    → 1 ≤ s
    → s + total sizes < modulus
    → Tiles s sizes (parts_from s sizes) (s + total sizes)
unfolding parts_from total
Tiles-parts_from [] s one h = subst (λ e. Tiles s [] [] e) (omega arith) (no_tiles s)
Tiles-parts_from (size ∷ sizes) s one h =
    tile s (s + (size + total sizes)) size sizes _ _ refl (part_end s size one (omega (arith, h))) (
      rw (add64_exact s size (omega (arith, h))) (
        subst (λ e. Tiles (s + size) sizes (parts_from (s + size) sizes) e) (omega arith)
          (Tiles-parts_from sizes (s + size) (omega (arith, one)) (omega (arith, h)))))

-- An interval whose start is above 0 and whose end is below the largest uint64 is split exactly
-- into sizes whose sum is a uint64: if their sum is the interval's size, into intervals of these
-- sizes one after the other that fill it, and otherwise it is refused.
pub interval_split_exact-Tiles :
    (ri : ReachabilityInterval) (sizes : List ℕ)
    → IsProper ri
    → total sizes < modulus
    → ((parts : List ReachabilityInterval) × (interval_split_exact ri sizes ≡ some parts)
        × Tiles ri.start sizes parts (suc ri.end))
      ⊎ ((total sizes ≢ suc ri.end - ri.start) × (interval_split_exact ri sizes ≡ none))
unfolding interval_split_exact
interval_split_exact-Tiles ri sizes p h =
    let sum : sum_from 0 sizes ≡ total sizes =
      sum_from-total sizes 0 (omega (arith, h)) ∙ omega arith in
    let size : interval_size ri ≡ suc ri.end - ri.start = interval_size_exact ri p in
    elim (Bool-cases (total sizes == (suc ri.end - ri.start))) [
      | inl same ↦
          let fits : ri.start + total sizes ≡ suc ri.end = ground (arith, same, p.in_order) in
          inl (
            parts_from ri.start sizes,
            rw (sum, size, same) refl,
            subst (λ e. Tiles ri.start sizes (parts_from ri.start sizes) e) fits
                (Tiles-parts_from sizes ri.start p.above_zero (omega (arith, fits, p.below))),
          )
      | inr other ↦ inr (ground (arith, other), rw (sum, size, other) refl)
    ]

bias_of_le : (sizes : List ℕ) (share rest : ℕ) → bias_of sizes share rest ≤ rest
unfolding bias_of
bias_of_le sizes share rest = ground arith

-- One size gets its bias, and the other sizes theirs.
Covers-step :
    (size b rest : ℕ) (sizes biased : List ℕ)
    → b ≤ rest
    → rest + (size + total sizes) < modulus
    → Covers sizes biased × (total biased ≡ (rest - b) + total sizes)
    → Covers (size ∷ sizes) (add64 size b ∷ biased)
      × (add64 size b + total biased ≡ rest + (size + total sizes))
Covers-step size b rest sizes biased le h (c, e) =
    let exact : add64 size b ≡ size + b = add64_exact size b (omega (arith, le, h)) in
    (covers size (add64 size b) sizes biased (omega (arith, exact)) c, omega (arith, exact, e, le))

-- The bias that is given away is all that there is.
biased_sizes-Covers :
    (share : ℕ → ℕ) (sizes : List ℕ) (i rest size : ℕ)
    → rest + total (size ∷ sizes) < modulus
    → Covers (size ∷ sizes) (biased_sizes share i rest (size ∷ sizes))
      × (total (biased_sizes share i rest (size ∷ sizes)) ≡ rest + total (size ∷ sizes))
unfolding biased_sizes total bias_of
biased_sizes-Covers share [] i rest size h =
    Covers-step size rest rest [] [] (omega arith) h (no_sizes, omega arith)
biased_sizes-Covers share (next ∷ sizes) i rest size h =
    let b = bias_of (next ∷ sizes) (share i) rest in
    let le : b ≤ rest = bias_of_le (next ∷ sizes) (share i) rest in
    let left : sub64 rest b ≡ rest - b = sub64_exact rest b le (omega (arith, h)) in
    Covers-step size b rest (next ∷ sizes)
      (biased_sizes share (i + 1) (sub64 rest b) (next ∷ sizes)) le h
      (subst
        (λ r.
          Covers (next ∷ sizes) (biased_sizes share (i + 1) (sub64 rest b) (next ∷ sizes))
          × (total (biased_sizes share (i + 1) (sub64 rest b) (next ∷ sizes))
              ≡ r + total (next ∷ sizes)))
        left
        (biased_sizes-Covers share sizes (i + 1) (sub64 rest b) next
          (rw left (omega (arith, h, le)))))

filled :
    (ri : ReachabilityInterval) (sizes : List ℕ)
    → IsProper ri
    → total sizes ≡ suc ri.end - ri.start
    → (parts : List ReachabilityInterval) × (interval_split_exact ri sizes ≡ some parts)
      × Tiles ri.start sizes parts (suc ri.end)
filled ri sizes p e = elim (interval_split_exact-Tiles ri sizes p (omega (arith, e, p.below))) [
  | inl t ↦ t
  | inr (ne, _) ↦ absurd (ne e)
]

Covers-refl : (sizes : List ℕ) → Covers sizes sizes
Covers-refl [] = no_sizes
Covers-refl (size ∷ sizes) = covers size size sizes sizes (omega arith) (Covers-refl sizes)

-- However the shares are rounded, an interval whose start is above 0 and whose end is below the
-- largest uint64 is split by exponential bias, if the sizes are at least one and their sum is at
-- most the interval's size, into intervals one after the other that fill it, of which each is at
-- least as large as its size asks for.
pub interval_split_with_exponential_bias-Tiles :
    (shares : List ℕ → ℕ → ℕ → ℕ) (ri : ReachabilityInterval) (size : ℕ) (sizes : List ℕ)
    → IsProper ri
    → total (size ∷ sizes) ≤ suc ri.end - ri.start
    → (biased : List ℕ) × (parts : List ReachabilityInterval)
      × (interval_split_with_exponential_bias shares ri (size ∷ sizes) ≡ some parts)
      × Covers (size ∷ sizes) biased
      × Tiles ri.start biased parts (suc ri.end)
unfolding interval_split_with_exponential_bias
interval_split_with_exponential_bias-Tiles shares ri size sizes p h =
    let t = total (size ∷ sizes) in
    let s = suc ri.end - ri.start in
    let sum : sum_from 0 (size ∷ sizes) ≡ t =
      sum_from-total (size ∷ sizes) 0 (omega (arith, h, p.below)) ∙ omega arith in
    let measured : interval_size ri ≡ s = interval_size_exact ri p in
    let bias : sub64 s t ≡ s - t = sub64_exact s t h (omega (arith, p.below)) in
    let fits : ltb s t ≡ false = le→ltb_false s t h in
    elim (Bool-cases (t == s)) [
      | inl same ↦
          let (parts, e, tiles) = filled ri (size ∷ sizes) p (ground (arith, same)) in
          (size ∷ sizes, parts, rw (sum, measured, fits, same) e, Covers-refl (size ∷ sizes), tiles)
      | inr slack ↦
          let (c, sums) =
            biased_sizes-Covers (shares (size ∷ sizes) (s - t)) sizes 0 (s - t) size
              (omega (arith, h, p.below)) in
          let (parts, e, tiles) = filled ri _ p (sums ∙ omega (arith, h)) in
          let chosen : interval_split_with_exponential_bias shares ri (size ∷ sizes)
              ≡ interval_split_exact ri
                  (biased_sizes (shares (size ∷ sizes) (s - t)) 0 (s - t) (size ∷ sizes)) =
            rw (sum, measured, fits, slack, bias) refl in
          (_, parts, chosen ∙ e, c, tiles)
    ]
