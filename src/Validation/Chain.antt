-- ===== src/Validation/Chain.antt =====
-- Checks in a row.
use eiyaro.Common.{◌≡◌, ◌↔◌}
use eiyaro.Validation.Transaction.{Check, pass, ◌>>◌, >>_iff}

-- Checks one after the other pass exactly if each passes.
pub four_iff :
    (a b c d : Check (Unit {0}))
    → ((a >> b >> c >> d) ≡ pass tt)
      ↔ ((a ≡ pass tt) × (b ≡ pass tt) × (c ≡ pass tt) × (d ≡ pass tt))
four_iff a b c d = (
  (λ h.
      let (abc, l) = (>>_iff (a >> b >> c) d).0 h in
      let (ab, k) = (>>_iff (a >> b) c).0 abc in let (i, j) = (>>_iff a b).0 ab in (i, j, k, l)),
  (λ (i, j, k, l).
      (>>_iff (a >> b >> c) d).1 ((>>_iff (a >> b) c).1 ((>>_iff a b).1 (i, j), k), l)),
)

pub ten_iff :
    (a b c d e f g i j k : Check (Unit {0}))
    → ((a >> b >> c >> d >> e >> f >> g >> i >> j >> k) ≡ pass tt) ↔ (
        (a ≡ pass tt)
        × (b ≡ pass tt)
        × (c ≡ pass tt)
        × (d ≡ pass tt)
        × (e ≡ pass tt)
        × (f ≡ pass tt)
        × (g ≡ pass tt)
        × (i ≡ pass tt)
        × (j ≡ pass tt)
        × (k ≡ pass tt))
ten_iff a b c d e f g i j k =
    let (last, lasted) = four_iff (a >> b >> c >> d >> e >> f >> g) i j k in
    let (middle, middled) = four_iff (a >> b >> c >> d) e f g in
    let (first, firsted) = four_iff a b c d in
    (
      (λ h.
          let (p, hi, hj, hk) = last h in
          let (q, he, hf, hg) = middle p in
          let (ha, hb, hc, hd) = first q in (ha, hb, hc, hd, he, hf, hg, hi, hj, hk)),
      (λ (ha, hb, hc, hd, he, hf, hg, hi, hj, hk).
          lasted (middled (firsted (ha, hb, hc, hd), he, hf, hg), hi, hj, hk)),
    )
