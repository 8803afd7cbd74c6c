-- ===== src/Utxo/Diff/Loops.antt =====
-- The loops of the diff algebra, by what a lookup finds after them.
use eiyaro.Common.{
  Bool, true, false, [], ◌∷◌, ◌&&◌, if◌then◌else◌, Option, none, some, ◌≡◌, refl, sym, ap, ◌∙◌, inl,
  inr, Bool-cases,
}
use eiyaro.Utxo.Collection.{
  Outpoint, UtxoEntry, UtxoCollection, same_outpoint, get, is_some, contains, add, IsMap,
}
use eiyaro.Utxo.Collection.Lookup.{same_outpoint-eq, get-add, get-tail, get-head, IsMap-add}
use eiyaro.Utxo.Diff.{check_intersection, check_intersection_with_rule, offends, collect}

-- An entry that passes a test, and one option before another.
abbrev pub keep : (UtxoEntry → Bool) → Option UtxoEntry → Option UtxoEntry
keep test none = none
keep test (some e) = if test e then some e else none

abbrev pub over : Option UtxoEntry → Option UtxoEntry → Option UtxoEntry
over none b = b
over (some e) b = some e

add_if :
    (c : Bool) (result : UtxoCollection) (k : Outpoint) (e : UtxoEntry) (o : Outpoint)
    → get (if c then add result k e else result) o
      ≡ (if c && same_outpoint k o then some e else get result o)
add_if true result k e o = get-add result k e o
add_if false result k e o = refl

IsMap-add_if :
    (c : Bool) (result : UtxoCollection) (k : Outpoint) (e : UtxoEntry)
    → IsMap result
    → IsMap (if c then add result k e else result)
IsMap-add_if true result k e h = IsMap-add result k e h
IsMap-add_if false result k e h = h

pub get-collect :
    (test : Outpoint → UtxoEntry → Bool) (c result : UtxoCollection) (o : Outpoint)
    → IsMap c
    → get (collect test c result) o ≡ over (keep (test o) (get c o)) (get result o)
unfolding get collect
get-collect test [] result o h = refl
get-collect test ((k, e) ∷ c) result o h = elim (Bool-cases (same_outpoint k o)) [
  | inl same ↦
      let n : get c o ≡ none = ap (get c) (sym (same_outpoint-eq k o same)) ∙ h.0 in
      let t : test k e ≡ test o e = ap (λ p. test p e) (same_outpoint-eq k o same) in
      rw
        (
          get-collect test c (if test k e then add result k e else result) o h.1,
          add_if (test k e) result k e o,
          same,
          n,
          t,
        )
        (pick (test o e))
  | inr other ↦
      rw
        (
          get-collect test c (if test k e then add result k e else result) o h.1,
          add_if (test k e) result k e o,
          other,
        )
        (drop_and (test k e))
]
  where
    pick :
        (b : Bool)
        → (if b && true then some e else get result o)
          ≡ over (if b then some e else none) (get result o)
    pick true = refl
    pick false = refl

    drop_and :
        (b : Bool)
        → over (keep (test o) (get c o)) (if b && false then some e else get result o)
          ≡ over (keep (test o) (get c o)) (get result o)
    drop_and true = refl
    drop_and false = refl

pub IsMap-collect :
    (test : Outpoint → UtxoEntry → Bool) (c result : UtxoCollection)
    → IsMap result
    → IsMap (collect test c result)
unfolding collect
IsMap-collect test [] result h = h
IsMap-collect test ((k, e) ∷ c) result h =
    IsMap-collect test c _ (IsMap-add_if (test k e) result k e h)

offends-clear :
    (rule : Outpoint → UtxoEntry → UtxoEntry → Bool) (o : Outpoint) (e : UtxoEntry)
    (x : Option UtxoEntry)
    → ((d : UtxoEntry) → x ≡ some d → rule o e d ≡ false)
    → offends rule o e x ≡ false
offends-clear rule o e none h = refl
offends-clear rule o e (some d) h = h d refl

-- No outpoint offends where the rule holds at no outpoint of both collections.
pub check_intersection_with_rule-clear :
    (c1 c2 : UtxoCollection) (rule : Outpoint → UtxoEntry → UtxoEntry → Bool)
    → IsMap c1
    → ((o : Outpoint) (e d : UtxoEntry)
        → get c1 o ≡ some e
        → get c2 o ≡ some d
        → rule o e d ≡ false)
    → check_intersection_with_rule c1 c2 rule ≡ false
unfolding check_intersection_with_rule
check_intersection_with_rule-clear [] c2 rule m h = refl
check_intersection_with_rule-clear ((k, e) ∷ c1) c2 rule m h =
    rw
      (
        offends-clear rule k e (get c2 k) (λ d. h k e d (get-head k e c1)),
        check_intersection_with_rule-clear c1 c2 rule m.1
            (λ o f d g. h o f d (get-tail k o e f c1 m g)),
      )
      refl

-- Two collections that have the same outpoints of the first meet it alike.
pub check_intersection-same :
    (c a b : UtxoCollection)
    → IsMap c
    → ((o : Outpoint) (e : UtxoEntry) → get c o ≡ some e → is_some (get a o) ≡ is_some (get b o))
    → check_intersection c a ≡ check_intersection c b
unfolding check_intersection contains
check_intersection-same [] a b m h = refl
check_intersection-same ((k, e) ∷ c) a b m h =
    rw
      (
        h k e (get-head k e c),
        check_intersection-same c a b m.1 (λ o f g. h o f (get-tail k o e f c m g)),
      )
      refl
