-- ===== src/Utxo/Transaction/Entries.antt =====
-- Adding and removing one entry moves the set that a diff leads to.
use mathlib.Core.Path.{subst}
use eiyaro.Common.{
  true, false, ◌==◌, if◌then◌else◌, Option, none, some, ◌≡◌, refl, sym, ap, arith, inl, inr,
  Bool-cases,
}
use eiyaro.Utxo.Collection.{
  Outpoint, UtxoEntry, same_outpoint, get, is_some, has_score, contains, contains_with_daa_score,
  IsMap, add, remove,
}
use eiyaro.Utxo.Collection.Lookup.{same_outpoint-eq, get-add, get-remove, IsMap-add, IsMap-remove}
use eiyaro.Utxo.Diff.{UtxoDiff, success, add_entry, remove_entry, in_collection}
use eiyaro.Utxo.Diff.Point.{Change, untouched, created, spent, replaced, UtxoSet, Leads}

-- The set with another entry, or none, at an outpoint.
abbrev pub update : UtxoSet → Outpoint → Option UtxoEntry → UtxoSet
update t o x p = if same_outpoint o p then x else t p

-- An entry that the set has at an outpoint with the score of the new one is the new one.
pub record Restores (set : UtxoSet) (o : Outpoint) (e : UtxoEntry) : Type 0 where
  pub same_entry :
      (x : UtxoEntry) → set o ≡ some x → (x.block_daa_score == e.block_daa_score) ≡ true → x ≡ e

enter_restored :
    (e : UtxoEntry) (b ta tr : Option UtxoEntry)
    → Change b none ta tr
    → ((x : UtxoEntry) → b ≡ some x → (x.block_daa_score == e.block_daa_score) ≡ true → x ≡ e)
    → has_score tr e.block_daa_score ≡ true
    → Change b (some e) ta none
enter_restored e b ta tr (untouched _) same h = absurd (ground arith)
enter_restored e b ta tr (spent r) same h = rw (same r refl h) (untouched (some e))

enter_new :
    (e : UtxoEntry) (b ta tr : Option UtxoEntry)
    → Change b none ta tr
    → has_score tr e.block_daa_score ≡ false
    → Change b (some e) (some e) tr
enter_new e b ta tr (untouched _) h = created e
enter_new e b ta tr (spent r) h = replaced r e (ground arith)

enter_absent :
    (e : UtxoEntry) (b ta tr : Option UtxoEntry) → Change b none ta tr → is_some ta ≡ false
enter_absent e b ta tr (untouched _) = refl
enter_absent e b ta tr (spent r) = refl

leave_created :
    (e : UtxoEntry) (b ta tr : Option UtxoEntry)
    → Change b (some e) ta tr
    → has_score ta e.block_daa_score ≡ true
    → Change b none none tr
leave_created e b ta tr (untouched _) h = absurd (ground arith)
leave_created e b ta tr (created _) h = untouched none
leave_created e b ta tr (replaced r _ n) h = spent r

leave_old :
    (e : UtxoEntry) (b ta tr : Option UtxoEntry)
    → Change b (some e) ta tr
    → has_score ta e.block_daa_score ≡ false
    → (is_some tr ≡ false) × Change b none ta (some e)
leave_old e b ta tr (untouched _) h = (refl, spent e)
leave_old e b ta tr (created _) h = absurd (ground arith)
leave_old e b ta tr (replaced r _ n) h = absurd (ground arith)

module _ (base t : UtxoSet) (d : UtxoDiff) (o : Outpoint) (e : UtxoEntry) (p : Leads base d t) where
  -- A diff that differs at one outpoint only.
  moved :
      (d' : UtxoDiff) (x ta tr : Option UtxoEntry)
      → IsMap d'.to_add
      → IsMap d'.to_remove
      → ((q : Outpoint) → get d'.to_add q ≡ (if same_outpoint o q then ta else get d.to_add q))
      → ((q : Outpoint)
          → get d'.to_remove q ≡ (if same_outpoint o q then tr else get d.to_remove q))
      → Change (base o) x ta tr
      → Leads base d' (update t o x)
  moved d' x ta tr m n f g c = record {
    to_add_map = m;
    to_remove_map = n;
    change = λ q. elim (Bool-cases (same_outpoint o q)) [
      | inl same ↦
          rw (f q, g q, same) (subst (λ k. Change (base k) x ta tr) (same_outpoint-eq o q same) c)
      | inr other ↦ rw (f q, g q, other) (p.change q)
    ];
  }

  here : (x : Option UtxoEntry) → t o ≡ x → Change (base o) x (get d.to_add o) (get d.to_remove o)
  here x h = subst (λ k. Change (base o) k (get d.to_add o) (get d.to_remove o)) h (p.change o)

  keep_add :
      (q : Outpoint)
      → get d.to_add q ≡ (if same_outpoint o q then get d.to_add o else get d.to_add q)
  keep_add q = elim (Bool-cases (same_outpoint o q)) [
    | inl same ↦ rw same (ap (get d.to_add) (sym (same_outpoint-eq o q same)))
    | inr other ↦ rw other refl
  ]

  keep_remove :
      (q : Outpoint)
      → get d.to_remove q ≡ (if same_outpoint o q then get d.to_remove o else get d.to_remove q)
  keep_remove q = elim (Bool-cases (same_outpoint o q)) [
    | inl same ↦ rw same (ap (get d.to_remove) (sym (same_outpoint-eq o q same)))
    | inr other ↦ rw other refl
  ]

  -- An entry can be added where the set has none.
  pub add_entry-Leads :
      t o ≡ none
      → Restores base o e
      → (d' : UtxoDiff) × (add_entry d o e ≡ success d') × Leads base d' (update t o (some e))
  unfolding add_entry in_collection contains_with_daa_score contains
  add_entry-Leads h same = elim (Bool-cases (has_score (get d.to_remove o) e.block_daa_score)) [
    | inl old ↦ (
      record d { to_remove = remove d.to_remove o },
      rw old refl,
      moved _ (some e) (get d.to_add o) none p.to_add_map
          (IsMap-remove d.to_remove o p.to_remove_map) keep_add (get-remove d.to_remove o)
          (enter_restored e _ _ _ (here none h) (λ x k s. same.same_entry x k s) old),
    )
    | inr new ↦ (
      record d { to_add = add d.to_add o e },
      rw (new, enter_absent e _ _ _ (here none h)) refl,
      moved _ (some e) (some e) (get d.to_remove o) (IsMap-add d.to_add o e p.to_add_map)
          p.to_remove_map (get-add d.to_add o e) keep_remove (enter_new e _ _ _ (here none h) new),
    )
  ]

  -- An entry that the set has can be removed.
  pub remove_entry-Leads :
      t o ≡ some e
      → (d' : UtxoDiff) × (remove_entry d o e ≡ success d') × Leads base d' (update t o none)
  unfolding remove_entry in_collection contains_with_daa_score contains
  remove_entry-Leads h = elim (Bool-cases (has_score (get d.to_add o) e.block_daa_score)) [
    | inl new ↦ (
      record d { to_add = remove d.to_add o },
      rw new refl,
      moved _ none none (get d.to_remove o) (IsMap-remove d.to_add o p.to_add_map) p.to_remove_map
          (get-remove d.to_add o) keep_remove (leave_created e _ _ _ (here (some e) h) new),
    )
    | inr old ↦
        let (absent, c) = leave_old e _ _ _ (here (some e) h) old in
        (
          record d { to_remove = add d.to_remove o e },
          rw (old, absent) refl,
          moved _ none (get d.to_add o) (some e) p.to_add_map
              (IsMap-add d.to_remove o e p.to_remove_map) keep_add (get-add d.to_remove o e) c,
        )
  ]
