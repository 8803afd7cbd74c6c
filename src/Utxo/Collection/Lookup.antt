-- ===== src/Utxo/Collection/Lookup.antt =====
-- What a lookup finds after each operation on a collection.
use eiyaro.Common.{
  true, false, [], ◌∷◌, if◌then◌else◌, none, some, ◌≡◌, refl, sym, ap, ◌∙◌, arith, inl, inr,
  Bool-cases,
}
use eiyaro.Utxo.Collection.{
  Outpoint, UtxoEntry, UtxoCollection, same_outpoint, get, is_some, add, remove, remove_multiple,
  IsMap,
}

-- Equal keys.
pub same_outpoint-eq : (a b : Outpoint) → same_outpoint a b ≡ true → a ≡ b
same_outpoint-eq a b h =
    let e₁ : a.transaction_id ≡ b.transaction_id = ground arith in
    let e₂ : a.index ≡ b.index = ground arith in
    ap (λ t. record { transaction_id = t; index = a.index }) e₁
    ∙ ap (λ i. record { transaction_id = b.transaction_id; index = i }) e₂

pub same_outpoint_refl : (a : Outpoint) → same_outpoint a a ≡ true
same_outpoint_refl a = ground arith

get-cons_same :
    (k o : Outpoint) (e : UtxoEntry) (uc : UtxoCollection)
    → same_outpoint k o ≡ true
    → get ((k, e) ∷ uc) o ≡ some e
unfolding get
get-cons_same k o e uc h = rw h refl

get-cons_other :
    (k o : Outpoint) (e : UtxoEntry) (uc : UtxoCollection)
    → same_outpoint k o ≡ false
    → get ((k, e) ∷ uc) o ≡ get uc o
unfolding get
get-cons_other k o e uc h = rw h refl

same_left : (a b c : Outpoint) → same_outpoint a b ≡ true → same_outpoint a c ≡ same_outpoint b c
same_left a b c h = ap (λ t. same_outpoint t c) (same_outpoint-eq a b h)

other_left :
    (a b c : Outpoint)
    → same_outpoint a b ≡ false
    → same_outpoint a c ≡ true
    → same_outpoint b c ≡ false
other_left a b c h k = ground arith

pub get-add :
    (uc : UtxoCollection) (o : Outpoint) (e : UtxoEntry) (p : Outpoint)
    → get (add uc o e) p ≡ (if same_outpoint o p then some e else get uc p)
unfolding get add
get-add [] o e p = refl
get-add ((k, f) ∷ uc) o e p = elim (Bool-cases (same_outpoint k o)) [
  | inl h ↦ rw (h, same_left k o p h) (ground arith)
  | inr h ↦ elim (Bool-cases (same_outpoint k p)) [
    | inl same ↦ rw (h, same, other_left k o p h same) refl
    | inr other ↦ rw (h, other) (get-add uc o e p)
  ]
]

pub get-remove :
    (uc : UtxoCollection) (o p : Outpoint)
    → get (remove uc o) p ≡ (if same_outpoint o p then none else get uc p)
unfolding get remove
get-remove [] o p = ground arith
get-remove ((k, f) ∷ uc) o p = elim (Bool-cases (same_outpoint k o)) [
  | inl h ↦ rw (h, same_left k o p h, get-remove uc o p) (ground arith)
  | inr h ↦ elim (Bool-cases (same_outpoint k p)) [
    | inl same ↦ rw (h, same, other_left k o p h same) refl
    | inr other ↦ rw (h, other) (get-remove uc o p)
  ]
]

pub get-remove_multiple :
    (uc cs : UtxoCollection) (p : Outpoint)
    → get (remove_multiple uc cs) p ≡ (if is_some (get cs p) then none else get uc p)
unfolding get remove_multiple
get-remove_multiple uc [] p = refl
get-remove_multiple uc ((k, e) ∷ cs) p = elim (Bool-cases (same_outpoint k p)) [
  | inl same ↦ rw (get-remove_multiple (remove uc k) cs p, get-remove uc k p, same) (ground arith)
  | inr other ↦ rw (get-remove_multiple (remove uc k) cs p, get-remove uc k p, other) refl
]

none-add :
    (uc : UtxoCollection) (o k : Outpoint) (e : UtxoEntry)
    → same_outpoint k o ≡ false
    → get uc k ≡ none
    → get (add uc o e) k ≡ none
none-add uc o k e h n =
    let h' : same_outpoint o k ≡ false = ground arith in rw (get-add uc o e k, h') n

pub IsMap-add : (uc : UtxoCollection) (o : Outpoint) (e : UtxoEntry) → IsMap uc → IsMap (add uc o e)
unfolding add get
IsMap-add [] o e h = (refl, tt)
IsMap-add ((k, f) ∷ uc) o e h = elim (Bool-cases (same_outpoint k o)) [
  | inl same ↦ rw same h
  | inr other ↦ rw other (none-add uc o k e other h.0, IsMap-add uc o e h.1)
]

pub IsMap-remove : (uc : UtxoCollection) (o : Outpoint) → IsMap uc → IsMap (remove uc o)
unfolding remove
IsMap-remove [] o h = tt
IsMap-remove ((k, f) ∷ uc) o h = elim (Bool-cases (same_outpoint k o)) [
  | inl same ↦ rw same (IsMap-remove uc o h.1)
  | inr other ↦ rw other (rw (get-remove uc o k, h.0) (ground arith), IsMap-remove uc o h.1)
]

pub IsMap-remove_multiple : (uc cs : UtxoCollection) → IsMap uc → IsMap (remove_multiple uc cs)
unfolding remove_multiple
IsMap-remove_multiple uc [] h = h
IsMap-remove_multiple uc ((k, e) ∷ cs) h =
    IsMap-remove_multiple (remove uc k) cs (IsMap-remove uc k h)

-- An entry of the rest is an entry of the whole, as its key is another one.
pub get-tail :
    (k o : Outpoint) (f e : UtxoEntry) (uc : UtxoCollection)
    → IsMap ((k, f) ∷ uc)
    → get uc o ≡ some e
    → get ((k, f) ∷ uc) o ≡ some e
get-tail k o f e uc h g = elim (Bool-cases (same_outpoint k o)) [
  | inl same ↦
      let n : get uc o ≡ none = ap (get uc) (sym (same_outpoint-eq k o same)) ∙ h.0 in
      absurd (ground (arith, n, g))
  | inr other ↦ get-cons_other k o f uc other ∙ g
]

pub get-head : (k : Outpoint) (e : UtxoEntry) (uc : UtxoCollection) → get ((k, e) ∷ uc) k ≡ some e
get-head k e uc = get-cons_same k k e uc (same_outpoint_refl k)
