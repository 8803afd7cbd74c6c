-- ===== src/Ghostdag/Compare/Greatest.antt =====
-- The selected parent is the greatest of the parents.
use mathlib.Core.Path.{subst}
use mathlib.Core.Option.{some-injective}
use eiyaro.Common.{
  ℕ, ◌≡◌, ◌⊎◌, inl, inr, refl, sym, ap, ◌∙◌, true, false, List, [], ◌∷◌, ◌==◌, ◌&&◌, not, arith,
  some, Bool-cases,
}
use eiyaro.Reachability.Store.{Hash, found}
use eiyaro.Ghostdag.Compare.{
  BlockGhostdagData, GhostdagStore, get_data, is_less, less, choose_selected_parent, choose_from,
  find_from, find_selected_parent,
}

-- A list of hashes that are all in the store, with their data.
pub data Stored (store : GhostdagStore) : List Hash → Type 0 where
  none_stored : Stored store []
  stored :
      (hash : Hash) (block_data : BlockGhostdagData) (hashes : List Hash)
      → store false hash ≡ some block_data
      → Stored store hashes
      → Stored store (hash ∷ hashes)

-- A hash of a list.
pub data IsAmong (hash : Hash) : List Hash → Type 0 where
  here : (hashes : List Hash) → IsAmong hash (hash ∷ hashes)
  there : (other : Hash) (hashes : List Hash) → IsAmong hash hashes → IsAmong hash (other ∷ hashes)

-- No block of a list is greater, by blue work and then by hash.
pub data IsBound (store : GhostdagStore) (hash : Hash) (block_data : BlockGhostdagData)
    : List Hash → Type 0 where
  bounds_none : IsBound store hash block_data []
  bounds :
      (other : Hash) (other_data : BlockGhostdagData) (hashes : List Hash)
      → store false other ≡ some other_data
      → is_less hash block_data other other_data ≡ false
      → IsBound store hash block_data hashes
      → IsBound store hash block_data (other ∷ hashes)

pub get_data_eq :
    (store : GhostdagStore) (hash : Hash) (block_data : BlockGhostdagData)
    → store false hash ≡ some block_data
    → get_data store hash false ≡ found block_data
unfolding get_data
get_data_eq store hash block_data h = rw (get_data, h) refl

is_less_refl : (a : Hash) (da : BlockGhostdagData) → is_less a da a da ≡ false
unfolding is_less
is_less_refl a da = ground arith

is_less_data :
    (a b : Hash) (da db : BlockGhostdagData)
    → (a ≡ b → da ≡ db)
    → is_less a da b db ≡ true
    → a == b ≡ false
is_less_data a b da db same h = elim (Bool-cases (a == b)) [
  | inl e ↦ absurd (clash (ground (arith, e)))
  | inr e ↦ e
]
  where
    clash : ¬ (a ≡ b)
    clash e = ground (
      arith,
      is_less_refl a da,
      subst (λ t. is_less a da a t ≡ true) (sym (same e))
          (subst (λ t. is_less a da t db ≡ true) (sym e) h),
    )

chosen_eq : (b : Hash) (a : Hash) → (a == b) && not (a == b) ≡ false
chosen_eq b a = ground arith

less_eq :
    (store : GhostdagStore) (a b : Hash) (data_a data_b : BlockGhostdagData)
    → store false a ≡ some data_a
    → store false b ≡ some data_b
    → less store a b ≡ found (is_less a data_a b data_b)
unfolding less choose_selected_parent choose_from
less_eq store a b data_a data_b h k = elim (Bool-cases (is_less a data_a b data_b)) [
  | inl bigger ↦
      rw
        (
          get_data_eq store a data_a h,
          get_data_eq store b data_b k,
          is_less_refl a data_a,
          bigger,
          is_less_data a b data_a data_b
              (λ e. some-injective data_a data_b (sym h ∙ ap (store false) e ∙ k)) bigger,
        )
        (ap found (own b))
  | inr smaller ↦
      rw
        (get_data_eq store a data_a h, get_data_eq store b data_b k, is_less_refl a data_a, smaller)
        (ap found (chosen_eq b a))
]
  where
    own : (n : ℕ) → (n == n) && true ≡ true
    own n = ground arith

-- What the loop has found: a hash of the list that has data and bounds it.
pub record IsGreatest (store : GhostdagStore) (hash : Hash) (hashes : List Hash) : Type 0 where
  pub block_data : BlockGhostdagData
  pub in_store : store false hash ≡ some block_data
  pub among : IsAmong hash hashes
  pub bound : IsBound store hash block_data hashes

record Selected (store : GhostdagStore) (start : Hash) (start_data : BlockGhostdagData)
    (hashes : List Hash) : Type 0 where
  hash : Hash
  is_found : find_from store start hashes ≡ found hash
  block_data : BlockGhostdagData
  in_store : store false hash ≡ some block_data
  among : (hash ≡ start) ⊎ IsAmong hash hashes
  bound : IsBound store hash block_data hashes
  above : is_less hash block_data start start_data ≡ false

IsAmong-next :
    (hash next : Hash) (hashes : List Hash)
    → (hash ≡ next) ⊎ IsAmong hash hashes
    → IsAmong hash (next ∷ hashes)
IsAmong-next hash next hashes (inl e) = subst (λ t. IsAmong hash (t ∷ hashes)) e (here hashes)
IsAmong-next hash next hashes (inr m) = there next hashes m

IsAmong-start :
    (hash start next : Hash) (hashes : List Hash)
    → (hash ≡ start) ⊎ IsAmong hash hashes
    → (hash ≡ start) ⊎ IsAmong hash (next ∷ hashes)
IsAmong-start hash start next hashes (inl e) = inl e
IsAmong-start hash start next hashes (inr m) = inr (there next hashes m)

-- start < next ≤ hash.
not_above :
    (start next hash : Hash) (ds dn dh : BlockGhostdagData)
    → is_less start ds next dn ≡ true
    → is_less hash dh next dn ≡ false
    → is_less hash dh start ds ≡ false
unfolding is_less
not_above start next hash ds dn dh h k = ground (arith, h, k)

-- next ≤ start ≤ hash.
still_above :
    (start next hash : Hash) (ds dn dh : BlockGhostdagData)
    → is_less start ds next dn ≡ false
    → is_less hash dh start ds ≡ false
    → is_less hash dh next dn ≡ false
unfolding is_less
still_above start next hash ds dn dh h k = ground (arith, h, k)

select :
    (store : GhostdagStore) (start : Hash) (start_data : BlockGhostdagData) (hashes : List Hash)
    → store false start ≡ some start_data
    → Stored store hashes
    → Selected store start start_data hashes
unfolding find_from
select store start start_data _ h none_stored = record {
  hash = start;
  is_found = refl;
  block_data = start_data;
  in_store = h;
  among = inl refl;
  bound = bounds_none;
  above = is_less_refl start start_data;
}
select store start start_data _ h (stored next next_data hashes e s) =
    elim (Bool-cases (is_less start start_data next next_data)) [
      | inl bigger ↦
          let r = select store next next_data hashes e s in
          record {
            hash = r.hash;
            is_found = rw (less_eq store start next start_data next_data h e, bigger) r.is_found;
            block_data = r.block_data;
            in_store = r.in_store;
            among = inr (IsAmong-next r.hash next hashes r.among);
            bound = bounds next next_data hashes e r.above r.bound;
            above = not_above start next r.hash start_data next_data r.block_data bigger r.above;
          }
      | inr smaller ↦
          let r = select store start start_data hashes h s in
          record {
            hash = r.hash;
            is_found = rw (less_eq store start next start_data next_data h e, smaller) r.is_found;
            block_data = r.block_data;
            in_store = r.in_store;
            among = IsAmong-start r.hash start next hashes r.among;
            bound =
                bounds next next_data hashes e
                  (still_above start next r.hash start_data next_data r.block_data smaller r.above)
                  r.bound;
            above = r.above;
          }
    ]

-- For parents that are all in the store, at least one: findSelectedParent finds one of them, and no
-- parent is greater, by blue work and then by hash.
pub find_selected_parent-IsGreatest :
    (store : GhostdagStore) (first : Hash) (parents : List Hash)
    → Stored store (first ∷ parents)
    → (hash : Hash) × (find_selected_parent store (first ∷ parents) ≡ found (some hash))
      × IsGreatest store hash (first ∷ parents)
unfolding find_selected_parent
find_selected_parent-IsGreatest store _ _ (stored first first_data parents e s) =
    let r = select store first first_data parents e s in
    (
      r.hash,
      rw r.is_found refl,
      record {
        block_data = r.block_data;
        in_store = r.in_store;
        among = IsAmong-next r.hash first parents r.among;
        bound = bounds first first_data parents e r.above r.bound;
      },
    )
