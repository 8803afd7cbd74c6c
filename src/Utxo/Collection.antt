-- ===== src/Utxo/Collection.antt =====
-- domain/consensus/utils/utxo/utxo_collection.go: a Go map from outpoints to UTXO entries, as an
-- association list. Where the code ranges over a map the list gives the order, which Go leaves open.
-- A transaction id, of which only equality is used, is a number.
pub mod Lookup
use eiyaro.Common.{
  ℕ, Bool, true, false, List, [], ◌∷◌, ◌&&◌, not, ◌==◌, if◌then◌else◌, Option, none, some, ◌≡◌,
}

pub record Outpoint : Type 0 where
  pub transaction_id : ℕ
  pub index : ℕ

pub record UtxoEntry : Type 0 where
  pub amount : ℕ
  pub script_version : ℕ
  pub script : List ℕ
  pub block_daa_score : ℕ
  pub is_coinbase : Bool

abbrev pub UtxoCollection : Type 0
UtxoCollection = List (Outpoint × UtxoEntry)

-- The equality of map keys.
abbrev pub same_outpoint : Outpoint → Outpoint → Bool
same_outpoint a b = a.transaction_id == b.transaction_id && a.index == b.index

unfoldable pub get : UtxoCollection → Outpoint → Option UtxoEntry
get [] outpoint = none
get ((key, entry) ∷ uc) outpoint =
    let rest = get uc outpoint in if same_outpoint key outpoint then some entry else rest

abbrev pub is_some : {A : Type 0} → Option A → Bool
is_some none = false
is_some (some a) = true

unfoldable pub contains : UtxoCollection → Outpoint → Bool
contains uc outpoint = is_some (get uc outpoint)

unfoldable pub add : UtxoCollection → Outpoint → UtxoEntry → UtxoCollection
add [] outpoint entry = (outpoint, entry) ∷ []
add ((key, old) ∷ uc) outpoint entry =
    let rest = add uc outpoint entry in
    if same_outpoint key outpoint then (key, entry) ∷ uc else (key, old) ∷ rest

unfoldable pub remove : UtxoCollection → Outpoint → UtxoCollection
remove [] outpoint = []
remove ((key, entry) ∷ uc) outpoint =
    let rest = remove uc outpoint in
    if same_outpoint key outpoint then rest else (key, entry) ∷ rest

unfoldable pub remove_multiple : UtxoCollection → UtxoCollection → UtxoCollection
remove_multiple uc [] = uc
remove_multiple uc ((outpoint, entry) ∷ collection_to_remove) =
    remove_multiple (remove uc outpoint) collection_to_remove

-- Whether an entry is there and has the score.
abbrev pub has_score : Option UtxoEntry → ℕ → Bool
has_score none daa_score = false
has_score (some entry) daa_score = entry.block_daa_score == daa_score

unfoldable pub contains_with_daa_score : UtxoCollection → Outpoint → ℕ → Bool
contains_with_daa_score uc outpoint daa_score = has_score (get uc outpoint) daa_score

-- No key stands twice, as in a Go map.
abbrev pub IsMap : UtxoCollection → Type 0
IsMap [] = Unit
IsMap ((key, entry) ∷ uc) = (get uc key ≡ none) × IsMap uc
