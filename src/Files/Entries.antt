-- ===== src/Files/Entries.antt =====
-- The abstract view of the chains of Files/Item.antt: for each chain the list of its entries.
use eset_store.Base.{
  strncmp_zero, ℕ, ◌≡◌, ◌≢◌, Bool, ◌&&◌, Option, none, some, List, [], ◌∷◌, ◌==◌, if◌then◌else◌,
  length,
}
use eset_store.Files.Item.{ItemStore, KeyValueEngine}

-- An item by its address and its key.
abbrev pub Entry : Type 0
Entry = ℕ × List ℕ

abbrev pub same_key : List ℕ → List ℕ → Bool
same_key a b = (length a == length b) && strncmp_zero a b

-- The first entry with this key.
abbrev pub find : List ℕ → List Entry → Option ℕ
find key [] = none
find key (e ∷ es) = if same_key e.1 key then some e.0 else find key es

-- The entries without the one at this address.
abbrev pub remove : ℕ → List Entry → List Entry
remove p [] = []
remove p (e ∷ es) = if e.0 == p then es else e ∷ remove p es

abbrev pub NotIn : ℕ → List Entry → Type 0
NotIn p [] = Unit {0}
NotIn p (e ∷ es) = (p ≢ e.0) × NotIn p es

abbrev pub AllDifferent : List Entry → Type 0
AllDifferent [] = Unit {0}
AllDifferent (e ∷ es) = NotIn e.0 es × AllDifferent es

-- No address of the first list is in the second.
abbrev pub Apart : List Entry → List Entry → Type 0
Apart [] fs = Unit {0}
Apart (e ∷ es) fs = NotIn e.0 fs × Apart es fs

-- No two entries have the same key.
abbrev pub KeysDiffer : List Entry → Type 0
KeysDiffer [] = Unit {0}
KeysDiffer (e ∷ es) = (find e.1 es ≡ none) × KeysDiffer es

-- From this pointer on, the items follow one another up to NULL.
abbrev pub IsChain : ItemStore → Option ℕ → List Entry → Type 0
IsChain items from [] = from ≡ none
IsChain items from (e ∷ es) =
    (from ≡ some e.0)
    × ((items e.0).key ≡ e.1)
    × ((items e.0).key_size ≡ length e.1)
    × IsChain items (items e.0).next es

-- Each item but the first points back to the one before it; the first one's `pre` is anything.
abbrev pub PointBack : ItemStore → List Entry → Type 0
PointBack items [] = Unit {0}
PointBack items (e ∷ []) = Unit {0}
PointBack items (e ∷ (f ∷ fs)) = ((items f.0).pre ≡ some e.0) × PointBack items (f ∷ fs)

-- The engine's chains hold these entries.
pub record Holds (engine : KeyValueEngine) (entries : ℕ → List Entry) : Type 0 where
  pub chain : (i : ℕ) → IsChain engine.items (engine.key_value_chain i) (entries i)
  pub back : (i : ℕ) → PointBack engine.items (entries i)
  pub different : (i : ℕ) → AllDifferent (entries i)
  pub apart : (i j : ℕ) → i ≢ j → Apart (entries i) (entries j)
  pub keys : (i : ℕ) → KeysDiffer (entries i)

abbrev pub set_entries : (ℕ → List Entry) → ℕ → List Entry → ℕ → List Entry
set_entries entries idx es i = if i == idx then es else entries i
