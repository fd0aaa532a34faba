-- ===== src/Files/Table.antt =====
-- The chains of an engine (Files/Item.antt) as lists of entries: lookups, and calls that change one.
use native.Mathlib.Decide.{ℕ_discrete}
use eset_store.Base.{ℕ, ◌%◌, ◌<◌, ◌≡◌, ◌≢◌, sym, ◌∙◌, some, List, length, eq→==, ne→not_eq}
use eset_store.Files.Item.{KeyValueEngine, locate_key_value_item}
use eset_store.Files.Entries.{
  Entry, find, AllDifferent, Apart, KeysDiffer, IsChain, PointBack, Holds, set_entries,
}
use eset_store.Files.Chain.{locate_item_from-find}

-- The chain of a hash value.
abbrev pub chain_of : KeyValueEngine → ℕ → ℕ
chain_of engine hash = hash % engine.key_chain_size

-- locateKeyValueItem returns the first item of the chain with the key, or NULL where there is none.
pub locate_key_value_item-find :
    (fuel : ℕ) (engine : KeyValueEngine) (key : List ℕ) (hash : ℕ) (entries : ℕ → List Entry)
    → Holds engine entries
    → length (entries (chain_of engine hash)) < fuel
    → locate_key_value_item fuel engine key hash ≡ some (find key (entries (chain_of engine hash)))
unfolding locate_key_value_item
locate_key_value_item-find fuel engine key hash entries v h =
    locate_item_from-find fuel engine.items key (engine.key_value_chain (chain_of engine hash))
      (entries (chain_of engine hash)) (v.chain (chain_of engine hash)) h

-- One chain after a call: its entries and its two directions.
pub record ChainHolds (engine : KeyValueEngine) (idx : ℕ) (es : List Entry) : Type 0 where
  pub chain : IsChain engine.items (engine.key_value_chain idx) es
  pub back : PointBack engine.items es

-- A call that gives one chain other entries and leaves the others theirs.
pub Holds-set_entries :
    (engine : KeyValueEngine) (entries : ℕ → List Entry) (idx : ℕ) (es : List Entry)
    → ((i : ℕ) → ChainHolds engine i (set_entries entries idx es i))
    → AllDifferent es
    → KeysDiffer es
    → ((i : ℕ) → i ≢ idx → Apart es (entries i) × Apart (entries i) es)
    → ((i : ℕ) → AllDifferent (entries i))
    → ((i : ℕ) → KeysDiffer (entries i))
    → ((i j : ℕ) → i ≢ j → Apart (entries i) (entries j))
    → Holds engine (set_entries entries idx es)
Holds-set_entries engine entries idx es chains d k to ds ks others = record {
  chain = λ i. (chains i).chain;
  back = λ i. (chains i).back;
  different = λ i. elim (ℕ_discrete i idx) [
    | yes e ↦ rw (eq→== i idx e) d
    | no ne ↦ rw (ne→not_eq i idx ne) (ds i)
  ];
  keys = λ i. elim (ℕ_discrete i idx) [
    | yes e ↦ rw (eq→== i idx e) k
    | no ne ↦ rw (ne→not_eq i idx ne) (ks i)
  ];
  apart = λ i j ne. elim (ℕ_discrete i idx) [
    | yes e ↦
        rw (eq→== i idx e, ne→not_eq j idx (λ f. ne (e ∙ sym f))) (to j (λ f. ne (e ∙ sym f))).0
    | no i_other ↦ elim (ℕ_discrete j idx) [
      | yes f ↦ rw (ne→not_eq i idx i_other, eq→== j idx f) (to i i_other).1
      | no j_other ↦ rw (ne→not_eq i idx i_other, ne→not_eq j idx j_other) (others i j ne)
    ]
  ];
}
