-- ===== src/Files/Push.antt =====
-- A new item comes to the front of its chain: push_item of Files/Item.antt.
use native.Mathlib.Decide.{ℕ_discrete}
use eset_store.Base.{
  length, ℕ, ◌≡◌, refl, ap, sym, subst, ◌∙◌, Option, none, some, List, [], ◌∷◌, eq→==, ne→not_eq,
}
use eset_store.Files.Item.{
  ItemStore, KeyValueItem, KeyValueEngine, set_pre, set_chain, set_item, new_item, push_item,
}
use eset_store.Files.Entries.{
  Entry, find, NotIn, AllDifferent, IsChain, PointBack, Holds, set_entries,
}
use eset_store.Files.Chain.{
  SameBut, set_pre-kept, set_pre-SameBut, IsChain-elsewhere, IsChain-set_pre, PointBack-elsewhere,
  PointBack-behind, PointBack-other_chain,
}
use eset_store.Files.Lists.{Apart-cons}
use eset_store.Files.Unlink.{set_pre_self}
use eset_store.Files.Table.{Holds-set_entries}

set_item_self : (items : ItemStore) (p : ℕ) (item : KeyValueItem) → set_item items p item p ≡ item
unfolding set_item
set_item_self items p item = rw (eq→== p p refl) refl

set_item-SameBut :
    (items : ItemStore) (p : ℕ) (item : KeyValueItem) → SameBut p items (set_item items p item)
unfolding set_item
set_item-SameBut items p item r ne = rw (ne→not_eq r p ne) refl

-- What stands in the new item once the item after it points back.
pushed {ℓ} :
    {A : Type ℓ} (view : KeyValueItem → A)
    → ((item : KeyValueItem) (pre : Option ℕ) → view (record item { pre = pre }) ≡ view item)
    → (items : ItemStore) (head : Option ℕ) (mem : ℕ) (item : KeyValueItem)
    → view (set_pre (set_item items mem item) head mem mem) ≡ view item
pushed view same items head mem item =
    set_pre-kept view same (set_item items mem item) head mem mem
    ∙ ap view (set_item_self items mem item)

-- The chain that gets the new item.
push-IsChain :
    (items : ItemStore) (memory : KeyValueItem) (mem : ℕ) (key : List ℕ) (group : ℕ)
    (head : Option ℕ) (es : List Entry)
    → IsChain items head es
    → NotIn mem es
    → IsChain
        (set_pre (set_item items mem (new_item memory key group head)) head mem)
        (some mem)
        ((mem, key) ∷ es)
unfolding new_item
push-IsChain items memory mem key group head es c n = (
  refl,
  pushed (λ item. item.key) (λ item pre. refl) items head mem (new_item memory key group head),
  pushed (λ item. item.key_size) (λ item pre. refl) items head mem (new_item memory key group head),
  subst
      (λ from.
        IsChain (set_pre (set_item items mem (new_item memory key group head)) head mem) from es)
      (sym (
        pushed (λ item. item.next) (λ item pre. refl) items head mem
          (new_item memory key group head)))
      (IsChain-set_pre (set_item items mem (new_item memory key group head)) head mem head es (
        IsChain-elsewhere mem items (set_item items mem (new_item memory key group head)) head es
          (set_item-SameBut items mem (new_item memory key group head)) n c)),
)

push-PointBack :
    (items : ItemStore) (mem : ℕ) (key : List ℕ) (item : KeyValueItem) (head : Option ℕ)
    (es : List Entry)
    → IsChain items head es
    → NotIn mem es
    → AllDifferent es
    → PointBack items es
    → PointBack (set_pre (set_item items mem item) head mem) ((mem, key) ∷ es)
push-PointBack items mem key item head [] c n d b = tt
push-PointBack items mem key item head (e ∷ es) c n d b =
    subst (λ q. PointBack (set_pre (set_item items mem item) q mem) ((mem, key) ∷ (e ∷ es)))
      (sym c.0)
      (
        set_pre_self (set_item items mem item) e.0 mem,
        PointBack-behind e.0 (set_item items mem item)
            (set_pre (set_item items mem item) (some e.0) mem) e es
            (set_pre-SameBut (set_item items mem item) e.0 mem) d.0
            (PointBack-elsewhere mem items (set_item items mem item) (e ∷ es)
              (set_item-SameBut items mem item) n b),
      )

-- An item whose key is in no entry of its chain comes to the front of it.
pub push_item-Holds :
    (engine : KeyValueEngine) (mem : ℕ) (key : List ℕ) (idx group : ℕ) (entries : ℕ → List Entry)
    → Holds engine entries
    → ((i : ℕ) → NotIn mem (entries i))
    → find key (entries idx) ≡ none
    → Holds
        (push_item engine mem key idx group)
        (set_entries entries idx ((mem, key) ∷ entries idx))
unfolding push_item set_chain
push_item-Holds engine mem key idx group entries v n f =
    Holds-set_entries (push_item engine mem key idx group) entries idx ((mem, key) ∷ entries idx)
      (λ i. elim (ℕ_discrete i idx) [
        | yes q ↦ rw (eq→== i idx q) (record {
          chain = rw (eq→== i idx q) (
              push-IsChain engine.items (engine.items mem) mem key group
                (engine.key_value_chain idx) (entries idx) (v.chain idx) (n idx));
          back =
              push-PointBack engine.items mem key item (engine.key_value_chain idx) (entries idx)
                (v.chain idx) (n idx) (v.different idx) (v.back idx);
        })
        | no ne ↦ rw (ne→not_eq i idx ne) (record {
          chain = rw (ne→not_eq i idx ne) (
              IsChain-set_pre (set_item engine.items mem item) (engine.key_value_chain idx) mem
                (engine.key_value_chain i) (entries i)
                (IsChain-elsewhere mem engine.items (set_item engine.items mem item)
                  (engine.key_value_chain i) (entries i) (set_item-SameBut engine.items mem item)
                  (n i) (v.chain i)));
          back =
              PointBack-other_chain (set_item engine.items mem item) engine.items
                (engine.key_value_chain idx) mem (entries idx) (entries i) (v.chain idx)
                (v.apart idx i (λ e. ne (sym e)))
                (PointBack-elsewhere mem engine.items (set_item engine.items mem item) (entries i)
                  (set_item-SameBut engine.items mem item) (n i) (v.back i));
        })
      ])
      (n idx, v.different idx) (f, v.keys idx)
      (λ i ne. (
        (n i, v.apart idx i (λ e. ne (sym e))),
        Apart-cons (entries i) (entries idx) (mem, key) (n i) (v.apart i idx ne),
      ))
      v.different v.keys v.apart
  where
    item : KeyValueItem
    item = new_item (engine.items mem) key group (engine.key_value_chain idx)

-- An item of a key, with one block group and no bytes yet.
pub record IsNewItem (item : KeyValueItem) (key : List ℕ) (group : ℕ) : Type 0 where
  pub has_key : item.key ≡ key
  pub key_sized : item.key_size ≡ length key
  pub header : item.block_groups_header ≡ group
  pub tail : item.block_groups_tail ≡ group
  pub one_group : item.block_groups_num ≡ 1
  pub no_bytes : item.file_size ≡ 0

pub pushed-IsNewItem :
    (engine : KeyValueEngine) (mem : ℕ) (key : List ℕ) (idx group : ℕ)
    → IsNewItem ((push_item engine mem key idx group).items mem) key group
unfolding push_item new_item
pushed-IsNewItem engine mem key idx group = record {
  has_key = of (λ i. i.key) (λ i pre. refl);
  key_sized = of (λ i. i.key_size) (λ i pre. refl);
  header = of (λ i. i.block_groups_header) (λ i pre. refl);
  tail = of (λ i. i.block_groups_tail) (λ i pre. refl);
  one_group = of (λ i. i.block_groups_num) (λ i pre. refl);
  no_bytes = of (λ i. i.file_size) (λ i pre. refl);
}
  where
    item : KeyValueItem
    item = new_item (engine.items mem) key group (engine.key_value_chain idx)

    of :
        {A : Type 0} (field : KeyValueItem → A)
        → ((i : KeyValueItem) (pre : Option ℕ) → field (record i { pre = pre }) ≡ field i)
        → field ((push_item engine mem key idx group).items mem) ≡ field item
    of field keeps = pushed field keeps engine.items (engine.key_value_chain idx) mem item
