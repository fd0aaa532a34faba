-- ===== src/Files/Item.antt =====
-- locateKeyValueItem, insertKeyItem and deleteKeyValueItem of ECMeta/KeyValueEngine.c. The items are
-- a store by address; a key with its size is the list of its characters. A block group is known by
-- its id, which stands for its address.
use eset_store.Base.{
  strncmp_zero, ℕ, zero, suc, ◌%◌, Bool, false, ◌&&◌, Option, none, some, List, ◌==◌, if◌then◌else◌,
  ◌>>=◌, length,
}
use eset_store.Placement.Manager.{
  EcBlock, EcBlockGroup, PlacementManager, request_placement, assign_esets_to_group,
}
use eset_store.Blocks.Groups.{BlockGroupManagement, request_block_group}

-- `value_size` is never read or written.
pub record KeyValueItem : Type 0 where
  pub key : List ℕ
  pub key_size : ℕ
  pub next : Option ℕ
  pub pre : Option ℕ
  pub block_groups_header : ℕ
  pub block_groups_tail : ℕ
  pub block_groups_num : ℕ
  pub file_size : ℕ
  pub slab_id : ℕ

abbrev pub ItemStore : Type 0
ItemStore = ℕ → KeyValueItem

-- The engine with what it reaches through `metaEnginePtr` and `blockMgr`. The workers, their memory
-- for items, the lock and epoll are left out.
pub record KeyValueEngine : Type 0 where
  pub key_value_chain : ℕ → Option ℕ
  pub key_chain_size : ℕ
  pub items : ItemStore
  pub block_mgr : BlockGroupManagement
  pub placement_mgr : PlacementManager
  pub block_groups : ℕ → EcBlockGroup

unfoldable pub is_item_of : KeyValueItem → List ℕ → Bool
unfolding strncmp_zero
is_item_of item key = (item.key_size == length key) && strncmp_zero item.key key

-- The loop over a chain, on fuel; `none`: the fuel is out.
unfoldable pub locate_item_from : ℕ → ItemStore → List ℕ → Option ℕ → Option (Option ℕ)
unfolding is_item_of
locate_item_from zero items key from = none
locate_item_from (suc fuel) items key none = some none
locate_item_from (suc fuel) items key (some p) =
    let rest = locate_item_from fuel items key (items p).next in
    if is_item_of (items p) key then some (some p) else rest

unfoldable pub locate_key_value_item : ℕ → KeyValueEngine → List ℕ → ℕ → Option (Option ℕ)
unfolding locate_item_from
locate_key_value_item fuel engine key hash =
    locate_item_from fuel engine.items key (engine.key_value_chain (hash % engine.key_chain_size))

-- `q->pre = p`, where q is not NULL.
unfoldable pub set_pre : ItemStore → Option ℕ → ℕ → ItemStore
set_pre items none p = items
set_pre items (some q) p = λ r. if r == q then record (items q) { pre = some p } else items r

unfoldable pub set_next : ItemStore → ℕ → Option ℕ → ItemStore
set_next items p after = λ r. if r == p then record (items p) { next = after } else items r

unfoldable pub set_chain : (ℕ → Option ℕ) → ℕ → Option ℕ → ℕ → Option ℕ
set_chain chains idx from = λ i. if i == idx then from else chains i

unfoldable pub set_item : ItemStore → ℕ → KeyValueItem → ItemStore
set_item items p item = λ r. if r == p then item else items r

-- The item that is written into its memory: `pre` and `slab_id` stay what they were.
unfoldable pub new_item : KeyValueItem → List ℕ → ℕ → Option ℕ → KeyValueItem
new_item memory key group head = record memory {
  key = key;
  key_size = length key;
  next = head;
  block_groups_header = group;
  block_groups_tail = group;
  block_groups_num = 1;
  file_size = 0;
}

-- The new item in its memory `mem`, at the front of its chain.
unfoldable pub push_item : KeyValueEngine → ℕ → List ℕ → ℕ → ℕ → KeyValueEngine
unfolding set_item new_item set_pre set_chain
push_item engine mem key idx group =
    let head = engine.key_value_chain idx in
    record engine {
      items =
          set_pre (set_item engine.items mem (new_item (engine.items mem) key group head)) head mem;
      key_value_chain = set_chain engine.key_value_chain idx (some mem);
    }

-- `insertKeyItem` from the block group on, where no item has the key.
unfoldable pub insert_new :
    (ℕ → ℕ → ℕ)
    → (ℕ → EcBlock)
    → ℕ
    → ℕ
    → ℕ
    → KeyValueEngine
    → List ℕ
    → ℕ
    → Option (Option ℕ × KeyValueEngine)
unfolding push_item
insert_new realloc memory set_idx mem worker engine key idx =
    let (group, block_mgr) = request_block_group realloc memory set_idx engine.block_mgr worker in
    let (esets, placement_mgr) =
      request_placement engine.placement_mgr group.block_group_id group.block_group_id in
    assign_esets_to_group group esets >>= λ placed. some (
      some mem,
      push_item
          (record engine {
            block_mgr = block_mgr;
            placement_mgr = placement_mgr;
            block_groups = λ g. if g == group.block_group_id then placed else engine.block_groups g;
          })
          mem key idx group.block_group_id,
    )

-- `mem` is the memory for the item that the worker's slab gives; `realloc`, `memory` and `set_idx`
-- are those of requestBlockGroup. The inner `none` is NULL: an item has the key.
unfoldable pub insert_key_item :
    ℕ
    → (ℕ → ℕ → ℕ)
    → (ℕ → EcBlock)
    → ℕ
    → ℕ
    → ℕ
    → KeyValueEngine
    → List ℕ
    → ℕ
    → Option (Option ℕ × KeyValueEngine)
unfolding locate_key_value_item insert_new
insert_key_item fuel realloc memory set_idx mem worker engine key hash =
    locate_key_value_item fuel engine key hash >>= λ found. elim found [
      | some p ↦ some (none, engine)
      | none ↦
          insert_new realloc memory set_idx mem worker engine key (hash % engine.key_chain_size)
    ]

unfoldable pub is_head : Option ℕ → ℕ → Bool
is_head none p = false
is_head (some q) p = q == p

-- `deleteKeyValueItem` where an item is found; `none`: a write through a `pre` that is NULL.
unfoldable pub unlink_item : KeyValueEngine → ℕ → ℕ → Option (Option ℕ × KeyValueEngine)
unfolding set_pre set_next set_chain is_head
unlink_item engine idx p =
    let item = engine.items p in
    if is_head (engine.key_value_chain idx) p
    then some
        (some p, record engine { key_value_chain = set_chain engine.key_value_chain idx item.next })
    else item.pre >>= λ before. some (
      some p,
      record engine { items = set_pre (set_next engine.items before item.next) item.next before },
    )

unfoldable pub delete_key_value_item :
    ℕ → KeyValueEngine → List ℕ → ℕ → Option (Option ℕ × KeyValueEngine)
unfolding locate_key_value_item unlink_item
delete_key_value_item fuel engine key hash = locate_key_value_item fuel engine key hash >>= λ found.
    elim found [
      | none ↦ some (none, engine)
      | some p ↦ unlink_item engine (hash % engine.key_chain_size) p
    ]
