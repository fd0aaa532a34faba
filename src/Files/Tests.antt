-- ===== src/Files/Tests.antt =====
-- An engine of two chains, one of which has three items.
use native.Mathlib.Omega.{arith}
use native.Mathlib.Decide.{ℕ_discrete}
use eset_store.Base.{strncmp_zero, ℕ, ◌<◌, ◌≡◌, refl, none, some, List, [], ◌∷◌, eq→==, ne→not_eq}
use eset_store.Placement.ESet.{ESetNode}
use eset_store.Placement.Manager.{
  EcBlock, EcBlockGroup, PlacementManager, no_eset, request_placement,
}
use eset_store.Blocks.Slab.{ThreadBlockSlab, BlockSlab}
use eset_store.Blocks.Groups.{BlockGroupManagement, request_block_group}
use eset_store.Files.Item.{
  KeyValueItem, KeyValueEngine, push_item, locate_key_value_item, insert_key_item,
  delete_key_value_item,
}
use eset_store.Files.Entries.{Entry, NotIn, Holds, set_entries}
use eset_store.Files.Push.{push_item-Holds}
use eset_store.Files.Delete.{delete_key_value_item-Holds}
use eset_store.Files.Insert.{insert_key_item-Holds, IsPlaced}
use eset_store.Files.Push.{IsNewItem}

abbrev no_item : ℕ → KeyValueItem
no_item p = record {
  key = [];
  key_size = 0;
  next = none;
  pre = none;
  block_groups_header = 0;
  block_groups_tail = 0;
  block_groups_num = 0;
  file_size = 0;
  slab_id = 0;
}

abbrev pub no_block : ℕ → EcBlock
no_block i = record {
  block_id = 0;
  server_id = 0;
  rack_id = 0;
  missing_flag = 0;
  recovered_flag = 0;
  block_size = 0;
}

abbrev no_group : ℕ → EcBlockGroup
no_group g = record { block_group_id = 0; block_group_size = 0; blocks = []; set_idx = 0 }

abbrev one_group : EcBlockGroup
one_group = record {
  block_group_id = 256;
  block_group_size = 0;
  blocks = no_block 0 ∷ no_block 1 ∷ [];
  set_idx = 0;
}

abbrev no_thread : ℕ → ThreadBlockSlab
no_thread t = record {
  mem_base = 0;
  mem_cur = 0;
  total_mem_size = 0;
  remain_mem_size = 0;
  block_size = 0;
  each_group_mem_size = 0;
}

abbrev slab : BlockSlab
slab = record {
  mem_base = 0;
  mem_cur = 0;
  total_mem_size = 0;
  remain_mem_size = 0;
  block_size = 2;
  thread_num = 1;
  thread_block_slab = no_thread;
}

-- One block group was given back.
abbrev blocks : BlockGroupManagement
blocks = record {
  k_size = 1;
  m_size = 1;
  worker_th_num = 1;
  block_idx_for_th = λ t. 512;
  block_groups = λ t. one_group ∷ [];
  block_slab = slab;
}

abbrev node : ℕ → ESetNode
node r = record {
  rack_id = r;
  server_id_in_rack = 5;
  row = r;
  col = 0;
  failed_flag = 0;
  recovered_flag = 0;
}

abbrev placement : PlacementManager
placement = record {
  groups = λ g. record {
    group_nodes = λ r c. record { rack_id = 0; server_id_in_rack = 0 };
    row_size = 0;
    col_size = 0;
  };
  group_size = 1;
  esets = λ i. record no_eset { set_nodes = node 0 ∷ node 1 ∷ []; size = 2; eset_id = i };
  esets_size = 4;
  block_group_map = λ i. [];
  place_idx = 1;
}

abbrev pub empty_engine : KeyValueEngine
empty_engine = record {
  key_value_chain = λ i. none;
  key_chain_size = 2;
  items = no_item;
  block_mgr = blocks;
  placement_mgr = placement;
  block_groups = no_group;
}

-- the keys `a`, `ab` and `b`
abbrev key_a : List ℕ
key_a = 97 ∷ []

abbrev key_ab : List ℕ
key_ab = 97 ∷ 98 ∷ []

abbrev key_b : List ℕ
key_b = 98 ∷ []

abbrev engine : KeyValueEngine
engine = push_item (push_item (push_item empty_engine 10 key_a 1 1) 20 key_ab 1 2) 30 key_b 1 3

abbrev no_entries : ℕ → List Entry
no_entries i = []

abbrev entries : ℕ → List Entry
entries =
    set_entries
      (set_entries (set_entries no_entries 1 ((10, key_a) ∷ [])) 1
        ((20, key_ab) ∷ (10, key_a) ∷ []))
      1 ((30, key_b) ∷ (20, key_ab) ∷ (10, key_a) ∷ [])

empty_engine-Holds : Holds empty_engine no_entries
empty_engine-Holds = record {
  chain = λ i. refl;
  back = λ i. tt;
  different = λ i. tt;
  apart = λ i j ne. tt;
  keys = λ i. tt;
}

not_in_set :
    (mem idx : ℕ) (es : List Entry) (old : ℕ → List Entry)
    → NotIn mem es
    → ((i : ℕ) → NotIn mem (old i))
    → (i : ℕ) → NotIn mem (set_entries old idx es i)
not_in_set mem idx es old n others i = elim (ℕ_discrete i idx) [
  | yes e ↦ rw (eq→== i idx e) n
  | no ne ↦ rw (ne→not_eq i idx ne) (others i)
]

fresh : (mem : ℕ) → 30 < mem → (i : ℕ) → NotIn mem (entries i)
fresh mem h =
    not_in_set mem 1 ((30, key_b) ∷ (20, key_ab) ∷ (10, key_a) ∷ [])
      (set_entries (set_entries no_entries 1 ((10, key_a) ∷ [])) 1
        ((20, key_ab) ∷ (10, key_a) ∷ []))
      (omega arith, (omega arith, (omega arith, tt)))
      (not_in_set mem 1 ((20, key_ab) ∷ (10, key_a) ∷ [])
        (set_entries no_entries 1 ((10, key_a) ∷ [])) (omega arith, (omega arith, tt))
        (not_in_set mem 1 ((10, key_a) ∷ []) no_entries (omega arith, tt) (λ i. tt)))

engine-Holds : Holds engine entries
unfolding strncmp_zero
engine-Holds =
    push_item-Holds (push_item (push_item empty_engine 10 key_a 1 1) 20 key_ab 1 2) 30 key_b 1 3
      (set_entries (set_entries no_entries 1 ((10, key_a) ∷ [])) 1
        ((20, key_ab) ∷ (10, key_a) ∷ []))
      (push_item-Holds (push_item empty_engine 10 key_a 1 1) 20 key_ab 1 2
        (set_entries no_entries 1 ((10, key_a) ∷ []))
        (push_item-Holds empty_engine 10 key_a 1 1 no_entries empty_engine-Holds (λ i. tt) refl)
        (not_in_set 20 1 ((10, key_a) ∷ []) no_entries (omega arith, tt) (λ i. tt)) refl)
      (not_in_set 30 1 ((20, key_ab) ∷ (10, key_a) ∷ [])
        (set_entries no_entries 1 ((10, key_a) ∷ [])) (omega arith, (omega arith, tt))
        (not_in_set 30 1 ((10, key_a) ∷ []) no_entries (omega arith, tt) (λ i. tt)))
      refl

-- a key of the first one's beginning is found behind it
locate_key_value_item_run : locate_key_value_item 9 engine key_a 3 ≡ some (some 10)
unfolding locate_key_value_item push_item
locate_key_value_item_run = refl

delete_key_value_item-Holds_example :
    (engine' : KeyValueEngine) × (delete_key_value_item 4 engine key_ab 3 ≡ some (some 20, engine'))
    × (engine'.key_chain_size ≡ 2)
    × Holds engine' (set_entries entries 1 ((30, key_b) ∷ (10, key_a) ∷ []))
unfolding strncmp_zero push_item
delete_key_value_item-Holds_example =
    delete_key_value_item-Holds 4 engine key_ab 3 20 entries engine-Holds (omega arith) refl

insert_key_item-Holds_example :
    (engine' : KeyValueEngine) × (placed : EcBlockGroup) × (insert_key_item 4
        (λ base size. base)
        no_block
        0
        40
        0
        engine
        (99 ∷ [])
        5
      ≡ some (some 40, engine'))
    × (engine'.key_chain_size ≡ 2)
    × Holds engine'
        (set_entries entries 1 ((40, 99 ∷ []) ∷ (30, key_b) ∷ (20, key_ab) ∷ (10, key_a) ∷ []))
    × IsNewItem (engine'.items 40) (99 ∷ []) 256
    × IsPlaced one_group
        (record no_eset { set_nodes = node 0 ∷ node 1 ∷ []; size = 2; eset_id = 1 })
        placed
    × (engine'.block_groups (engine'.items 40).block_groups_tail ≡ placed)
unfolding strncmp_zero push_item request_block_group request_placement
insert_key_item-Holds_example =
    insert_key_item-Holds 4 (λ base size. base) no_block 0 40 0 engine (99 ∷ []) 5 entries
      engine-Holds (fresh 40 (omega arith)) (omega arith) refl (omega arith)
