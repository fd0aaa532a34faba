-- ===== src/Files/Insert.antt =====
-- insertKeyItem of Files/Item.antt on the entries of its chains.
use eset_store.Base.{
  ℕ, ◌≤◌, ◌<◌, ◌≡◌, refl, arith, none, some, List, [], ◌∷◌, ◌==◌, if◌then◌else◌, length, eq→==,
}
use eset_store.Placement.ESet.{ESetNode, ESets}
use eset_store.Placement.Manager.{
  EcBlock, EcBlockGroup, assign_blocks, assign_esets_to_group, request_placement, place_block,
}
use eset_store.Blocks.Groups.{request_block_group}
use eset_store.Files.Item.{KeyValueEngine, push_item, insert_new, insert_key_item}
use eset_store.Files.Entries.{Entry, find, NotIn, Holds, set_entries}
use eset_store.Files.Table.{chain_of, locate_key_value_item-find}
use eset_store.Files.Push.{push_item-Holds, IsNewItem, pushed-IsNewItem}

-- The blocks, each on the node of its index and else as it was.
abbrev pub OnNodes : List EcBlock → List ESetNode → List EcBlock → Type 0
OnNodes [] nodes [] = Unit {0}
OnNodes [] nodes (c ∷ cs) = ⊥
OnNodes (b ∷ bs) nodes [] = ⊥
OnNodes (b ∷ bs) [] (c ∷ cs) = ⊥
OnNodes (b ∷ bs) (node ∷ nodes) (c ∷ cs) =
    (c ≡ record b { rack_id = node.rack_id; server_id = node.server_id_in_rack })
    × OnNodes bs nodes cs

assign_blocks-OnNodes :
    (bs : List EcBlock) (nodes : List ESetNode)
    → length bs ≤ length nodes
    → (placed : List EcBlock) × (assign_blocks bs nodes ≡ some placed) × OnNodes bs nodes placed
unfolding assign_blocks place_block
assign_blocks-OnNodes [] nodes h = ([], refl, tt)
assign_blocks-OnNodes (b ∷ bs) [] h = absurd (omega arith)
assign_blocks-OnNodes (b ∷ bs) (node ∷ nodes) h =
    let (rest, e, on) = assign_blocks-OnNodes bs nodes (omega arith) in
    (place_block b node ∷ rest, rw e refl, (refl, on))

-- The group with its blocks on the servers of the set, and with the set's number.
pub record IsPlaced (group : EcBlockGroup) (esets : ESets) (placed : EcBlockGroup) : Type 0 where
  pub same_id : placed.block_group_id ≡ group.block_group_id
  pub of_set : placed.set_idx ≡ esets.eset_id
  pub on_nodes : OnNodes group.blocks esets.set_nodes placed.blocks

assign_esets_to_group-IsPlaced :
    (group : EcBlockGroup) (esets : ESets)
    → length group.blocks ≤ length esets.set_nodes
    → (placed : EcBlockGroup) × (assign_esets_to_group group esets ≡ some placed)
      × IsPlaced group esets placed
unfolding assign_esets_to_group
assign_esets_to_group-IsPlaced group esets h =
    let (blocks, e, on) = assign_blocks-OnNodes group.blocks esets.set_nodes h in
    (
      record group { set_idx = esets.eset_id; blocks = blocks },
      rw e refl,
      record { same_id = refl; of_set = refl; on_nodes = on },
    )

-- The block group that the calls of insertKeyItem get, and the set for it.
abbrev pub the_group : (ℕ → ℕ → ℕ) → (ℕ → EcBlock) → ℕ → ℕ → KeyValueEngine → EcBlockGroup
the_group realloc memory set_idx worker engine =
    (request_block_group realloc memory set_idx engine.block_mgr worker).0

abbrev pub the_esets : (ℕ → ℕ → ℕ) → (ℕ → EcBlock) → ℕ → ℕ → KeyValueEngine → ESets
the_esets realloc memory set_idx worker engine =
    let group = the_group realloc memory set_idx worker engine in
    (request_placement engine.placement_mgr group.block_group_id group.block_group_id).0

-- Where no entry of its chain has the key, and the set that requestPlacement gives has a node for
-- each block of the group that requestBlockGroup gives, insertKeyItem returns the memory for the
-- item, without a fault: the item is then the first entry of its chain, the other entries stay as
-- they are; the item has the key and its size, the group as its first and its last one, the number 1
-- of groups and the size 0; and the group has each block on the node of its index in the set, else as
-- it was, and the number of the set.
pub insert_key_item-Holds :
    (fuel : ℕ) (realloc : ℕ → ℕ → ℕ) (memory : ℕ → EcBlock) (set_idx mem worker : ℕ)
    (engine : KeyValueEngine) (key : List ℕ) (hash : ℕ) (entries : ℕ → List Entry)
    → Holds engine entries
    → ((i : ℕ) → NotIn mem (entries i))
    → length (entries (chain_of engine hash)) < fuel
    → find key (entries (chain_of engine hash)) ≡ none
    → length (the_group realloc memory set_idx worker engine).blocks
      ≤ length (the_esets realloc memory set_idx worker engine).set_nodes
    → (engine' : KeyValueEngine) × (placed : EcBlockGroup) × (insert_key_item fuel realloc memory
          set_idx mem worker engine key hash
        ≡ some (some mem, engine'))
      × (engine'.key_chain_size ≡ engine.key_chain_size)
      × Holds engine'
          (set_entries entries (chain_of engine hash) ((mem, key) ∷ entries (chain_of engine hash)))
      × IsNewItem
          (engine'.items mem)
          key
          (the_group realloc memory set_idx worker engine).block_group_id
      × IsPlaced
          (the_group realloc memory set_idx worker engine)
          (the_esets realloc memory set_idx worker engine)
          placed
      × (engine'.block_groups (engine'.items mem).block_groups_tail ≡ placed)
unfolding insert_key_item insert_new push_item
insert_key_item-Holds fuel realloc memory set_idx mem worker engine key hash entries v n h f room =
    let (placed, assigned, is_placed) = assign_esets_to_group-IsPlaced group esets room in
    (
      push_item (ready placed) mem key (chain_of engine hash) group.block_group_id,
      placed,
      rw (locate_key_value_item-find fuel engine key hash entries v h, f) (rw assigned refl),
      refl,
      push_item-Holds (ready placed) mem key (chain_of engine hash) group.block_group_id entries
          (record {
            chain = v.chain;
            back = v.back;
            different = v.different;
            apart = v.apart;
            keys = v.keys;
          })
          n f,
      pushed-IsNewItem (ready placed) mem key (chain_of engine hash) group.block_group_id,
      is_placed,
      rw (pushed-IsNewItem (ready placed) mem key (chain_of engine hash) group.block_group_id).tail
          (stored placed),
    )
  where
    group : EcBlockGroup
    group = the_group realloc memory set_idx worker engine

    esets : ESets
    esets = the_esets realloc memory set_idx worker engine

    ready : EcBlockGroup → KeyValueEngine
    ready placed = record engine {
      block_mgr = (request_block_group realloc memory set_idx engine.block_mgr worker).1;
      placement_mgr =
          (request_placement engine.placement_mgr group.block_group_id group.block_group_id).1;
      block_groups = λ g. if g == group.block_group_id then placed else engine.block_groups g;
    }

    stored :
        (placed : EcBlockGroup)
        → (if group.block_group_id == group.block_group_id
            then placed
            else engine.block_groups group.block_group_id)
          ≡ placed
    stored placed = rw (eq→== group.block_group_id group.block_group_id refl) refl

-- Where the chain has an entry of the key, insertKeyItem returns NULL and changes nothing.
pub insert_key_item-present :
    (fuel : ℕ) (realloc : ℕ → ℕ → ℕ) (memory : ℕ → EcBlock) (set_idx mem worker : ℕ)
    (engine : KeyValueEngine) (key : List ℕ) (hash p : ℕ) (entries : ℕ → List Entry)
    → Holds engine entries
    → length (entries (chain_of engine hash)) < fuel
    → find key (entries (chain_of engine hash)) ≡ some p
    → insert_key_item fuel realloc memory set_idx mem worker engine key hash ≡ some (none, engine)
unfolding insert_key_item
insert_key_item-present fuel realloc memory set_idx mem worker engine key hash p entries v h f =
    rw (locate_key_value_item-find fuel engine key hash entries v h, f) refl
