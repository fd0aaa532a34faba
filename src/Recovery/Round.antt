-- ===== src/Recovery/Round.antt =====
-- One report of a head node (Recovery/Rounds.antt) to a set in recovery.
use eset_store.Base.{
  ℕ, zero, suc, ◌+◌, ◌<◌, ◌≡◌, ◌≢◌, refl, ap, sym, subst, ◌∙◌, arith, inl, inr, false, some, List,
  [], ◌∷◌, length, get_elem?, set, eq→==, ne→not_eq, length-set, get_elem?-set_self,
}
use eset_store.Placement.ESet.{ESetNode}
use eset_store.Placement.Manager.{BlockGroupMapping, EcBlock, EcBlockGroup}
use eset_store.Recovery.Failed.{FailedESets}
use eset_store.Recovery.Rounds.{
  RecoveringESets, RecoveryState, first_unrecovered, mark_mapping, recover_block, recovered_size,
  set_id, find_recovering, recover_rows, failed_idx_at, set_group_map, set_blocks, recover_found,
  mark_recovered,
}
use eset_store.Recovery.Waits.{
  mark-cases, mark-none, HasIds, HasRow, IsHealed, lost, mark-first, HasIds-mark, HasRow-mark,
}

-- A set that is in recovery after the failure of one of its nodes, with its chain of block groups.
pub record InRecovery (st : RecoveryState) (eset row : ℕ) (entry : RecoveringESets)
    (chain : List BlockGroupMapping) : Type 0 where
  pub found : find_recovering st.placement_mgr.esets eset st.recovering_esets_lists ≡ some entry
  pub of_set : set_id st.placement_mgr.esets entry ≡ eset
  pub chain_at : st.placement_mgr.block_group_map eset ≡ chain
  pub one_failed : entry.failed.failed_nodes_num ≡ 1
  pub head : ESetNode
  pub head_first : get_elem? entry.eset_nodes 0 ≡ some head
  pub ids : HasIds chain
  pub in_row : entry.failed.failed_idx ≡ row
  pub rows : HasRow st.block_groups row chain

get_elem?-in {ℓ} :
    {A : Type ℓ} (xs : List A) (i : ℕ) → i < length xs → (a : A) × (get_elem? xs i ≡ some a)
get_elem?-in [] i h = absurd (omega arith)
get_elem?-in (x ∷ xs) zero h = (x, refl)
get_elem?-in (x ∷ xs) (suc i) h = get_elem?-in xs i (omega arith)

not_lost : (head : ESetNode) (b : EcBlock) → lost (recover_block head b) ≡ false
unfolding recover_block
not_lost head b = ground arith

recover_one :
    (failed : FailedESets) (head : ESetNode) (blocks : List EcBlock) (total : ℕ)
    → failed.failed_nodes_num ≡ 1
    → failed.failed_idx < length blocks
    → (blocks' : List EcBlock) × (total' : ℕ) × (recover_rows failed head failed.failed_nodes_num 0
          blocks total
        ≡ some (blocks', total'))
      × (length blocks' ≡ length blocks)
      × IsHealed blocks' failed.failed_idx
unfolding recover_rows failed_idx_at
recover_one failed head blocks total one h =
    let (b, at) = get_elem?-in blocks failed.failed_idx h in
    (
      set blocks failed.failed_idx (recover_block head b),
      total + recovered_size b,
      rw (one, recover_rows) (rw at refl),
      length-set blocks failed.failed_idx (recover_block head b),
      (
        recover_block head b,
        get_elem?-set_self blocks failed.failed_idx (recover_block head b) h,
        not_lost head b,
      ),
    )

row-of :
    (groups : ℕ → EcBlockGroup) (row id g : ℕ) (chain : List BlockGroupMapping)
    → HasRow groups row chain
    → (mark_mapping id chain).1 ≡ some g
    → row < length (groups g).blocks
row-of groups row id g [] h e = absurd (mark-none id g e)
row-of groups row id g (m ∷ ms) h e = elim (mark-cases id g m ms e) [
  | inl same ↦ subst (λ p. row < length (groups p).blocks) same h.0
  | inr later ↦ row-of groups row id g ms h.2 later
]

set_blocks-at :
    (groups : ℕ → EcBlockGroup) (g : ℕ) (blocks : List EcBlock)
    → (set_blocks groups g blocks g).blocks ≡ blocks
unfolding set_blocks
set_blocks-at groups g blocks = rw (eq→== g g refl) refl

set_blocks-other :
    (groups : ℕ → EcBlockGroup) (g : ℕ) (blocks : List EcBlock) (p : ℕ)
    → p ≢ g
    → set_blocks groups g blocks p ≡ groups p
unfolding set_blocks
set_blocks-other groups g blocks p ne = rw (ne→not_eq p g ne) refl

-- The block group of the report is marked, and its failed block is recovered.
pub mark_recovered-InRecovery :
    (st : RecoveryState) (eset row : ℕ) (entry : RecoveringESets) (chain : List BlockGroupMapping)
    (m : BlockGroupMapping)
    → InRecovery st eset row entry chain
    → first_unrecovered chain ≡ some m
    → (st' : RecoveryState) × (mark_recovered st entry m.block_id ≡ some st')
      × InRecovery st' eset row entry (mark_mapping m.block_id chain).0
unfolding mark_recovered recover_found set_group_map
mark_recovered-InRecovery st eset row entry chain m v first =
    let (marked, left) = mark-first m chain v.ids first in
    let (blocks, total, recovered, sized, healed) =
      recover_one entry.failed v.head (st.block_groups m.block_group).blocks st.total_recovered_size
        v.one_failed
        (subst (λ r. r < length (st.block_groups m.block_group).blocks) (sym v.in_row)
          (row-of st.block_groups row m.block_id m.block_group chain v.rows marked)) in
    (
      record st {
        placement_mgr = set_group_map st.placement_mgr eset (mark_mapping m.block_id chain).0;
        total_recovered_size = total;
        block_groups = set_blocks st.block_groups m.block_group blocks;
      },
      ap
            (λ idx.
              recover_found st entry idx
                (mark_mapping m.block_id (st.placement_mgr.block_group_map idx)).0
                (mark_mapping m.block_id (st.placement_mgr.block_group_map idx)).1)
            v.of_set
          ∙ ap
              (λ c.
                recover_found st entry eset (mark_mapping m.block_id c).0
                  (mark_mapping m.block_id c).1)
              v.chain_at
          ∙ ap (recover_found st entry eset (mark_mapping m.block_id chain).0) marked
          ∙ rw (v.head_first, recovered) refl,
      record {
        found = v.found;
        of_set = v.of_set;
        chain_at = rw (eq→== eset eset refl) refl;
        one_failed = v.one_failed;
        head = v.head;
        head_first = v.head_first;
        ids = HasIds-mark m.block_id chain v.ids;
        in_row = v.in_row;
        rows =
            HasRow-mark st.block_groups (set_blocks st.block_groups m.block_group blocks) row
              m.block_group m.block_id chain
              (subst (λ bs. IsHealed bs row)
                (sym (set_blocks-at st.block_groups m.block_group blocks))
                (subst (IsHealed blocks) v.in_row healed))
              (ap length (set_blocks-at st.block_groups m.block_group blocks) ∙ sized)
              (set_blocks-other st.block_groups m.block_group blocks) marked v.rows;
      },
    )
