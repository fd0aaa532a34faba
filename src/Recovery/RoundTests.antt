-- ===== src/Recovery/RoundTests.antt =====
-- The recovery of set 7 after the failure of the node in row 1: one of its three block groups is
-- recovered already.
use native.Mathlib.Omega.{arith}
use eset_store.Base.{ℕ, ◌≡◌, refl, Option, none, some, List, [], ◌∷◌, ◌==◌, if◌then◌else◌, inl, inr}
use eset_store.Placement.ESet.{ESetNode}
use eset_store.Placement.Manager.{
  BlockGroupMapping, PlacementManager, ServerPlace, EcBlock, EcBlockGroup, no_eset,
}
use eset_store.Recovery.Rounds.{
  RecoveringESets, RecoveryState, RecoveryCmd, recover_block_group, find_recovering, recover_eset,
}
use eset_store.Recovery.Round.{InRecovery}
use eset_store.Recovery.Ends.{IsOverAfter, recovery_ends}

abbrev a_block : ℕ → ℕ → EcBlock
a_block missing recovered = record {
  block_id = 0;
  server_id = 3;
  rack_id = 3;
  missing_flag = missing;
  recovered_flag = recovered;
  block_size = 100;
}

-- The block of row 1 is missing, and recovered in block group 256 only.
abbrev group_at : ℕ → EcBlockGroup
group_at g = record {
  block_group_id = g;
  block_group_size = 0;
  blocks = a_block 0 0 ∷ (if g == 256 then a_block 1 1 else a_block 1 0) ∷ [];
  set_idx = 7;
}

abbrev mapping : ℕ → ℕ → BlockGroupMapping
mapping g flag = record { block_id = g; block_group = g; recovered_flag = flag }

abbrev chain : List BlockGroupMapping
chain = mapping 768 0 ∷ mapping 256 1 ∷ mapping 512 0 ∷ []

abbrev placement : PlacementManager
placement = record {
  groups = λ g. record {
    group_nodes = λ r c. record { rack_id = 0; server_id_in_rack = 0 };
    row_size = 0;
    col_size = 0;
  };
  group_size = 1;
  esets = λ i. record no_eset { eset_id = i };
  esets_size = 9;
  block_group_map = λ i. if i == 7 then chain else [];
  place_idx = 1;
}

abbrev head_node : ESetNode
head_node = record {
  rack_id = 5;
  server_id_in_rack = 6;
  row = 0;
  col = 0;
  failed_flag = 0;
  recovered_flag = 0;
}

abbrev entry : RecoveringESets
entry = record {
  failed = record { eset_idx = 7; failed_idx = 1; failed_nodes_num = 1 };
  block_gp_mapping = none;
  eset_nodes = head_node ∷ [];
}

abbrev state : RecoveryState
state = record {
  recovering_esets_lists = entry ∷ [];
  total_recovered_size = 0;
  placement_mgr = placement;
  block_groups = group_at;
}

state-InRecovery : InRecovery state 7 1 entry chain
unfolding find_recovering
state-InRecovery = record {
  found = refl;
  of_set = refl;
  chain_at = refl;
  one_failed = refl;
  head = head_node;
  head_first = refl;
  in_row = refl;
  ids = (
    (λ e. omega (arith, e)),
    ((λ e. omega (arith, e)), ((λ e. omega (arith, e)), tt)),
    ((λ e. omega (arith, e)), ((λ e. omega (arith, e)), tt), ((λ e. omega (arith, e)), tt, tt)),
  );
  rows = (
    omega arith,
    inl (λ e. omega (arith, e)),
    (omega arith, inr (a_block 1 1, refl, refl), (omega arith, inl (λ e. omega (arith, e)), tt)),
  );
}

recovery_ends_example :
    (cmd : RecoveryCmd) × (st1 : RecoveryState) × (recover_eset state 7 0 ≡ some (some cmd, st1))
    × IsOverAfter 2 st1 7 1 cmd chain
recovery_ends_example = recovery_ends state 7 1 entry chain state-InRecovery

abbrev sent : Option (Option RecoveryCmd × RecoveryState) → Option RecoveryCmd
sent none = none
sent (some (cmd, st)) = cmd

sent_run : sent (recover_eset state 7 0) ≡ some (recover_block_group (mapping 768 0))
unfolding recover_eset
sent_run = refl

abbrev failed_server : ServerPlace
failed_server = record { group_id = 0; group_row_id = 1; group_col_id = 0 }
