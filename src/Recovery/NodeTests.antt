-- ===== src/Recovery/NodeTests.antt =====
-- A set of three nodes, one of which has failed.
use native.Mathlib.Omega.{arith}
use eset_store.Base.{ℕ, ◌≡◌, refl, Bool, none, some, List, [], ◌∷◌, ◌==◌}
use eset_store.Placement.ESet.{PlacementGroup, ESetNode, create_eset}
use eset_store.Recovery.Nodes.{sort_selected_nodes, select_recovery_nodes}
use eset_store.Recovery.Sorted.{IsSorted, count, sort_selected_nodes-sorts}
use eset_store.Recovery.Alive.{alive}
use eset_store.Recovery.OneFailure.{
  with_failure, select_recovery_nodes-one_failure, select_recovery_nodes_overrun_at_one_failure,
}

abbrev in_row : ℕ → ESetNode
in_row r = record {
  rack_id = r;
  server_id_in_rack = 4;
  row = r;
  col = 0;
  failed_flag = 0;
  recovered_flag = 0;
}

abbrev unsorted : List ESetNode
unsorted = in_row 3 ∷ in_row 1 ∷ in_row 2 ∷ in_row 1 ∷ []

sort_selected_nodes_run :
    sort_selected_nodes unsorted ≡ in_row 1 ∷ in_row 1 ∷ in_row 2 ∷ in_row 3 ∷ []
unfolding sort_selected_nodes
sort_selected_nodes_run = refl

abbrev in_rack_one : ESetNode → Bool
in_rack_one node = node.rack_id == 1

sort_selected_nodes-sorts_example :
    IsSorted (sort_selected_nodes unsorted) × (count in_rack_one (sort_selected_nodes unsorted) ≡ 2)
sort_selected_nodes-sorts_example = sort_selected_nodes-sorts in_rack_one unsorted

abbrev group : PlacementGroup
group = record {
  group_nodes = λ r c. record { rack_id = r; server_id_in_rack = c };
  row_size = 3;
  col_size = 2;
}

select_recovery_nodes-one_failure_example :
    select_recovery_nodes (with_failure (create_eset group 0 1) 0) 2
    ≡ some (some (sort_selected_nodes (alive (with_failure (create_eset group 0 1) 0).set_nodes)))
select_recovery_nodes-one_failure_example =
    select_recovery_nodes-one_failure group 0 1 0 2 (omega arith) refl

select_recovery_nodes_overrun_at_one_failure_example :
    select_recovery_nodes (with_failure (create_eset group 0 1) 0) 1 ≡ none
select_recovery_nodes_overrun_at_one_failure_example =
    select_recovery_nodes_overrun_at_one_failure group 0 1 0 1 (omega arith) (omega arith)
