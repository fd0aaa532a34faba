-- ===== src/Recovery/OneFailure.antt =====
-- selectRecoveryNodes of Recovery/Nodes.antt after the failure of one node of a set of createESets.
use eset_store.Base.{
  ℕ, zero, suc, ◌+◌, ◌≤◌, ◌<◌, ◌≡◌, refl, ap, ◌∙◌, arith, none, List, [], ◌∷◌, length, tabulate,
  length-tabulate, some,
}
use eset_store.Placement.ESet.{PlacementGroup, ESetNode, ESets, eset_node, create_eset}
use eset_store.Recovery.Failed.{set_failed_flag}
use eset_store.Recovery.Nodes.{out_of_use, sort_selected_nodes, select_recovery_nodes}
use eset_store.Recovery.Alive.{
  HasRowsFrom, IsCreated, alive, select_recovery_nodes-alive, select_recovery_nodes_overrun,
}

tabulate-HasRowsFrom :
    (group : PlacementGroup) (set n i : ℕ) → HasRowsFrom i (tabulate n i (eset_node group set))
unfolding eset_node
tabulate-HasRowsFrom group set zero i = tt
tabulate-HasRowsFrom group set (suc n) i = (refl, tabulate-HasRowsFrom group set n (i + 1))

set_failed_flag-HasRowsFrom :
    (i row : ℕ) (ns : List ESetNode) → HasRowsFrom i ns → HasRowsFrom i (set_failed_flag ns row)
unfolding set_failed_flag
set_failed_flag-HasRowsFrom i row [] h = tt
set_failed_flag-HasRowsFrom i zero (n ∷ ns) h = h
set_failed_flag-HasRowsFrom i (suc row) (n ∷ ns) h =
    (h.0, set_failed_flag-HasRowsFrom (i + 1) row ns h.1)

length-set_failed_flag :
    (row : ℕ) (ns : List ESetNode) → length (set_failed_flag ns row) ≡ length ns
unfolding set_failed_flag
length-set_failed_flag row [] = refl
length-set_failed_flag zero (n ∷ ns) = refl
length-set_failed_flag (suc row) (n ∷ ns) = ap suc (length-set_failed_flag row ns)

-- All nodes are in use.
abbrev AreAlive : List ESetNode → Type 0
AreAlive [] = Unit {0}
AreAlive (n ∷ ns) = (n.failed_flag ≡ 0) × (n.recovered_flag ≡ 0) × AreAlive ns

alive_all : (ns : List ESetNode) → AreAlive ns → length (alive ns) ≡ length ns
unfolding out_of_use
alive_all [] h = refl
alive_all (n ∷ ns) h = rw h.0 (ap suc (alive_all ns h.2))

alive_but_one :
    (row : ℕ) (ns : List ESetNode)
    → AreAlive ns
    → row < length ns
    → length (alive (set_failed_flag ns row)) + 1 ≡ length ns
unfolding set_failed_flag out_of_use
alive_but_one row [] h lt = absurd (omega arith)
alive_but_one zero (n ∷ ns) h lt = rw h.1 (omega (arith, alive_all ns h.2))
alive_but_one (suc row) (n ∷ ns) h lt =
    rw h.0 (omega (arith, alive_but_one row ns h.2 (omega (arith, lt))))

tabulate-AreAlive :
    (group : PlacementGroup) (set n i : ℕ) → AreAlive (tabulate n i (eset_node group set))
unfolding eset_node
tabulate-AreAlive group set zero i = tt
tabulate-AreAlive group set (suc n) i = (refl, refl, tabulate-AreAlive group set n (i + 1))

-- The set after the failure of its node in this row.
abbrev pub with_failure : ESets → ℕ → ESets
with_failure esets row = record esets { set_nodes = set_failed_flag esets.set_nodes row }

with_failure-IsCreated :
    (group : PlacementGroup) (start set row : ℕ)
    → IsCreated (with_failure (create_eset group start set) row)
unfolding create_eset
with_failure-IsCreated group start set row = record {
  rows =
      set_failed_flag-HasRowsFrom 0 row (tabulate group.row_size 0 (eset_node group set))
        (tabulate-HasRowsFrom group set group.row_size 0);
  sized =
      length-set_failed_flag row (tabulate group.row_size 0 (eset_node group set))
      ∙ length-tabulate group.row_size 0 (eset_node group set);
}

with_failure-alive :
    (group : PlacementGroup) (start set row : ℕ)
    → row < group.row_size
    → length (alive (with_failure (create_eset group start set) row).set_nodes) + 1 ≡ group.row_size
unfolding create_eset
with_failure-alive group start set row h =
    alive_but_one row (tabulate group.row_size 0 (eset_node group set))
      (tabulate-AreAlive group set group.row_size 0)
      (omega (arith, h, length-tabulate group.row_size 0 (eset_node group set)))
    ∙ length-tabulate group.row_size 0 (eset_node group set)

-- After one failure in a set as createESets makes it, with one node more than stripeK,
-- selectRecoveryNodes takes exactly the other nodes and sorts them.
pub select_recovery_nodes-one_failure :
    (group : PlacementGroup) (start set row k : ℕ)
    → row < group.row_size
    → k + 1 ≡ group.row_size
    → select_recovery_nodes (with_failure (create_eset group start set) row) k
      ≡ some (
          some (
            sort_selected_nodes (alive (with_failure (create_eset group start set) row).set_nodes)))
select_recovery_nodes-one_failure group start set row k h e =
    select_recovery_nodes-alive (with_failure (create_eset group start set) row) k
      (with_failure-IsCreated group start set row)
      (omega (arith, e, with_failure-alive group start set row h))

-- After one failure in a set as createESets makes it, with two nodes more than stripeK or even more,
-- selectRecoveryNodes writes behind its array.
pub select_recovery_nodes_overrun_at_one_failure :
    (group : PlacementGroup) (start set row k : ℕ)
    → row < group.row_size
    → k + 2 ≤ group.row_size
    → select_recovery_nodes (with_failure (create_eset group start set) row) k ≡ none
select_recovery_nodes_overrun_at_one_failure group start set row k h two =
    select_recovery_nodes_overrun (with_failure (create_eset group start set) row) k
      (with_failure-IsCreated group start set row)
      (omega (arith, two, with_failure-alive group start set row h))
