-- ===== src/Recovery/Tests.antt =====
-- A failed server of row 1 and column 0, in group 1, with the overlapping factor 2.
use native.Mathlib.Omega.{arith}
use eset_store.Base.{ℕ, ◌+◌, ◌*◌, ◌≡◌, refl, inl, inr, [], ◌∷◌, map, ◌==◌, if◌then◌else◌}
use eset_store.Placement.ESet.{ESets, node_col}
use eset_store.Placement.Manager.{ServerPlace, PlacementManager, EcBlock, EcBlockGroup, no_eset}
use eset_store.Recovery.Failed.{choose_failed_esets}
use eset_store.Recovery.Lost.{InChains}
use eset_store.Recovery.Selected.{queued, choose_failed_esets-exact}

abbrev failed_server : ServerPlace
failed_server = record { group_id = 1; group_row_id = 1; group_col_id = 0 }

abbrev healthy : ℕ → ESets
healthy i = record no_eset { eset_id = i }

-- the last one found comes first
choose_failed_esets_run :
    map (λ f. f.eset_idx) (choose_failed_esets failed_server 2 healthy).1 ≡ 6 ∷ 4 ∷ []
unfolding choose_failed_esets
choose_failed_esets_run = refl

choose_failed_esets-exact_example :
    queued (choose_failed_esets failed_server 2 healthy).1 (1 * (2 * 2) + 2) ≡ (node_col 2 2 1 == 0)
choose_failed_esets-exact_example =
    choose_failed_esets-exact failed_server 2 2 healthy (omega arith)

abbrev block : ℕ → EcBlock
block id = record {
  block_id = id;
  server_id = 0;
  rack_id = 0;
  missing_flag = 0;
  recovered_flag = 1;
  block_size = 0;
}

abbrev stored : ℕ → EcBlockGroup
stored p = record {
  block_group_id = p;
  block_group_size = 0;
  blocks = block 0 ∷ block 1 ∷ [];
  set_idx = 0;
}

-- Set 4, which is one of those of the failed server, has the block group at 9.
abbrev filed : PlacementManager
filed = record {
  groups = λ g. record {
    group_nodes = λ r c. record { rack_id = r; server_id_in_rack = c };
    row_size = 2;
    col_size = 2;
  };
  group_size = 2;
  esets = healthy;
  esets_size = 8;
  block_group_map = λ i.
      if i == 4 then record { block_id = 64; block_group = 9; recovered_flag = 0 } ∷ [] else [];
  place_idx = 0;
}

-- The block group at 9 is one of them.
filed_at_run :
    InChains filed.block_group_map (λ i. i) (choose_failed_esets failed_server 2 healthy).1 9
unfolding choose_failed_esets
filed_at_run = inr (inl (inl refl))
