-- ===== src/Recovery/PendingTests.antt =====
-- Sets 4 and 5 of one failed server and set 5 of another are added; set 4 is pending already.
use eset_store.Base.{ℕ, ◌≡◌, some, List, [], ◌∷◌, ◌||◌}
use eset_store.Placement.Manager.{no_eset}
use eset_store.Recovery.Failed.{FailedESets}
use eset_store.Recovery.Pending.{PendingState, add_pending_recovery_esets}
use eset_store.Recovery.Queued.{is_in, is_in_any, add_pending_recovery_esets-pending}

abbrev failed : ℕ → FailedESets
failed idx = record { eset_idx = idx; failed_idx = 0; failed_nodes_num = 1 }

abbrev state : PendingState
state = record {
  esets = λ i. record no_eset { eset_id = i };
  pending_recover_esets_lists = failed 9 ∷ failed 4 ∷ [];
  recovering_esets_lists = [];
}

abbrev failed_servers : List (List FailedESets)
failed_servers = (failed 5 ∷ failed 4 ∷ []) ∷ [] ∷ (failed 5 ∷ []) ∷ []

add_pending_recovery_esets-pending_example :
    (st' : PendingState) × (add_pending_recovery_esets state failed_servers ≡ some st')
    × ((id : ℕ)
        → is_in st'.esets id st'.pending_recover_esets_lists ≡ (
            is_in state.esets id state.pending_recover_esets_lists
            || is_in_any state.esets id failed_servers))
add_pending_recovery_esets-pending_example = add_pending_recovery_esets-pending state failed_servers
