-- ===== src/Recovery/Pending.antt =====
-- addPendingRecoveryESets of ECMeta/ECRecoveryManagement.c with the list functions that it calls.
-- The lists are held by their values.
use eset_store.Base.{ℕ, Option, none, some, List, [], ◌∷◌, ◌==◌, if◌then◌else◌, ◌>>=◌}
use eset_store.Placement.ESet.{ESets}
use eset_store.Recovery.Failed.{FailedESets}
use eset_store.Recovery.Rounds.{RecoveringESets}

-- The sets and the two lists of the manager.
pub record PendingState : Type 0 where
  pub esets : ℕ → ESets
  pub pending_recover_esets_lists : List FailedESets
  pub recovering_esets_lists : List RecoveringESets

unfoldable pub failed_id : (ℕ → ESets) → FailedESets → ℕ
failed_id esets f = (esets f.eset_idx).eset_id

unfoldable pub get_esets_in_pending_list : (ℕ → ESets) → ℕ → List FailedESets → Option FailedESets
unfolding failed_id
get_esets_in_pending_list esets id [] = none
get_esets_in_pending_list esets id (p ∷ ps) =
    if failed_id esets p == id then some p else get_esets_in_pending_list esets id ps

unfoldable pub get_esets_in_recoverying_list :
    (ℕ → ESets) → ℕ → List RecoveringESets → Option RecoveringESets
unfolding failed_id
get_esets_in_recoverying_list esets id [] = none
get_esets_in_recoverying_list esets id (e ∷ es) =
    if failed_id esets e.failed == id then some e else get_esets_in_recoverying_list esets id es

-- Only the first entry is looked at; `none`: there is none.
unfoldable pub delete_esets_list_in_pending_list :
    (ℕ → ESets) → ℕ → List FailedESets → Option (List FailedESets)
unfolding failed_id
delete_esets_list_in_pending_list esets id [] = none
delete_esets_list_in_pending_list esets id (p ∷ ps) =
    some (if failed_id esets p == id then ps else p ∷ ps)

-- The set of an entry in recovery is marked to be done again.
unfoldable pub redo_recover : (ℕ → ESets) → Option RecoveringESets → ℕ → ESets
redo_recover esets none = esets
redo_recover esets (some e) = λ i.
    if i == e.failed.eset_idx
    then record (esets e.failed.eset_idx) { redo_recover = 1 }
    else esets i

-- What is pending once an entry of this set that is found there was to be deleted.
unfoldable pub without_old :
    (ℕ → ESets) → ℕ → List FailedESets → Option FailedESets → Option (List FailedESets)
unfolding delete_esets_list_in_pending_list
without_old esets id pending none = some pending
without_old esets id pending (some old) = delete_esets_list_in_pending_list esets id pending

unfoldable pub add_pending_one : PendingState → FailedESets → Option PendingState
unfolding get_esets_in_pending_list without_old redo_recover get_esets_in_recoverying_list
add_pending_one st f =
    let id = failed_id st.esets f in
    without_old st.esets id st.pending_recover_esets_lists
      (get_esets_in_pending_list st.esets id st.pending_recover_esets_lists)
    >>= λ pending. some (record st {
      esets =
          redo_recover st.esets
            (get_esets_in_recoverying_list st.esets id st.recovering_esets_lists);
      pending_recover_esets_lists = f ∷ pending;
    })

-- The loop over the sets of one failed server, whose list is empty afterwards.
unfoldable pub add_pending_server : PendingState → List FailedESets → Option PendingState
unfolding add_pending_one
add_pending_server st [] = some st
add_pending_server st (f ∷ fs) = add_pending_one st f >>= λ st'. add_pending_server st' fs

-- The loop over the lists of the failed servers.
unfoldable pub add_pending_recovery_esets :
    PendingState → List (List FailedESets) → Option PendingState
unfolding add_pending_server
add_pending_recovery_esets st [] = some st
add_pending_recovery_esets st (fs ∷ servers) =
    add_pending_server st fs >>= λ st'. add_pending_recovery_esets st' servers
