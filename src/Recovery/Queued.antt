-- ===== src/Recovery/Queued.antt =====
-- Which sets are pending after addPendingRecoveryESets of Recovery/Pending.antt.
use native.Mathlib.Decide.{ℕ_discrete}
use eset_store.Base.{
  ℕ, ◌≡◌, refl, ap, sym, ◌∙◌, Bool, true, false, ◌||◌, Option, none, some, List, [], ◌∷◌, ◌==◌,
  eq→==, ne→not_eq,
}
use eset_store.Placement.ESet.{ESets}
use eset_store.Recovery.Failed.{FailedESets}
use eset_store.Recovery.Rounds.{RecoveringESets}
use eset_store.Recovery.Pending.{
  PendingState, failed_id, get_esets_in_pending_list, get_esets_in_recoverying_list,
  delete_esets_list_in_pending_list, redo_recover, without_old, add_pending_one, add_pending_server,
  add_pending_recovery_esets,
}

-- Is a set of this id in the list?
abbrev pub is_in : (ℕ → ESets) → ℕ → List FailedESets → Bool
is_in esets id [] = false
is_in esets id (f ∷ fs) = (failed_id esets f == id) || is_in esets id fs

abbrev pub is_in_any : (ℕ → ESets) → ℕ → List (List FailedESets) → Bool
is_in_any esets id [] = false
is_in_any esets id (fs ∷ servers) = is_in esets id fs || is_in_any esets id servers

-- The sets keep their ids.
abbrev SameIds : (ℕ → ESets) → (ℕ → ESets) → Type 0
SameIds esets esets' = (i : ℕ) → (esets' i).eset_id ≡ (esets i).eset_id

redo_recover-SameIds :
    (esets : ℕ → ESets) (found : Option RecoveringESets) → SameIds esets (redo_recover esets found)
unfolding redo_recover
redo_recover-SameIds esets none i = refl
redo_recover-SameIds esets (some e) i = elim (ℕ_discrete i e.failed.eset_idx) [
  | yes q ↦ rw (eq→== i e.failed.eset_idx q) (ap (λ j. (esets j).eset_id) (sym q))
  | no ne ↦ rw (ne→not_eq i e.failed.eset_idx ne) refl
]

is_in-SameIds :
    (esets esets' : ℕ → ESets) (id : ℕ) (fs : List FailedESets)
    → SameIds esets esets'
    → is_in esets' id fs ≡ is_in esets id fs
unfolding failed_id
is_in-SameIds esets esets' id [] same = refl
is_in-SameIds esets esets' id (f ∷ fs) same =
    rw (same f.eset_idx, is_in-SameIds esets esets' id fs same) refl

is_in_any-SameIds :
    (esets esets' : ℕ → ESets) (id : ℕ) (servers : List (List FailedESets))
    → SameIds esets esets'
    → is_in_any esets' id servers ≡ is_in_any esets id servers
is_in_any-SameIds esets esets' id [] same = refl
is_in_any-SameIds esets esets' id (fs ∷ servers) same =
    rw (is_in-SameIds esets esets' id fs same, is_in_any-SameIds esets esets' id servers same) refl

or_false : (x : Bool) → (x || false) ≡ x
or_false true = refl
or_false false = refl

or_assoc : (x y z : Bool) → ((x || y) || z) ≡ (x || (y || z))
or_assoc true y z = refl
or_assoc false y z = refl

or_move : (x y z : Bool) → ((x || y) || z) ≡ (y || (x || z))
or_move true true z = refl
or_move true false z = refl
or_move false y z = refl

-- What stands at the front of the list twice is in it as what stands there once.
twice : (x y b : Bool) → x ≡ y → (x || b) ≡ (x || (y || b))
twice true y b q = refl
twice false y b q = ap (λ z. z || b) q

-- An entry in front with another id stays, whatever is found behind it.
other_stays :
    (esets : ℕ → ESets) (id : ℕ) (p : FailedESets) (ps : List FailedESets)
    (found : Option FailedESets)
    → (failed_id esets p == id) ≡ false
    → without_old esets id (p ∷ ps) found ≡ some (p ∷ ps)
unfolding without_old delete_esets_list_in_pending_list
other_stays esets id p ps none q = refl
other_stays esets id p ps (some old) q = rw (q) refl

-- Whether or not an old entry goes, the list with the new entry has the sets that it had and that of
-- the entry.
old_goes :
    (esets : ℕ → ESets) (f : FailedESets) (pending : List FailedESets)
    → (rest : List FailedESets) × (without_old esets
          (failed_id esets f)
          pending
          (get_esets_in_pending_list esets (failed_id esets f) pending)
        ≡ some rest)
      × ((id : ℕ) → is_in esets id (f ∷ rest) ≡ is_in esets id (f ∷ pending))
unfolding without_old get_esets_in_pending_list delete_esets_list_in_pending_list
old_goes esets f [] = ([], refl, λ id. refl)
old_goes esets f (p ∷ ps) = elim (ℕ_discrete (failed_id esets p) (failed_id esets f)) [
  | yes q ↦ (
    ps,
    rw
        (
          eq→== (failed_id esets p) (failed_id esets f) q,
          eq→== (failed_id esets p) (failed_id esets f) q,
        )
        refl,
    λ id.
        twice (failed_id esets f == id) (failed_id esets p == id) (is_in esets id ps)
          (ap (λ n. n == id) (sym q)),
  )
  | no ne ↦ (
    p ∷ ps,
    other_stays esets (failed_id esets f) p ps
        (get_esets_in_pending_list esets (failed_id esets f) (p ∷ ps))
        (ne→not_eq (failed_id esets p) (failed_id esets f) ne),
    λ id. refl,
  )
]

-- One set: it is pending afterwards, and of the others those that were.
one_pending :
    (st : PendingState) (f : FailedESets)
    → (st' : PendingState) × (add_pending_one st f ≡ some st')
      × SameIds st.esets st'.esets
      × ((id : ℕ)
          → is_in st.esets id st'.pending_recover_esets_lists
            ≡ is_in st.esets id (f ∷ st.pending_recover_esets_lists))
unfolding add_pending_one
one_pending st f =
    let old = old_goes st.esets f st.pending_recover_esets_lists in
    let found =
      get_esets_in_recoverying_list st.esets (failed_id st.esets f) st.recovering_esets_lists in
    (
      record st { esets = redo_recover st.esets found; pending_recover_esets_lists = f ∷ old.0 },
      rw (old.1) refl,
      redo_recover-SameIds st.esets found,
      old.2,
    )

-- The sets of one server: afterwards the sets are pending that were and those of the server.
server_pending :
    (st : PendingState) (fs : List FailedESets)
    → (st' : PendingState) × (add_pending_server st fs ≡ some st')
      × SameIds st.esets st'.esets
      × ((id : ℕ)
          → is_in st.esets id st'.pending_recover_esets_lists
            ≡ (is_in st.esets id st.pending_recover_esets_lists || is_in st.esets id fs))
unfolding add_pending_server
server_pending st [] =
    (st, refl, λ i. refl, λ id. sym (or_false (is_in st.esets id st.pending_recover_esets_lists)))
server_pending st (f ∷ fs) =
    let one = one_pending st f in
    let ih = server_pending one.0 fs in
    let moved : (id : ℕ)
        → (is_in one.0.esets id one.0.pending_recover_esets_lists || is_in one.0.esets id fs)
          ≡ (is_in st.esets id st.pending_recover_esets_lists || is_in st.esets id (f ∷ fs)) =
      λ id.
        rw
          (
            is_in-SameIds st.esets one.0.esets id one.0.pending_recover_esets_lists one.2,
            is_in-SameIds st.esets one.0.esets id fs one.2,
            one.3 id,
          )
          (or_move (failed_id st.esets f == id) (is_in st.esets id st.pending_recover_esets_lists)
            (is_in st.esets id fs)) in
    (
      ih.0,
      rw (one.1, ih.1) refl,
      λ i. ih.2 i ∙ one.2 i,
      λ id.
          sym (is_in-SameIds st.esets one.0.esets id ih.0.pending_recover_esets_lists one.2)
          ∙ ih.3 id
          ∙ moved id,
    )

all_pending :
    (st : PendingState) (servers : List (List FailedESets))
    → (st' : PendingState) × (add_pending_recovery_esets st servers ≡ some st')
      × SameIds st.esets st'.esets
      × ((id : ℕ)
          → is_in st.esets id st'.pending_recover_esets_lists
            ≡ (is_in st.esets id st.pending_recover_esets_lists || is_in_any st.esets id servers))
unfolding add_pending_recovery_esets
all_pending st [] =
    (st, refl, λ i. refl, λ id. sym (or_false (is_in st.esets id st.pending_recover_esets_lists)))
all_pending st (fs ∷ servers) =
    let one = server_pending st fs in
    let ih = all_pending one.0 servers in
    let moved : (id : ℕ)
        → (is_in one.0.esets id one.0.pending_recover_esets_lists
            || is_in_any one.0.esets id servers)
          ≡ (is_in st.esets id st.pending_recover_esets_lists
              || is_in_any st.esets id (fs ∷ servers)) =
      λ id.
        rw
          (
            is_in-SameIds st.esets one.0.esets id one.0.pending_recover_esets_lists one.2,
            is_in_any-SameIds st.esets one.0.esets id servers one.2,
            one.3 id,
          )
          (or_assoc (is_in st.esets id st.pending_recover_esets_lists) (is_in st.esets id fs)
            (is_in_any st.esets id servers)) in
    (
      ih.0,
      rw (one.1, ih.1) refl,
      λ i. ih.2 i ∙ one.2 i,
      λ id.
          sym (is_in-SameIds st.esets one.0.esets id ih.0.pending_recover_esets_lists one.2)
          ∙ ih.3 id
          ∙ moved id,
    )

-- addPendingRecoveryESets returns a state: a set id is in its pending list exactly if it was in the
-- pending list before or is in the list of one of the failed servers.
pub add_pending_recovery_esets-pending :
    (st : PendingState) (servers : List (List FailedESets))
    → (st' : PendingState) × (add_pending_recovery_esets st servers ≡ some st')
      × ((id : ℕ)
          → is_in st'.esets id st'.pending_recover_esets_lists
            ≡ (is_in st.esets id st.pending_recover_esets_lists || is_in_any st.esets id servers))
add_pending_recovery_esets-pending st servers =
    let all = all_pending st servers in
    (
      all.0,
      all.1,
      λ id.
          is_in-SameIds st.esets all.0.esets id all.0.pending_recover_esets_lists all.2 ∙ all.3 id,
    )
