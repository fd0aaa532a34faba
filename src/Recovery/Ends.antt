-- ===== src/Recovery/Ends.antt =====
-- The reports of a head node one after the other (Recovery/Rounds.antt), up to the end of the
-- recovery of a set.
use eset_store.Base.{
  ℕ, zero, suc, ◌≡◌, refl, ap, sym, subst, ◌∙◌, arith, inl, inr, Bool, true, false, Option, none,
  some, List, [], ◌∷◌, ◌==◌, if◌then◌else◌, ◌>>=◌, eq→==, ne→not_eq, map, Bool-cases,
}
use eset_store.Placement.Manager.{BlockGroupMapping, EcBlockGroup}
use eset_store.Recovery.Rounds.{
  RecoveringESets, RecoveryState, RecoveryCmd, recovery_over, recover_block_group,
  first_unrecovered, mark_mapping, mark_recovered, recovered_mapping, recovered_block,
  recover_entry, recover_eset,
}
use eset_store.Recovery.Waits.{HasRow, IsHealed, unrecovered, mark-first, first-nonzero}
use eset_store.Recovery.Round.{InRecovery, mark_recovered-InRecovery}
use eset_store.Recovery.Ask.{next_cmd, Holds, with_mapping, ask}

-- Every block group of the chain is marked, and its block in this row is recovered.
abbrev pub AreRecovered : (ℕ → EcBlockGroup) → ℕ → List BlockGroupMapping → Type 0
AreRecovered groups row [] = Unit {0}
AreRecovered groups row (m ∷ ms) =
    (m.recovered_flag ≡ 1) × IsHealed (groups m.block_group).blocks row × AreRecovered groups row ms

left-none :
    (b : Bool) (o : Option BlockGroupMapping) (m : BlockGroupMapping)
    → (if b then o else some m) ≡ none
    → (b ≡ true) × (o ≡ none)
left-none true o m e = (refl, e)
left-none false o m e = grind (arith, e)

none_left :
    (groups : ℕ → EcBlockGroup) (row : ℕ) (chain : List BlockGroupMapping)
    → first_unrecovered chain ≡ none
    → HasRow groups row chain
    → AreRecovered groups row chain
unfolding first_unrecovered
none_left groups row [] e h = tt
none_left groups row (m ∷ ms) e h =
    let (flag, rest) = left-none (m.recovered_flag == 1) (first_unrecovered ms) m e in
    elim h.1 [
      | inl ne ↦ absurd (ne (ground (arith, flag)))
      | inr healed ↦ (ground (arith, flag), healed, none_left groups row ms rest h.2)
    ]

-- The head node recovers each block group that it is sent, and reports it.
unfoldable pub rounds : ℕ → RecoveryState → ℕ → RecoveryCmd → Option (RecoveryCmd × RecoveryState)
unfolding recover_eset
rounds zero st eset cmd = some (cmd, st)
rounds (suc n) st eset recovery_over = some (recovery_over, st)
rounds (suc n) st eset (recover_block_group m) =
    recover_eset st eset m.block_id >>= λ (answer, st'). elim answer [
      | none ↦ none
      | some cmd ↦ rounds n st' eset cmd
    ]

abbrev pub groups_of : List BlockGroupMapping → List ℕ
groups_of chain = map (λ m. m.block_group) chain

reported :
    (st : RecoveryState) (entry : RecoveringESets) (m : BlockGroupMapping)
    → entry.block_gp_mapping ≡ some m
    → recovered_block st entry m.block_id ≡ mark_recovered st entry m.block_id
unfolding recovered_block recovered_mapping
reported st entry m current =
    ap (recovered_mapping st entry m.block_id) current ∙ rw (eq→== m.block_id m.block_id refl) refl

-- The report of the block group in recovery is answered by the next one.
report :
    (st : RecoveryState) (eset row : ℕ) (entry : RecoveringESets) (chain : List BlockGroupMapping)
    (m : BlockGroupMapping)
    → InRecovery st eset row entry chain
    → entry.block_gp_mapping ≡ some m
    → first_unrecovered chain ≡ some m
    → (st' : RecoveryState) × (entry' : RecoveringESets) × (recover_eset st eset m.block_id
        ≡ some (some (next_cmd (first_unrecovered (mark_mapping m.block_id chain).0)), st'))
      × InRecovery st' eset row entry' (mark_mapping m.block_id chain).0
      × Holds entry' (first_unrecovered (mark_mapping m.block_id chain).0)
unfolding recover_eset recover_entry with_mapping
report st eset row entry chain m v current first =
    let (st1, marked, v1) = mark_recovered-InRecovery st eset row entry chain m v first in
    let (entry', asked, v', holds) =
      ask st1 eset row entry (mark_mapping m.block_id chain).0
        (first_unrecovered (mark_mapping m.block_id chain).0) v1 refl in
    (
      with_mapping st1 eset entry',
      entry',
      ap (recover_entry st eset m.block_id) v.found
          ∙ rw
              (
                recover_entry,
                ne→not_eq m.block_id 0 (first-nonzero m chain v.ids first),
                reported st entry m current,
                marked,
              )
              (rw asked refl),
      v',
      holds,
    )

-- What the rounds come to from this command on: the recovery is over, and the chain of the set has
-- the block groups that it had, each recovered.
abbrev pub IsOverAfter : ℕ → RecoveryState → ℕ → ℕ → RecoveryCmd → List BlockGroupMapping → Type 0
IsOverAfter n st eset row cmd chain =
    (st' : RecoveryState) × (rounds n st eset cmd ≡ some (recovery_over, st'))
    × (groups_of (st'.placement_mgr.block_group_map eset) ≡ groups_of chain)
    × AreRecovered st'.block_groups row (st'.placement_mgr.block_group_map eset)

rounds-over :
    (n : ℕ) (st : RecoveryState) (eset : ℕ)
    → rounds n st eset recovery_over ≡ some (recovery_over, st)
unfolding rounds
rounds-over zero st eset = refl
rounds-over (suc n) st eset = refl

groups_of-mark :
    (id : ℕ) (chain : List BlockGroupMapping)
    → groups_of (mark_mapping id chain).0 ≡ groups_of chain
unfolding mark_mapping
groups_of-mark id [] = refl
groups_of-mark id (m ∷ ms) = elim (Bool-cases (m.block_id == id)) [
  | inl t ↦ rw t refl
  | inr f ↦ rw f (ap (◌∷◌ m.block_group) (groups_of-mark id ms))
]

loop :
    (n : ℕ) (st : RecoveryState) (eset row : ℕ) (entry : RecoveringESets)
    (chain : List BlockGroupMapping) (next : Option BlockGroupMapping)
    → InRecovery st eset row entry chain
    → Holds entry next
    → first_unrecovered chain ≡ next
    → unrecovered chain ≡ n
    → IsOverAfter n st eset row (next_cmd next) chain
unfolding rounds
loop n st eset row entry chain none v holds first left = (
  st,
  rounds-over n st eset,
  ap groups_of v.chain_at,
  subst (AreRecovered st.block_groups row) (sym v.chain_at)
      (none_left st.block_groups row chain first v.rows),
)
loop zero st eset row entry chain (some m) v holds first left =
    absurd (omega (arith, (mark-first m chain v.ids first).1, left))
loop (suc n) st eset row entry chain (some m) v holds first left =
    let (st1, entry1, answered, v1, holds1) = report st eset row entry chain m v holds first in
    let (st', over, same, recovered) =
      loop n st1 eset row entry1 (mark_mapping m.block_id chain).0
        (first_unrecovered (mark_mapping m.block_id chain).0) v1 holds1 refl
        (omega (arith, (mark-first m chain v.ids first).1, left)) in
    (st', rw answered over, same ∙ groups_of-mark m.block_id chain, recovered)

-- A set is in recovery with one failed node, the node in row `row`, and a head node; it is the only
-- entry found under its number, whose chain holds block groups with different ids that are not 0; each
-- of them has a block in row `row`, and each one that is marked as recovered beforehand has a block
-- there that is not both missing and unrecovered. Once the head node says that it is ready, and recovers
-- and reports each block group that it is sent, the metadata server ends the recovery after as many
-- reports as there are block groups without the mark: then each block group of the chain is marked, and
-- its block in row `row` is not both missing and unrecovered.
pub recovery_ends :
    (st : RecoveryState) (eset row : ℕ) (entry : RecoveringESets) (chain : List BlockGroupMapping)
    → InRecovery st eset row entry chain
    → (cmd : RecoveryCmd) × (st1 : RecoveryState) × (recover_eset st eset 0 ≡ some (some cmd, st1))
      × IsOverAfter (unrecovered chain) st1 eset row cmd chain
unfolding recover_eset recover_entry with_mapping
recovery_ends st eset row entry chain v =
    let (entry1, asked, v1, holds) = ask st eset row entry chain (first_unrecovered chain) v refl in
    (
      next_cmd (first_unrecovered chain),
      with_mapping st eset entry1,
      ap (recover_entry st eset 0) v.found ∙ rw (recover_entry, asked) refl,
      loop (unrecovered chain) (with_mapping st eset entry1) eset row entry1 chain
          (first_unrecovered chain) v1 holds refl refl,
    )
