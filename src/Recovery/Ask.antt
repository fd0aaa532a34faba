-- ===== src/Recovery/Ask.antt =====
-- The next block group of a set in recovery (recoveryingABlock of Recovery/Rounds.antt).
use eset_store.Base.{
  ℕ, ◌≡◌, refl, ap, ◌∙◌, arith, inl, inr, Bool, true, false, Option, none, some, List, [], ◌∷◌,
  ◌==◌, if◌then◌else◌, eq→==, Bool-cases,
}
use eset_store.Placement.ESet.{ESets}
use eset_store.Placement.Manager.{BlockGroupMapping}
use eset_store.Recovery.Rounds.{
  RecoveringESets, RecoveryState, RecoveryCmd, recovery_over, recover_block_group,
  first_unrecovered, set_id, find_recovering, replace_recovering, take_mapping, recoverying_a_block,
}
use eset_store.Recovery.Round.{InRecovery}

-- The command for the next block group.
abbrev pub next_cmd : Option BlockGroupMapping → RecoveryCmd
next_cmd none = recovery_over
next_cmd (some m) = recover_block_group m

-- The entry holds the block group that is in recovery.
abbrev pub Holds : RecoveringESets → Option BlockGroupMapping → Type 0
Holds entry none = Unit {0}
Holds entry (some m) = entry.block_gp_mapping ≡ some m

find-replace :
    (esets : ℕ → ESets) (eset : ℕ) (entry entry' : RecoveringESets) (es : List RecoveringESets)
    → find_recovering esets eset es ≡ some entry
    → set_id esets entry' ≡ eset
    → find_recovering esets eset (replace_recovering esets eset entry' es) ≡ some entry'
unfolding find_recovering replace_recovering
find-replace esets eset entry entry' [] h e = absurd (grind (arith, h))
find-replace esets eset entry entry' (x ∷ xs) h e = elim (Bool-cases (set_id esets x == eset)) [
  | inl t ↦ rw t (rw (eq→== (set_id esets entry') eset e) refl)
  | inr f ↦
      rw f (rw f (find-replace esets eset entry entry' xs (later (set_id esets x == eset) f h) e))
]
  where
    later :
        (b : Bool)
        → b ≡ false
        → (if b then some x else find_recovering esets eset xs) ≡ some entry
        → find_recovering esets eset xs ≡ some entry
    later true f h = grind (arith, f)
    later false f h = h

-- The entry of the set is replaced by one with another block group in recovery.
unfoldable pub with_mapping : RecoveryState → ℕ → RecoveringESets → RecoveryState
with_mapping st eset entry = record st {
  recovering_esets_lists =
      replace_recovering st.placement_mgr.esets eset entry st.recovering_esets_lists;
}

replaced :
    (st : RecoveryState) (eset row : ℕ) (entry : RecoveringESets) (chain : List BlockGroupMapping)
    (mapping : Option BlockGroupMapping)
    → InRecovery st eset row entry chain
    → InRecovery
        (with_mapping st eset (record entry { block_gp_mapping = mapping }))
        eset
        row
        (record entry { block_gp_mapping = mapping })
        chain
unfolding with_mapping set_id
replaced st eset row entry chain mapping v = record {
  found =
      find-replace st.placement_mgr.esets eset entry (record entry { block_gp_mapping = mapping })
        st.recovering_esets_lists v.found v.of_set;
  of_set = v.of_set;
  chain_at = v.chain_at;
  one_failed = v.one_failed;
  head = v.head;
  head_first = v.head_first;
  ids = v.ids;
  in_row = v.in_row;
  rows = v.rows;
}

abbrev pub Asked :
    RecoveryState
    → ℕ
    → ℕ
    → RecoveringESets
    → List BlockGroupMapping
    → Option BlockGroupMapping
    → Type 0
Asked st eset row entry chain next =
    (entry' : RecoveringESets) × (recoverying_a_block st entry ≡ (entry', next_cmd next))
    × InRecovery (with_mapping st eset entry') eset row entry' chain
    × Holds entry' next

pub ask :
    (st : RecoveryState) (eset row : ℕ) (entry : RecoveringESets) (chain : List BlockGroupMapping)
    (next : Option BlockGroupMapping)
    → InRecovery st eset row entry chain
    → first_unrecovered chain ≡ next
    → Asked st eset row entry chain next
unfolding recoverying_a_block take_mapping
ask st eset row entry chain next v e =
    elim next
        as (λ o.
          recoverying_a_block st entry ≡ take_mapping entry o → Asked st eset row entry chain o) [
            | none ↦ λ q. (entry, q, replaced st eset row entry chain entry.block_gp_mapping v, tt)
            | some m ↦ λ q. (
              record entry { block_gp_mapping = some m },
              q,
              replaced st eset row entry chain (some m) v,
              refl,
            )
          ]
      (ap (λ idx. take_mapping entry (first_unrecovered (st.placement_mgr.block_group_map idx)))
          v.of_set
        ∙ ap (λ c. take_mapping entry (first_unrecovered c)) v.chain_at
        ∙ ap (take_mapping entry) e)
