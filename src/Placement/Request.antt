-- ===== src/Placement/Request.antt =====
-- What requestPlacement and removeBlockGroupMapping of Placement/Manager.antt do.
use native.Mathlib.Nat.{mod-lt, mod-eq_of_lt, mod-add-mod, mod-eq-sub-mod, add-mod_right, mod_self}
use native.Mathlib.Decide.{dec_lt}
use eset_store.Base.{
  ℕ, zero, suc, ◌+◌, ◌-◌, ◌%◌, ◌<◌, ◌≡◌, ◌≢◌, refl, ap, sym, ◌∙◌, ◌⊎◌, inl, inr, true, false, none,
  [], ◌∷◌, arith, ltb, ◌==◌, if◌then◌else◌, Bool-cases, ne→not_eq, eq→==, lt→not_leb,
}
use eset_store.Placement.ESet.{ESets}
use eset_store.Placement.Manager.{
  BlockGroupMapping, PlacementManager, find_healthy, request_placement, remove_head,
  remove_block_group_mapping,
}

-- The search's answer: the first set without failed servers, going round from `start`, or `start`
-- itself if every set has failed servers.
abbrev pub IsFirstHealthy : (ℕ → ESets) → ℕ → ℕ → ℕ → Type 0
IsFirstHealthy esets n start found =
    ((k : ℕ) × (k < n)
      × (found ≡ (start + k) % n)
      × ((esets found).failed_server_num ≡ 0)
      × ((j : ℕ) → j < k → 0 < (esets ((start + j) % n)).failed_server_num))
    ⊎ ((found ≡ start) × ((j : ℕ) → j < n → 0 < (esets ((start + j) % n)).failed_server_num))

module _ (esets : ℕ → ESets) (n start : ℕ) (h : start < n) where
  -- The step after `k` places: back at the start exactly when `k + 1 = n`.
  next_at : (idx k : ℕ) → idx ≡ (start + k) % n → (idx + 1) % n ≡ (start + (k + 1)) % n
  next_at idx k e = ap (λ t. (t + 1) % n) e ∙ mod-add-mod (start + k) n 1 ∙ ap (λ t. t % n) regroup
    where
      regroup : start + k + 1 ≡ start + (k + 1)
      regroup = omega arith

  back_at_start : (k : ℕ) → k < n → (start + (k + 1)) % n ≡ start → k + 1 ≡ n
  back_at_start k l e = elim (dec_lt (start + (k + 1)) n) [
    | yes below ↦ absurd (omega (arith, mod-eq_of_lt below))
    | no above ↦ omega (
      arith,
      mod-eq-sub-mod {n = start + (k + 1)} {m = n} (omega arith),
      mod-eq_of_lt {n = start + (k + 1) - n} {m = n} (omega arith),
    )
  ]

  round : (start + n) % n ≡ start
  round = add-mod_right start n ∙ mod-eq_of_lt h

  one_more :
      (k : ℕ)
      → ((j : ℕ) → j < k → 0 < (esets ((start + j) % n)).failed_server_num)
      → 0 < (esets ((start + k) % n)).failed_server_num
      → (j : ℕ) → j < k + 1
      → 0 < (esets ((start + j) % n)).failed_server_num
  one_more k failed bad j l = elim (dec_lt j k) [
    | yes lt ↦ failed j lt
    | no ge ↦ let e : j ≡ k = omega arith in rw e bad
  ]

  find_healthy_at :
      (fuel k idx : ℕ)
      → k + fuel ≡ n
      → 0 < fuel
      → idx ≡ (start + k) % n
      → ((j : ℕ) → j < k → 0 < (esets ((start + j) % n)).failed_server_num)
      → IsFirstHealthy esets n start (find_healthy fuel esets n start idx)
  unfolding find_healthy
  find_healthy_at zero k idx e p q failed = absurd (omega arith)
  find_healthy_at (suc fuel) k idx e p q failed =
      elim (Bool-cases (ltb 0 (esets idx).failed_server_num)) [
        | inr healthy ↦ rw healthy (inl (k, omega arith, q, ground arith, failed))
        | inl bad ↦ elim (Bool-cases (start == (idx + 1) % n)) [
          | inl back ↦
              let at_end : k + 1 ≡ n =
                back_at_start k (omega arith) (sym (next_at idx k q) ∙ ground arith) in
              rw (bad, back) (inr (ground arith, λ j l. more bad j (omega arith)))
          | inr on ↦
              rw (bad, on)
                (find_healthy_at fuel (k + 1) ((idx + 1) % n) (omega arith) (go_on on)
                  (next_at idx k q) (more bad))
        ]
      ]
    where
      more :
          ltb 0 (esets idx).failed_server_num ≡ true
          → (j : ℕ) → j < k + 1
          → 0 < (esets ((start + j) % n)).failed_server_num
      more bad = one_more k failed (rw (← q) (ground arith))

      go_on : (start == (idx + 1) % n) ≡ false → 0 < fuel
      go_on on = elim (dec_lt 0 fuel) [
        | yes l ↦ l
        | no z ↦ absurd (ground (arith, next_at idx k q, round, last z))
      ]
        where
          last : ¬ (0 < fuel) → (start + (k + 1)) % n ≡ (start + n) % n
          last z = ap (λ t. (start + t) % n) (omega arith)

  -- As many rounds as there are sets are enough for the search.
  find_healthy-IsFirstHealthy : IsFirstHealthy esets n start (find_healthy n esets n start start)
  find_healthy-IsFirstHealthy =
      find_healthy_at n 0 start (omega arith) (omega arith) at_zero (λ j l. absurd (omega arith))
    where
      at_zero : start ≡ (start + 0) % n
      at_zero = sym (mod-eq_of_lt h) ∙ ap (λ t. t % n) (omega arith)

-- The index that the search finds.
abbrev pub found_idx : PlacementManager → ℕ
found_idx mgr = find_healthy mgr.esets_size mgr.esets mgr.esets_size mgr.place_idx mgr.place_idx

found_idx-lt :
    (mgr : PlacementManager) → mgr.place_idx < mgr.esets_size → found_idx mgr < mgr.esets_size
found_idx-lt mgr h = bound (find_healthy-IsFirstHealthy mgr.esets mgr.esets_size mgr.place_idx h)
  where
    bound :
        IsFirstHealthy mgr.esets mgr.esets_size mgr.place_idx (found_idx mgr)
        → found_idx mgr < mgr.esets_size
    bound (inl (k, l, e, healthy, before)) =
        omega (arith, e, mod-lt (mgr.place_idx + k) {m = mgr.esets_size} (omega arith))
    bound (inr (e, rest)) = omega arith

-- Where `placeIdx` is the index of a set, `requestPlacement` returns the first set from it on, going round, that has no failed
-- server, or the set at `placeIdx` if all have; `placeIdx` moves to the set after it.
pub request_placement_lem :
    (mgr : PlacementManager) (block_group_id block_group : ℕ)
    → mgr.place_idx < mgr.esets_size
    → let (sets, mgr') = request_placement mgr block_group_id block_group in
      (found : ℕ) × IsFirstHealthy mgr.esets mgr.esets_size mgr.place_idx found
      × (found < mgr.esets_size)
      × (sets ≡ mgr.esets found)
      × (mgr'.place_idx ≡ (found + 1) % mgr.esets_size)
      × (mgr'.place_idx < mgr'.esets_size)
unfolding request_placement
request_placement_lem mgr block_group_id block_group h = (
  found_idx mgr,
  find_healthy-IsFirstHealthy mgr.esets mgr.esets_size mgr.place_idx h,
  found_idx-lt mgr h,
  refl,
  refl,
  mod-lt (found_idx mgr + 1) (omega arith),
)

next-ne : (n i : ℕ) → 1 < n → i < n → i ≢ (i + 1) % n
next-ne n i h l e = elim (dec_lt (i + 1) n) [
  | yes below ↦ omega (arith, mod-eq_of_lt below)
  | no above ↦ omega (arith, ap (λ t. t % n) (last above), mod_self n)
]
  where
    last : ¬ (i + 1 < n) → i + 1 ≡ n
    last above = omega arith

remove_from_empty :
    (mgr : PlacementManager) (idx block_id : ℕ)
    → idx < mgr.esets_size
    → mgr.block_group_map idx ≡ []
    → remove_block_group_mapping mgr idx block_id ≡ none
unfolding remove_block_group_mapping
remove_from_empty mgr idx block_id l e = rw (lt→not_leb mgr.esets_size idx l) (rw (e, remove_head))

-- With two sets or more and `placeIdx` the index of one, the mapping of a new block group is filed under the set after the one that
-- the group is placed on, and the chain of its own set stays as it was.
pub request_placement_misfiles :
    (mgr : PlacementManager) (block_group_id block_group : ℕ)
    → mgr.place_idx < mgr.esets_size
    → 1 < mgr.esets_size
    → let mgr' = (request_placement mgr block_group_id block_group).1 in
      ((mapping : BlockGroupMapping) × (mapping.block_group ≡ block_group)
        × (mgr'.block_group_map ((found_idx mgr + 1) % mgr.esets_size)
            ≡ mapping ∷ mgr.block_group_map ((found_idx mgr + 1) % mgr.esets_size)))
      × (mgr'.block_group_map (found_idx mgr) ≡ mgr.block_group_map (found_idx mgr))
unfolding request_placement
request_placement_misfiles mgr block_group_id block_group h two =
    ((mapping, refl, rw (eq→== next next refl)), own_chain)
  where
    mapping : BlockGroupMapping
    mapping = record {
      block_id = block_group_id;
      block_group = block_group;
      recovered_flag = if ltb 0 (mgr.esets (found_idx mgr)).failed_server_num then 1 else 0;
    }

    next : ℕ
    next = (found_idx mgr + 1) % mgr.esets_size

    own_chain :
        (request_placement mgr block_group_id block_group).1.block_group_map (found_idx mgr)
        ≡ mgr.block_group_map (found_idx mgr)
    own_chain = rw (
        ne→not_eq (found_idx mgr) next
          (next-ne mgr.esets_size (found_idx mgr) two (found_idx-lt mgr h)))

-- With two sets or more and `placeIdx` the index of one, where no mapping is filed under the set that a new block group is placed
-- on, the removal of the new group's mapping under this set reads through NULL.
pub request_placement-remove_faults :
    (mgr : PlacementManager) (block_group_id block_group : ℕ)
    → mgr.place_idx < mgr.esets_size
    → 1 < mgr.esets_size
    → mgr.block_group_map (found_idx mgr) ≡ []
    → remove_block_group_mapping
        (request_placement mgr block_group_id block_group).1
        (found_idx mgr)
        block_group_id
      ≡ none
unfolding request_placement
request_placement-remove_faults mgr block_group_id block_group h two e =
    remove_from_empty (request_placement mgr block_group_id block_group).1 (found_idx mgr)
      block_group_id (found_idx-lt mgr h)
      ((request_placement_misfiles mgr block_group_id block_group h two).1 ∙ e)
