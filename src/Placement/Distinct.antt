-- ===== src/Placement/Distinct.antt =====
-- The loops of createPlacementGroup (Placement/Group.antt) and the servers that they take.
use eset_store.Base.{
  ℕ, zero, suc, ◌+◌, ◌-◌, ◌≤◌, ◌<◌, ◌≡◌, refl, subst, ◌⊎◌, inl, inr, some, arith, false, ltb, ◌==◌,
  Bool-cases, ne→not_eq,
}
use eset_store.Placement.ESet.{GroupNode, PlacementGroup}
use eset_store.Placement.Group.{
  Fill, max_rack, check_rack_in_group, place, fill_from_rack, fill_row, fill_rows,
  create_placement_group,
}

-- The places before column `col` of row `row`, in rows of `size` columns.
abbrev Written : ℕ → ℕ → ℕ → ℕ → ℕ → Type 0
Written size row col r c = (c < size) × ((r < row) ⊎ ((r ≡ row) × (c < col)))

-- The places that are written hold different servers of the racks, all taken since `start`.
record Inv (start : ℕ → ℕ) (racks size row col : ℕ) (f : Fill) : Type 0 where
  below :
      (r c : ℕ)
      → Written size row col r c
      → (f.nodes r c).server_id_in_rack < f.taken (f.nodes r c).rack_id
  since :
      (r c : ℕ)
      → Written size row col r c
      → start (f.nodes r c).rack_id ≤ (f.nodes r c).server_id_in_rack
  apart :
      (r c r' c' : ℕ)
      → Written size row col r c
      → Written size row col r' c'
      → (f.nodes r c).rack_id ≡ (f.nodes r' c').rack_id
      → (f.nodes r c).server_id_in_rack ≡ (f.nodes r' c').server_id_in_rack
      → (r ≡ r') × (c ≡ c')
  grown : (k : ℕ) → start k ≤ f.taken k
  in_racks : (r c : ℕ) → Written size row col r c → (f.nodes r c).rack_id < racks

-- The rack that is chosen: one of the racks, and none that the row does not hold yet has fewer servers
-- taken.
pub max_rack-lt :
    (f : Fill) (size row left rack best racks : ℕ)
    → best < racks
    → rack + left ≤ racks
    → max_rack f size row left rack best < racks
unfolding max_rack
max_rack-lt f size row zero rack best racks h l = h
max_rack-lt f size row (suc left) rack best racks h l =
    max_rack-lt f size row left (rack + 1) _ racks (ground arith) (omega arith)

max_rack-best :
    (f : Fill) (size row left rack best : ℕ)
    → f.taken (max_rack f size row left rack best) ≤ f.taken best
unfolding max_rack
max_rack-best f size row zero rack best = omega arith
max_rack-best f size row (suc left) rack best =
    elim (Bool-cases (check_rack_in_group f.nodes size row rack)) [
      | inl held ↦ rw held (max_rack-best f size row left (rack + 1) best)
      | inr free ↦ elim (Bool-cases (ltb (f.taken rack) (f.taken best))) [
        | inl fewer ↦
            rw free
              (rw fewer (ground (arith, fewer, max_rack-best f size row left (rack + 1) rack)))
        | inr more ↦ rw free (rw more (max_rack-best f size row left (rack + 1) best))
      ]
    ]

pub max_rack-most :
    (f : Fill) (size row left rack best k : ℕ)
    → rack ≤ k
    → k < rack + left
    → check_rack_in_group f.nodes size row k ≡ false
    → f.taken (max_rack f size row left rack best) ≤ f.taken k
unfolding max_rack
max_rack-most f size row zero rack best k h l free = absurd (omega arith)
max_rack-most f size row (suc left) rack best k h l free = elim (here_or_later rack k h) [
  | inr later ↦ max_rack-most f size row left (rack + 1) _ k later (omega arith) free
  | inl here ↦ elim (Bool-cases (ltb (f.taken k) (f.taken best))) [
    | inl fewer ↦ rw here (rw free (rw fewer (max_rack-best f size row left (k + 1) k)))
    | inr more ↦
        rw here
          (rw free (rw more (ground (arith, more, max_rack-best f size row left (k + 1) best))))
  ]
]
  where
    here_or_later : (a b : ℕ) → a ≤ b → (a ≡ b) ⊎ (a + 1 ≤ b)
    here_or_later a b g = ground arith

module _ {start : ℕ → ℕ} {racks size row col : ℕ} {f : Fill} (rack : ℕ)
    (v : Inv start racks size row col f) (h : col < size) (rack_lt : rack < racks) where
  place_below :
      (r c : ℕ)
      → Written size row (col + 1) r c
      → ((place f row col rack).nodes r c).server_id_in_rack
        < (place f row col rack).taken ((place f row col rack).nodes r c).rack_id
  unfolding place
  place_below r c w = ground (arith, v.below r c)

  place_since :
      (r c : ℕ)
      → Written size row (col + 1) r c
      → start ((place f row col rack).nodes r c).rack_id
        ≤ ((place f row col rack).nodes r c).server_id_in_rack
  unfolding place
  place_since r c w = ground (arith, v.since r c, v.grown rack)

  place_grown : (k : ℕ) → start k ≤ (place f row col rack).taken k
  unfolding place
  place_grown k = ground (arith, v.grown k, v.grown rack)

  place_apart :
      (r c r' c' : ℕ)
      → Written size row (col + 1) r c
      → Written size row (col + 1) r' c'
      → ((place f row col rack).nodes r c).rack_id ≡ ((place f row col rack).nodes r' c').rack_id
      → ((place f row col rack).nodes r c).server_id_in_rack
        ≡ ((place f row col rack).nodes r' c').server_id_in_rack
      → (r ≡ r') × (c ≡ c')
  unfolding place
  place_apart r c r' c' w w' e e' = ground (arith, v.apart r c r' c', v.below r c, v.below r' c')

  place_in_racks :
      (r c : ℕ)
      → Written size row (col + 1) r c
      → ((place f row col rack).nodes r c).rack_id < racks
  unfolding place
  place_in_racks r c w = ground (arith, v.in_racks r c)

  place-Inv : Inv start racks size row (col + 1) (place f row col rack)
  place-Inv = record {
    below = place_below;
    since = place_since;
    apart = place_apart;
    grown = place_grown;
    in_racks = place_in_racks;
  }

-- The place at which a row goes on, by the number of columns that are left.
fill_from_rack-Inv :
    {start : ℕ → ℕ} {size : ℕ} (each row rack racks col left : ℕ) {f : Fill}
    → col + left ≡ size
    → rack < racks
    → Inv start racks size row col f
    → let (left', f') = fill_from_rack each row col rack left f in
      Inv start racks size row (size - left') f' × (left' ≤ left - 1)
unfolding fill_from_rack
fill_from_rack-Inv {start} {size} each row rack racks col zero {f} e q v =
    (subst (λ c. Inv start racks size row c f) (omega arith) v, omega arith)
fill_from_rack-Inv {start} {size} each row rack racks col (suc left) {f} e q v =
    elim (Bool-cases ((place f row col rack).taken rack == each)) [
      | inl full ↦
          rw full (subst (λ c. Inv start racks size row c f') (omega arith) placed, omega arith)
      | inr more ↦ rw more (
          let (w, le) =
            fill_from_rack-Inv each row rack racks (col + 1) left (omega arith) q placed in
          (w, omega arith))
    ]
  where
    f' : Fill
    f' = place f row col rack

    placed : Inv start racks size row (col + 1) f'
    placed = place-Inv rack v (omega arith) q

fill_row-Inv :
    {start : ℕ → ℕ} (fuel each racks size row left : ℕ) {f : Fill}
    → 0 < racks
    → left ≤ fuel
    → left ≤ size
    → Inv start racks size row (size - left) f
    → (f' : Fill) × (fill_row fuel each racks size row left f ≡ some f')
      × Inv start racks size row size f'
unfolding fill_row
fill_row-Inv {start} zero each racks size row zero {f} pos h l v =
    (f, refl, subst (λ c. Inv start racks size row c f) (omega arith) v)
fill_row-Inv zero each racks size row (suc left) pos h l v = absurd (omega arith)
fill_row-Inv {start} (suc fuel) each racks size row zero {f} pos h l v =
    (f, refl, subst (λ c. Inv start racks size row c f) (omega arith) v)
fill_row-Inv (suc fuel) each racks size row (suc left) {f} pos h l v =
    let best = max_rack f size row racks 0 0 in
    let (w, le) =
      fill_from_rack-Inv each row best racks (size - suc left) (suc left) (omega arith)
        (max_rack-lt f size row racks 0 0 racks pos (omega arith)) v in
    rw (ne→not_eq (suc left) 0 (omega arith), ne→not_eq racks 0 (omega arith))
      (fill_row-Inv fuel each racks size row
        (fill_from_rack each row (size - suc left) best (suc left) f).0 pos (omega arith)
        (omega arith) w)

next_row :
    {start : ℕ → ℕ} {racks size row : ℕ} {f : Fill}
    → Inv start racks size row size f
    → Inv start racks size (row + 1) 0 f
next_row {start} {racks} {size} {row} {f} v = record {
  below = λ r c w. v.below r c (earlier r c w);
  since = λ r c w. v.since r c (earlier r c w);
  apart = λ r c r' c' w w'. v.apart r c r' c' (earlier r c w) (earlier r' c' w');
  grown = v.grown;
  in_racks = λ r c w. v.in_racks r c (earlier r c w);
}
  where
    earlier : (r c : ℕ) → Written size (row + 1) 0 r c → Written size row size r c
    earlier r c (l, inl h) = (l, ground arith)
    earlier r c (l, inr (e, h)) = absurd (omega arith)

fill_rows-Inv :
    {start : ℕ → ℕ} (each racks size left row : ℕ) {f : Fill}
    → 0 < racks
    → Inv start racks size row 0 f
    → (f' : Fill) × (fill_rows each racks size left row f ≡ some f')
      × Inv start racks size (row + left) 0 f'
unfolding fill_rows
fill_rows-Inv {start} each racks size zero row {f} pos v =
    (f, refl, subst (λ r. Inv start racks size r 0 f) (omega arith) v)
fill_rows-Inv {start} each racks size (suc left) row {f} pos v =
    let (f', e, w) =
      fill_row-Inv size each racks size row size pos (omega arith) (omega arith)
        (subst (λ c. Inv start racks size row c f) (omega arith) v) in
    let (f'', e', w') = fill_rows-Inv each racks size left (row + 1) pos (next_row w) in
    (f'', rw (e, fill_rows) e', subst (λ r. Inv start racks size r 0 f'') (omega arith) w')

-- The servers of a group: every place of it has one that was free before and is taken after, and
-- no two places have the same.
pub record IsGroup (group : PlacementGroup) (racks : ℕ) (start taken : ℕ → ℕ) : Type 0 where
  pub fresh :
      (r c : ℕ)
      → r < group.row_size
      → c < group.col_size
      → start (group.group_nodes r c).rack_id ≤ (group.group_nodes r c).server_id_in_rack
  pub used :
      (r c : ℕ)
      → r < group.row_size
      → c < group.col_size
      → (group.group_nodes r c).server_id_in_rack < taken (group.group_nodes r c).rack_id
  pub distinct :
      (r c r' c' : ℕ)
      → r < group.row_size
      → c < group.col_size
      → r' < group.row_size
      → c' < group.col_size
      → (group.group_nodes r c).rack_id ≡ (group.group_nodes r' c').rack_id
      → (group.group_nodes r c).server_id_in_rack ≡ (group.group_nodes r' c').server_id_in_rack
      → (r ≡ r') × (c ≡ c')
  pub kept : (k : ℕ) → start k ≤ taken k
  pub racks_exist :
      (r c : ℕ) → r < group.row_size → c < group.col_size → (group.group_nodes r c).rack_id < racks

-- On one rack or more and any contents of fresh memory the loops of `createPlacementGroup` end;
-- the group has the sizes asked for, each of its servers was free before and is taken after, and
-- no two places of the group have the same server.
pub create_placement_group-IsGroup :
    (rows size each racks : ℕ) (memory : ℕ → ℕ → GroupNode) (start : ℕ → ℕ)
    → 0 < racks
    → (group : PlacementGroup) × (taken : ℕ → ℕ) × (create_placement_group rows size each racks
          memory start
        ≡ some (group, taken))
      × (group.row_size ≡ rows)
      × (group.col_size ≡ size)
      × IsGroup group racks start taken
unfolding create_placement_group
create_placement_group-IsGroup rows size each racks memory start pos =
    let (f, e, v) = fill_rows-Inv {start = start} each racks size rows 0 pos nothing_yet in
    (
      record { group_nodes = f.nodes; row_size = rows; col_size = size },
      f.taken,
      rw e,
      refl,
      refl,
      record {
        fresh = λ r c hr hc. v.since r c (hc, inl (omega arith));
        used = λ r c hr hc. v.below r c (hc, inl (omega arith));
        distinct = λ r c r' c' hr hc hr' hc'.
            v.apart r c r' c' (hc, inl (omega arith)) (hc', inl (omega arith));
        kept = v.grown;
        racks_exist = λ r c hr hc. v.in_racks r c (hc, inl (omega arith));
      },
    )
  where
    none_written : (r c : ℕ) → Written size 0 0 r c → ⊥
    none_written r c (l, inl h) = omega arith
    none_written r c (l, inr (e, h)) = omega arith

    nothing_yet : Inv start racks size 0 0 (record { nodes = memory; taken = start })
    nothing_yet = record {
      below = λ r c w. absurd (none_written r c w);
      since = λ r c w. absurd (none_written r c w);
      apart = λ r c r' c' w w'. absurd (none_written r c w);
      grown = λ k. omega arith;
      in_racks = λ r c w. absurd (none_written r c w);
    }
