-- ===== src/Recovery/Alive.antt =====
-- Which nodes selectRecoveryNodes of Recovery/Nodes.antt takes from a set as createESets makes it.
use native.Mathlib.Nat.{mod-eq_of_lt}
use native.Mathlib.Decide.{ℕ_discrete}
use eset_store.Base.{
  ℕ, ◌+◌, ◌-◌, ◌%◌, ◌≤◌, ◌<◌, ◌≡◌, ◌≢◌, refl, ap, sym, ◌∙◌, arith, Bool, true, false, not, ◌&&◌,
  ◌||◌, none, some, List, [], ◌∷◌, ◌++◌, ltb, ◌==◌, if◌then◌else◌, length, length-append,
  append_assoc, append-nil, take, take_all, Bool-cases, inl, inr, eq→==, lt→ltb,
}
use eset_store.Placement.ESet.{ESetNode, ESets}
use eset_store.Recovery.Nodes.{
  collides, check_io_collision, out_of_use, pick_one, pick_nodes, sort_selected_nodes,
  select_recovery_nodes,
}

-- The nodes stand in their rows, from this row on.
abbrev pub HasRowsFrom : ℕ → List ESetNode → Type 0
HasRowsFrom i [] = Unit {0}
HasRowsFrom i (n ∷ ns) = (n.row ≡ i) × HasRowsFrom (i + 1) ns

-- The nodes of a set, as createESets makes it.
pub record IsCreated (esets : ESets) : Type 0 where
  pub rows : HasRowsFrom 0 esets.set_nodes
  pub sized : length esets.set_nodes ≡ esets.size

-- The nodes that are in use.
abbrev pub alive : List ESetNode → List ESetNode
alive [] = []
alive (n ∷ ns) = if out_of_use n then alive ns else n ∷ alive ns

remainder :
    (size a b : ℕ)
    → a < size
    → b < size
    → a ≢ b
    → ((if ltb a b then b - a else a - b) % size == 0) ≡ false
remainder size a b ha hb ne = rw (mod-eq_of_lt (small a b ha hb)) (ground (arith, ne))
  where
    small : (a b : ℕ) → a < size → b < size → (if ltb a b then b - a else a - b) < size
    small a b ha hb = ground arith

collides-none :
    (size : ℕ) (node : ESetNode) (i : ℕ) (ns : List ESetNode)
    → HasRowsFrom i ns
    → i + length ns ≤ size
    → node.row < size
    → collides size node i ns ≡ false
unfolding collides
collides-none size node i [] h le lt = refl
collides-none size node i (cur ∷ rest) h le lt = elim (ℕ_discrete i node.row) [
  | yes e ↦
      rw (eq→== i node.row e) (collides-none size node (i + 1) rest h.1 (omega (arith, le)) lt)
  | no ne ↦
      rw
        (
          remainder size node.row cur.row lt (omega (arith, h.0, le)) (λ e. ne (sym h.0 ∙ sym e)),
          collides-none size node (i + 1) rest h.1 (omega (arith, le)) lt,
        )
        (dropped (not (i == node.row)) ((cur.failed_flag == 1) && (cur.recovered_flag == 0)))
]
  where
    dropped : (a b : Bool) → (a && (b && false)) || false ≡ false
    dropped a b = ground arith

-- No node of the list collides.
abbrev AreFree : ESets → List ESetNode → Type 0
AreFree esets [] = Unit {0}
AreFree esets (n ∷ ns) = (check_io_collision esets n ≡ false) × AreFree esets ns

check_io_collision-none :
    (esets : ESets) (node : ESetNode)
    → IsCreated esets
    → node.row < esets.size
    → check_io_collision esets node ≡ false
unfolding check_io_collision
check_io_collision-none esets node v h = elim (Bool-cases (node.row == 0)) [
  | inl t ↦ rw t refl
  | inr f ↦
      rw (f, take_all esets.size esets.set_nodes (omega (arith, v.sized)))
        (collides-none esets.size node 0 esets.set_nodes v.rows (omega (arith, v.sized)) h)
]

rows-AreFree :
    (esets : ESets) (i : ℕ) (ns : List ESetNode)
    → IsCreated esets
    → HasRowsFrom i ns
    → i + length ns ≤ esets.size
    → AreFree esets ns
rows-AreFree esets i [] v h le = tt
rows-AreFree esets i (n ∷ ns) v h le = (
  check_io_collision-none esets n v (omega (arith, h.0, le)),
  rows-AreFree esets (i + 1) ns v h.1 (omega (arith, le)),
)

alive_without :
    (n : ESetNode) (ns : List ESetNode) → out_of_use n ≡ true → alive (n ∷ ns) ≡ alive ns
alive_without n ns t = rw t refl

alive_with :
    (n : ESetNode) (ns : List ESetNode) → out_of_use n ≡ false → alive (n ∷ ns) ≡ n ∷ alive ns
alive_with n ns f = rw f refl

pick_one-room :
    (esets : ESets) (num : ℕ) (n : ESetNode) (selected : List ESetNode)
    → out_of_use n ≡ false
    → check_io_collision esets n ≡ false
    → length selected < num
    → pick_one esets num n selected ≡ some (selected ++ (n ∷ []))
unfolding pick_one
pick_one-room esets num n selected f free h = rw (f, free, lt→ltb (length selected) num h) refl

pick_one-full :
    (esets : ESets) (num : ℕ) (n : ESetNode) (selected : List ESetNode)
    → out_of_use n ≡ false
    → check_io_collision esets n ≡ false
    → num ≤ length selected
    → pick_one esets num n selected ≡ none
unfolding pick_one
pick_one-full esets num n selected f free h = rw (f, free, not_below (length selected) num h) refl
  where
    not_below : (a b : ℕ) → b ≤ a → ltb a b ≡ false
    not_below a b h = ground arith

pick_one-out :
    (esets : ESets) (num : ℕ) (n : ESetNode) (selected : List ESetNode)
    → out_of_use n ≡ true
    → pick_one esets num n selected ≡ some selected
unfolding pick_one
pick_one-out esets num n selected t = rw t refl

pick_nodes-alive :
    (esets : ESets) (num : ℕ) (ns selected : List ESetNode)
    → AreFree esets ns
    → length selected + length (alive ns) ≤ num
    → pick_nodes esets num ns selected ≡ some (selected ++ alive ns)
unfolding pick_nodes pick_one
pick_nodes-alive esets num [] selected v h = ap some (sym (append-nil selected))
pick_nodes-alive esets num (n ∷ ns) selected v h = elim (Bool-cases (out_of_use n)) [
  | inl t ↦
      rw (pick_one-out esets num n selected t, t)
        (pick_nodes-alive esets num ns selected v.1
          (omega (arith, h, ap length (alive_without n ns t))))
  | inr f ↦
      rw
        (
          pick_one-room esets num n selected f v.0
              (omega (arith, h, ap length (alive_with n ns f))),
          f,
        )
        (pick_nodes-alive esets num ns (selected ++ (n ∷ [])) v.1
            (omega (arith, h, ap length (alive_with n ns f), length-append selected (n ∷ [])))
          ∙ ap some (append_assoc selected (n ∷ []) (alive ns)))
]

pick_nodes-overrun :
    (esets : ESets) (num : ℕ) (ns selected : List ESetNode)
    → AreFree esets ns
    → num < length selected + length (alive ns)
    → length selected ≤ num
    → pick_nodes esets num ns selected ≡ none
unfolding pick_nodes pick_one
pick_nodes-overrun esets num [] selected v h le = absurd (omega arith)
pick_nodes-overrun esets num (n ∷ ns) selected v h le = elim (Bool-cases (out_of_use n)) [
  | inl t ↦ rw (pick_one-out esets num n selected t) (
      pick_nodes-overrun esets num ns selected v.1
        (omega (arith, h, ap length (alive_without n ns t))) le)
  | inr f ↦ elim (Bool-cases (ltb (length selected) num)) [
    | inl room ↦ rw (pick_one-room esets num n selected f v.0 (ground (arith, room))) (
        pick_nodes-overrun esets num ns (selected ++ (n ∷ [])) v.1
          (omega (arith, h, ap length (alive_with n ns f), length-append selected (n ∷ [])))
          (ground (arith, room, length-append selected (n ∷ []))))
    | inr full ↦ rw (pick_one-full esets num n selected f v.0 (ground (arith, full))) refl
  ]
]

picked :
    (esets : ESets) (num : ℕ)
    → IsCreated esets
    → length (alive esets.set_nodes) ≤ num
    → pick_nodes esets num (take esets.size esets.set_nodes) [] ≡ some (alive esets.set_nodes)
picked esets num v h = rw (take_all esets.size esets.set_nodes (omega (arith, v.sized))) (
    pick_nodes-alive esets num esets.set_nodes []
      (rows-AreFree esets 0 esets.set_nodes v v.rows (omega (arith, v.sized))) (omega (arith, h)))

-- Where the nodes in use are as many as stripeK says, selectRecoveryNodes takes all of them, without
-- a write outside its array, and sorts them.
pub select_recovery_nodes-alive :
    (esets : ESets) (num : ℕ)
    → IsCreated esets
    → length (alive esets.set_nodes) ≡ num
    → select_recovery_nodes esets num ≡ some (some (sort_selected_nodes (alive esets.set_nodes)))
unfolding select_recovery_nodes
select_recovery_nodes-alive esets num v e = rw (picked esets num v (omega (arith, e))) (
    rw (eq→== (length (alive esets.set_nodes)) num e)
      (rw (eq→== (length (alive esets.set_nodes)) num e) refl))

-- Where the nodes in use are more than stripeK, selectRecoveryNodes writes behind its array.
pub select_recovery_nodes_overrun :
    (esets : ESets) (num : ℕ)
    → IsCreated esets
    → num < length (alive esets.set_nodes)
    → select_recovery_nodes esets num ≡ none
unfolding select_recovery_nodes
select_recovery_nodes_overrun esets num v h =
    rw (take_all esets.size esets.set_nodes (omega (arith, v.sized))) (
      rw
        (pick_nodes-overrun esets num esets.set_nodes []
          (rows-AreFree esets 0 esets.set_nodes v v.rows (omega (arith, v.sized)))
          (omega (arith, h)) (omega arith))
        refl)
