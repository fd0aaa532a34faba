-- ===== src/Blocks/Unique.antt =====
-- The ids of the block groups over requests and returns: requestBlockGroup and revokeBlockGroup of
-- ECMeta/BlockManagement.c.
use native.Mathlib.Decide.{ℕ_discrete}
use native.Mathlib.Nat.{mod-eq_of_lt}
use eset_store.Base.{
  ℕ, zero, suc, ◌+◌, ◌*◌, ◌%◌, ◌≤◌, ◌<◌, ◌≡◌, ◌≢◌, refl, ap, sym, ◌∙◌, List, [], ◌∷◌, ◌++◌, ◌==◌,
  if◌then◌else◌, arith, eq→==, ne→not_eq,
}
use eset_store.Text.Number.{u64_mod}
use eset_store.Placement.Manager.{EcBlock, EcBlockGroup}
use eset_store.Blocks.Slab.{BlockSlab}
use eset_store.Blocks.Groups.{
  BlockGroupManagement, id_step, create_block_group_manager, take_group, request_block_group,
  revoke_block_group, new_block_group, after_new,
}
use eset_store.Blocks.Ids.{
  count, count_all, sum_below, sum_below-replaced, count-append, id_of, id_of-injective,
}

-- The manager, and the block groups that are in use.
pub record Pool : Type 0 where
  pub manager : BlockGroupManagement
  pub held : List EcBlockGroup

-- A request or a return by one of the threads; ids do not wrap round.
pub data Step (realloc : ℕ → ℕ → ℕ) (s : Pool) : Pool → Type 0 where
  requested :
      (th : ℕ) (memory : ℕ → EcBlock) (set_idx : ℕ)
      → th < s.manager.worker_th_num
      → s.manager.block_idx_for_th th + s.manager.worker_th_num * id_step < u64_mod
      → Step realloc s (record {
        manager = (request_block_group realloc memory set_idx s.manager th).1;
        held = (request_block_group realloc memory set_idx s.manager th).0 ∷ s.held;
      })
  revoked :
      (th : ℕ) (g : EcBlockGroup) (before after : List EcBlockGroup)
      → th < s.manager.worker_th_num
      → s.held ≡ before ++ (g ∷ after)
      → Step realloc s
          (record { manager = revoke_block_group s.manager g th; held = before ++ after })

-- What the threads can make of a new manager.
pub data Reach (realloc : ℕ → ℕ → ℕ) (slab : BlockSlab) (k m w : ℕ) : Pool → Type 0 where
  start :
      Reach realloc slab k m w
        (record { manager = create_block_group_manager slab k m w; held = [] })
  later : {s t : Pool} → Reach realloc slab k m w s → Step realloc s t → Reach realloc slab k m w t

-- Each thread has given out its first ids, and no other id is there, nor any id twice.
record IsUnique (mgr : BlockGroupManagement) (held : List EcBlockGroup) : Type 0 where
  next : ℕ → ℕ
  idx_is :
      (t : ℕ) → t < mgr.worker_th_num → mgr.block_idx_for_th t ≡ id_of mgr.worker_th_num t (next t)
  once : (id : ℕ) → count_all mgr held id ≤ 1
  issued :
      (id : ℕ)
      → 0 < count_all mgr held id
      → (t : ℕ) × (k : ℕ) × (t < mgr.worker_th_num)
        × (k < next t)
        × (id ≡ id_of mgr.worker_th_num t k)

-- A step that only moves groups between the lists.
moved-IsUnique :
    (mgr : BlockGroupManagement) (lists : ℕ → List EcBlockGroup) (held held' : List EcBlockGroup)
    → IsUnique mgr held
    → ((id : ℕ) → count_all (record mgr { block_groups = lists }) held' id ≡ count_all mgr held id)
    → IsUnique (record mgr { block_groups = lists }) held'
moved-IsUnique mgr lists held held' v same = record {
  next = v.next;
  idx_is = v.idx_is;
  once = λ id. omega (arith, same id, v.once id);
  issued = λ id l. v.issued id (omega (arith, same id));
}

reused-IsUnique :
    (mgr : BlockGroupManagement) (th : ℕ) (g : EcBlockGroup) (gs held : List EcBlockGroup)
    → IsUnique mgr held
    → th < mgr.worker_th_num
    → mgr.block_groups th ≡ g ∷ gs
    → IsUnique
        (record mgr { block_groups = λ t. if t == th then gs else mgr.block_groups t })
        (g ∷ held)
reused-IsUnique mgr th g gs held v l e = moved-IsUnique mgr _ held (g ∷ held) v λ id. omega (
  arith,
  sum_below-replaced mgr.worker_th_num th (λ t. count id (mgr.block_groups t))
      (λ t. count id (if t == th then gs else mgr.block_groups t)) l
      (λ t ne. ap (count id) (other t ne)),
  ap (count id) here,
  ap (count id) e,
)
  where
    other : (t : ℕ) → t ≢ th → (if t == th then gs else mgr.block_groups t) ≡ mgr.block_groups t
    other t ne = rw (ne→not_eq t th ne) refl

    here : (if th == th then gs else mgr.block_groups th) ≡ gs
    here = rw (eq→== th th refl) refl

revoked-IsUnique :
    (mgr : BlockGroupManagement) (th : ℕ) (g : EcBlockGroup) (before after held : List EcBlockGroup)
    → IsUnique mgr held
    → th < mgr.worker_th_num
    → held ≡ before ++ (g ∷ after)
    → IsUnique (revoke_block_group mgr g th) (before ++ after)
unfolding revoke_block_group
revoked-IsUnique mgr th g before after held v l e =
    moved-IsUnique mgr _ held (before ++ after) v λ id. omega (
      arith,
      sum_below-replaced mgr.worker_th_num th (λ t. count id (mgr.block_groups t))
          (λ t. count id (if t == th then g ∷ mgr.block_groups th else mgr.block_groups t)) l
          (λ t ne. ap (count id) (other t ne)),
      ap (count id) here,
      ap (count id) e,
      count-append id before (g ∷ after),
      count-append id before after,
    )
  where
    other :
        (t : ℕ)
        → t ≢ th
        → (if t == th then g ∷ mgr.block_groups th else mgr.block_groups t) ≡ mgr.block_groups t
    other t ne = rw (ne→not_eq t th ne) refl

    here :
        (if th == th then g ∷ mgr.block_groups th else mgr.block_groups th)
        ≡ g ∷ mgr.block_groups th
    here = rw (eq→== th th refl) refl

module _ (realloc : ℕ → ℕ → ℕ) (memory : ℕ → EcBlock) (set_idx : ℕ) (mgr : BlockGroupManagement)
    (th : ℕ) (held : List EcBlockGroup) (v : IsUnique mgr held) (l : th < mgr.worker_th_num)
    (room : mgr.block_idx_for_th th + mgr.worker_th_num * id_step < u64_mod) where
  abbrev new_id : ℕ
  new_id = mgr.block_idx_for_th th

  abbrev next_after : ℕ → ℕ
  next_after t = if t == th then v.next th + 1 else v.next t

  new_id-unused : count_all mgr held new_id ≡ 0
  new_id-unused = elim (ℕ_discrete (count_all mgr held new_id) 0) [
    | yes e ↦ e
    | no ne ↦
        let (t, k, lt, lk, e) = v.issued new_id (omega arith) in
        let same =
          id_of-injective mgr.worker_th_num th t (v.next th) k l lt (sym (v.idx_is th l) ∙ e) in
        absurd (omega (arith, same.1, ap v.next same.0))
  ]

  next_after-grows : (t : ℕ) → v.next t ≤ next_after t
  next_after-grows t = elim (ℕ_discrete t th) [
    | yes e ↦ rw (eq→== t th e) (omega (arith, ap v.next e))
    | no ne ↦ rw (ne→not_eq t th ne) (omega arith)
  ]

  idx_after :
      (t : ℕ)
      → t < mgr.worker_th_num
      → (if t == th
          then (mgr.block_idx_for_th th + mgr.worker_th_num * id_step) % u64_mod
          else mgr.block_idx_for_th t)
        ≡ id_of mgr.worker_th_num t (next_after t)
  idx_after t lt = elim (ℕ_discrete t th) [
    | yes e ↦ rw (eq→== t th e) (mod-eq_of_lt room ∙ grind (arith, v.idx_is th l, e))
    | no ne ↦ rw (ne→not_eq t th ne) (v.idx_is t lt)
  ]

  new-IsUnique : IsUnique (after_new realloc mgr th) (new_block_group memory set_idx mgr th ∷ held)
  unfolding after_new new_block_group
  new-IsUnique = record {
    next = next_after;
    idx_is = idx_after;
    once = λ id. elim (ℕ_discrete new_id id) [
      | yes e ↦ ground (arith, new_id-unused, ap (count_all mgr held) e)
      | no ne ↦ ground (arith, v.once id)
    ];
    issued = λ id some_here. elim (ℕ_discrete new_id id) [
      | yes e ↦ (th, v.next th, l, rw (eq→== th th refl) (omega arith), sym e ∙ v.idx_is th l)
      | no ne ↦
          let (t, k, lt, lk, e) = v.issued id (ground arith) in
          (t, k, lt, omega (arith, next_after-grows t), e)
    ];
  }

take_group-IsUnique :
    (realloc : ℕ → ℕ → ℕ) (memory : ℕ → EcBlock) (set_idx : ℕ) (mgr : BlockGroupManagement) (th : ℕ)
    (held gs : List EcBlockGroup)
    → IsUnique mgr held
    → th < mgr.worker_th_num
    → mgr.block_idx_for_th th + mgr.worker_th_num * id_step < u64_mod
    → mgr.block_groups th ≡ gs
    → IsUnique
        (take_group realloc memory set_idx mgr th gs).1
        ((take_group realloc memory set_idx mgr th gs).0 ∷ held)
unfolding take_group
take_group-IsUnique realloc memory set_idx mgr th held [] v l room e =
    new-IsUnique realloc memory set_idx mgr th held v l room
take_group-IsUnique realloc memory set_idx mgr th held (g ∷ gs) v l room e =
    reused-IsUnique mgr th g gs held v l e

sum_below_zero : (n : ℕ) → sum_below n (λ t. 0) ≡ 0
sum_below_zero zero = refl
sum_below_zero (suc n) = omega (arith, sum_below_zero n)

create_block_group_manager-IsUnique :
    (slab : BlockSlab) (k m w : ℕ)
    → w * id_step < u64_mod
    → IsUnique (create_block_group_manager slab k m w) []
unfolding create_block_group_manager
create_block_group_manager-IsUnique slab k m w room = record {
  next = λ t. 0;
  idx_is = λ t l. mod-eq_of_lt (omega arith) ∙ omega arith;
  once = λ id. omega (arith, sum_below_zero w);
  issued = λ id l. absurd (omega (arith, sum_below_zero w));
}

Step-IsUnique :
    {realloc : ℕ → ℕ → ℕ} {s t : Pool}
    → Step realloc s t
    → IsUnique s.manager s.held
    → IsUnique t.manager t.held
unfolding request_block_group
Step-IsUnique {realloc} {s} (requested th memory set_idx l room) v =
    take_group-IsUnique realloc memory set_idx s.manager th s.held (s.manager.block_groups th) v l
      room refl
Step-IsUnique {realloc} {s} (revoked th g before after l e) v =
    revoked-IsUnique s.manager th g before after s.held v l e

Reach-IsUnique :
    {realloc : ℕ → ℕ → ℕ} {slab : BlockSlab} {k m w : ℕ} {s : Pool}
    → w * id_step < u64_mod
    → Reach realloc slab k m w s
    → IsUnique s.manager s.held
Reach-IsUnique {realloc} {slab} {k} {m} {w} room start =
    create_block_group_manager-IsUnique slab k m w room
Reach-IsUnique room (later r step) = Step-IsUnique step (Reach-IsUnique room r)

-- Whatever the threads request and give back, no id belongs to two block groups: of the groups in
-- use and of those in the manager's lists, at most one has it, as long as the ids do not wrap round.
pub block_group_ids_unique :
    {realloc : ℕ → ℕ → ℕ} {slab : BlockSlab} {k m w : ℕ} {s : Pool} (id : ℕ)
    → w * id_step < u64_mod
    → Reach realloc slab k m w s
    → count_all s.manager s.held id ≤ 1
block_group_ids_unique id room r = (Reach-IsUnique room r).once id
