-- ===== src/Recovery/Marked.antt =====
-- The marks that markFailedBlocks of Recovery/Failed.antt leaves on the block groups.
use eset_store.Base.{
  ℕ, zero, suc, ◌<◌, ◌≡◌, ◌≢◌, false, refl, sym, ◌∙◌, ap, ◌⊎◌, inl, inr, some, List, [], ◌∷◌, ◌==◌,
  if◌then◌else◌, arith, length, get_elem?, eq→==, ne→not_eq,
}
use eset_store.Placement.Manager.{BlockGroupMapping, EcBlock, EcBlockGroup}
use eset_store.Recovery.Failed.{mark_missing, mark_chain}

-- The block of the row is lost.
abbrev pub IsLost : ℕ → List EcBlock → Type 0
IsLost row bs =
    (b : EcBlock) × (get_elem? bs row ≡ some b) × (b.missing_flag ≡ 1) × (b.recovered_flag ≡ 0)

abbrev pub InChain : ℕ → List BlockGroupMapping → Type 0
InChain p [] = ⊥
InChain p (m ∷ ms) = (m.block_group ≡ p) ⊎ InChain p ms

mark_missing_lem :
    (bs : List EcBlock) (row : ℕ)
    → row < length bs
    → (bs' : List EcBlock) × (mark_missing bs row ≡ some bs')
      × IsLost row bs'
      × (length bs' ≡ length bs)
      × ((i : ℕ) → i ≢ row → get_elem? bs' i ≡ get_elem? bs i)
unfolding mark_missing
mark_missing_lem [] row h = absurd (omega arith)
mark_missing_lem (b ∷ bs) zero h = (_, refl, (_, refl, refl, refl), refl, others)
  where
    others :
        (i : ℕ)
        → i ≢ 0
        → get_elem? (record b { missing_flag = 1; recovered_flag = 0 } ∷ bs) i
          ≡ get_elem? (b ∷ bs) i
    others zero ne = absurd (ne refl)
    others (suc i) ne = refl
mark_missing_lem (b ∷ bs) (suc row) h =
    let (bs', e, lost, same, kept) = mark_missing_lem bs row (omega arith) in
    (b ∷ bs', rw e refl, lost, ap suc same, others bs' kept)
  where
    others :
        (bs' : List EcBlock)
        → ((i : ℕ) → i ≢ row → get_elem? bs' i ≡ get_elem? bs i)
        → (i : ℕ) → i ≢ suc row
        → get_elem? (b ∷ bs') i ≡ get_elem? (b ∷ bs) i
    others bs' kept zero ne = refl
    others bs' kept (suc i) ne = kept i (λ e. ne (ap suc e))

module _ (row : ℕ) where
  -- Marks stay, and only blocks of the row are written.
  pub record Goes (store store' : ℕ → EcBlockGroup) : Type 0 where
    pub lost : (p : ℕ) → IsLost row (store p).blocks → IsLost row (store' p).blocks
    pub sized : (p : ℕ) → length (store' p).blocks ≡ length (store p).blocks
    pub kept : (p i : ℕ) → i ≢ row → get_elem? (store' p).blocks i ≡ get_elem? (store p).blocks i

  pub Goes-trans : {a b c : ℕ → EcBlockGroup} → Goes a b → Goes b c → Goes a c
  Goes-trans x y = record {
    lost = λ p l. y.lost p (x.lost p l);
    sized = λ p. y.sized p ∙ x.sized p;
    kept = λ p i ne. y.kept p i ne ∙ x.kept p i ne;
  }

  pub Goes-refl : {a : ℕ → EcBlockGroup} → Goes a a
  Goes-refl = record { lost = λ p l. l; sized = λ p. refl; kept = λ p i ne. refl }

  abbrev put : ℕ → List EcBlock → (ℕ → EcBlockGroup) → ℕ → EcBlockGroup
  put q bs store p = if p == q then record (store p) { blocks = bs } else store p

  put-Goes :
      (q : ℕ) (bs : List EcBlock) (store : ℕ → EcBlockGroup)
      → IsLost row bs
      → length bs ≡ length (store q).blocks
      → ((i : ℕ) → i ≢ row → get_elem? bs i ≡ get_elem? (store q).blocks i)
      → Goes store (put q bs store)
  put-Goes q bs store is_lost same others = record {
    lost = λ p l. elim (at p) [ inl e ↦ rw (e, eq→== q q refl) is_lost | inr ne ↦ rw ne l ];
    sized = λ p. elim (at p) [ inl e ↦ rw (e, eq→== q q refl) same | inr ne ↦ rw ne refl ];
    kept = λ p i ne. elim (at p) [
      | inl e ↦ rw (e, eq→== q q refl) (others i ne)
      | inr other ↦ rw other refl
    ];
  }
    where
      at : (p : ℕ) → (p ≡ q) ⊎ ((p == q) ≡ false)
      at p = ground arith

  pub mark_chain_lem :
      (ms : List BlockGroupMapping) (store : ℕ → EcBlockGroup)
      → ((p : ℕ) → InChain p ms → row < length (store p).blocks)
      → (store' : ℕ → EcBlockGroup) × (mark_chain row ms store ≡ some store')
        × Goes store store'
        × ((p : ℕ) → InChain p ms → IsLost row (store' p).blocks)
        × ((p : ℕ) → ¬ InChain p ms → store' p ≡ store p)
  unfolding mark_chain
  mark_chain_lem [] store rows = (store, refl, Goes-refl, λ p i. absurd i, λ p ne. refl)
  mark_chain_lem (m ∷ ms) store rows =
      let (bs, e, is_lost, same, others) =
        mark_missing_lem (store m.block_group).blocks row (rows m.block_group (inl refl)) in
      let first = put-Goes m.block_group bs store is_lost same others in
      let (store', e', later, all, rest) =
        mark_chain_lem ms (put m.block_group bs store)
          (λ p i. omega (arith, first.sized p, rows p (inr i))) in
      (
        store',
        rw (e, mark_chain) e',
        Goes-trans first later,
        λ p i. elim i [
          | inl here ↦
              rw (sym here)
                (later.lost m.block_group (rw (eq→== m.block_group m.block_group refl) is_lost))
          | inr there ↦ all p there
        ],
        λ p out.
            rest p (λ i. out (inr i))
            ∙ rw (ne→not_eq p m.block_group (λ q. out (inl (sym q)))) refl,
      )
