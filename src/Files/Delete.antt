-- ===== src/Files/Delete.antt =====
-- deleteKeyValueItem of Files/Item.antt on the entries of its chains.
use native.Mathlib.Decide.{ℕ_discrete}
use eset_store.Base.{
  ℕ, ◌<◌, ◌≡◌, ◌≢◌, refl, ap, sym, subst, ◌∙◌, arith, Option, some, List, [], ◌∷◌, ◌++◌, length,
  eq→==, ne→not_eq, inl, inr,
}
use eset_store.Files.Item.{
  ItemStore, KeyValueEngine, set_pre, set_next, set_chain, is_head, unlink_item,
  delete_key_value_item,
}
use eset_store.Files.Entries.{
  Entry, find, remove, NotIn, AllDifferent, Apart, IsChain, PointBack, Holds, set_entries,
}
use eset_store.Files.Lists.{
  AllDifferent-remove, Apart-remove, Apart-remove_right, KeysDiffer-remove, NotIn-Apart, Apart-at,
  found_where, remove-middle,
}
use eset_store.Files.Chain.{
  set_next-SameBut, IsChain-elsewhere, IsChain-set_pre, PointBack-set_next, PointBack-other_chain,
}
use eset_store.Files.Unlink.{
  IsChain-unlink, PointBack-unlink, PointBack-tail, pre-at, next-at, is_head-at,
}
use eset_store.Files.Table.{chain_of, locate_key_value_item-find, ChainHolds, Holds-set_entries}

-- The first entry of a chain that holds `p` goes by the chain's head alone.
unlink_head :
    (engine : KeyValueEngine) (entries : ℕ → List Entry) (idx : ℕ) (e : Entry) (es : List Entry)
    → Holds engine entries
    → entries idx ≡ e ∷ es
    → (engine' : KeyValueEngine) × (unlink_item engine idx e.0 ≡ some (some e.0, engine'))
      × (engine'.key_chain_size ≡ engine.key_chain_size)
      × ((i : ℕ) → ChainHolds engine' i (set_entries entries idx es i))
unfolding unlink_item is_head set_chain
unlink_head engine entries idx e es v h = (
  record engine { key_value_chain = set_chain engine.key_value_chain idx (engine.items e.0).next },
  rw (c.0, is_head, eq→== e.0 e.0 refl) refl,
  refl,
  λ i. elim (ℕ_discrete i idx) [
    | yes q ↦ rw (eq→== i idx q) (record {
      chain = rw (eq→== i idx q) c.3;
      back = PointBack-tail engine.items e es (subst (PointBack engine.items) h (v.back idx));
    })
    | no ne ↦
        rw (ne→not_eq i idx ne)
          (record { chain = rw (ne→not_eq i idx ne) (v.chain i); back = v.back i })
  ],
)
  where
    c : IsChain engine.items (engine.key_value_chain idx) (e ∷ es)
    c = subst (IsChain engine.items (engine.key_value_chain idx)) h (v.chain idx)

-- The writes for one chain in another one.
unlink_elsewhere :
    (items : ItemStore) (from after : Option ℕ) (b : ℕ) (rest es : List Entry)
    → IsChain items after rest
    → Apart rest es
    → NotIn b es
    → IsChain items from es
    → PointBack items es
    → IsChain (set_pre (set_next items b after) after b) from es
      × PointBack (set_pre (set_next items b after) after b) es
unlink_elsewhere items from after b rest es r a n c back = (
  IsChain-set_pre (set_next items b after) after b from es (
      IsChain-elsewhere b items (set_next items b after) from es (set_next-SameBut items b after) n
        c),
  PointBack-other_chain (set_next items b after) items after b rest es r a
      (PointBack-set_next items b after es back),
)

-- Any other entry goes by the items before and after it.
unlink_middle :
    (engine : KeyValueEngine) (entries : ℕ → List Entry) (idx : ℕ) (xs : List Entry) (b p : Entry)
    (rest : List Entry)
    → Holds engine entries
    → entries idx ≡ xs ++ (b ∷ (p ∷ rest))
    → (engine' : KeyValueEngine) × (unlink_item engine idx p.0 ≡ some (some p.0, engine'))
      × (engine'.key_chain_size ≡ engine.key_chain_size)
      × ((i : ℕ) → ChainHolds engine' i (set_entries entries idx (xs ++ (b ∷ rest)) i))
unfolding unlink_item
unlink_middle engine entries idx xs b p rest v h = (
  record engine { items = set_pre (set_next engine.items b.0 after) after b.0 },
  rw
      (
        is_head-at engine.items (engine.key_value_chain idx) xs b p rest d c,
        pre-at engine.items xs b p rest back,
      )
      refl,
  refl,
  λ i. elim (ℕ_discrete i idx) [
    | yes q ↦ rw (eq→== i idx q) (record {
      chain =
          subst
            (λ j.
              IsChain (set_pre (set_next engine.items b.0 after) after b.0)
                (engine.key_value_chain j) (xs ++ (b ∷ rest)))
            (sym q) (IsChain-unlink engine.items (engine.key_value_chain idx) xs b p rest d c);
      back =
          PointBack-unlink engine.items after xs b p rest d
            (next-at engine.items (engine.key_value_chain idx) xs b p rest c) back;
    })
    | no ne ↦
        rw (ne→not_eq i idx ne) (record { chain = (elsewhere i ne).0; back = (elsewhere i ne).1 })
  ],
)
  where
    elsewhere :
        (i : ℕ)
        → i ≢ idx
        → IsChain
            (set_pre
              (set_next engine.items b.0 (engine.items p.0).next)
              (engine.items p.0).next
              b.0)
            (engine.key_value_chain i)
            (entries i)
          × PointBack
              (set_pre
                (set_next engine.items b.0 (engine.items p.0).next)
                (engine.items p.0).next
                b.0)
              (entries i)
    elsewhere i ne =
        let a = subst (λ es. Apart es (entries i)) h (v.apart idx i (λ e. ne (sym e))) in
        unlink_elsewhere engine.items (engine.key_value_chain i) (engine.items p.0).next b.0 rest
          (entries i)
          (next-at engine.items (engine.key_value_chain idx) xs b p rest
            (subst (IsChain engine.items (engine.key_value_chain idx)) h (v.chain idx)))
          (Apart-at xs b p rest (entries i) a) (NotIn-Apart xs b (p ∷ rest) (entries i) a)
          (v.chain i) (v.back i)

    after : Option ℕ
    after = (engine.items p.0).next

    c : IsChain engine.items (engine.key_value_chain idx) (xs ++ (b ∷ (p ∷ rest)))
    c = subst (IsChain engine.items (engine.key_value_chain idx)) h (v.chain idx)

    back : PointBack engine.items (xs ++ (b ∷ (p ∷ rest)))
    back = subst (PointBack engine.items) h (v.back idx)

    d : AllDifferent (xs ++ (b ∷ (p ∷ rest)))
    d = subst AllDifferent h (v.different idx)

-- The call at the item `p` of a chain, which has the entries `es` after it.
abbrev Unlinked : KeyValueEngine → (ℕ → List Entry) → ℕ → ℕ → List Entry → Type 0
Unlinked engine entries idx p es =
    (engine' : KeyValueEngine) × (unlink_item engine idx p ≡ some (some p, engine'))
    × (engine'.key_chain_size ≡ engine.key_chain_size)
    × ((i : ℕ) → ChainHolds engine' i (set_entries entries idx es i))

remove-first : (e : Entry) (es : List Entry) → remove e.0 (e ∷ es) ≡ es
remove-first e es = rw (eq→== e.0 e.0 refl) refl

unlink_found :
    (engine : KeyValueEngine) (key : List ℕ) (entries : ℕ → List Entry) (idx p : ℕ)
    (es : List Entry)
    → Holds engine entries
    → entries idx ≡ es
    → find key es ≡ some p
    → Unlinked engine entries idx p (remove p es)
unlink_found engine key entries idx p [] v h found = absurd (grind (arith, found))
unlink_found engine key entries idx p (e ∷ es) v h found = elim (found_where key e es p found) [
  | inl at ↦
      subst (λ q. Unlinked engine entries idx q (remove q (e ∷ es))) at
        (subst (Unlinked engine entries idx e.0) (sym (remove-first e es))
          (unlink_head engine entries idx e es v h))
  | inr (xs, b, q, rest, eq, at) ↦
      subst (λ r. Unlinked engine entries idx r (remove r (e ∷ es))) at
        (subst (Unlinked engine entries idx q.0)
          (sym (
            ap (remove q.0) eq
            ∙ remove-middle xs b q rest (subst AllDifferent (h ∙ eq) (v.different idx))))
          (unlink_middle engine entries idx xs b q rest v (h ∙ eq)))
]

-- Where a key is found, deleteKeyValueItem returns its item, without a fault, and takes it alone out
-- of its chain.
pub delete_key_value_item-Holds :
    (fuel : ℕ) (engine : KeyValueEngine) (key : List ℕ) (hash p : ℕ) (entries : ℕ → List Entry)
    → Holds engine entries
    → length (entries (chain_of engine hash)) < fuel
    → find key (entries (chain_of engine hash)) ≡ some p
    → (engine' : KeyValueEngine) × (delete_key_value_item fuel engine key hash
        ≡ some (some p, engine'))
      × (engine'.key_chain_size ≡ engine.key_chain_size)
      × Holds engine'
          (set_entries entries (chain_of engine hash) (remove p (entries (chain_of engine hash))))
unfolding delete_key_value_item
delete_key_value_item-Holds fuel engine key hash p entries v h found =
    let (engine', unlinked, size, chains) =
      unlink_found engine key entries (chain_of engine hash) p (entries (chain_of engine hash)) v
        refl found in
    (
      engine',
      rw (locate_key_value_item-find fuel engine key hash entries v h, found) unlinked,
      size,
      Holds-set_entries engine' entries (chain_of engine hash)
          (remove p (entries (chain_of engine hash))) chains
          (AllDifferent-remove p (entries (chain_of engine hash))
            (v.different (chain_of engine hash)))
          (KeysDiffer-remove p (entries (chain_of engine hash)) (v.keys (chain_of engine hash)))
          (λ i ne. (
            Apart-remove p (entries (chain_of engine hash)) (entries i)
                (v.apart (chain_of engine hash) i (λ e. ne (sym e))),
            Apart-remove_right p (entries i) (entries (chain_of engine hash))
                (v.apart i (chain_of engine hash) ne),
          ))
          v.different v.keys v.apart,
    )
