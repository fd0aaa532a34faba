-- ===== src/Files/Chain.antt =====
-- How the writes of Files/Item.antt change the chains of items.
use native.Mathlib.Decide.{ℕ_discrete}
use eset_store.Base.{
  ℕ, zero, suc, ◌<◌, ◌≡◌, ◌≢◌, refl, ap, sym, subst, ◌∙◌, arith, Option, none, some, List, [], ◌∷◌,
  length, eq→==, ne→not_eq, Bool-cases, inl, inr,
}
use eset_store.Files.Item.{ItemStore, KeyValueItem, is_item_of, locate_item_from, set_pre, set_next}
use eset_store.Files.Entries.{Entry, same_key, find, NotIn, Apart, IsChain, PointBack}

is_item_of-same_key :
    (item : KeyValueItem) (k key : List ℕ)
    → item.key ≡ k
    → item.key_size ≡ length k
    → is_item_of item key ≡ same_key k key
unfolding is_item_of
is_item_of-same_key item k key e s = rw (e, s) refl

-- On a chain the loop ends with the first entry of the key.
pub locate_item_from-find :
    (fuel : ℕ) (items : ItemStore) (key : List ℕ) (from : Option ℕ) (es : List Entry)
    → IsChain items from es
    → length es < fuel
    → locate_item_from fuel items key from ≡ some (find key es)
unfolding locate_item_from
locate_item_from-find zero items key from es c h = absurd (omega arith)
locate_item_from-find (suc fuel) items key from [] c h = rw (c, locate_item_from) refl
locate_item_from-find (suc fuel) items key from (e ∷ es) c h =
    rw
      (
        c.0,
        locate_item_from,
        is_item_of-same_key (items e.0) e.1 key c.1 c.2,
        locate_item_from-find fuel items key (items e.0).next es c.3 (omega arith),
      )
      (elim (Bool-cases (same_key e.1 key)) [ inl t ↦ rw t refl | inr f ↦ rw f refl ])

-- What a write of `pre` leaves as it is.
pub set_pre-kept {ℓ} :
    {A : Type ℓ} (view : KeyValueItem → A)
    → ((item : KeyValueItem) (pre : Option ℕ) → view (record item { pre = pre }) ≡ view item)
    → (items : ItemStore) (q : Option ℕ) (p r : ℕ) → view (set_pre items q p r) ≡ view (items r)
unfolding set_pre
set_pre-kept view same items none p r = refl
set_pre-kept view same items (some q) p r = elim (ℕ_discrete r q) [
  | yes e ↦ rw (eq→== r q e) (same (items q) (some p) ∙ ap (λ y. view (items y)) (sym e))
  | no ne ↦ rw (ne→not_eq r q ne) refl
]

-- A store that differs at one address only.
abbrev pub SameBut : ℕ → ItemStore → ItemStore → Type 0
SameBut p items items' = (r : ℕ) → r ≢ p → items' r ≡ items r

pub set_next-SameBut :
    (items : ItemStore) (p : ℕ) (after : Option ℕ) → SameBut p items (set_next items p after)
unfolding set_next
set_next-SameBut items p after r ne = rw (ne→not_eq r p ne) refl

pub set_pre-SameBut : (items : ItemStore) (q p : ℕ) → SameBut q items (set_pre items (some q) p)
unfolding set_pre
set_pre-SameBut items q p r ne = rw (ne→not_eq r q ne) refl

pub IsChain-elsewhere :
    (p : ℕ) (items items' : ItemStore) (from : Option ℕ) (es : List Entry)
    → SameBut p items items'
    → NotIn p es
    → IsChain items from es
    → IsChain items' from es
IsChain-elsewhere p items items' from [] same n c = c
IsChain-elsewhere p items items' from (e ∷ es) same n c = (
  c.0,
  ap (λ item. item.key) at ∙ c.1,
  ap (λ item. item.key_size) at ∙ c.2,
  subst (λ from'. IsChain items' from' es) (ap (λ item. item.next) (sym at))
      (IsChain-elsewhere p items items' (items e.0).next es same n.1 c.3),
)
  where
    at : items' e.0 ≡ items e.0
    at = same e.0 (λ q. n.0 (sym q))

pub IsChain-set_pre :
    (items : ItemStore) (q : Option ℕ) (p : ℕ) (from : Option ℕ) (es : List Entry)
    → IsChain items from es
    → IsChain (set_pre items q p) from es
IsChain-set_pre items q p from [] c = c
IsChain-set_pre items q p from (e ∷ es) c = (
  c.0,
  set_pre-kept (λ item. item.key) (λ item pre. refl) items q p e.0 ∙ c.1,
  set_pre-kept (λ item. item.key_size) (λ item pre. refl) items q p e.0 ∙ c.2,
  subst (λ from'. IsChain (set_pre items q p) from' es)
      (sym (set_pre-kept (λ item. item.next) (λ item pre. refl) items q p e.0))
      (IsChain-set_pre items q p (items e.0).next es c.3),
)

pub PointBack-elsewhere :
    (p : ℕ) (items items' : ItemStore) (es : List Entry)
    → SameBut p items items'
    → NotIn p es
    → PointBack items es
    → PointBack items' es
PointBack-elsewhere p items items' [] same n b = tt
PointBack-elsewhere p items items' (e ∷ []) same n b = tt
PointBack-elsewhere p items items' (e ∷ (f ∷ fs)) same n b = (
  ap (λ item. item.pre) (same f.0 (λ q. n.1.0 (sym q))) ∙ b.0,
  PointBack-elsewhere p items items' (f ∷ fs) same n.1 b.1,
)

-- The first item of a list may change where the lists after it do not.
pub PointBack-behind :
    (p : ℕ) (items items' : ItemStore) (e : Entry) (es : List Entry)
    → SameBut p items items'
    → NotIn p es
    → PointBack items (e ∷ es)
    → PointBack items' (e ∷ es)
PointBack-behind p items items' e [] same n b = tt
PointBack-behind p items items' e (f ∷ fs) same n b = (
  ap (λ item. item.pre) (same f.0 (λ q. n.0 (sym q))) ∙ b.0,
  PointBack-elsewhere p items items' (f ∷ fs) same n b.1,
)

set_next-pre :
    (items : ItemStore) (p : ℕ) (after : Option ℕ) (r : ℕ)
    → (set_next items p after r).pre ≡ (items r).pre
unfolding set_next
set_next-pre items p after r = elim (ℕ_discrete r p) [
  | yes e ↦ rw (eq→== r p e) (ap (λ y. (items y).pre) (sym e))
  | no ne ↦ rw (ne→not_eq r p ne) refl
]

pub PointBack-set_next :
    (items : ItemStore) (p : ℕ) (after : Option ℕ) (es : List Entry)
    → PointBack items es
    → PointBack (set_next items p after) es
PointBack-set_next items p after [] b = tt
PointBack-set_next items p after (e ∷ []) b = tt
PointBack-set_next items p after (e ∷ (f ∷ fs)) b =
    (set_next-pre items p after f.0 ∙ b.0, PointBack-set_next items p after (f ∷ fs) b.1)

-- The write through the pointer to the first of other items.
pub PointBack-other_chain :
    (items before : ItemStore) (after : Option ℕ) (p : ℕ) (rest es : List Entry)
    → IsChain before after rest
    → Apart rest es
    → PointBack items es
    → PointBack (set_pre items after p) es
unfolding set_pre
PointBack-other_chain items before after p [] es r a back = rw r back
PointBack-other_chain items before after p (f ∷ fs) es r a back = rw r.0 (
    PointBack-elsewhere f.0 items (set_pre items (some f.0) p) es (set_pre-SameBut items f.0 p) a.0
      back)
