-- ===== src/Files/Unlink.antt =====
-- An item goes out of its chain: the writes at the end of deleteKeyValueItem (Files/Item.antt).
use eset_store.Base.{
  ℕ, ◌≡◌, ◌≢◌, refl, ap, sym, subst, ◌∙◌, Option, none, some, List, [], ◌∷◌, ◌++◌, eq→==, ne→not_eq,
  append_assoc, false,
}
use eset_store.Files.Item.{ItemStore, set_pre, set_next, is_head}
use eset_store.Files.Entries.{Entry, NotIn, AllDifferent, IsChain, PointBack}
use eset_store.Files.Chain.{
  set_next-SameBut, set_pre-SameBut, IsChain-elsewhere, IsChain-set_pre, PointBack-behind,
  PointBack-set_next,
}

set_next_self :
    (items : ItemStore) (p : ℕ) (after : Option ℕ) → (set_next items p after p).next ≡ after
unfolding set_next
set_next_self items p after = rw (eq→== p p refl) refl

set_next-key :
    (items : ItemStore) (p : ℕ) (after : Option ℕ) → (set_next items p after p).key ≡ (items p).key
unfolding set_next
set_next-key items p after = rw (eq→== p p refl) refl

set_next-key_size :
    (items : ItemStore) (p : ℕ) (after : Option ℕ)
    → (set_next items p after p).key_size ≡ (items p).key_size
unfolding set_next
set_next-key_size items p after = rw (eq→== p p refl) refl

pub set_pre_self : (items : ItemStore) (q p : ℕ) → (set_pre items (some q) p q).pre ≡ some p
unfolding set_pre
set_pre_self items q p = rw (eq→== q q refl) refl

ne-later :
    (p : ℕ) (xs : List Entry) (e : Entry) (es : List Entry) → NotIn p (xs ++ (e ∷ es)) → p ≢ e.0
ne-later p [] e es n = n.0
ne-later p (x ∷ xs) e es n = ne-later p xs e es n.1

NotIn-behind :
    (p : ℕ) (xs : List Entry) (e : Entry) (es : List Entry)
    → NotIn p (xs ++ (e ∷ es))
    → NotIn p (xs ++ es)
NotIn-behind p [] e es n = n.1
NotIn-behind p (x ∷ xs) e es n = (n.0, NotIn-behind p xs e es n.1)

-- The item `p` between `b` and the others goes out of the list of `b`.
IsChain-set_next :
    (items : ItemStore) (from : Option ℕ) (xs : List Entry) (b p : Entry) (es : List Entry)
    → AllDifferent (xs ++ (b ∷ (p ∷ es)))
    → IsChain items from (xs ++ (b ∷ (p ∷ es)))
    → IsChain (set_next items b.0 (items p.0).next) from (xs ++ (b ∷ es))
IsChain-set_next items from [] b p es d c = (
  c.0,
  set_next-key items b.0 (items p.0).next ∙ c.1,
  set_next-key_size items b.0 (items p.0).next ∙ c.2,
  subst (λ from'. IsChain (set_next items b.0 (items p.0).next) from' es)
      (sym (set_next_self items b.0 (items p.0).next))
      (IsChain-elsewhere b.0 items (set_next items b.0 (items p.0).next) (items p.0).next es
        (set_next-SameBut items b.0 (items p.0).next) d.0.1 c.3.3),
)
IsChain-set_next items from (x ∷ xs) b p es d c = (
  c.0,
  ap (λ item. item.key) at ∙ c.1,
  ap (λ item. item.key_size) at ∙ c.2,
  subst (λ from'. IsChain (set_next items b.0 (items p.0).next) from' (xs ++ (b ∷ es)))
      (ap (λ item. item.next) (sym at)) (IsChain-set_next items (items x.0).next xs b p es d.1 c.3),
)
  where
    at : set_next items b.0 (items p.0).next x.0 ≡ items x.0
    at = set_next-SameBut items b.0 (items p.0).next x.0 (ne-later x.0 xs b (p ∷ es) d.0)

PointBack-front :
    (items : ItemStore) (xs : List Entry) (b p : Entry)
    → PointBack items (xs ++ (b ∷ (p ∷ [])))
    → PointBack items (xs ++ (b ∷ []))
PointBack-front items [] b p back = tt
PointBack-front items (x ∷ []) b p back = (back.0, tt)
PointBack-front items (x ∷ (y ∷ ys)) b p back = (back.0, PointBack-front items (y ∷ ys) b p back.1)

PointBack-set_pre :
    (items : ItemStore) (xs : List Entry) (b p f : Entry) (fs : List Entry)
    → AllDifferent (xs ++ (b ∷ (p ∷ (f ∷ fs))))
    → PointBack items (xs ++ (b ∷ (p ∷ (f ∷ fs))))
    → PointBack (set_pre items (some f.0) b.0) (xs ++ (b ∷ (f ∷ fs)))
PointBack-set_pre items [] b p f fs d back = (
  set_pre_self items f.0 b.0,
  PointBack-behind f.0 items (set_pre items (some f.0) b.0) f fs (set_pre-SameBut items f.0 b.0)
      d.1.1.0 back.1.1,
)
PointBack-set_pre items (x ∷ []) b p f fs d back = (
  ap (λ item. item.pre) (set_pre-SameBut items f.0 b.0 b.0 d.1.0.1.0) ∙ back.0,
  PointBack-set_pre items [] b p f fs d.1 back.1,
)
PointBack-set_pre items (x ∷ (y ∷ ys)) b p f fs d back = (
  ap (λ item. item.pre)
        (set_pre-SameBut items f.0 b.0 y.0 (
          ne-later y.0 ys f fs
            (NotIn-behind y.0 ys p (f ∷ fs) (NotIn-behind y.0 ys b (p ∷ (f ∷ fs)) d.1.0))))
      ∙ back.0,
  PointBack-set_pre items (y ∷ ys) b p f fs d.1 back.1,
)

-- The writes of `unlink_item` take `p` out of the list, in both directions.
pub IsChain-unlink :
    (items : ItemStore) (from : Option ℕ) (xs : List Entry) (b p : Entry) (es : List Entry)
    → AllDifferent (xs ++ (b ∷ (p ∷ es)))
    → IsChain items from (xs ++ (b ∷ (p ∷ es)))
    → IsChain
        (set_pre (set_next items b.0 (items p.0).next) (items p.0).next b.0)
        from
        (xs ++ (b ∷ es))
IsChain-unlink items from xs b p es d c =
    IsChain-set_pre (set_next items b.0 (items p.0).next) (items p.0).next b.0 from (xs ++ (b ∷ es))
      (IsChain-set_next items from xs b p es d c)

pub PointBack-unlink :
    (items : ItemStore) (after : Option ℕ) (xs : List Entry) (b p : Entry) (es : List Entry)
    → AllDifferent (xs ++ (b ∷ (p ∷ es)))
    → IsChain items after es
    → PointBack items (xs ++ (b ∷ (p ∷ es)))
    → PointBack (set_pre (set_next items b.0 after) after b.0) (xs ++ (b ∷ es))
unfolding set_pre
PointBack-unlink items after xs b p [] d c back = rw c (
    PointBack-front (set_next items b.0 none) xs b p
      (PointBack-set_next items b.0 none (xs ++ (b ∷ (p ∷ []))) back))
PointBack-unlink items after xs b p (f ∷ fs) d c back = rw c.0 (
    PointBack-set_pre (set_next items b.0 (some f.0)) xs b p f fs d
      (PointBack-set_next items b.0 (some f.0) (xs ++ (b ∷ (p ∷ (f ∷ fs)))) back))

pub PointBack-tail :
    (items : ItemStore) (e : Entry) (es : List Entry)
    → PointBack items (e ∷ es)
    → PointBack items es
PointBack-tail items e [] b = tt
PointBack-tail items e (f ∷ fs) b = b.1

-- What stands in the item `p` between `b` and the others.
pub pre-at :
    (items : ItemStore) (xs : List Entry) (b p : Entry) (es : List Entry)
    → PointBack items (xs ++ (b ∷ (p ∷ es)))
    → (items p.0).pre ≡ some b.0
pre-at items [] b p es back = back.0
pre-at items (x ∷ []) b p es back = back.1.0
pre-at items (x ∷ (y ∷ ys)) b p es back = pre-at items (y ∷ ys) b p es back.1

pub next-at :
    (items : ItemStore) (from : Option ℕ) (xs : List Entry) (b p : Entry) (es : List Entry)
    → IsChain items from (xs ++ (b ∷ (p ∷ es)))
    → IsChain items (items p.0).next es
next-at items from [] b p es c = c.3.3
next-at items from (x ∷ xs) b p es c = next-at items (items x.0).next xs b p es c.3

pub is_head-at :
    (items : ItemStore) (from : Option ℕ) (xs : List Entry) (b p : Entry) (es : List Entry)
    → AllDifferent (xs ++ (b ∷ (p ∷ es)))
    → IsChain items from (xs ++ (b ∷ (p ∷ es)))
    → is_head from p.0 ≡ false
unfolding is_head
is_head-at items from [] b p es d c = rw (c.0, is_head) (ne→not_eq b.0 p.0 d.0.0)
is_head-at items from (x ∷ xs) b p es d c =
    rw (c.0, is_head)
      (ne→not_eq x.0 p.0 (
        ne-later x.0 (xs ++ (b ∷ [])) p es
          (subst (NotIn x.0) (sym (append_assoc xs (b ∷ []) (p ∷ es))) d.0)))
