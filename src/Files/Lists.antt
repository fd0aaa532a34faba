-- ===== src/Files/Lists.antt =====
-- Lists of entries: what stays of their order and keys when an entry goes.
use eset_store.Base.{
  arith, ℕ, ◌≡◌, ◌≢◌, refl, ap, sym, Bool, true, false, Option, none, some, List, [], ◌∷◌, ◌++◌,
  ◌==◌, if◌then◌else◌, eq→==, ne→not_eq, Bool-cases, inl, inr, ◌⊎◌,
}
use eset_store.Files.Entries.{Entry, same_key, find, remove, NotIn, AllDifferent, Apart, KeysDiffer}

pub NotIn-remove : (q p : ℕ) (es : List Entry) → NotIn q es → NotIn q (remove p es)
NotIn-remove q p [] n = tt
NotIn-remove q p (e ∷ es) n = elim (Bool-cases (e.0 == p)) [
  | inl t ↦ rw t n.1
  | inr f ↦ rw f (n.0, NotIn-remove q p es n.1)
]

pub AllDifferent-remove : (p : ℕ) (es : List Entry) → AllDifferent es → AllDifferent (remove p es)
AllDifferent-remove p [] d = tt
AllDifferent-remove p (e ∷ es) d = elim (Bool-cases (e.0 == p)) [
  | inl t ↦ rw t d.1
  | inr f ↦ rw f (NotIn-remove e.0 p es d.0, AllDifferent-remove p es d.1)
]

pub Apart-remove : (p : ℕ) (es fs : List Entry) → Apart es fs → Apart (remove p es) fs
Apart-remove p [] fs a = tt
Apart-remove p (e ∷ es) fs a = elim (Bool-cases (e.0 == p)) [
  | inl t ↦ rw t a.1
  | inr f ↦ rw f (a.0, Apart-remove p es fs a.1)
]

pub Apart-remove_right : (p : ℕ) (es fs : List Entry) → Apart es fs → Apart es (remove p fs)
Apart-remove_right p [] fs a = tt
Apart-remove_right p (e ∷ es) fs a = (NotIn-remove e.0 p fs a.0, Apart-remove_right p es fs a.1)

pub if_none :
    (b : Bool) (p : ℕ) (o : Option ℕ) → (if b then some p else o) ≡ none → (b ≡ false) × (o ≡ none)
if_none true p o h = grind (arith, h)
if_none false p o h = (refl, h)

pub if_some :
    (b : Bool) (p q : ℕ) (o : Option ℕ)
    → (if b then some p else o) ≡ some q
    → (p ≡ q) ⊎ (o ≡ some q)
if_some true p q o h = inl (grind (arith, h))
if_some false p q o h = inr h

find_of_remaining :
    (key : List ℕ) (p : ℕ) (es : List Entry) → find key es ≡ none → find key (remove p es) ≡ none
find_of_remaining key p [] h = refl
find_of_remaining key p (e ∷ es) h = elim (Bool-cases (e.0 == p)) [
  | inl t ↦ rw t (if_none (same_key e.1 key) e.0 (find key es) h).1
  | inr f ↦
      rw (f, (if_none (same_key e.1 key) e.0 (find key es) h).0)
        (find_of_remaining key p es (if_none (same_key e.1 key) e.0 (find key es) h).1)
]

pub KeysDiffer-remove : (p : ℕ) (es : List Entry) → KeysDiffer es → KeysDiffer (remove p es)
KeysDiffer-remove p [] d = tt
KeysDiffer-remove p (e ∷ es) d = elim (Bool-cases (e.0 == p)) [
  | inl t ↦ rw t d.1
  | inr f ↦ rw f (find_of_remaining e.1 p es d.0, KeysDiffer-remove p es d.1)
]

pub Apart-cons : (es fs : List Entry) (f : Entry) → NotIn f.0 es → Apart es fs → Apart es (f ∷ fs)
Apart-cons [] fs f n a = tt
Apart-cons (e ∷ es) fs f n a = ((λ q. n.0 (sym q), a.0), Apart-cons es fs f n.1 a.1)

pub NotIn-Apart :
    (xs : List Entry) (e : Entry) (es fs : List Entry) → Apart (xs ++ (e ∷ es)) fs → NotIn e.0 fs
NotIn-Apart [] e es fs a = a.0
NotIn-Apart (x ∷ xs) e es fs a = NotIn-Apart xs e es fs a.1

pub Apart-at :
    (xs : List Entry) (b p : Entry) (es fs : List Entry)
    → Apart (xs ++ (b ∷ (p ∷ es))) fs
    → Apart es fs
Apart-at [] b p es fs a = a.1.1
Apart-at (x ∷ xs) b p es fs a = Apart-at xs b p es fs a.1

-- An entry that is found is the first one, or has another entry right before it.
pub found_where :
    (key : List ℕ) (e : Entry) (es : List Entry) (q : ℕ)
    → find key (e ∷ es) ≡ some q
    → (e.0 ≡ q)
      ⊎ ((xs : List Entry) × (b : Entry) × (p : Entry) × (rest : List Entry) × (e ∷ es
            ≡ xs ++ (b ∷ (p ∷ rest)))
          × (p.0 ≡ q))
found_where key e [] q h = elim (if_some (same_key e.1 key) e.0 q none h) [
  | inl t ↦ inl t
  | inr n ↦ absurd (grind (arith, n))
]
found_where key e (f ∷ fs) q h = elim (if_some (same_key e.1 key) e.0 q (find key (f ∷ fs)) h) [
  | inl t ↦ inl t
  | inr n ↦ elim (found_where key f fs q n) [
    | inl at ↦ inr ([], e, f, fs, refl, at)
    | inr (xs, b, p, rest, eq, at) ↦ inr (e ∷ xs, b, p, rest, ap (◌∷◌ e) eq, at)
  ]
]

ne-later :
    (q : ℕ) (xs : List Entry) (b p : Entry) (rest : List Entry)
    → NotIn q (xs ++ (b ∷ (p ∷ rest)))
    → q ≢ p.0
ne-later q [] b p rest n = n.1.0
ne-later q (x ∷ xs) b p rest n = ne-later q xs b p rest n.1

pub remove-middle :
    (xs : List Entry) (b p : Entry) (rest : List Entry)
    → AllDifferent (xs ++ (b ∷ (p ∷ rest)))
    → remove p.0 (xs ++ (b ∷ (p ∷ rest))) ≡ xs ++ (b ∷ rest)
remove-middle [] b p rest d = rw (ne→not_eq b.0 p.0 d.0.0, eq→== p.0 p.0 refl) refl
remove-middle (x ∷ xs) b p rest d =
    rw (ne→not_eq x.0 p.0 (ne-later x.0 xs b p rest d.0))
      (ap (◌∷◌ x) (remove-middle xs b p rest d.1))
