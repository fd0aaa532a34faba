-- ===== src/Coding/Erased.antt =====
-- The flags of the erased devices and the devices that are read, of Coding/Decode.antt.
use native.Mathlib.Decide.{ℕ_discrete}
use mathlib.Core.Option.{some-injective}
use mathlib.Core.Bool.{or-true, or-false}
use eset_store.Base.{
  ℕ, zero, suc, ◌+◌, ◌-◌, ◌<◌, ◌≤◌, ◌≡◌, refl, ap, sym, subst, ◌∙◌, arith, Bool, true, false, ◌||◌,
  ◌==◌, ltb, none, some, List, [], ◌∷◌, ◌++◌, length, get_elem?, set, length-set, replicate,
  length-replicate, ne→not_eq, eq→==, inl, inr, Bool-cases, if◌then◌else◌, AllDifferent, NotIn,
}
use eset_store.Coding.Decode.{mark_erased, gcrs_erasures_to_erased, choose_ids}
use eset_store.Coding.Restore.{AreBelow}

abbrev pub AreFlags : List ℕ → Type 0
AreFlags [] = Unit {0}
AreFlags (e ∷ es) = (e < 2) × AreFlags es

-- How many devices are not erased, and how many are.
abbrev pub alive : List ℕ → ℕ
alive [] = 0
alive (e ∷ es) = (if e == 0 then 1 else 0) + alive es

abbrev pub erased_num : List ℕ → ℕ
erased_num [] = 0
erased_num (e ∷ es) = (if e == 1 then 1 else 0) + erased_num es

pub alive-erased_num : (es : List ℕ) → AreFlags es → alive es + erased_num es ≡ length es
alive-erased_num [] f = omega arith
alive-erased_num (e ∷ es) f = ground (arith, f.0, alive-erased_num es f.1)

pub erased_num-append : (xs ys : List ℕ) → erased_num (xs ++ ys) ≡ erased_num xs + erased_num ys
erased_num-append [] ys = omega arith
erased_num-append (e ∷ es) ys = omega (arith, erased_num-append es ys)

alive-set : (es : List ℕ) (i : ℕ) → get_elem? es i ≡ some 0 → alive (set es i 1) + 1 ≡ alive es
alive-set [] i q = absurd (grind (arith, q))
alive-set (e ∷ es) zero q = rw (some-injective e 0 q) (omega arith)
alive-set (e ∷ es) (suc i) q = omega (arith, alive-set es i q)

AreFlags-set : (es : List ℕ) (i : ℕ) → AreFlags es → AreFlags (set es i 1)
AreFlags-set [] i f = tt
AreFlags-set (e ∷ es) zero f = (omega arith, f.1)
AreFlags-set (e ∷ es) (suc i) f = (f.0, AreFlags-set es i f.1)

AreFlags-replicate : (n : ℕ) → AreFlags (replicate n 0)
AreFlags-replicate zero = tt
AreFlags-replicate (suc n) = (omega arith, AreFlags-replicate n)

alive-replicate : (n : ℕ) → alive (replicate n 0) ≡ n
alive-replicate zero = refl
alive-replicate (suc n) = omega (arith, alive-replicate n)

abbrev pub is_in : ℕ → List ℕ → Bool
is_in e [] = false
is_in e (x ∷ xs) = (e == x) || is_in e xs

-- Is the flag of this device set?
abbrev pub is_set : List ℕ → ℕ → Bool
is_set es i = elim (get_elem? es i) [ some e ↦ e == 1 | none ↦ false ]

NotIn-not_in : (e : ℕ) (xs : List ℕ) → NotIn e xs → is_in e xs ≡ false
NotIn-not_in e [] h = refl
NotIn-not_in e (x ∷ xs) h = rw (ne→not_eq e x h.0) (NotIn-not_in e xs h.1)

suc-eq-suc : (i j : ℕ) → (suc i == suc j) ≡ (i == j)
suc-eq-suc i j = ground arith

is_set-set :
    (es : List ℕ) (i j : ℕ) → i < length es → is_set (set es i 1) j ≡ ((j == i) || is_set es j)
is_set-set [] i j lt = absurd (omega arith)
is_set-set (e ∷ es) zero zero lt = refl
is_set-set (e ∷ es) zero (suc j) lt = rw (ne→not_eq (suc j) 0 (λ q. absurd (omega (arith, q)))) refl
is_set-set (e ∷ es) (suc i) zero lt = rw (ne→not_eq 0 (suc i) (λ q. absurd (omega (arith, q)))) refl
is_set-set (e ∷ es) (suc i) (suc j) lt = rw (suc-eq-suc j i) (is_set-set es i j (omega arith))

flag_zero :
    (es : List ℕ) (i : ℕ)
    → AreFlags es
    → i < length es
    → is_set es i ≡ false
    → get_elem? es i ≡ some 0
flag_zero [] i f lt q = absurd (omega arith)
flag_zero (e ∷ es) zero f lt q = ap some (ground (arith, f.0, q))
flag_zero (e ∷ es) (suc i) f lt q = flag_zero es i f.1 (omega arith) q

or_rotate : (x y z : Bool) → (x || (y || z)) ≡ ((y || x) || z)
or_rotate x y z = ground arith

pub ge→not_ltb : (a b : ℕ) → b ≤ a → ltb a b ≡ false
ge→not_ltb a b h = ground arith

is_set-replicate : (n e : ℕ) → is_set (replicate n 0) e ≡ false
is_set-replicate zero e = refl
is_set-replicate (suc n) zero = refl
is_set-replicate (suc n) (suc e) = is_set-replicate n e

-- A mark of another device leaves the rest unmarked.
still :
    (e : ℕ) (es erased : List ℕ)
    → e < length erased
    → NotIn e es
    → ((x : ℕ) → is_in x es ≡ true → is_set erased x ≡ false)
    → (x : ℕ) → is_in x es ≡ true
    → is_set (set erased e 1) x ≡ false
still e es erased lt fresh h x q = is_set-set erased e x lt ∙ elim (ℕ_discrete x e) [
  | yes same ↦ absurd (cc (NotIn-not_in e es fresh, subst (λ y. is_in y es ≡ true) same q))
  | no ne ↦ rw (ne→not_eq x e ne) (h x q)
]

-- With different erasures of devices that there are, no more than `left` less k, all are marked.
mark_erased_lem :
    (k left : ℕ) (erased es : List ℕ)
    → AreFlags erased
    → alive erased ≡ left
    → k + length es ≤ left
    → AreBelow (length erased) es
    → AllDifferent es
    → ((e : ℕ) → is_in e es ≡ true → is_set erased e ≡ false)
    → (erases : List ℕ) × (mark_erased k left erased es ≡ some (some erases))
      × AreFlags erases
      × (length erases ≡ length erased)
      × (k ≤ alive erases)
      × ((e : ℕ) → is_set erases e ≡ (is_in e es || is_set erased e))
unfolding mark_erased
mark_erased_lem k left erased [] f a room below different fresh =
    (erased, refl, f, refl, omega arith, λ e. refl)
mark_erased_lem k left erased (e ∷ es) f a room below different fresh =
    let zero_flag = flag_zero erased e f below.0 (fresh e (rw (eq→== e e refl) refl)) in
    let (erases, run, flags, len, enough, sets) =
      mark_erased_lem k (left - 1) (set erased e 1) es (AreFlags-set erased e f)
        (omega (arith, alive-set erased e zero_flag)) (omega arith)
        (subst (λ n. AreBelow n es) (sym (length-set erased e 1)) below.1) different.1
        (still e es erased below.0 different.0 (λ x q. fresh x (rw q (or-true (x == e))))) in
    (
      erases,
      rw (zero_flag, ge→not_ltb (left - 1) k (omega arith), run) refl,
      flags,
      len ∙ length-set erased e 1,
      enough,
      λ x.
          sets x
          ∙ rw (is_set-set erased e x below.0) (or_rotate (is_in x es) (x == e) (is_set erased x)),
    )

-- Which devices the flags of gcrs_erasures_to_erased stand for.
pub gcrs_erasures_to_erased_lem :
    (k m : ℕ) (erasures : List ℕ)
    → AreBelow (k + m) erasures
    → AllDifferent erasures
    → length erasures ≤ m
    → (erases : List ℕ) × (gcrs_erasures_to_erased k m erasures ≡ some (some erases))
      × AreFlags erases
      × (length erases ≡ k + m)
      × (k ≤ alive erases)
      × ((e : ℕ) → is_set erases e ≡ is_in e erasures)
unfolding gcrs_erasures_to_erased
gcrs_erasures_to_erased_lem k m erasures below different room =
    let none_set = replicate (k + m) 0 in
    let (erases, run, flags, len, enough, sets) =
      mark_erased_lem k (k + m) none_set erasures (AreFlags-replicate (k + m))
        (alive-replicate (k + m)) (omega arith)
        (subst (λ n. AreBelow n erasures) (sym (length-replicate (k + m) 0)) below) different
        (λ e q. is_set-replicate (k + m) e) in
    (
      erases,
      run,
      flags,
      len ∙ length-replicate (k + m) 0,
      enough,
      λ e. sets e ∙ rw (is_set-replicate (k + m) e) (or-false (is_in e erasures)),
    )

abbrev pub Ascends : ℕ → List ℕ → Type 0
Ascends i [] = Unit {0}
Ascends i (x ∷ xs) = (i ≤ x) × Ascends (x + 1) xs

Ascends-NotIn : (i p : ℕ) (xs : List ℕ) → Ascends i xs → p < i → NotIn p xs
Ascends-NotIn i p [] a lt = tt
Ascends-NotIn i p (x ∷ xs) a lt =
    ((λ e. absurd (omega (arith, a.0, e))), Ascends-NotIn (x + 1) p xs a.1 (omega (arith, a.0)))

pub Ascends-AllDifferent : (i : ℕ) (xs : List ℕ) → Ascends i xs → AllDifferent xs
Ascends-AllDifferent i [] a = tt
Ascends-AllDifferent i (x ∷ xs) a =
    (Ascends-NotIn (x + 1) x xs a.1 (omega arith), Ascends-AllDifferent (x + 1) xs a.1)

Ascends-suc : (i : ℕ) (xs : List ℕ) → Ascends (i + 1) xs → Ascends i xs
Ascends-suc i [] a = tt
Ascends-suc i (x ∷ xs) a = (omega (arith, a.0), a.1)

AreBelow-eq : (n m : ℕ) (xs : List ℕ) → n ≡ m → AreBelow n xs → AreBelow m xs
AreBelow-eq n m xs e h = subst (λ x. AreBelow x xs) e h

-- Where enough devices are alive, as many as are needed are chosen.
pub choose_ids_lem :
    (needed i : ℕ) (es : List ℕ)
    → needed ≤ alive es
    → (ids : List ℕ) × (choose_ids needed i es ≡ some ids)
      × (length ids ≡ needed)
      × Ascends i ids
      × AreBelow (i + length es) ids
unfolding choose_ids
choose_ids_lem zero i es h = ([], refl, refl, tt, tt)
choose_ids_lem (suc needed) i [] h = absurd (omega arith)
choose_ids_lem (suc needed) i (e ∷ es) h = elim (Bool-cases (e == 0)) [
  | inl t ↦
      let (ids, run, len, asc, below) = choose_ids_lem needed (i + 1) es (ground (arith, h, t)) in
      (
        i ∷ ids,
        rw (t, run) refl,
        omega (arith, len),
        (omega arith, asc),
        (
          omega arith,
          AreBelow-eq (i + 1 + length es) (i + suc (length es)) ids (omega arith) below,
        ),
      )
  | inr f ↦
      let (ids, run, len, asc, below) =
        choose_ids_lem (suc needed) (i + 1) es (ground (arith, h, f)) in
      (
        ids,
        rw (f, run) refl,
        len,
        Ascends-suc i ids asc,
        AreBelow-eq (i + 1 + length es) (i + suc (length es)) ids (omega arith) below,
      )
]
