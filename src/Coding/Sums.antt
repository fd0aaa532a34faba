-- ===== src/Coding/Sums.antt =====
-- Sums of bits in parts: Coding/Parity.antt.
use mathlib.Core.Bool.{xor}
use native.Mathlib.Nat.{suc-mul, add-suc, zero-mul}
use eset_store.Base.{ℕ, zero, suc, ◌+◌, ◌*◌, ◌≡◌, ap, sym, ◌∙◌, arith, Bool, false}
use eset_store.Coding.Parity.{parity, parity-eq, xor-false}

pub xor_assoc : (a b c : Bool) → xor (xor a b) c ≡ xor a (xor b c)
unfolding xor
xor_assoc a b c = ground arith

pub xor_comm : (a b : Bool) → xor a b ≡ xor b a
unfolding xor
xor_comm a b = ground arith

pub false-xor : (a : Bool) → xor false a ≡ a
unfolding xor
false-xor a = ground arith

pub parity-first : (n : ℕ) (f : ℕ → Bool) → parity (suc n) f ≡ xor (f 0) (parity n (λ k. f (suc k)))
unfolding parity
parity-first zero f = xor_comm false (f 0)
parity-first (suc n) f =
    ap (λ z. xor z (f (suc n))) (parity-first n f)
    ∙ xor_assoc (f 0) (parity n (λ k. f (suc k))) (f (suc n))

-- The sum from q on, with its first bit taken out.
pub parity_from :
    (n q : ℕ) (f : ℕ → Bool)
    → parity (suc n) (λ p. f (q + p)) ≡ xor (f q) (parity n (λ p. f (q + 1 + p)))
parity_from n q f =
    parity-first n (λ p. f (q + p))
    ∙ ap (λ x. xor (f x) (parity n (λ p. f (q + suc p)))) here
    ∙ ap (λ z. xor (f q) z)
        (parity-eq n (λ p. f (q + suc p)) (λ p. f (q + 1 + p)) (λ p lt. ap f (later p)))
  where
    here : q + 0 ≡ q
    here = omega arith

    later : (p : ℕ) → q + suc p ≡ q + 1 + p
    later p = omega arith

-- Four bits in another order.
pub xor_left_comm : (a b c : Bool) → xor a (xor b c) ≡ xor b (xor a c)
unfolding xor
xor_left_comm a b c = ground arith

parity-add :
    (n m : ℕ) (f : ℕ → Bool) → parity (n + m) f ≡ xor (parity n f) (parity m (λ i. f (n + i)))
unfolding parity
parity-add n zero f = ap (λ x. parity x f) (n+0 n) ∙ sym (xor-false (parity n f))
  where
    n+0 : (n : ℕ) → n + 0 ≡ n
    n+0 n = omega arith
parity-add n (suc m) f =
    ap (λ x. parity x f) (add-suc n m)
    ∙ ap (λ z. xor z (f (n + m))) (parity-add n m f)
    ∙ xor_assoc (parity n f) (parity m (λ i. f (n + i))) (f (n + m))

-- A sum over k blocks of w bits.
pub parity-blocks :
    (k w : ℕ) (f : ℕ → Bool) → parity (k * w) f ≡ parity k (λ q. parity w (λ a. f (q * w + a)))
unfolding parity
parity-blocks zero w f = ap (λ x. parity x f) (zero-mul w)
parity-blocks (suc k) w f =
    ap (λ x. parity x f) (suc-mul k w)
    ∙ parity-add (k * w) w f
    ∙ ap (λ z. xor z (parity w (λ a. f (k * w + a)))) (parity-blocks k w f)
