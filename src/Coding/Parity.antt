-- ===== src/Coding/Parity.antt =====
-- Sums of bits, and products of bit matrices with vectors.
use mathlib.Core.Bool.{xor}
use native.Mathlib.Decide.{ℕ_discrete}
use eset_store.Base.{
  ℕ, zero, suc, ◌<◌, ◌≢◌, ◌≡◌, refl, ap, ap₂, sym, ◌∙◌, arith, Bool, true, false, ◌&&◌, ◌==◌,
  ne→not_eq, eq→==,
}

pub xor_shuffle : (a b c d : Bool) → xor (xor a b) (xor c d) ≡ xor (xor a c) (xor b d)
unfolding xor
xor_shuffle a b c d = ground arith

pub xor-false : (a : Bool) → xor a false ≡ a
unfolding xor
xor-false a = ground arith

pub xor_self : (a : Bool) → xor a a ≡ false
unfolding xor
xor_self a = ground arith

pub and-xor : (a b c : Bool) → (a && xor b c) ≡ xor (a && b) (a && c)
unfolding xor
and-xor a b c = ground arith

pub xor-and : (a b c : Bool) → (xor a b && c) ≡ xor (a && c) (b && c)
unfolding xor
xor-and a b c = ground arith

pub xor-and_self : (a : Bool) → xor a (a && true) ≡ false
unfolding xor
xor-and_self a = ground arith

pub false-xor-and : (a : Bool) → xor false (a && false) ≡ false
unfolding xor
false-xor-and a = ground arith

pub xor-and-false : (a b : Bool) → xor a (b && false) ≡ a
unfolding xor
xor-and-false a b = ground arith

-- The sum of the first n bits.
unfoldable pub parity : ℕ → (ℕ → Bool) → Bool
parity zero f = false
parity (suc n) f = xor (parity n f) (f n)

pub parity-xor :
    (n : ℕ) (f g : ℕ → Bool) → parity n (λ k. xor (f k) (g k)) ≡ xor (parity n f) (parity n g)
unfolding parity xor
parity-xor zero f g = refl
parity-xor (suc n) f g =
    ap (λ z. xor z (xor (f n) (g n))) (parity-xor n f g)
    ∙ xor_shuffle (parity n f) (parity n g) (f n) (g n)

pub parity-and : (n : ℕ) (b : Bool) (f : ℕ → Bool) → parity n (λ k. b && f k) ≡ (b && parity n f)
unfolding parity xor
parity-and zero b f = ground arith
parity-and (suc n) b f = ground (arith, parity-and n b f)

-- Sums of bits that agree below n.
pub parity-eq : (n : ℕ) (f g : ℕ → Bool) → ((k : ℕ) → k < n → f k ≡ g k) → parity n f ≡ parity n g
unfolding parity
parity-eq zero f g h = refl
parity-eq (suc n) f g h = ap₂ xor (parity-eq n f g (λ k lt. h k (omega arith))) (h n (omega arith))

pub parity-zero : (n : ℕ) → parity n (λ k. false) ≡ false
unfolding parity xor
parity-zero zero = refl
parity-zero (suc n) = rw (parity-zero n) refl

none-below :
    (n i : ℕ) (f : ℕ → Bool) → ((k : ℕ) → k < n → i ≢ k) → parity n (λ k. (i == k) && f k) ≡ false
none-below n i f h =
    parity-eq n (λ k. (i == k) && f k) (λ k. false)
      (λ k lt. ap (λ z. z && f k) (ne→not_eq i k (h k lt)))
    ∙ parity-zero n

last_one : (b : Bool) → xor false (true && b) ≡ b
unfolding xor
last_one b = ground arith

-- Only bit i counts.
pub parity-one : (n i : ℕ) (f : ℕ → Bool) → i < n → parity n (λ k. (i == k) && f k) ≡ f i
unfolding parity
parity-one zero i f h = absurd (omega arith)
parity-one (suc n) i f h = elim (ℕ_discrete i n) [
  | yes e ↦
      rw (none-below n i f (λ k lt q. absurd (omega (arith, e, q))), eq→== i n e)
        (last_one (f n) ∙ ap f (sym e))
  | no ne ↦ rw (parity-one n i f (omega arith), ne→not_eq i n ne) (xor-false (f i))
]

-- The order of the sums does not matter.
pub parity_swap :
    (n m : ℕ) (f : ℕ → ℕ → Bool)
    → parity n (λ i. parity m (λ j. f i j)) ≡ parity m (λ j. parity n (λ i. f i j))
unfolding parity
parity_swap zero m f = sym (parity-zero m)
parity_swap (suc n) m f =
    ap (λ z. xor z (parity m (λ j. f n j))) (parity_swap n m f)
    ∙ sym (parity-xor m (λ j. parity n (λ i. f i j)) (λ j. f n j))
