-- ===== src/Coding/Rebuild.antt =====
-- gcrs_generate_coding_vector of Coding/Vector.antt: its rows, times what is read, are the bits of the
-- parity device.
use mathlib.Core.Bool.{xor}
use native.Mathlib.Nat.{zero-add}
use native.Mathlib.Decide.{ℕ_discrete}
use eset_store.Base.{
  ℕ, zero, suc, ◌+◌, ◌*◌, ◌/◌, ◌%◌, ◌<◌, ◌≡◌, refl, ap, sym, ◌∙◌, arith, Bool, false, ◌&&◌, ◌==◌,
  List, [], ◌∷◌, length, ne→not_eq, eq→==, inl, inr, Bool-cases, if◌then◌else◌,
}
use eset_store.Coding.Invert.{BitMatrix}
use eset_store.Coding.Parity.{
  parity, parity-eq, parity-xor, parity-one, parity-and, xor-and, xor-false,
}
use eset_store.Coding.Sums.{xor_assoc, xor_left_comm, parity_from, false-xor, parity-blocks}
use eset_store.Coding.Vector.{copy_block, mapping_rows, add_mapping, add_missing}
use eset_store.Coding.Restore.{AreBelow, block-lt}

-- The sum of the bits of `v` at which `got` has a one.
abbrev pub dot : ℕ → (ℕ → Bool) → (ℕ → Bool) → Bool
dot n v got = parity n (λ c. v c && got c)

-- What data device q adds to a bit of a parity device with this row of the matrix.
abbrev pub share : ℕ → (ℕ → Bool) → (ℕ → Bool) → ℕ → Bool
share w coefficients d q = parity w (λ a. coefficients (q * w + a) && d (q * w + a))

dot-xor :
    (n : ℕ) (u v got : ℕ → Bool)
    → dot n (λ c. xor (u c) (v c)) got ≡ xor (dot n u got) (dot n v got)
dot-xor n u v got =
    parity-eq n (λ c. xor (u c) (v c) && got c) (λ c. xor (u c && got c) (v c && got c))
      (λ c lt. xor-and (u c) (v c) (got c))
    ∙ parity-xor n (λ c. u c && got c) (λ c. v c && got c)

parity-none : (f : ℕ → Bool) → parity 0 f ≡ false
unfolding parity
parity-none f = refl

-- The data devices that are missing, and those that are not.
abbrev pub missing_from : ℕ → List ℕ → List ℕ
missing_from q [] = []
missing_from q (e ∷ es) = if e == 1 then q ∷ missing_from (q + 1) es else missing_from (q + 1) es

abbrev pub known_from : ℕ → List ℕ → List ℕ
known_from q [] = []
known_from q (e ∷ es) = if e == 1 then known_from (q + 1) es else q ∷ known_from (q + 1) es

abbrev pub sum_of : (ℕ → Bool) → List ℕ → Bool
sum_of f [] = false
sum_of f (q ∷ qs) = xor (f q) (sum_of f qs)

-- All data devices are known or missing.
pub known-missing_sum :
    (f : ℕ → Bool) (q : ℕ) (es : List ℕ)
    → xor (sum_of f (known_from q es)) (sum_of f (missing_from q es))
      ≡ parity (length es) (λ p. f (q + p))
known-missing_sum f q [] = false-xor false ∙ sym (parity-none (λ p. f (q + p)))
known-missing_sum f q (e ∷ es) = elim (Bool-cases (e == 1)) [
  | inl t ↦ rw t (
      xor_left_comm (sum_of f (known_from (q + 1) es)) (f q) (sum_of f (missing_from (q + 1) es))
      ∙ rest (known-missing_sum f (q + 1) es))
  | inr g ↦ rw g (
      xor_assoc (f q) (sum_of f (known_from (q + 1) es)) (sum_of f (missing_from (q + 1) es))
      ∙ rest (known-missing_sum f (q + 1) es))
]
  where
    rest :
        xor (sum_of f (known_from (q + 1) es)) (sum_of f (missing_from (q + 1) es))
          ≡ parity (length es) (λ p. f (q + 1 + p))
        → xor (f q) (xor (sum_of f (known_from (q + 1) es)) (sum_of f (missing_from (q + 1) es)))
          ≡ parity (suc (length es)) (λ p. f (q + p))
    rest ih = ap (λ z. xor (f q) z) ih ∙ sym (parity_from (length es) q f)

-- The rows of the inverse that are added for a missing device give its share.
dot-add_mapping :
    (n w : ℕ) (matrix invert : BitMatrix) (row q left w_idx : ℕ) (vector got d : ℕ → Bool)
    → ((a : ℕ) → a < w_idx + left → dot n (invert (q * w + a)) got ≡ d (q * w + a))
    → dot n (add_mapping invert vector (mapping_rows w matrix row q left w_idx)) got
      ≡ xor
          (dot n vector got)
          (parity left (λ a. matrix row (q * w + (w_idx + a)) && d (q * w + (w_idx + a))))
unfolding mapping_rows add_mapping
dot-add_mapping n w matrix invert row q zero w_idx vector got d h = sym (
    ap (λ z. xor (dot n vector got) z)
      (parity-none (λ a. matrix row (q * w + (w_idx + a)) && d (q * w + (w_idx + a))))
    ∙ xor-false (dot n vector got))
dot-add_mapping n w matrix invert row q (suc left) w_idx vector got d h =
    elim (Bool-cases (matrix row (q * w + w_idx))) [
      | inl t ↦
          rw (t, parity_from left w_idx bit, t)
            (dot-add_mapping n w matrix invert row q left (w_idx + 1)
                (λ c. xor (vector c) (invert (q * w + w_idx) c)) got d (λ a lt. h a (omega arith))
              ∙ ap (λ z. xor z rest) (dot-xor n vector (invert (q * w + w_idx)) got)
              ∙ rw (h w_idx (omega arith)) (xor_assoc (dot n vector got) (d (q * w + w_idx)) rest))
      | inr f ↦
          rw (f, parity_from left w_idx bit, f)
            (dot-add_mapping n w matrix invert row q left (w_idx + 1) vector got d
                (λ a lt. h a (omega arith))
              ∙ ap (λ z. xor (dot n vector got) z) (sym (false-xor rest)))
    ]
  where
    bit : ℕ → Bool
    bit x = matrix row (q * w + x) && d (q * w + x)

    rest : Bool
    rest = parity left (λ a. bit (w_idx + 1 + a))

pub dot-add_missing :
    (k w : ℕ) (matrix invert : BitMatrix) (row : ℕ) (vector got d : ℕ → Bool) (qs : List ℕ)
    → AreBelow k qs
    → ((r : ℕ) → r < k * w → dot (k * w) (invert r) got ≡ d r)
    → dot (k * w) (add_missing w matrix invert row vector qs) got
      ≡ xor (dot (k * w) vector got) (sum_of (share w (matrix row) d) qs)
unfolding add_missing
dot-add_missing k w matrix invert row vector got d [] below h =
    sym (xor-false (dot (k * w) vector got))
dot-add_missing k w matrix invert row vector got d (q ∷ qs) below h =
    dot-add_missing k w matrix invert row
      (add_mapping invert vector (mapping_rows w matrix row q w 0)) got d qs below.1 h
    ∙ ap (λ z. xor z (sum_of (share w (matrix row) d) qs))
        (dot-add_mapping (k * w) w matrix invert row q w 0 vector got d
            (λ a lt. h (q * w + a) (block-lt q a k w below.0 (omega arith)))
          ∙ ap (λ z. xor (dot (k * w) vector got) z)
              (parity-eq w (λ a. matrix row (q * w + (0 + a)) && d (q * w + (0 + a)))
                (λ a. matrix row (q * w + a) && d (q * w + a))
                (λ a lt. ap (λ x. matrix row (q * w + x) && d (q * w + x)) (zero-add a))))
    ∙ xor_assoc (dot (k * w) vector got) (share w (matrix row) d q)
        (sum_of (share w (matrix row) d) qs)

==_comm : (a b : ℕ) → (a == b) ≡ (b == a)
==_comm a b = ground arith

pub block-div : (q a w : ℕ) → a < w → (q * w + a) / w ≡ q
block-div q a w lt = grind arith

pub block-mod : (q a w : ℕ) → a < w → (q * w + a) % w ≡ a
block-mod q a w lt = grind arith

-- The bits that are copied for a device that is read give its share.
pub dot-copy_block :
    (k w : ℕ) (matrix : BitMatrix) (m_idx r k_idx map_idx : ℕ) (vector : BitMatrix)
    (got d : ℕ → Bool)
    → 0 < w
    → map_idx < k
    → ((c : ℕ) → c / w ≡ map_idx → vector r c ≡ false)
    → ((a : ℕ) → a < w → got (map_idx * w + a) ≡ d (k_idx * w + a))
    → dot (k * w) (copy_block w matrix m_idx k_idx map_idx vector r) got
      ≡ xor (dot (k * w) (vector r) got) (share w (matrix (m_idx * w + r)) d k_idx)
unfolding copy_block
dot-copy_block k w matrix m_idx r k_idx map_idx vector got d pos lt empty same =
    parity-eq (k * w) (λ c. copy_block w matrix m_idx k_idx map_idx vector r c && got c)
      (λ c. xor (vector r c && got c) ((c / w == map_idx) && coded c)) (λ c lc. written c)
    ∙ parity-xor (k * w) (λ c. vector r c && got c) (λ c. (c / w == map_idx) && coded c)
    ∙ ap (λ z. xor (dot (k * w) (vector r) got) z)
        (parity-blocks k w (λ c. (c / w == map_idx) && coded c)
          ∙ parity-eq k (λ q. parity w (λ a. ((q * w + a) / w == map_idx) && coded (q * w + a)))
              (λ q.
                (map_idx == q)
                && parity w (λ a. matrix (m_idx * w + r) (k_idx * w + a) && got (q * w + a)))
              (λ q lq. in_block q)
          ∙ parity-one k map_idx
              (λ q. parity w (λ a. matrix (m_idx * w + r) (k_idx * w + a) && got (q * w + a))) lt
          ∙ parity-eq w (λ a. matrix (m_idx * w + r) (k_idx * w + a) && got (map_idx * w + a))
              (λ a. matrix (m_idx * w + r) (k_idx * w + a) && d (k_idx * w + a))
              (λ a la. ap (λ z. matrix (m_idx * w + r) (k_idx * w + a) && z) (same a la)))
  where
    coded : ℕ → Bool
    coded c = matrix (m_idx * w + r) (k_idx * w + c % w) && got c

    written :
        (c : ℕ)
        → (copy_block w matrix m_idx k_idx map_idx vector r c && got c)
          ≡ xor (vector r c && got c) ((c / w == map_idx) && coded c)
    written c = elim (ℕ_discrete (c / w) map_idx) [
      | yes e ↦ rw (eq→== (c / w) map_idx e, empty c e) (sym (false-xor (coded c)))
      | no ne ↦ rw (ne→not_eq (c / w) map_idx ne) (sym (xor-false (vector r c && got c)))
    ]

    in_block :
        (q : ℕ)
        → parity w (λ a. ((q * w + a) / w == map_idx) && coded (q * w + a)) ≡ (
            (map_idx == q)
            && parity w (λ a. matrix (m_idx * w + r) (k_idx * w + a) && got (q * w + a)))
    in_block q =
        parity-eq w (λ a. ((q * w + a) / w == map_idx) && coded (q * w + a))
          (λ a. (map_idx == q) && (matrix (m_idx * w + r) (k_idx * w + a) && got (q * w + a)))
          (λ a la. rw (block-div q a w la, block-mod q a w la, ==_comm q map_idx) refl)
        ∙ parity-and w (map_idx == q)
            (λ a. matrix (m_idx * w + r) (k_idx * w + a) && got (q * w + a))
