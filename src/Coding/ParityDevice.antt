-- ===== src/Coding/ParityDevice.antt =====
-- The whole of gcrs_generate_coding_vector of Coding/Vector.antt.
use mathlib.Core.Bool.{xor}
use native.Mathlib.Nat.{zero-add}
use eset_store.Base.{
  ℕ, ◌+◌, ◌*◌, ◌<◌, ◌≤◌, ◌≡◌, ◌⊎◌, refl, ap, sym, ◌∙◌, arith, Bool, false, ◌&&◌, ◌==◌, lt→ltb, some,
  List, [], ◌∷◌, ◌++◌, length, get_or, take, take-append_self, ne→not_eq, inl, inr, Bool-cases,
}
use eset_store.Coding.Invert.{BitMatrix}
use eset_store.Coding.Parity.{parity, parity-zero, xor-false, parity-eq}
use eset_store.Coding.Sums.{parity-blocks, false-xor}
use eset_store.Coding.RowSteps.{times}
use eset_store.Coding.Decode.{choose_ids}
use eset_store.Coding.Vector.{gcrs_generate_coding_vector, reorder_known, add_missing}
use eset_store.Coding.Restore.{AreBelow, received}
use eset_store.Coding.Erased.{AreFlags, erased_num}
use eset_store.Coding.Rebuild.{
  dot, share, missing_from, known_from, sum_of, known-missing_sum, dot-add_missing, block-div,
  block-mod,
}
use eset_store.Coding.Known.{IsReady, reorder_known_lem}

pub length-missing_from : (q : ℕ) (es : List ℕ) → length (missing_from q es) ≡ erased_num es
length-missing_from q [] = refl
length-missing_from q (e ∷ es) = elim (Bool-cases (e == 1)) [
  | inl t ↦ rw t (omega (arith, length-missing_from (q + 1) es))
  | inr f ↦ rw f (omega (arith, length-missing_from (q + 1) es))
]

missing_from-AreBelow : (k q : ℕ) (es : List ℕ) → q + length es ≤ k → AreBelow k (missing_from q es)
missing_from-AreBelow k q [] h = tt
missing_from-AreBelow k q (e ∷ es) h = elim (Bool-cases (e == 1)) [
  | inl t ↦ rw t (omega arith, missing_from-AreBelow k (q + 1) es (omega arith))
  | inr f ↦ rw f (missing_from-AreBelow k (q + 1) es (omega arith))
]

-- What is read holds the bits of the data devices at their places.
received-IsReady :
    (k w r : ℕ) (matrix : BitMatrix) (d : ℕ → Bool) (ids : List ℕ)
    → IsReady k w r (received k w matrix d ids) d 0 k (λ r c. false) ids
received-IsReady k w r matrix d ids = record {
  fits = omega arith;
  holds = λ j a lt la below.
      rw (zero-add j, block-div j a w la, block-mod j a w la, lt→ltb (get_or ids j 0) k below) refl;
  empty = λ c le. refl;
}

-- The bits of a parity device are the shares of all data devices.
shares-times :
    (k w m_idx r : ℕ) (matrix : BitMatrix) (d : ℕ → Bool)
    → parity k (λ p. share w (matrix (m_idx * w + r)) d (0 + p))
      ≡ times (k * w) matrix d (m_idx * w + r)
shares-times k w m_idx r matrix d =
    parity-eq k (λ p. share w (matrix (m_idx * w + r)) d (0 + p))
      (share w (matrix (m_idx * w + r)) d)
      (λ p lt. ap (share w (matrix (m_idx * w + r)) d) (zero-add p))
    ∙ sym (parity-blocks k w (λ c. matrix (m_idx * w + r) c && d c))

-- Is the inverse there for all rows that the missing data devices need?
abbrev pub Inverts : ℕ → ℕ → BitMatrix → (ℕ → Bool) → (ℕ → Bool) → List ℕ → Type 0
Inverts k w invert got d es =
    (missing_from 0 es ≡ []) ⊎ ((r : ℕ) → r < k * w → dot (k * w) (invert r) got ≡ d r)

missing-dot :
    (k w : ℕ) (matrix invert : BitMatrix) (row : ℕ) (vector got d : ℕ → Bool) (es : List ℕ)
    → length es ≡ k
    → Inverts k w invert got d es
    → dot (k * w) (add_missing w matrix invert row vector (missing_from 0 es)) got
      ≡ xor (dot (k * w) vector got) (sum_of (share w (matrix row) d) (missing_from 0 es))
unfolding add_missing
missing-dot k w matrix invert row vector got d es len (inl none_missing) =
    rw none_missing (sym (xor-false (dot (k * w) vector got)))
missing-dot k w matrix invert row vector got d es len (inr h) =
    dot-add_missing k w matrix invert row vector got d (missing_from 0 es)
      (missing_from-AreBelow k 0 es (omega (arith, len))) h

pub gcrs_generate_coding_vector_lem :
    (k m w : ℕ) (matrix invert : BitMatrix) (m_idx : ℕ) (es ys ids : List ℕ)
    → 0 < w
    → AreFlags es
    → length es ≡ k
    → erased_num es ≤ m
    → erased_num es < k
    → choose_ids k 0 (es ++ ys) ≡ some ids
    → (rows : BitMatrix) × (gcrs_generate_coding_vector k m w m_idx matrix invert (es ++ ys)
        ≡ some rows)
      × ((d : ℕ → Bool)
          → Inverts k w invert (received k w matrix d ids) d es
          → (r : ℕ)
          → dot (k * w) (rows r) (received k w matrix d ids)
            ≡ times (k * w) matrix d (m_idx * w + r))
unfolding gcrs_generate_coding_vector
gcrs_generate_coding_vector_lem k m w matrix invert m_idx es ys ids pos f len few less run =
    let known = reorder_known w matrix m_idx m 0 0 (λ r c. false) es in
    let facts = λ (r : ℕ) (d : ℕ → Bool).
      reorder_known_lem k w matrix m_idx r (received k w matrix d ids) d ys es m 0 0 k
        (λ r c. false) ids pos f few (omega (arith, len)) (omega (arith, len)) run
        (received-IsReady k w r matrix d ids) in
    let whole : take k (es ++ ys) ≡ es =
      ap (λ x. take x (es ++ ys)) (sym len) ∙ take-append_self es ys in
    let first = facts 0 (λ c. false) in
    (
      (λ r. add_missing w matrix invert (m_idx * w + r) (known.vector r) (missing_from 0 es)),
      rw
          (
            whole,
            first.0,
            first.1,
            ne→not_eq (length (missing_from 0 es)) k
                (λ q. absurd (omega (arith, q, length-missing_from 0 es))),
          )
          refl,
      λ d h r.
          missing-dot k w matrix invert (m_idx * w + r) (known.vector r) (received k w matrix d ids)
            d es len h
          ∙ ap (λ z. xor z (sum_of (share w (matrix (m_idx * w + r)) d) (missing_from 0 es)))
              ((facts r d).2
                ∙ ap (λ z. xor z (sum_of (share w (matrix (m_idx * w + r)) d) (known_from 0 es)))
                    (parity-zero (k * w))
                ∙ false-xor (sum_of (share w (matrix (m_idx * w + r)) d) (known_from 0 es)))
          ∙ known-missing_sum (share w (matrix (m_idx * w + r)) d) 0 es
          ∙ ap (λ x. parity x (λ p. share w (matrix (m_idx * w + r)) d (0 + p))) len
          ∙ shares-times k w m_idx r matrix d,
    )
