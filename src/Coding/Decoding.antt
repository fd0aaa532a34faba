-- ===== src/Coding/Decoding.antt =====
-- gcrs_create_decoding_bitmatrix of Coding/Vector.antt restores every device that is erased.
use native.Mathlib.Nat.{add-zero, add-sub_cancel}
use eset_store.Base.{
  ℕ, suc, ◌+◌, ◌*◌, ◌<◌, ◌≤◌, ◌≡◌, refl, ap, sym, ◌∙◌, arith, Bool, ◌==◌, lt→ltb, some, List, [],
  ◌∷◌, ◌++◌, length, inl, inr, Bool-cases,
}
use eset_store.Coding.Invert.{BitMatrix}
use eset_store.Coding.RowSteps.{times}
use eset_store.Coding.Decode.{choose_ids}
use eset_store.Coding.Vector.{Restored, restore_data, restore_parity}
use eset_store.Coding.Restore.{block-lt, stored, received}
use eset_store.Coding.Erased.{AreFlags, erased_num, ge→not_ltb}
use eset_store.Coding.Rebuild.{dot, missing_from}
use eset_store.Coding.ParityDevice.{Inverts, gcrs_generate_coding_vector_lem}

-- The rows of each device, times what is read, are what the device stores.
abbrev pub AllRestore : ℕ → ℕ → BitMatrix → (ℕ → Bool) → List ℕ → List Restored → Type 0
AllRestore k w matrix d ids [] = Unit {0}
AllRestore k w matrix d ids (x ∷ xs) =
    ((a : ℕ)
      → a < w
      → times (k * w) x.rows (received k w matrix d ids) a ≡ stored k w matrix d x.mat_idx a)
    × AllRestore k w matrix d ids xs

abbrev pub mat_idxs : List Restored → List ℕ
mat_idxs [] = []
mat_idxs (x ∷ xs) = x.mat_idx ∷ mat_idxs xs

pub AllRestore-append :
    (k w : ℕ) (matrix : BitMatrix) (d : ℕ → Bool) (ids : List ℕ) (xs ys : List Restored)
    → AllRestore k w matrix d ids xs
    → AllRestore k w matrix d ids ys
    → AllRestore k w matrix d ids (xs ++ ys)
AllRestore-append k w matrix d ids [] ys h g = g
AllRestore-append k w matrix d ids (x ∷ xs) ys h g =
    (h.0, AllRestore-append k w matrix d ids xs ys h.1 g)

pub mat_idxs-append : (xs ys : List Restored) → mat_idxs (xs ++ ys) ≡ mat_idxs xs ++ mat_idxs ys
mat_idxs-append [] ys = refl
mat_idxs-append (x ∷ xs) ys = ap (◌∷◌ x.mat_idx) (mat_idxs-append xs ys)

pub length-mat_idxs : (xs : List Restored) → length (mat_idxs xs) ≡ length xs
length-mat_idxs [] = refl
length-mat_idxs (x ∷ xs) = ap suc (length-mat_idxs xs)

add_one : (q n : ℕ) → q + 1 + n ≡ q + suc n
add_one q n = omega arith

add_one_right : (q n : ℕ) → q + 1 + n ≡ q + n + 1
add_one_right q n = omega arith

pub missing_from-append :
    (q : ℕ) (xs ys : List ℕ)
    → missing_from q (xs ++ ys) ≡ missing_from q xs ++ missing_from (q + length xs) ys
missing_from-append q [] ys = ap (λ x. missing_from x ys) (sym (add-zero q))
missing_from-append q (e ∷ es) ys = elim (Bool-cases (e == 1)) [
  | inl t ↦ rw t (
      ap (◌∷◌ q) (
        missing_from-append (q + 1) es ys
        ∙ ap (λ x. missing_from (q + 1) es ++ missing_from x ys) (add_one q (length es))))
  | inr f ↦ rw f (
      missing_from-append (q + 1) es ys
      ∙ ap (λ x. missing_from (q + 1) es ++ missing_from x ys) (add_one q (length es)))
]

pub mat_idxs-restore_data :
    (w : ℕ) (invert : BitMatrix) (q : ℕ) (es : List ℕ)
    → mat_idxs (restore_data w invert q es) ≡ missing_from q es
unfolding restore_data
mat_idxs-restore_data w invert q [] = refl
mat_idxs-restore_data w invert q (e ∷ es) = elim (Bool-cases (e == 1)) [
  | inl t ↦ rw t (ap (◌∷◌ q) (mat_idxs-restore_data w invert (q + 1) es))
  | inr f ↦ rw f (mat_idxs-restore_data w invert (q + 1) es)
]

data_bit :
    (k w q a : ℕ) (matrix : BitMatrix) (d : ℕ → Bool)
    → q < k
    → d (q * w + a) ≡ stored k w matrix d q a
data_bit k w q a matrix d lt = rw (lt→ltb q k lt) refl

parity_bit :
    (k w m_idx a : ℕ) (matrix : BitMatrix) (d : ℕ → Bool)
    → times (k * w) matrix d (m_idx * w + a) ≡ stored k w matrix d (m_idx + k) a
parity_bit k w m_idx a matrix d =
    rw (ge→not_ltb (m_idx + k) k (omega arith), add-sub_cancel m_idx k) refl

pub restore_data-AllRestore :
    (k w : ℕ) (matrix invert : BitMatrix) (d : ℕ → Bool) (ids : List ℕ) (q : ℕ) (es : List ℕ)
    → q + length es ≤ k
    → ((r : ℕ) → r < k * w → dot (k * w) (invert r) (received k w matrix d ids) ≡ d r)
    → AllRestore k w matrix d ids (restore_data w invert q es)
unfolding restore_data
restore_data-AllRestore k w matrix invert d ids q [] le h = tt
restore_data-AllRestore k w matrix invert d ids q (e ∷ es) le h = elim (Bool-cases (e == 1)) [
  | inl t ↦ rw t (
    (λ a la.
        h (q * w + a) (block-lt q a k w (omega arith) la)
        ∙ data_bit k w q a matrix d (omega arith)),
    restore_data-AllRestore k w matrix invert d ids (q + 1) es (omega arith) h,
  )
  | inr f ↦ rw f (restore_data-AllRestore k w matrix invert d ids (q + 1) es (omega arith) h)
]

-- The parity devices, given the flags of the data devices.
pub restore_parity_lem :
    (k m w : ℕ) (matrix invert : BitMatrix) (es ys ids : List ℕ) (m_idx : ℕ) (zs : List ℕ)
    → 0 < w
    → AreFlags es
    → length es ≡ k
    → erased_num es ≤ m
    → erased_num es + erased_num zs ≤ k
    → choose_ids k 0 (es ++ ys) ≡ some ids
    → (restored : List Restored) × (restore_parity k m w matrix invert (es ++ ys) m_idx zs
        ≡ some restored)
      × (mat_idxs restored ≡ missing_from (m_idx + k) zs)
      × ((d : ℕ → Bool)
          → Inverts k w invert (received k w matrix d ids) d es
          → AllRestore k w matrix d ids restored)
unfolding restore_parity
restore_parity_lem k m w matrix invert es ys ids m_idx [] pos f len few less run =
    ([], refl, refl, λ d h. tt)
restore_parity_lem k m w matrix invert es ys ids m_idx (e ∷ zs) pos f len few less run =
    let ih =
      restore_parity_lem k m w matrix invert es ys ids (m_idx + 1) zs pos f len few (omega arith)
        run in
    elim (Bool-cases (e == 1)) [
      | inl t ↦
          let made =
            gcrs_generate_coding_vector_lem k m w matrix invert m_idx es ys ids pos f len few
              (ground (arith, t, less)) run in
          (
            record { mat_idx = m_idx + k; rows = made.0 } ∷ ih.0,
            rw (ih.1, t, made.1) refl,
            rw t
                (ap (◌∷◌ (m_idx + k)) (ih.2 ∙ ap (λ x. missing_from x zs) (add_one_right m_idx k))),
            λ d h. ((λ a la. made.2 d h a ∙ parity_bit k w m_idx a matrix d), ih.3 d h),
          )
      | inr g ↦ (
        ih.0,
        rw (ih.1, g) refl,
        rw g (ih.2 ∙ ap (λ x. missing_from x zs) (add_one_right m_idx k)),
        ih.3,
      )
    ]
