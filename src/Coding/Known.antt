-- ===== src/Coding/Known.antt =====
-- The first loop of gcrs_generate_coding_vector of Coding/Vector.antt, over the flags of the data
-- devices, beside the choice of the devices that are read.
use mathlib.Core.Bool.{xor}
use native.Mathlib.Nat.{add-zero}
use eset_store.Base.{
  ℕ, zero, suc, ◌+◌, ◌-◌, ◌*◌, ◌/◌, ◌<◌, ◌≤◌, ◌≡◌, refl, ap, sym, subst, ◌∙◌, arith, Bool, false,
  some, Option-cases, List, [], ◌∷◌, ◌++◌, length, get_or, ne→not_eq, inl, inr,
}
use eset_store.Coding.Invert.{BitMatrix}
use eset_store.Coding.Parity.{xor-false}
use eset_store.Coding.Sums.{xor_assoc}
use eset_store.Coding.Decode.{choose_ids}
use eset_store.Coding.Vector.{copy_block, reorder_known}
use eset_store.Coding.Erased.{AreFlags, erased_num}
use eset_store.Coding.Rebuild.{dot, share, missing_from, known_from, sum_of, dot-copy_block}

-- The choice of a device takes it as the first of those that are chosen.
choose_first :
    (needed i : ℕ) (es ids : List ℕ)
    → choose_ids (suc needed) i (0 ∷ es) ≡ some ids
    → (rest : List ℕ) × (choose_ids needed (i + 1) es ≡ some rest) × (ids ≡ i ∷ rest)
unfolding choose_ids
choose_first needed i es ids run = elim (Option-cases (choose_ids needed (i + 1) es)) [
  | inl e ↦ absurd (cc (rw e at run))
  | inr (rest, e) ↦ (rest, e, cc (rw e at run))
]

choose_skip :
    (needed i : ℕ) (es ids : List ℕ)
    → choose_ids (suc needed) i (1 ∷ es) ≡ some ids
    → choose_ids (suc needed) (i + 1) es ≡ some ids
unfolding choose_ids
choose_skip needed i es ids run = run

-- What the loop is given: the devices that are chosen from here on stand in `got` from block
-- `map_idx` on, and the vector is still empty there.
pub record IsReady (k w r : ℕ) (got d : ℕ → Bool) (map_idx needed : ℕ) (vector : BitMatrix)
    (ids : List ℕ) : Type 0 where
  pub fits : map_idx + needed ≡ k
  pub holds :
      (j a : ℕ)
      → j < needed
      → a < w
      → get_or ids j 0 < k
      → got ((map_idx + j) * w + a) ≡ d (get_or ids j 0 * w + a)
  pub empty : (c : ℕ) → map_idx ≤ c / w → vector r c ≡ false

copied-IsReady :
    (k w r m_idx : ℕ) (matrix : BitMatrix) (got d : ℕ → Bool) (k_idx map_idx needed : ℕ)
    (vector : BitMatrix) (ids : List ℕ)
    → IsReady k w r got d map_idx (suc needed) vector (k_idx ∷ ids)
    → IsReady k w r got d (map_idx + 1) needed (copy_block w matrix m_idx k_idx map_idx vector) ids
unfolding copy_block
copied-IsReady k w r m_idx matrix got d k_idx map_idx needed vector ids s = record {
  fits = omega (arith, s.fits);
  holds = λ j a lt la below.
      subst (λ x. got (x * w + a) ≡ d (get_or ids j 0 * w + a)) (omega arith)
        (s.holds (suc j) a (omega arith) la below);
  empty = λ c le.
      rw (ne→not_eq (c / w) map_idx (λ e. absurd (omega (arith, e)))) (s.empty c (omega arith));
}

pub reorder_known_lem :
    (k w : ℕ) (matrix : BitMatrix) (m_idx r : ℕ) (got d : ℕ → Bool) (ys es : List ℕ)
    → (room k_idx map_idx needed : ℕ) (vector : BitMatrix) (ids : List ℕ) → 0 < w
    → AreFlags es
    → erased_num es ≤ room
    → k_idx + length es ≡ k
    → length es ≤ needed
    → choose_ids needed k_idx (es ++ ys) ≡ some ids
    → IsReady k w r got d map_idx needed vector ids
    → ((reorder_known w matrix m_idx room k_idx map_idx vector es).too_many ≡ false)
      × ((reorder_known w matrix m_idx room k_idx map_idx vector es).missing
          ≡ missing_from k_idx es)
      × (dot (k * w) ((reorder_known w matrix m_idx room k_idx map_idx vector es).vector r) got
          ≡ xor
              (dot (k * w) (vector r) got)
              (sum_of (share w (matrix (m_idx * w + r)) d) (known_from k_idx es)))
unfolding reorder_known
reorder_known_lem k w matrix m_idx r got d ys [] room k_idx map_idx needed vector ids pos f few end
      enough run s =
    (refl, refl, sym (xor-false (dot (k * w) (vector r) got)))
reorder_known_lem k w matrix m_idx r got d ys (e ∷ es) room k_idx map_idx zero vector ids pos f few
      end enough run s =
    absurd (omega arith)
reorder_known_lem k w matrix m_idx r got d ys (zero ∷ es) room k_idx map_idx (suc needed) vector ids
      pos f few end enough run s =
    let (rest, run', e) = choose_first needed k_idx (es ++ ys) ids run in
    let s' : IsReady k w r got d map_idx (suc needed) vector (k_idx ∷ rest) =
      subst (λ x. IsReady k w r got d map_idx (suc needed) vector x) e s in
    let ih =
      reorder_known_lem k w matrix m_idx r got d ys es room (k_idx + 1) (map_idx + 1) needed
        (copy_block w matrix m_idx k_idx map_idx vector) rest pos f.1 (omega (arith, few))
        (omega (arith, end)) (omega arith) run'
        (copied-IsReady k w r m_idx matrix got d k_idx map_idx needed vector rest s') in
    (
      ih.0,
      ih.1,
      ih.2
          ∙ ap
              (λ z. xor z (sum_of (share w (matrix (m_idx * w + r)) d) (known_from (k_idx + 1) es)))
              (dot-copy_block k w matrix m_idx r k_idx map_idx vector got d pos
                (omega (arith, s.fits)) (λ c q. s.empty c (omega (arith, q)))
                (λ a la.
                  subst (λ x. got (x * w + a) ≡ d (k_idx * w + a)) (add-zero map_idx)
                    (s'.holds 0 a (omega arith) la (omega (arith, end)))))
          ∙ xor_assoc (dot (k * w) (vector r) got) (share w (matrix (m_idx * w + r)) d k_idx)
              (sum_of (share w (matrix (m_idx * w + r)) d) (known_from (k_idx + 1) es)),
    )
reorder_known_lem k w matrix m_idx r got d ys (suc zero ∷ es) room k_idx map_idx (suc needed) vector
      ids pos f few end enough run s =
    let ih =
      reorder_known_lem k w matrix m_idx r got d ys es (room - 1) (k_idx + 1) map_idx (suc needed)
        vector ids pos f.1 (omega (arith, few)) (omega (arith, end)) (omega arith)
        (choose_skip needed k_idx (es ++ ys) ids run) s in
    rw (ne→not_eq room 0 (λ q. absurd (omega (arith, few, q)))) (ih.0, ap (◌∷◌ k_idx) ih.1, ih.2)
reorder_known_lem k w matrix m_idx r got d ys (suc (suc e) ∷ es) room k_idx map_idx (suc needed)
      vector ids pos f few end enough run s =
    absurd (omega (arith, f.0))
