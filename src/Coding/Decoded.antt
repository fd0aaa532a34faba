-- ===== src/Coding/Decoded.antt =====
-- gcrs_create_decoding_bitmatrix of Coding/Vector.antt from the erasures to the decoding matrix.
use eset_store.Base.{
  ℕ, ◌+◌, ◌<◌, ◌≤◌, ◌≡◌, refl, ap, sym, ◌∙◌, arith, Bool, false, ◌==◌, Option, some, List, [], ◌∷◌,
  ◌++◌, length, take, drop, take-append_self, drop-append_self, inl, inr, Bool-cases,
}
use eset_store.Coding.Invert.{BitMatrix}
use eset_store.Coding.Decode.{choose_ids, gcrs_check_k_m_w}
use eset_store.Coding.Vector.{Restored, restore_data, any_erased, assemble}
use eset_store.Coding.Restore.{received}
use eset_store.Coding.Erased.{AreFlags, erased_num, ge→not_ltb, erased_num-append}
use eset_store.Coding.Rebuild.{missing_from}
use eset_store.Coding.ParityDevice.{Inverts, length-missing_from}
use eset_store.Coding.Decoding.{
  AllRestore, mat_idxs, AllRestore-append, mat_idxs-append, length-mat_idxs, missing_from-append,
  mat_idxs-restore_data, restore_data-AllRestore, restore_parity_lem,
}

pub none_erased : (q : ℕ) (es : List ℕ) → any_erased es ≡ false → missing_from q es ≡ []
unfolding any_erased
none_erased q [] f = refl
none_erased q (e ∷ es) f = elim (Bool-cases (e == 1)) [
  | inl t ↦ absurd (cc (rw t at f))
  | inr g ↦ rw g (none_erased (q + 1) es (rw g at f))
]

restore_none :
    (w : ℕ) (invert : BitMatrix) (q : ℕ) (es : List ℕ)
    → missing_from q es ≡ []
    → restore_data w invert q es ≡ []
unfolding restore_data
restore_none w invert q [] f = refl
restore_none w invert q (e ∷ es) f = elim (Bool-cases (e == 1)) [
  | inl t ↦ absurd (cc (rw t at f))
  | inr g ↦ rw g (restore_none w invert (q + 1) es (rw g at f))
]

pub check_passes :
    (k m w : ℕ) → 1 ≤ k → k ≤ 45 → m ≤ k → (w' : ℕ) × (gcrs_check_k_m_w k m w ≡ some w')
unfolding gcrs_check_k_m_w
check_passes k m w lo hi le =
    rw (ge→not_ltb k 1 lo, ge→not_ltb 45 k hi, ge→not_ltb k m le) (_, refl)

-- All rows of the decoding matrix, where the inverse serves the missing data devices.
pub assemble_lem :
    (k m w : ℕ) (matrix invert : BitMatrix) (dm_ids : Option (List ℕ)) (es ys ids : List ℕ)
    → 0 < w
    → AreFlags es
    → length es ≡ k
    → m ≤ k
    → erased_num es + erased_num ys ≤ m
    → choose_ids k 0 (es ++ ys) ≡ some ids
    → (restored : List Restored) × (assemble k m w matrix invert dm_ids (es ++ ys)
        ≡ some (some (record { restored = restored; dm_ids = dm_ids })))
      × (mat_idxs restored ≡ missing_from 0 (es ++ ys))
      × ((d : ℕ → Bool)
          → Inverts k w invert (received k w matrix d ids) d es
          → AllRestore k w matrix d ids restored)
unfolding assemble
assemble_lem k m w matrix invert dm_ids es ys ids pos f len le few run =
    let parities =
      restore_parity_lem k m w matrix invert es ys ids 0 ys pos f len (omega arith) (omega arith)
        run in
    let whole : take k (es ++ ys) ≡ es =
      ap (λ x. take x (es ++ ys)) (sym len) ∙ take-append_self es ys in
    let behind : drop k (es ++ ys) ≡ ys =
      ap (λ x. drop x (es ++ ys)) (sym len) ∙ drop-append_self es ys in
    let ids_of : mat_idxs (restore_data w invert 0 es ++ parities.0) ≡ missing_from 0 (es ++ ys) =
      mat_idxs-append (restore_data w invert 0 es) parities.0
      ∙ ap (λ x. x ++ mat_idxs parities.0) (mat_idxs-restore_data w invert 0 es)
      ∙ ap (λ x. missing_from 0 es ++ x) (parities.2 ∙ ap (λ x. missing_from (0 + x) ys) (sym len))
      ∙ sym (missing_from-append 0 es ys) in
    let fits : length (restore_data w invert 0 es ++ parities.0) ≤ m = omega (
      arith,
      length-mat_idxs (restore_data w invert 0 es ++ parities.0),
      ap length ids_of,
      length-missing_from 0 (es ++ ys),
      erased_num-append es ys,
    ) in
    (
      restore_data w invert 0 es ++ parities.0,
      rw
          (
            whole,
            behind,
            parities.1,
            ge→not_ltb m (length (restore_data w invert 0 es ++ parities.0)) fits,
          )
          refl,
      ids_of,
      λ d h.
          AllRestore-append k w matrix d ids (restore_data w invert 0 es) parities.0
            (restored_data d h) (parities.3 d h),
    )
  where
    restored_data :
        (d : ℕ → Bool)
        → Inverts k w invert (received k w matrix d ids) d es
        → AllRestore k w matrix d ids (restore_data w invert 0 es)
    restored_data d (inl none_missing) = rw (restore_none w invert 0 es none_missing) tt
    restored_data d (inr h) =
        restore_data-AllRestore k w matrix invert d ids 0 es (omega (arith, len)) h
