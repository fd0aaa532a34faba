-- ===== src/Coding/Vector.antt =====
-- gcrs_generate_coding_vector and gcrs_create_decoding_bitmatrix of ECServer/GCRSMatrix.c.
use mathlib.Core.Bool.{xor}
use eset_store.Base.{
  ℕ, zero, suc, ◌+◌, ◌-◌, ◌*◌, ◌/◌, ◌%◌, Bool, true, false, Option, none, some, List, [], ◌∷◌, ◌++◌,
  ltb, ◌==◌, if◌then◌else◌, ◌>>=◌, length, take, drop,
}
use eset_store.Coding.Invert.{BitMatrix}
use eset_store.Coding.Decode.{
  unless_failed, gcrs_erasures_to_erased, gcrs_create_decoding_data_bitmatrix,
}

-- The w rows of the vector, the data devices that are missing, and whether these are more than m.
pub record Known : Type 0 where
  pub vector : BitMatrix
  pub missing : List ℕ
  pub too_many : Bool

-- The bits of a data device that is read go to the next w columns.
unfoldable pub copy_block : ℕ → BitMatrix → ℕ → ℕ → ℕ → BitMatrix → BitMatrix
copy_block w matrix m_idx k_idx map_idx vector r c =
    if c / w == map_idx then matrix (m_idx * w + r) (k_idx * w + c % w) else vector r c

-- The loop over the flags of the data devices from `k_idx` on, with `room` places for missing ones.
unfoldable pub reorder_known : ℕ → BitMatrix → ℕ → ℕ → ℕ → ℕ → BitMatrix → List ℕ → Known
unfolding copy_block
reorder_known w matrix m_idx room k_idx map_idx vector [] = record {
  vector = vector;
  missing = [];
  too_many = false;
}
reorder_known w matrix m_idx room k_idx map_idx vector (e ∷ es) =
    let known =
      reorder_known w matrix m_idx room (k_idx + 1) (map_idx + 1)
        (copy_block w matrix m_idx k_idx map_idx vector) es in
    let rest = reorder_known w matrix m_idx (room - 1) (k_idx + 1) map_idx vector es in
    if e == 1
    then (if room == 0
        then record { vector = vector; missing = k_idx ∷ []; too_many = true }
        else record rest { missing = k_idx ∷ rest.missing })
    else known

-- The rows of the inverse that make up the bits of a missing device in this row, of `left` from bit
-- `w_idx` on.
unfoldable pub mapping_rows : ℕ → BitMatrix → ℕ → ℕ → ℕ → ℕ → List ℕ
mapping_rows w matrix row k_idx zero w_idx = []
mapping_rows w matrix row k_idx (suc left) w_idx =
    let rest = mapping_rows w matrix row k_idx left (w_idx + 1) in
    if matrix row (k_idx * w + w_idx) then (k_idx * w + w_idx) ∷ rest else rest

unfoldable pub add_mapping : BitMatrix → (ℕ → Bool) → List ℕ → ℕ → Bool
add_mapping invert vector [] = vector
add_mapping invert vector (r ∷ rs) = add_mapping invert (λ c. xor (vector c) (invert r c)) rs

-- One row of the vector, over the missing devices.
unfoldable pub add_missing : ℕ → BitMatrix → BitMatrix → ℕ → (ℕ → Bool) → List ℕ → ℕ → Bool
unfolding mapping_rows add_mapping
add_missing w matrix invert row vector [] = vector
add_missing w matrix invert row vector (q ∷ qs) =
    add_missing w matrix invert row (add_mapping invert vector (mapping_rows w matrix row q w 0)) qs

-- The vector, which was zero. `none`: with k missing devices the loop over them reads a cell of
-- `kMissingMap` that was not written. More than m missing ones end the function.
unfoldable pub gcrs_generate_coding_vector :
    ℕ → ℕ → ℕ → ℕ → BitMatrix → BitMatrix → List ℕ → Option BitMatrix
unfolding reorder_known add_missing
gcrs_generate_coding_vector k m w m_idx matrix invert erases =
    let known = reorder_known w matrix m_idx m 0 0 (λ r c. false) (take k erases) in
    if known.too_many
    then some known.vector
    else if length known.missing == k
    then none
    else some (λ r. add_missing w matrix invert (m_idx * w + r) (known.vector r) known.missing)

-- A device of `mat_idx` with its w rows of the decoding matrix.
pub record Restored : Type 0 where
  pub mat_idx : ℕ
  pub rows : BitMatrix

-- The rows of the erased data devices from `k_idx` on.
unfoldable pub restore_data : ℕ → BitMatrix → ℕ → List ℕ → List Restored
restore_data w invert k_idx [] = []
restore_data w invert k_idx (e ∷ es) =
    let rest = restore_data w invert (k_idx + 1) es in
    if e == 1 then record { mat_idx = k_idx; rows = λ r. invert (k_idx * w + r) } ∷ rest else rest

-- The rows of the erased parity devices from `m_idx` on.
unfoldable pub restore_parity :
    ℕ → ℕ → ℕ → BitMatrix → BitMatrix → List ℕ → ℕ → List ℕ → Option (List Restored)
unfolding gcrs_generate_coding_vector
restore_parity k m w matrix invert erases m_idx [] = some []
restore_parity k m w matrix invert erases m_idx (e ∷ es) =
    restore_parity k m w matrix invert erases (m_idx + 1) es >>= λ rest.
    if e == 1
    then (gcrs_generate_coding_vector k m w m_idx matrix invert erases >>= λ rows.
        some (record { mat_idx = m_idx + k; rows = rows } ∷ rest))
    else some rest

-- Is one of the flags set?
unfoldable pub any_erased : List ℕ → Bool
any_erased [] = false
any_erased (e ∷ es) = if e == 1 then true else any_erased es

-- What the function gives back: the devices with their rows, and `dm_ids` where it writes them.
pub record Decoding : Type 0 where
  pub restored : List Restored
  pub dm_ids : Option (List ℕ)

-- With the inverse, the rows of all erased devices; `none`: they do not fit the m blocks of the matrix.
unfoldable pub assemble :
    ℕ → ℕ → ℕ → BitMatrix → BitMatrix → Option (List ℕ) → List ℕ → Option (Option Decoding)
unfolding restore_data restore_parity
assemble k m w matrix invert dm_ids erases =
    restore_parity k m w matrix invert erases 0 (drop k erases) >>= λ parities.
    let restored = restore_data w invert 0 (take k erases) ++ parities in
    if ltb m (length restored)
    then none
    else some (some (record { restored = restored; dm_ids = dm_ids }))

-- The outer `none` is a fault, the inner one NULL. `unwritten` is the memory for the inverse, which is
-- written only if a data device is erased.
unfoldable pub gcrs_create_decoding_bitmatrix :
    ℕ → ℕ → ℕ → BitMatrix → BitMatrix → List ℕ → Option (Option Decoding)
unfolding gcrs_erasures_to_erased gcrs_create_decoding_data_bitmatrix any_erased assemble
gcrs_create_decoding_bitmatrix k m w unwritten matrix erasures =
    gcrs_erasures_to_erased k m erasures >>= λ flags. unless_failed flags (λ erases.
      if any_erased (take k erases)
      then (gcrs_create_decoding_data_bitmatrix k m w matrix erases >>= λ made.
          unless_failed made (λ (invert, ids). assemble k m w matrix invert (some ids) erases))
      else assemble k m w matrix unwritten none erases)
