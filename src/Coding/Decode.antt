-- ===== src/Coding/Decode.antt =====
-- The decoding matrices of ECServer/GCRSMatrix.c: which devices are erased, which ones are read, and
-- the bits that restore the erased ones. A flag of `erased` is 1 for an erased device; the -1 behind
-- `erasures` is the end of the list. Memory is taken to be given out.
use eset_store.Base.{
  ℕ, zero, suc, ◌+◌, ◌-◌, ◌*◌, ◌/◌, ◌%◌, ◌^◌, ◌&&◌, ◌||◌, Option, none, some, List, [], ◌∷◌, ltb,
  ◌==◌, if◌then◌else◌, ◌>>=◌, get_elem?, get_or, set, replicate,
}
use eset_store.Coding.Invert.{
  BitMatrix, BitPair, Inversion, inverted, not_invertible, gcrs_invert_bitmatrix,
}

abbrev pub min_k : ℕ
min_k = 1

abbrev pub max_k : ℕ
max_k = 45

abbrev pub min_w : ℕ
min_w = 4

abbrev pub max_w : ℕ
max_w = 8

-- `while (pow(2, w) < (k+m)) ++w;`
unfoldable pub widen : ℕ → ℕ → ℕ → ℕ
widen zero devices w = w
widen (suc fuel) devices w =
    let wider = widen fuel devices (w + 1) in if ltb (2 ^ w) devices then wider else w

-- `none` is -1.
unfoldable pub gcrs_check_k_m_w : ℕ → ℕ → ℕ → Option ℕ
unfolding widen
gcrs_check_k_m_w k m w =
    if ltb k min_k || ltb max_k k
    then none
    else if ltb k m
    then none
    else some (widen (k + m) (k + m) (if ltb w min_w || ltb w max_w then min_w else w))

-- The loop over the erasures, with `left` devices that are not erased. The outer `none` is a fault, the
-- inner one NULL.
unfoldable pub mark_erased : ℕ → ℕ → List ℕ → List ℕ → Option (Option (List ℕ))
mark_erased k left erased [] = some (some erased)
mark_erased k left erased (e ∷ es) = get_elem? erased e >>= λ flag.
    let more =
      mark_erased k (if flag == 0 then left - 1 else left)
        (if flag == 0 then set erased e 1 else erased) es in
    if (flag == 0) && ltb (left - 1) k then some none else more

unfoldable pub gcrs_erasures_to_erased : ℕ → ℕ → List ℕ → Option (Option (List ℕ))
unfolding mark_erased
gcrs_erasures_to_erased k m erasures = mark_erased k (k + m) (replicate (k + m) 0) erasures

-- The first devices from device i on that are not erased, as many as are needed; `none`: the loop goes
-- behind the flags.
unfoldable pub choose_ids : ℕ → ℕ → List ℕ → Option (List ℕ)
choose_ids zero i erased = some []
choose_ids (suc needed) i [] = none
choose_ids (suc needed) i (e ∷ es) =
    let with_it = choose_ids needed (i + 1) es >>= λ ids. some (i ∷ ids) in
    let without = choose_ids (suc needed) (i + 1) es in if e == 0 then with_it else without

-- The rows of the devices that are read: those of a data device are unit vectors.
unfoldable pub selected_rows : ℕ → ℕ → BitMatrix → List ℕ → BitMatrix
selected_rows k w matrix ids r c =
    let id = get_or ids (r / w) 0 in
    if ltb id k then id * w + r % w == c else matrix ((id - k) * w + r % w) c

abbrev pub left_behind : Inversion → BitPair
left_behind (inverted s) = s
left_behind (not_invertible s) = s

-- What comes after a test for NULL or -1.
abbrev pub unless_failed {ℓ κ} :
    {A : Type ℓ} {B : Type κ} → Option A → (A → Option (Option B)) → Option (Option B)
unless_failed none f = some none
unless_failed (some a) f = f a

-- The result of the inversion is not looked at. The inner `none` is -1.
unfoldable pub gcrs_create_decoding_data_bitmatrix :
    ℕ → ℕ → ℕ → BitMatrix → List ℕ → Option (Option (BitMatrix × List ℕ))
unfolding gcrs_check_k_m_w choose_ids selected_rows gcrs_invert_bitmatrix
gcrs_create_decoding_data_bitmatrix k m w matrix erased =
    unless_failed (gcrs_check_k_m_w k m w) (λ w'. choose_ids k 0 erased >>= λ ids.
    some (
      some ((left_behind (gcrs_invert_bitmatrix (k * w) (selected_rows k w matrix ids))).inv, ids)))
