-- ===== src/Coding/Tests.antt =====
-- Two data devices and a parity device with their sum, of one bit each.
use mathlib.Core.Bool.{xor}
use eset_store.Base.{
  ℕ, zero, suc, ◌≡◌, ◌≢◌, ◌⊎◌, arith, ◌&&◌, ◌<◌, refl, Bool, true, false, ◌==◌, some, none, List,
  [], ◌∷◌, length, if◌then◌else◌,
}
use eset_store.Coding.Invert.{BitMatrix, BitPair, inverted, identity, gcrs_invert_bitmatrix}
use eset_store.Coding.Parity.{parity}
use eset_store.Coding.RowSteps.{times, IsZero}
use eset_store.Coding.Kernel.{IsRegular, gcrs_invert_bitmatrix-regular, not_invertible-vector}
use eset_store.Coding.Restore.{IsMds, stored}
use eset_store.Coding.Vector.{Decoding, gcrs_create_decoding_bitmatrix}
use eset_store.Coding.Erased.{is_in}
use eset_store.Coding.Decoding.{AllRestore, mat_idxs}
use eset_store.Coding.Erasures.{AreAlive, gcrs_create_decoding_bitmatrix-restores}

abbrev sum_row : BitMatrix
sum_row r c = true

second_bit : (a b : Bool) → a ≡ false → xor (xor false (true && a)) (true && b) ≡ false → b ≡ false
unfolding xor
second_bit a b p q = ground (arith, p, q)

first_bit : (a b : Bool) → b ≡ false → xor (xor false (true && a)) (true && b) ≡ false → a ≡ false
unfolding xor
first_bit a b p q = ground (arith, p, q)

both_bits : (d : ℕ → Bool) → d 0 ≡ false → d 1 ≡ false → IsZero 2 d
both_bits d p q zero lt = p
both_bits d p q (suc zero) lt = q
both_bits d p q (suc (suc r)) lt = absurd (omega arith)

two_devices :
    (a b : ℕ) (d : ℕ → Bool)
    → a < 3
    → b < 3
    → a ≢ b
    → stored 2 1 sum_row d a 0 ≡ false
    → stored 2 1 sum_row d b 0 ≡ false
    → IsZero 2 d
unfolding parity
two_devices zero zero d la lb ne p q = absurd (ne refl)
two_devices zero (suc zero) d la lb ne p q = both_bits d p q
two_devices zero (suc (suc zero)) d la lb ne p q = both_bits d p (second_bit (d 0) (d 1) p q)
two_devices (suc zero) zero d la lb ne p q = both_bits d q p
two_devices (suc zero) (suc zero) d la lb ne p q = absurd (ne refl)
two_devices (suc zero) (suc (suc zero)) d la lb ne p q = both_bits d (first_bit (d 0) (d 1) p q) p
two_devices (suc (suc zero)) zero d la lb ne p q = both_bits d q (second_bit (d 0) (d 1) q p)
two_devices (suc (suc zero)) (suc zero) d la lb ne p q = both_bits d (first_bit (d 0) (d 1) q p) q
two_devices (suc (suc zero)) (suc (suc zero)) d la lb ne p q = absurd (ne refl)
two_devices (suc (suc (suc a))) b d la lb ne p q = absurd (omega arith)
two_devices a (suc (suc (suc b))) d la lb ne p q = absurd (omega arith)

sum_row-IsMds : IsMds 2 1 1 sum_row
sum_row-IsMds [] len ne below d h = absurd (omega arith)
sum_row-IsMds (a ∷ []) len ne below d h = absurd (omega arith)
sum_row-IsMds (a ∷ b ∷ []) len ne below d h =
    two_devices a b d below.0 below.1.0 ne.0.0 (h 0 (omega arith)) (h 1 (omega arith))
sum_row-IsMds (a ∷ b ∷ c ∷ ids) len ne below d h = absurd (omega arith)

-- Data device 1 is erased.
gcrs_create_decoding_bitmatrix-restores_example :
    (made : Decoding) × (ids : List ℕ) × (gcrs_create_decoding_bitmatrix 2 1 1 identity sum_row
        (1 ∷ [])
      ≡ some (some made))
    × (length ids ≡ 2)
    × AreAlive (1 ∷ []) ids
    × ((made.dm_ids ≡ some ids) ⊎ (made.dm_ids ≡ none))
    × ((e : ℕ) → is_in e (mat_idxs made.restored) ≡ is_in e (1 ∷ []))
    × ((d : ℕ → Bool) → AllRestore 2 1 sum_row d ids made.restored)
gcrs_create_decoding_bitmatrix-restores_example =
    gcrs_create_decoding_bitmatrix-restores 2 1 1 identity sum_row (1 ∷ []) (omega arith)
      (omega arith) (omega arith) (omega arith) sum_row-IsMds (omega arith, tt) (tt, tt)
      (omega arith)

-- The rows 01 and 11: the first round swaps them.
abbrev swapped : BitMatrix
swapped r c = if r == 0 then c == 1 else true

second_of : (a b : Bool) → xor (xor false (false && a)) (true && b) ≡ false → b ≡ false
unfolding xor
second_of a b q = ground (arith, q)

swapped-IsRegular : IsRegular 2 swapped
unfolding parity
swapped-IsRegular v zeros =
    let last = second_of (v 0) (v 1) (zeros 0 (omega arith)) in
    both_bits v (first_bit (v 0) (v 1) last (zeros 1 (omega arith))) last

gcrs_invert_bitmatrix-regular_example :
    (s : BitPair) × (gcrs_invert_bitmatrix 2 swapped ≡ inverted s)
    × ((r c : ℕ) → r < 2 → c < 2 → times 2 s.inv (λ k. swapped k c) r ≡ identity r c)
gcrs_invert_bitmatrix-regular_example = gcrs_invert_bitmatrix-regular 2 swapped swapped-IsRegular

-- Two equal rows.
not_invertible-vector_example :
    (v : ℕ → Bool) × (i : ℕ) × (i < 2) × (v i ≡ true) × IsZero 2 (times 2 sum_row v)
unfolding gcrs_invert_bitmatrix xor
not_invertible-vector_example = not_invertible-vector 2 sum_row refl
