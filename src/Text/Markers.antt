-- ===== src/Text/Markers.antt =====
-- Values between markers: the searches of Text/Search.antt.
use eset_store.Base.{
  ℕ, suc, ◌+◌, ◌-◌, ◌^◌, ◌≤◌, ◌<◌, ◌≡◌, refl, ap, sym, subst, ◌∙◌, some, List, [], ◌∷◌, ◌++◌, arith,
  true, false, ltb, lt→ltb, le→leb, eq→==, ne→not_eq, length, drop, length-append, drop-append_add,
  take-append_self,
}
use eset_store.Text.Number.{c_str, str_to_int, str_to_uint64, u64_mod}
use eset_store.Text.Decimal.{
  decimal, length-decimal, decimal-AllDigits, AllDigits, c_str_all, uint64_from-decimal,
}
use eset_store.Text.Search.{
  starts_with, find_marker, value_range, copy_value, value_buf_size, get_uint64_value_between_strs,
  get_int_value_between_strings,
}

pub starts_with_self : (p xs : List ℕ) → starts_with p (p ++ xs) ≡ true
unfolding starts_with
starts_with_self [] xs = refl
starts_with_self (c ∷ p) xs = rw (eq→== c c refl) (starts_with_self p xs)

-- The pattern stands nowhere in `pre ++ tail` before `tail`.
abbrev pub Absent : List ℕ → List ℕ → List ℕ → Type 0
Absent pat [] tail = Unit {0}
Absent pat (c ∷ pre) tail = (starts_with pat (c ∷ (pre ++ tail)) ≡ false) × Absent pat pre tail

-- The search stops at the first occurrence, if that lies within the size.
pub find_marker_first :
    (pat pre tail : List ℕ) (left : ℕ)
    → Absent pat pre tail
    → starts_with pat tail ≡ true
    → length pre + length pat ≤ left
    → find_marker pat left (pre ++ tail) ≡ some (length pre)
unfolding find_marker
find_marker_first pat [] [] left a s h = rw s
find_marker_first pat [] (c ∷ tail) left a s h = rw s
find_marker_first pat (c ∷ pre) tail left a s h =
    rw (a.0, room) (rw (find_marker_first pat pre tail (left - 1) a.1 s (omega arith)))
  where
    room : ltb left (length pat + 1) ≡ false
    room = ground arith

-- A marker that does not begin with a digit does not stand within digits.
digits-Absent : (s : ℕ) (ss ds tail : List ℕ) → s < b'0' → AllDigits ds → Absent (s ∷ ss) ds tail
unfolding starts_with
digits-Absent s ss [] tail h a = tt
digits-Absent s ss (d ∷ ds) tail h a =
    (rw (ne→not_eq s d (omega arith)), digits-Absent s ss ds tail h a.2)

module _ (m1 ss : List ℕ) (s : ℕ) (pre ds rest : List ℕ) (d : ℕ) where
  -- The text `…<m1><value><m2>…` with the second marker `s ∷ ss`.
  abbrev marked : List ℕ
  marked = pre ++ (m1 ++ (d ∷ (ds ++ (s ∷ (ss ++ rest)))))

  drop-marked :
      (k : ℕ) → drop (length pre + length m1 + k) marked ≡ drop k (d ∷ (ds ++ (s ∷ (ss ++ rest))))
  drop-marked k =
      ap (λ m. drop m marked) regroup
      ∙ drop-append_add pre _ (length m1 + k)
      ∙ drop-append_add m1 _ k
    where
      regroup : length pre + length m1 + k ≡ length pre + (length m1 + k)
      regroup = omega arith

  value_range-marked :
      (size : ℕ)
      → Absent m1 pre (m1 ++ (d ∷ (ds ++ (s ∷ (ss ++ rest)))))
      → s < b'0'
      → AllDigits ds
      → length pre + length m1 + length ds + length ss + 2 ≤ size
      → value_range m1 (s ∷ ss) marked size
        ≡ some (length pre + length m1, length pre + length m1 + 1 + length ds)
  unfolding value_range
  value_range-marked size a lt digits room =
      rw (find_marker_first m1 pre _ size a (starts_with_self m1 _) (omega arith)) (
        rw (drop-marked 1) (
          rw (
            find_marker_first (s ∷ ss) ds (s ∷ (ss ++ rest)) (size - (length pre + length m1 + 1))
              (digits-Absent s ss ds _ lt digits) (starts_with_self (s ∷ ss) rest) (omega arith))))

  copy_value-marked :
      AllDigits (d ∷ ds)
      → suc (length ds) < value_buf_size
      → copy_value marked (length pre + length m1) (length pre + length m1 + 1 + length ds)
        ≡ some (d ∷ ds)
  unfolding copy_value
  copy_value-marked digits h =
      rw (width, lt→ltb (suc (length ds)) value_buf_size h, le→leb _ _ inside)
        (rw from_start (
          ap some
            (ap c_str (take-append_self (d ∷ ds) (s ∷ (ss ++ rest))) ∙ c_str_all (d ∷ ds) digits)))
    where
      width : length pre + length m1 + 1 + length ds - (length pre + length m1) ≡ suc (length ds)
      width = omega arith

      inside : length pre + length m1 + suc (length ds) ≤ length marked
      inside = omega (
        arith,
        length-append pre (m1 ++ (d ∷ (ds ++ (s ∷ (ss ++ rest))))),
        length-append m1 (d ∷ (ds ++ (s ∷ (ss ++ rest)))),
        length-append ds (s ∷ (ss ++ rest)),
      )

      from_start : drop (length pre + length m1) marked ≡ d ∷ (ds ++ (s ∷ (ss ++ rest)))
      from_start = ap (λ m. drop m marked) (omega arith) ∙ drop-marked 0

  module _ (size : ℕ) (a : Absent m1 pre (m1 ++ (d ∷ (ds ++ (s ∷ (ss ++ rest)))))) (lt : s < b'0')
      (digits : AllDigits (d ∷ ds)) (short : suc (length ds) < value_buf_size)
      (room : length pre + length m1 + length ds + length ss + 2 ≤ size) where
    get_uint64-marked :
        get_uint64_value_between_strs m1 (s ∷ ss) marked size ≡ some (str_to_uint64 (d ∷ ds))
    unfolding get_uint64_value_between_strs
    get_uint64-marked =
        rw (value_range-marked size a lt digits.2 room, get_uint64_value_between_strs)
          (rw (copy_value-marked digits short))

  get_int-marked :
      Absent m1 pre (m1 ++ (d ∷ (ds ++ (s ∷ (ss ++ rest)))))
      → s < b'0'
      → AllDigits (d ∷ ds)
      → suc (length ds) < value_buf_size
      → get_int_value_between_strings m1 (s ∷ ss) marked ≡ some (str_to_int (some (d ∷ ds)))
  unfolding get_int_value_between_strings
  get_int-marked a lt digits short =
      rw (value_range-marked (length marked) a lt digits.2 room, get_int_value_between_strings)
        (rw (copy_value-marked digits short))
    where
      room : length pre + length m1 + length ds + length ss + 2 ≤ length marked
      room = omega (
        arith,
        length-append pre (m1 ++ (d ∷ (ds ++ (s ∷ (ss ++ rest))))),
        length-append m1 (d ∷ (ds ++ (s ∷ (ss ++ rest)))),
        length-append ds (s ∷ (ss ++ rest)),
        length-append ss rest,
      )

decimal_cons : (n v : ℕ) → (d : ℕ) × (ds : List ℕ) × (decimal (suc n) v ≡ d ∷ ds) × (length ds ≡ n)
decimal_cons n v = first (decimal (suc n) v) (length-decimal (suc n) v)
  where
    first :
        (xs : List ℕ)
        → length xs ≡ suc n
        → (d : ℕ) × (ds : List ℕ) × (xs ≡ d ∷ ds) × (length ds ≡ n)
    first [] e = absurd (omega arith)
    first (d ∷ ds) e = (d, ds, refl, omega arith)

-- A decimal number of at most 1023 digits between two markers is found and read: the first marker
-- stands nowhere before, the second one begins with a character below a digit, and the text is long
-- enough.
pub get_uint64-decimal :
    (m1 pre ss rest : List ℕ) (s n v size : ℕ)
    → Absent m1 pre (m1 ++ (decimal (suc n) v ++ (s ∷ (ss ++ rest))))
    → s < b'0'
    → n + 1 < value_buf_size
    → v < 10 ^ suc n
    → v < u64_mod
    → length pre + length m1 + n + length ss + 2 ≤ size
    → get_uint64_value_between_strs m1
        (s ∷ ss)
        (pre ++ (m1 ++ (decimal (suc n) v ++ (s ∷ (ss ++ rest)))))
        size
      ≡ some v
unfolding str_to_uint64
get_uint64-decimal m1 pre ss rest s n v size a lt short hv h64 room =
    let (d, ds, e, l) = decimal_cons n v in
    subst Reads (sym e)
      (λ a' digits value.
        get_uint64-marked m1 ss s pre ds rest d size a' lt digits (omega arith) (omega arith)
        ∙ ap some value)
      a (decimal-AllDigits (suc n) v) (uint64_from-decimal (suc n) v hv ∙ omega arith)
  where
    Reads : List ℕ → Type 0
    Reads text =
        Absent m1 pre (m1 ++ (text ++ (s ∷ (ss ++ rest))))
        → AllDigits text
        → str_to_uint64 text ≡ v
        → get_uint64_value_between_strs m1 (s ∷ ss) (pre ++ (m1 ++ (text ++ (s ∷ (ss ++ rest)))))
            size
          ≡ some v
