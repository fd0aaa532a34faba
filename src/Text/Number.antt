-- ===== src/Text/Number.antt =====
-- Numbers as decimal text: the printers and parsers of ECMeta/ecUtils.c and ECServer/ecUtils.c.
-- A text is the list of its characters before the NUL. An `int` is its pattern below 2 ^ 32, and
-- a write outside its buffer is a fault (`none`).
use eset_store.Base.{
  ℕ, zero, suc, ◌+◌, ◌-◌, ◌*◌, ◌/◌, ◌%◌, ◌^◌, Bool, ◌&&◌, Option, none, some, List, [], ◌∷◌, ltb,
  leb, ◌==◌, if◌then◌else◌, write_at, ◌>>=◌,
}

abbrev pub u32_mod : ℕ
u32_mod = 2 ^ 32

abbrev pub u64_mod : ℕ
u64_mod = 2 ^ 64

-- What an `int` holds for -1.
abbrev pub minus_one : ℕ
minus_one = u32_mod - 1

-- The text that a buffer holds: its characters up to the first NUL.
unfoldable pub c_str : List ℕ → List ℕ
c_str [] = []
c_str (c ∷ cs) = if c == 0 then [] else c ∷ c_str cs

abbrev pub is_digit : ℕ → Bool
is_digit c = leb b'0' c && leb c b'9'

-- The loop skips what is no digit.
unfoldable pub int_from : ℕ → List ℕ → ℕ
int_from value [] = value
int_from value (c ∷ cs) =
    int_from (if is_digit c then (value * 10 + c - b'0') % u32_mod else value) cs

-- `none` is the NULL pointer.
unfoldable pub str_to_int : Option (List ℕ) → ℕ
unfolding int_from
str_to_int none = minus_one
str_to_int (some str) = int_from 0 str

-- Every character counts as a digit, below '0' also.
unfoldable pub uint64_from : ℕ → List ℕ → ℕ
uint64_from value [] = value
uint64_from value (c ∷ cs) = uint64_from ((value * 10 + c + (u64_mod - b'0')) % u64_mod) cs

unfoldable pub str_to_uint64 : List ℕ → ℕ
unfolding uint64_from
str_to_uint64 buf = uint64_from 0 buf

-- `while ((valueToDiv = valueToDiv / 10) > 0) ++digitInDeci;`
unfoldable pub count_digits : ℕ → ℕ → ℕ → ℕ
count_digits zero value digits = digits
count_digits (suc fuel) value digits =
    let rest = count_digits fuel (value / 10) (digits + 1) in
    if ltb 0 (value / 10) then rest else digits

-- A 64-bit number has at most 20 digits.
abbrev pub digit_fuel : ℕ
digit_fuel = 20

-- The second loop fills the buffer from its last digit to its first.
unfoldable pub fill_digits : ℕ → ℕ → List ℕ → Option (List ℕ)
fill_digits zero value buf = some buf
fill_digits (suc digits) value buf =
    write_at buf digits (value % 10 + b'0') >>= fill_digits digits (value / 10)

-- The size that is returned, and the buffer.
unfoldable pub uint64_to_str : ℕ → List ℕ → ℕ → Option (ℕ × List ℕ)
unfolding count_digits fill_digits
uint64_to_str value buf buf_size =
    let size = count_digits digit_fuel value 1 in
    if ltb buf_size size
    then some (0, buf)
    else write_at buf size 0 >>= λ cleared.
        fill_digits size value cleared >>= λ out. some (size, out)

-- A negative `value` has one "digit": C's `value % 10` is then negative, and so lies below '0'.
unfoldable pub int_to_str : ℕ → List ℕ → ℕ → Option (ℕ × List ℕ)
unfolding uint64_to_str
int_to_str value buf buf_size =
    if ltb value (2 ^ 31)
    then uint64_to_str value buf buf_size
    else if ltb buf_size 1
    then some (0, buf)
    else write_at buf 1 0 >>= λ cleared.
        write_at cleared 0 (b'0' - (u32_mod - value) % 10) >>= λ out. some (1, out)
