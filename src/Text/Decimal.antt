-- ===== src/Text/Decimal.antt =====
-- Decimal texts, and the printer and the parser of Text/Number.antt on them.
use native.Mathlib.Decide.{dec_lt}
use native.Mathlib.Nat.{pow-suc, pow-le-pow_right}
use eset_store.Base.{
  if◌then◌else◌, ℕ, zero, suc, ◌+◌, ◌-◌, ◌*◌, ◌/◌, ◌%◌, ◌^◌, ◌≤◌, ◌<◌, ◌≡◌, refl, ap, ◌∙◌, ◌⊎◌,
  none, some, List, [], ◌∷◌, ◌++◌, append_assoc, arith, length, set, drop, length-set,
  length-append, length-drop, drop-set_self, lt→ltb, ltb, ne→not_eq, Bool-cases, inl, inr, true,
  false,
}
use eset_store.Text.Number.{
  is_digit, c_str, int_from, uint64_from, str_to_uint64, count_digits, digit_fuel, fill_digits,
  uint64_to_str, u64_mod, u32_mod,
}

-- The last `n` decimal digits of `v`, the highest first.
unfoldable pub decimal : ℕ → ℕ → List ℕ
decimal zero v = []
decimal (suc n) v = decimal n (v / 10) ++ ((v % 10 + b'0') ∷ [])

pub length-decimal : (n v : ℕ) → length (decimal n v) ≡ n
unfolding decimal
length-decimal zero v = refl
length-decimal (suc n) v =
    omega
      (arith, length-append (decimal n (v / 10)) ((v % 10 + b'0') ∷ []), length-decimal n (v / 10))

fill_digits_lem :
    (n v : ℕ) (buf : List ℕ)
    → n ≤ length buf
    → fill_digits n v buf ≡ some (decimal n v ++ drop n buf)
unfolding fill_digits decimal
fill_digits_lem zero v buf h = refl
fill_digits_lem (suc n) v buf h = rw (lt→ltb n (length buf) h) (
    fill_digits_lem n (v / 10) (set buf n (v % 10 + b'0'))
      (omega (arith, length-set buf n (v % 10 + b'0')))
    ∙ rw (drop-set_self buf n (v % 10 + b'0') h, append_assoc))

-- `count_digits` finds the number of digits: the least `suc n` with `v < 10 ^ suc n`.
abbrev pub IsWidth : ℕ → ℕ → Type 0
IsWidth n v = (v < 10 ^ suc n) × ((n ≡ 0) ⊎ (10 ^ n ≤ v))

count_digits_lem :
    (fuel v k : ℕ)
    → v < 10 ^ fuel
    → 0 < fuel
    → (n : ℕ) × (count_digits fuel v k ≡ k + n) × IsWidth n v × (n < fuel)
unfolding count_digits
count_digits_lem zero v k h p = absurd (omega arith)
count_digits_lem (suc zero) v k h p = elim (Bool-cases (ltb 0 (v / 10))) [
  | inl more ↦ absurd (ground arith)
  | inr last ↦ (0, rw last (omega arith), (omega arith, inl refl), omega arith)
]
count_digits_lem (suc (suc fuel)) v k h p = elim (Bool-cases (ltb 0 (v / 10))) [
  | inl more ↦
      let (n, e, (lt, low), m) =
        count_digits_lem (suc fuel) (v / 10) (k + 1) (omega (arith, pow-suc 10 (suc fuel)))
          (omega arith) in
      (
        suc n,
        rw more (rw e (omega arith)),
        (omega (arith, pow-suc 10 (suc n)), inr (low_pow n low more)),
        omega arith,
      )
  | inr last ↦ (0, rw last (omega arith), (ground arith, inl refl), omega arith)
]
  where
    low_pow : (n : ℕ) → (n ≡ 0) ⊎ (10 ^ n ≤ v / 10) → ltb 0 (v / 10) ≡ true → 10 ^ suc n ≤ v
    low_pow n (inl e) t = rw e (ground arith)
    low_pow n (inr l) t = omega (arith, pow-suc 10 n)

uint64_from-append :
    (a : ℕ) (xs ys : List ℕ) → uint64_from a (xs ++ ys) ≡ uint64_from (uint64_from a xs) ys
unfolding uint64_from
uint64_from-append a [] ys = refl
uint64_from-append a (x ∷ xs) ys =
    uint64_from-append ((a * 10 + x + (u64_mod - b'0')) % u64_mod) xs ys

pub uint64_from-decimal : (n v : ℕ) → v < 10 ^ n → uint64_from 0 (decimal n v) ≡ v % u64_mod
unfolding uint64_from decimal
uint64_from-decimal zero v h = omega arith
uint64_from-decimal (suc n) v h =
    uint64_from-append 0 (decimal n (v / 10)) ((v % 10 + b'0') ∷ [])
    ∙ rw (uint64_from-decimal n (v / 10) (omega (arith, pow-suc 10 n))) (omega arith)

abbrev pub AllDigits : List ℕ → Type 0
AllDigits [] = Unit {0}
AllDigits (c ∷ cs) = (b'0' ≤ c) × (c ≤ b'9') × AllDigits cs

AllDigits-append : (xs ys : List ℕ) → AllDigits xs → AllDigits ys → AllDigits (xs ++ ys)
AllDigits-append [] ys p q = q
AllDigits-append (x ∷ xs) ys p q = (p.0, p.1, AllDigits-append xs ys p.2 q)

pub decimal-AllDigits : (n v : ℕ) → AllDigits (decimal n v)
unfolding decimal
decimal-AllDigits zero v = tt
decimal-AllDigits (suc n) v =
    AllDigits-append (decimal n (v / 10)) _ (decimal-AllDigits n (v / 10))
      (omega arith, omega arith, tt)

pub c_str-AllDigits : (xs ys : List ℕ) → AllDigits xs → c_str (xs ++ 0 ∷ ys) ≡ xs
unfolding c_str
c_str-AllDigits [] ys p = refl
c_str-AllDigits (x ∷ xs) ys p =
    rw (ne→not_eq x 0 (omega arith)) (ap (◌∷◌ x) (c_str-AllDigits xs ys p.2))

pub c_str_all : (xs : List ℕ) → AllDigits xs → c_str xs ≡ xs
unfolding c_str
c_str_all [] p = refl
c_str_all (x ∷ xs) p = rw (ne→not_eq x 0 (omega arith)) (ap (◌∷◌ x) (c_str_all xs p.2))

-- The printer, at the width that its first loop finds: the digits, the NUL, and the old bytes after.
uint64_to_str_at :
    (v size w : ℕ) (buf : List ℕ)
    → count_digits digit_fuel v 1 ≡ w
    → w ≤ size
    → w < length buf
    → uint64_to_str v buf size ≡ some (w, decimal w v ++ 0 ∷ drop (suc w) buf)
unfolding uint64_to_str
uint64_to_str_at v size w buf e hs hb =
    rw (e, not_ltb w size hs, lt→ltb w (length buf) hb)
      (rw (
        fill_digits_lem w v (set buf w 0) (omega (arith, length-set buf w 0)),
        drop-set_self buf w 0 hb,
      ))
  where
    not_ltb : (a b : ℕ) → a ≤ b → ltb b a ≡ false
    not_ltb a b h = ground arith

-- A buffer of 21 characters or more, given a size of 20 or more, receives the decimal text of a 64-bit
-- number, without leading zeros, and the number of digits is returned; the buffer keeps its length.
pub uint64_to_str_lem :
    (v size : ℕ) (buf : List ℕ)
    → v < u64_mod
    → 21 ≤ length buf
    → 20 ≤ size
    → (n : ℕ) × (out : List ℕ) × (uint64_to_str v buf size ≡ some (suc n, out))
      × (c_str out ≡ decimal (suc n) v)
      × IsWidth n v
      × (length out ≡ length buf)
uint64_to_str_lem v size buf hv hb hs =
    let (n, e, w, m) = count_digits_lem digit_fuel v 1 (omega arith) (omega arith) in
    (
      n,
      decimal (suc n) v ++ 0 ∷ drop (suc (suc n)) buf,
      uint64_to_str_at v size (suc n) buf (e ∙ omega arith) (omega arith) (omega arith),
      c_str-AllDigits (decimal (suc n) v) _ (decimal-AllDigits (suc n) v),
      w,
      omega (
        arith,
        length-append (decimal (suc n) v) (0 ∷ drop (suc (suc n)) buf),
        length-decimal (suc n) v,
        length-drop (suc (suc n)) buf,
      ),
    )

-- What `uint64_to_str` prints of a 64-bit number into a buffer of 21 characters or more, given a size
-- of 20 or more, `str_to_uint64` reads back; the size that is returned is that of the text.
pub str_to_uint64-uint64_to_str :
    (v size : ℕ) (buf : List ℕ)
    → v < u64_mod
    → 21 ≤ length buf
    → 20 ≤ size
    → (n : ℕ) × (out : List ℕ) × (uint64_to_str v buf size ≡ some (n, out))
      × (length (c_str out) ≡ n)
      × (str_to_uint64 (c_str out) ≡ v)
unfolding str_to_uint64
str_to_uint64-uint64_to_str v size buf hv hb hs =
    let (n, out, e, c, (w, low), l) = uint64_to_str_lem v size buf hv hb hs in
    (
      suc n,
      out,
      e,
      rw c (length-decimal (suc n) v),
      rw c (uint64_from-decimal (suc n) v w ∙ omega arith),
    )

width_le : (m n v : ℕ) → IsWidth m v → IsWidth n v → m ≤ n
width_le m n v p q = elim (dec_lt n m) [
  | yes l ↦ absurd (clash p.1 (pow-le-pow_right {n = 10} (omega arith) l) l)
  | no g ↦ omega arith
]
  where
    clash : (m ≡ 0) ⊎ (10 ^ m ≤ v) → 10 ^ suc n ≤ 10 ^ m → n < m → ⊥
    clash (inl e) l' l = omega arith
    clash (inr low) l' l = omega (arith, q.0)

-- The size test leaves out the NUL: where the digits of a 64-bit number fill the buffer exactly,
-- `buf[strSize] = 0` writes one place past its end.
pub uint64_to_str_overrun :
    (v n : ℕ) (buf : List ℕ)
    → v < u64_mod
    → IsWidth n v
    → length buf ≡ suc n
    → uint64_to_str v buf (length buf) ≡ none
unfolding uint64_to_str
uint64_to_str_overrun v n buf hv w l =
    let (m, e, w', lt) = count_digits_lem digit_fuel v 1 (omega arith) (omega arith) in
    let same : 1 + m ≡ suc n = omega (arith, width_le m n v w' w, width_le n m v w w') in
    rw (e, same, l) (ground arith)

int_from-append : (a : ℕ) (xs ys : List ℕ) → int_from a (xs ++ ys) ≡ int_from (int_from a xs) ys
unfolding int_from
int_from-append a [] ys = refl
int_from-append a (x ∷ xs) ys =
    int_from-append (if is_digit x then (a * 10 + x - b'0') % u32_mod else a) xs ys

pub int_from-decimal : (n v : ℕ) → v < 10 ^ n → int_from 0 (decimal n v) ≡ v % u32_mod
unfolding int_from decimal
int_from-decimal zero v h = omega arith
int_from-decimal (suc n) v h =
    int_from-append 0 (decimal n (v / 10)) ((v % 10 + b'0') ∷ [])
    ∙ rw (int_from-decimal n (v / 10) (omega (arith, pow-suc 10 n))) (ground arith)
