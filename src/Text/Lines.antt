-- ===== src/Text/Lines.antt =====
-- What has_substr, get_dir and read_one_line of Text/Search.antt find in a text.
use eset_store.Base.{
  ℕ, zero, suc, ◌+◌, ◌-◌, ◌^◌, ◌≤◌, ◌<◌, ◌≡◌, refl, none, some, List, [], ◌≢◌, ◌∷◌, ◌++◌, arith,
  true, false, ◌==◌, ltb, length, drop, Bool-cases, inl, inr, ◌⊎◌,
}
use eset_store.Text.Search.{starts_with, compare_at, has_substr, get_dir, read_one_line}

-- Where `has_substr` may find its string: with at least one byte of the buffer behind it.
abbrev pub StandsAt : List ℕ → List ℕ → ℕ → ℕ → Type 0
StandsAt buf str size k =
    (k < length buf) × (k + length str < size) × (starts_with str (drop k buf) ≡ true)

compare_at-starts_with :
    (str text : List ℕ)
    → length str ≤ length text
    → compare_at str text ≡ some (starts_with str text)
unfolding compare_at starts_with
compare_at-starts_with [] text h = refl
compare_at-starts_with (p ∷ ps) [] h = absurd (omega arith)
compare_at-starts_with (p ∷ ps) (c ∷ cs) h = elim (Bool-cases (p == c)) [
  | inl same ↦ rw same (compare_at-starts_with ps cs (omega arith))
  | inr differ ↦ rw differ refl
]

abbrev pub Stands : List ℕ → List ℕ → ℕ → Type 0
Stands buf str size = (k : ℕ) × StandsAt buf str size k

-- A place in the rest, or here.
not_Stands-cons :
    (c : ℕ) (cs str : List ℕ) (size : ℕ)
    → starts_with str (c ∷ cs) ≡ false
    → ¬ Stands cs str (size - 1)
    → ¬ Stands (c ∷ cs) str size
not_Stands-cons c cs str size here later (zero, (l, r, s)) = absurd (ground (arith, here, s))
not_Stands-cons c cs str size here later (suc k, (l, r, s)) =
    later (k, (omega arith, omega arith, s))

-- `hasSubstr`, of a size that the buffer has and an int holds, reads nothing behind the buffer. It
-- answers 1 where the string stands in the buffer at some place that leaves at least one byte of the
-- size behind the string, and 0 where it does not; so it misses a string at the very end.
pub has_substr_iff :
    (buf str : List ℕ) (size : ℕ)
    → size ≤ length buf
    → size < 2 ^ 31
    → ((has_substr buf str size ≡ some true) × Stands buf str size)
      ⊎ ((has_substr buf str size ≡ some false) × ¬ Stands buf str size)
unfolding has_substr
has_substr_iff [] str size h small =
    inr (rw (no_room (omega arith)) refl, λ (k, (l, r, s)). omega arith)
  where
    no_room : size ≤ length str → ltb (length str) size ≡ false
    no_room g = ground arith
has_substr_iff (c ∷ cs) str size h small = elim (Bool-cases (ltb (length str) size)) [
  | inr out ↦ inr (rw out refl, λ (k, (l, r, s)). ground (arith, out))
  | inl room ↦
      let read = compare_at-starts_with str (c ∷ cs) (ground (arith, room)) in
      elim (Bool-cases (starts_with str (c ∷ cs))) [
        | inl here ↦
            inl (rw room (rw read (rw here refl)), (0, (omega arith, ground (arith, room), here)))
        | inr away ↦ elim (has_substr_iff cs str (size - 1) (omega arith) (omega arith)) [
          | inl (e, (k, (l, r, s))) ↦
              inl (rw room (rw read (rw away e)), (suc k, (omega arith, omega arith, s)))
          | inr (e, later) ↦
              inr (rw room (rw read (rw away e)), not_Stands-cons c cs str size away later)
        ]
      ]
]

abbrev pub NoneOf : List ℕ → ℕ → Type 0
NoneOf [] c = Unit {0}
NoneOf (s ∷ stops) c = (c ≢ s) × NoneOf stops c

-- No character of the text is one of the stops.
abbrev pub Free : List ℕ → List ℕ → Type 0
Free stops [] = Unit {0}
Free stops (c ∷ cs) = NoneOf stops c × Free stops cs

get_dir-Free : (file : List ℕ) → Free (b'/' ∷ []) file → get_dir file ≡ none
unfolding get_dir
get_dir-Free [] h = refl
get_dir-Free (c ∷ cs) h = rw (get_dir-Free cs h.1, get_dir) (ground arith)

get_dir-append :
    (dir file : List ℕ)
    → Free (b'/' ∷ []) file
    → get_dir (dir ++ (b'/' ∷ file)) ≡ some (dir ++ (b'/' ∷ []))
unfolding get_dir
get_dir-append [] file h = rw (get_dir-Free file h, get_dir)
get_dir-append (c ∷ cs) file h = rw (get_dir-append cs file h, get_dir)

-- `getDir` cuts a path behind its last '/', and runs out of the path where there is none.
pub get_dir_lem :
    (dir file : List ℕ)
    → Free (b'/' ∷ []) file
    → (get_dir (dir ++ (b'/' ∷ file)) ≡ some (dir ++ (b'/' ∷ []))) × (get_dir file ≡ none)
get_dir_lem dir file h = (get_dir-append dir file h, get_dir-Free file h)

read_to_stop :
    (line rest : List ℕ) (stop : ℕ)
    → Free (13 ∷ 10 ∷ []) line
    → (stop ≡ 13) ⊎ (stop ≡ 10)
    → read_one_line (line ++ (stop ∷ rest)) ≡ (line, rest)
unfolding read_one_line
read_to_stop [] rest stop h s = ground arith
read_to_stop (c ∷ cs) rest stop h s = rw (read_to_stop cs rest stop h.1 s) (ground arith)

read_to_end : (line : List ℕ) → Free (13 ∷ 10 ∷ []) line → read_one_line line ≡ (line, [])
unfolding read_one_line
read_to_end [] h = refl
read_to_end (c ∷ cs) h = rw (read_to_end cs h.1) (ground arith)

-- `readOneLine` takes the text up to the first CR or LF off the file, with that character, or all
-- that is left where there is none.
pub read_one_line_lem :
    (line rest : List ℕ) (stop : ℕ)
    → Free (13 ∷ 10 ∷ []) line
    → (stop ≡ 13) ⊎ (stop ≡ 10)
    → (read_one_line (line ++ (stop ∷ rest)) ≡ (line, rest)) × (read_one_line line ≡ (line, []))
read_one_line_lem line rest stop h s = (read_to_stop line rest stop h s, read_to_end line h)
