-- ===== src/Text/Search.antt =====
-- Values between markers: the `get…Between…` functions, hasSubstr, getDir,
-- readOneLine and writeToBuf of ECMeta/ecUtils.c and ECServer/ecUtils.c.
-- A text is memory from its first character on; `size` is the length that the code goes by.
use mathlib.Core.Option
use eset_store.Base.{
  ℕ, suc, ◌+◌, ◌-◌, Bool, true, false, ◌&&◌, ◌||◌, Option, none, some, List, [], ◌∷◌, ◌++◌, ltb,
  ◌==◌, if◌then◌else◌, length, drop, read_bytes, ◌>>=◌,
}
use eset_store.Text.Number.{c_str, str_to_int, str_to_uint64, minus_one, u64_mod}

-- `strncmp(pattern, text, strlen(pattern)) == 0`
unfoldable pub starts_with : List ℕ → List ℕ → Bool
starts_with [] text = true
starts_with (p ∷ ps) [] = false
starts_with (p ∷ ps) (c ∷ cs) = p == c && starts_with ps cs

-- The search loop: how far the pattern's first occurrence is, or `none` where the next place is
-- too near the end. `size` falls with the text, so that `idx + len > size` is `left < len + 1`.
unfoldable pub find_marker : List ℕ → ℕ → List ℕ → Option ℕ
unfolding starts_with
find_marker pat left [] = if starts_with pat [] then some 0 else none
find_marker pat left (c ∷ cs) =
    let rest = Option.map suc (find_marker pat (left - 1) cs) in
    if starts_with pat (c ∷ cs) then some 0 else if ltb left (length pat + 1) then none else rest

-- What the three functions share: where the value between the markers starts and ends. The search
-- for the second marker leaves one character out.
unfoldable pub value_range : List ℕ → List ℕ → List ℕ → ℕ → Option (ℕ × ℕ)
unfolding find_marker
value_range str1 str2 str size = find_marker str1 size str >>= λ idx.
    let from = idx + length str1 in
    Option.map (λ k. (from, from + 1 + k))
      (find_marker str2 (size - (from + 1)) (drop (from + 1) str))

abbrev pub value_buf_size : ℕ
value_buf_size = 1024

-- The copy into `char valueBuf[1024]`, with its NUL: a fault where it does not fit.
unfoldable pub copy_value : List ℕ → ℕ → ℕ → Option (List ℕ)
unfolding c_str
copy_value str from to =
    if ltb (to - from) value_buf_size
    then Option.map c_str (read_bytes str from (to - from))
    else none

-- The outer `none` is a fault; what is not found is -1, or 0 for a size.
unfoldable pub get_uint64_value_between_strs : List ℕ → List ℕ → List ℕ → ℕ → Option ℕ
unfolding value_range copy_value str_to_uint64
get_uint64_value_between_strs str1 str2 str size = elim (value_range str1 str2 str size) [
  | none ↦ some (u64_mod - 1)
  | some (from, to) ↦ Option.map str_to_uint64 (copy_value str from to)
]

unfoldable pub get_size_t_value_between_strs : List ℕ → List ℕ → List ℕ → Option ℕ
unfolding value_range copy_value str_to_uint64
get_size_t_value_between_strs str1 str2 str = elim (value_range str1 str2 str (length str)) [
  | none ↦ some 0
  | some (from, to) ↦ Option.map str_to_uint64 (copy_value str from to)
]

unfoldable pub get_int_value_between_strings : List ℕ → List ℕ → List ℕ → Option ℕ
unfolding value_range copy_value str_to_int
get_int_value_between_strings str1 str2 str = elim (value_range str1 str2 str (length str)) [
  | none ↦ some minus_one
  | some (from, to) ↦ Option.map (λ text. str_to_int (some text)) (copy_value str from to)
]

-- `strncmp(text, pattern, strlen(pattern)) == 0`; `none`: it reads behind the text.
unfoldable pub compare_at : List ℕ → List ℕ → Option Bool
compare_at [] text = some true
compare_at (p ∷ ps) [] = none
compare_at (p ∷ ps) (c ∷ cs) = let rest = compare_at ps cs in if p == c then rest else some false

-- `while (idx + strSize < bufSize)`; behind the text only an empty pattern is compared without a
-- fault, and it is found.
unfoldable pub has_substr : List ℕ → List ℕ → ℕ → Option Bool
unfolding compare_at
has_substr [] str size = if ltb (length str) size then compare_at str [] else some false
has_substr (c ∷ cs) str size =
    let rest = has_substr cs str (size - 1) in
    let looked = compare_at str (c ∷ cs) >>= λ found. if found then some true else rest in
    if ltb (length str) size then looked else some false

-- The first line of what is left to read, and what is left then. At the end of the file both are
-- empty.
unfoldable pub read_one_line : List ℕ → List ℕ × List ℕ
read_one_line [] = ([], [])
read_one_line (c ∷ cs) =
    let (line, rest) = read_one_line cs in if c == 13 || c == 10 then ([], cs) else (c ∷ line, rest)

-- The path up to its last '/'. Without one the loop runs below the path's start, which is a fault.
unfoldable pub get_dir : List ℕ → Option (List ℕ)
get_dir [] = none
get_dir (c ∷ cs) = elim (get_dir cs) [
  | some dir ↦ some (c ∷ dir)
  | none ↦ if c == b'/' then some (c ∷ []) else none
]

-- `desBuf` up to `writeOffset`: the texts that were written so far, one after the other.
unfoldable pub write_to_buf : List ℕ → List ℕ → List ℕ
unfolding c_str
write_to_buf des src = des ++ c_str src
