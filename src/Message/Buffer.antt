-- ===== src/Message/Buffer.antt =====
-- The functions of ECServer/MessageBuffer.c. `none` is an access outside a buffer. Where a source
-- and a target of `memcpy` overlap, the copy is taken to move the bytes unchanged.
use mathlib.Core.Option
use eset_store.Base.{
  ℕ, suc, ◌+◌, ◌-◌, ◌%◌, ◌^◌, ◌&&◌, Option, none, some, List, [], ◌∷◌, ltb, leb, ◌==◌,
  if◌then◌else◌, length, get_or, read_bytes, write_bytes, ◌>>=◌, not,
}
use eset_store.Text.Search.{starts_with}

pub record MessageBuffer : Type 0 where
  pub buf : List ℕ
  pub swp_buf : List ℕ
  pub buf_size : ℕ
  pub r_offset : ℕ
  pub w_offset : ℕ

abbrev pub default_message_buf : ℕ
default_message_buf = 1024

-- `alloc n` is what `malloc` returns for `n` bytes; the two calls follow one another.
unfoldable pub create_message_buf : (ℕ → List ℕ) → (ℕ → List ℕ) → ℕ → MessageBuffer
create_message_buf alloc alloc' size = record {
  buf = alloc n;
  swp_buf = alloc' n;
  buf_size = n;
  r_offset = 0;
  w_offset = 0;
}
  where
    n : ℕ
    n = if size == 0 then default_message_buf else size

-- The two `memcpy`, to `swpBuf` and back to the front of `buf`.
unfoldable pub move_to_front : MessageBuffer → ℕ → ℕ → Option MessageBuffer
move_to_front b from n = read_bytes b.buf from n >>= λ bytes. write_bytes b.swp_buf bytes >>= λ swp.
    read_bytes swp 0 n >>= λ back.
    write_bytes b.buf back >>= λ buf. some (record b { buf = buf; swp_buf = swp })

-- How many bytes the text has up to the first `ch`, with it; 0 if there is none.
unfoldable pub through_ch : ℕ → List ℕ → ℕ
through_ch ch [] = 0
through_ch ch (c ∷ cs) =
    let rest = through_ch ch cs in if c == ch then 1 else if rest == 0 then 0 else rest + 1

unfoldable pub dump_msg_with_ch : MessageBuffer → ℕ → Option (ℕ × MessageBuffer)
unfolding move_to_front through_ch
dump_msg_with_ch b ch = read_bytes b.buf 0 b.w_offset >>= λ text.
    let dump = through_ch ch text in
    let rest = b.w_offset - dump in
    if ltb 0 dump && dump == b.w_offset
    then some (dump, record b { w_offset = 0; r_offset = 0 })
    else if rest == 0
    then some (dump, b)
    else move_to_front b dump rest >>= λ b'. some (
      dump,
      record b' {
        w_offset = rest;
        r_offset = if leb dump b'.r_offset then b'.r_offset - dump else b'.r_offset;
      },
    )

unfoldable pub dump_meta_msg_with_suffix : MessageBuffer → ℕ → Option (ℕ × MessageBuffer)
unfolding move_to_front through_ch
dump_meta_msg_with_suffix b suffix = read_bytes b.buf 0 b.w_offset >>= λ text.
    let dump = through_ch suffix text in
    let rest = b.w_offset - dump in
    if ltb 0 dump && dump == b.w_offset
    then some (dump, record b { w_offset = 0 })
    else if dump == 0
    then some (dump, b)
    else if rest == 0
    then some (dump, record b { w_offset = rest })
    else move_to_front b dump rest >>= λ b'. some (dump, record b' { w_offset = rest })

-- The size that is left wraps round where more is to be dumped than there is.
unfoldable pub dump_msg_with_size : MessageBuffer → ℕ → Option (ℕ × MessageBuffer)
unfolding move_to_front
dump_msg_with_size b dump =
    let rest = (b.w_offset + 2 ^ 64 - dump) % 2 ^ 64 in
    if rest == 0
    then some (dump, record b { w_offset = 0 })
    else move_to_front b dump rest >>= λ b'. some (dump, record b' { w_offset = rest })

-- Where the `k`-th occurrence of the flag starts.
unfoldable pub nth_marker : List ℕ → ℕ → List ℕ → Option ℕ
unfolding starts_with
nth_marker flag k [] = if starts_with flag [] && k == 1 then some 0 else none
nth_marker flag k (c ∷ cs) =
    let rest =
      Option.map suc (nth_marker flag (if starts_with flag (c ∷ cs) then k - 1 else k) cs) in
    if starts_with flag (c ∷ cs) && k == 1 then some 0 else rest

-- Where the cut is: behind the flag, and behind one NUL that follows it.
abbrev pub flag_end : MessageBuffer → List ℕ → ℕ → ℕ
flag_end b text after =
    if not (after == b.w_offset) && get_or text after 1 == 0 then after + 1 else after

unfoldable pub cut_through : MessageBuffer → ℕ → Option (ℕ × MessageBuffer)
cut_through b end = read_bytes b.buf end (b.w_offset - end) >>= λ rest.
    write_bytes b.buf rest >>= λ buf.
    some (end, record b { buf = buf; w_offset = b.w_offset - end })

unfoldable pub cut_flag : MessageBuffer → List ℕ → List ℕ → Option ℕ → Option (ℕ × MessageBuffer)
unfolding cut_through
cut_flag b flag text none = some (0, b)
cut_flag b flag text (some idx) = cut_through b (flag_end b text (idx + length flag))

unfoldable pub dump_msg_with_flag : MessageBuffer → List ℕ → ℕ → Option (ℕ × MessageBuffer)
unfolding nth_marker cut_flag
dump_msg_with_flag b flag flag_idx =
    read_bytes b.buf 0 b.w_offset >>= λ text. cut_flag b flag text (nth_marker flag flag_idx text)

unfoldable pub dump_msg : MessageBuffer → Option (ℕ × MessageBuffer)
dump_msg b =
    let rest = (b.w_offset + 2 ^ 64 - b.r_offset) % 2 ^ 64 in
    if b.r_offset == b.w_offset
    then some (b.r_offset, record b { w_offset = rest; r_offset = 0 })
    else read_bytes b.buf b.r_offset rest >>= λ bytes. write_bytes b.buf bytes >>= λ buf.
        some (b.r_offset, record b { buf = buf; w_offset = rest; r_offset = 0 })
