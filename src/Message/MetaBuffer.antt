-- ===== src/Message/MetaBuffer.antt =====
-- The dump of the metadata server: dumpMsgWithCh of ECMeta/MessageBuffer.c. It is that of
-- ECServer/MessageBuffer.c but for the read offset, which it leaves where a part is dumped.
use eset_store.Base.{
  ℕ, ◌+◌, ◌-◌, ◌≡◌, refl, ◌∙◌, ap, sym, drop_all, drop-append_add, ◌&&◌, Option, some, List, [],
  ◌∷◌, ◌++◌, arith, ltb, ◌==◌, if◌then◌else◌, length, drop, Bool-cases, inl, inr, read_bytes, ◌>>=◌,
}
use eset_store.Text.Lines.{Free}
use eset_store.Message.Buffer.{MessageBuffer, move_to_front, through_ch}
use eset_store.Message.Dump.{
  IsValid, pending, length-pending, read_pending, dump_le, after_move, move_to_front_lem,
  after_move-IsValid, after_move-pending, through_ch-first,
}

unfoldable pub dump_msg_with_ch : MessageBuffer → ℕ → Option (ℕ × MessageBuffer)
unfolding move_to_front through_ch
dump_msg_with_ch b ch = read_bytes b.buf 0 b.w_offset >>= λ text.
    let dump = through_ch ch text in
    let rest = b.w_offset - dump in
    if ltb 0 dump && dump == b.w_offset
    then some (dump, record b { w_offset = 0; r_offset = 0 })
    else if rest == 0
    then some (dump, b)
    else move_to_front b dump rest >>= λ b'. some (dump, record b' { w_offset = rest })

-- What is left of a buffer that is read from its start, and that it is still read from there.
abbrev pub Leaves : ℕ → List ℕ → Option (ℕ × MessageBuffer) → Type 0
Leaves n rest result =
    (b' : MessageBuffer) × (result ≡ some (n, b'))
    × (pending b' ≡ rest)
    × IsValid b'
    × (b'.r_offset ≡ 0)

dump_msg_with_ch-Leaves :
    {b : MessageBuffer} (ch : ℕ)
    → IsValid b
    → b.r_offset ≡ 0
    → Leaves
        (through_ch ch (pending b))
        (drop (through_ch ch (pending b)) (pending b))
        (dump_msg_with_ch b ch)
unfolding dump_msg_with_ch
dump_msg_with_ch-Leaves {b} ch v start = elim (Bool-cases (ltb 0 d && d == b.w_offset)) [
  | inl all ↦ (
    record b { w_offset = 0; r_offset = 0 },
    rw (read_pending v, dump_msg_with_ch) (rw all refl),
    sym (drop_all d (pending b) (ground (arith, all, length-pending v))),
    record {
      buf_length = v.buf_length;
      swp_length = v.swp_length;
      written = omega arith;
      small = v.small;
    },
    refl,
  )
  | inr some_left ↦ elim (Bool-cases (b.w_offset - d == 0)) [
    | inl empty ↦
        let nothing : 0 ≡ d = ground (arith, dump_le v ch) in
        (
          b,
          rw (read_pending v, dump_msg_with_ch) (rw some_left (rw empty refl)),
          ap (λ n. drop n (pending b)) nothing,
          v,
          start,
        )
    | inr full ↦ (
      record (after_move v d (b.w_offset - d) fits) { w_offset = b.w_offset - d },
      rw (read_pending v, dump_msg_with_ch)
          (rw some_left (rw full (rw (move_to_front_lem v d (b.w_offset - d) fits) refl))),
      after_move-pending v d (b.w_offset - d) fits,
      after_move-IsValid v d (b.w_offset - d) fits b.r_offset,
      start,
    )
  ]
]
  where
    d : ℕ
    d = through_ch ch (pending b)

    fits : d + (b.w_offset - d) ≡ b.w_offset
    fits = omega (arith, dump_le v ch)

-- Of a message, its end mark and what follows, what follows is left.
pub dump_msg_with_ch-first :
    {b : MessageBuffer} (ch : ℕ) (msg rest : List ℕ)
    → IsValid b
    → b.r_offset ≡ 0
    → pending b ≡ msg ++ (ch ∷ rest)
    → Free (ch ∷ []) msg
    → Leaves (length msg + 1) rest (dump_msg_with_ch b ch)
dump_msg_with_ch-first {b} ch msg rest v start e f =
    let (b', returned, left, v', start') = dump_msg_with_ch-Leaves ch v start in
    (
      b',
      returned ∙ ap (λ n. some (n, b')) size,
      left ∙ rw (size, e) (drop-append_add msg (ch ∷ rest) 1),
      v',
      start',
    )
  where
    size : through_ch ch (pending b) ≡ length msg + 1
    size = rw e (through_ch-first ch msg rest f).0
