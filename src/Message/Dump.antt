-- ===== src/Message/Dump.antt =====
-- What the dump functions of Message/Buffer.antt leave of the pending bytes.
use eset_store.Base.{
  ℕ, ◌+◌, ◌-◌, ◌%◌, ◌^◌, ◌≤◌, ◌<◌, ◌≡◌, refl, ap, sym, ◌∙◌, Option, some, List, [], ◌∷◌, ◌++◌,
  arith, ◌&&◌, ◌==◌, ltb, length, take, drop, read_bytes, ◌>>=◌, length-append, length-take,
  length-drop, take-drop, take-append_self, Bool-cases, inl, inr, read_bytes-some, write_bytes-some,
  drop_all, ne→not_eq, drop-append_add,
}
use eset_store.Text.Lines.{Free}
use eset_store.Message.Buffer.{
  MessageBuffer, move_to_front, through_ch, dump_msg_with_ch, dump_meta_msg_with_suffix,
  dump_msg_with_size,
}

-- Both arrays have the buffer's size, and what was received lies within it.
pub record IsValid (b : MessageBuffer) : Type 0 where
  pub buf_length : length b.buf ≡ b.buf_size
  pub swp_length : length b.swp_buf ≡ b.buf_size
  pub written : b.w_offset ≤ b.buf_size
  pub small : b.buf_size < 2 ^ 63

-- The bytes that were received and not yet dumped.
abbrev pub pending : MessageBuffer → List ℕ
pending b = take b.w_offset b.buf

-- A result that returns `n` and takes the first `n` pending bytes off.
abbrev pub Dumps : MessageBuffer → ℕ → Option (ℕ × MessageBuffer) → Type 0
Dumps b n result =
    (b' : MessageBuffer) × (result ≡ some (n, b'))
    × (pending b' ≡ drop n (pending b))
    × (b'.w_offset + n ≡ b.w_offset)
    × IsValid b'

pub take_front : (n : ℕ) (xs ys : List ℕ) → length xs ≡ n → take n (xs ++ ys) ≡ xs
take_front n xs ys e = ap (λ m. take m (xs ++ ys)) (sym e) ∙ take-append_self xs ys

module _ {b : MessageBuffer} (v : IsValid b) (from n : ℕ) (e : from + n ≡ b.w_offset) where
  abbrev pub moved : List ℕ
  moved = take n (drop from b.buf)

  length-moved : length moved ≡ n
  length-moved = omega (arith, length-take n (drop from b.buf), length-drop from b.buf)

  pending-moved : moved ≡ drop from (pending b)
  pending-moved = take-drop from n b.w_offset b.buf e

  abbrev pub after_move : MessageBuffer
  after_move = record b {
    buf = moved ++ drop (length moved) b.buf;
    swp_buf = moved ++ drop (length moved) b.swp_buf;
  }

  pub move_to_front_lem : move_to_front b from n ≡ some after_move
  unfolding move_to_front
  move_to_front_lem =
      rw
        (
          read_bytes-some b.buf from n (omega arith),
          write_bytes-some b.swp_buf moved (omega (arith, length-moved)),
        )
        (rw
          (
            read_bytes-some (moved ++ drop (length moved) b.swp_buf) 0 n
                (omega (arith, length-append moved (drop (length moved) b.swp_buf), length-moved)),
            take_front n moved (drop (length moved) b.swp_buf) length-moved,
          )
          (rw (write_bytes-some b.buf moved (omega (arith, length-moved)))))

  pub after_move-IsValid : (r : ℕ) → IsValid (record after_move { w_offset = n; r_offset = r })
  after_move-IsValid r = record {
    buf_length = omega (
      arith,
      length-append moved (drop (length moved) b.buf),
      length-drop (length moved) b.buf,
      length-moved,
    );
    swp_length = omega (
      arith,
      length-append moved (drop (length moved) b.swp_buf),
      length-drop (length moved) b.swp_buf,
      length-moved,
    );
    written = omega arith;
    small = v.small;
  }

  pub after_move-pending : take n after_move.buf ≡ drop from (pending b)
  after_move-pending = take_front n moved _ length-moved ∙ pending-moved

through_ch-le : (ch : ℕ) (xs : List ℕ) → through_ch ch xs ≤ length xs
unfolding through_ch
through_ch-le ch [] = omega arith
through_ch-le ch (x ∷ xs) = ground (arith, through_ch-le ch xs)

module _ {b : MessageBuffer} (v : IsValid b) where
  pub length-pending : length (pending b) ≡ b.w_offset
  length-pending = omega (arith, length-take b.w_offset b.buf, v.buf_length, v.written)

  pub read_pending : read_bytes b.buf 0 b.w_offset ≡ some (pending b)
  read_pending = read_bytes-some b.buf 0 b.w_offset (omega (arith, v.buf_length, v.written))

  dump_all :
      (n r : ℕ) → n ≡ b.w_offset → Dumps b n (some (n, record b { w_offset = 0; r_offset = r }))
  dump_all n r e = (
    record b { w_offset = 0; r_offset = r },
    refl,
    sym (drop_all n (pending b) (omega (arith, length-pending))),
    omega arith,
    record {
      buf_length = v.buf_length;
      swp_length = v.swp_length;
      written = omega arith;
      small = v.small;
    },
  )

  dump_none : (n : ℕ) → n ≡ 0 → Dumps b n (some (n, b))
  dump_none n e = (b, refl, sym (ap (λ m. drop m (pending b)) e), omega arith, v)

  -- The result that goes through `move_to_front`, with any new read offset.
  dump_moved :
      (n rest : ℕ) (r : MessageBuffer → ℕ)
      → n + rest ≡ b.w_offset
      → Dumps b n (
          move_to_front b n rest >>= λ b'. some (n, record b' { w_offset = rest; r_offset = r b' }))
  dump_moved n rest r e = (
    record (after_move v n rest e) { w_offset = rest; r_offset = r (after_move v n rest e) },
    rw (move_to_front_lem v n rest e),
    after_move-pending v n rest e,
    omega arith,
    after_move-IsValid v n rest e _,
  )

  pub dump_le : (ch : ℕ) → through_ch ch (pending b) ≤ b.w_offset
  dump_le ch = omega (arith, through_ch-le ch (pending b), length-pending)

  -- On a valid buffer, which stays valid, `dumpMsgWithCh` takes off the pending bytes up to the
  -- first `ch`, with it, and none if there is none; it returns how many it took.
  pub dump_msg_with_ch-Dumps :
      (ch : ℕ) → Dumps b (through_ch ch (pending b)) (dump_msg_with_ch b ch)
  unfolding dump_msg_with_ch
  dump_msg_with_ch-Dumps ch = elim (Bool-cases (ltb 0 d && d == b.w_offset)) [
    | inl all ↦ rw (read_pending, dump_msg_with_ch) (rw all (dump_all d 0 (ground arith)))
    | inr some_left ↦
        rw (read_pending, dump_msg_with_ch)
          (rw some_left (elim (Bool-cases (b.w_offset - d == 0)) [
            | inl empty ↦ rw empty (dump_none d (ground (arith, dump_le ch)))
            | inr full ↦ rw full (dump_moved d (b.w_offset - d) _ (omega (arith, dump_le ch)))
          ]))
  ]
    where
      d : ℕ
      d = through_ch ch (pending b)

  -- On a valid buffer, which stays valid, `dumpMetaMsgWithSuffix` takes off the pending bytes up to the
  -- first suffix, with it, and none if there is none; it returns how many it took.
  pub dump_meta_msg_with_suffix-Dumps :
      (ch : ℕ) → Dumps b (through_ch ch (pending b)) (dump_meta_msg_with_suffix b ch)
  unfolding dump_meta_msg_with_suffix
  dump_meta_msg_with_suffix-Dumps ch = elim (Bool-cases (ltb 0 d && d == b.w_offset)) [
    | inl all ↦
        rw (read_pending, dump_meta_msg_with_suffix) (rw all (dump_all d b.r_offset (ground arith)))
    | inr some_left ↦
        rw (read_pending, dump_meta_msg_with_suffix)
          (rw some_left (elim (Bool-cases (d == 0)) [
            | inl none_found ↦ rw none_found (dump_none d (ground arith))
            | inr found ↦
                rw (found, ne→not_eq (b.w_offset - d) 0 (ground (arith, dump_le ch)))
                  (dump_moved d (b.w_offset - d) _ (omega (arith, dump_le ch)))
          ]))
  ]
    where
      d : ℕ
      d = through_ch ch (pending b)

  -- On a valid buffer, which stays valid, `dumpMsgWithSize` takes off the first `n` pending bytes,
  -- where there are as many, and returns `n`.
  pub dump_msg_with_size-Dumps : (n : ℕ) → n ≤ b.w_offset → Dumps b n (dump_msg_with_size b n)
  unfolding dump_msg_with_size
  dump_msg_with_size-Dumps n h =
      let rest : (b.w_offset + 2 ^ 64 - n) % 2 ^ 64 ≡ b.w_offset - n =
        omega (arith, v.written, v.small) in
      rw (rest, dump_msg_with_size)
        (elim (Bool-cases (b.w_offset - n == 0)) [
          | inl all ↦ rw all (dump_all n b.r_offset (ground arith))
          | inr left ↦ rw left (dump_moved n (b.w_offset - n) _ (omega arith))
        ])

pub through_ch-first :
    (ch : ℕ) (pre rest : List ℕ)
    → Free (ch ∷ []) pre
    → (through_ch ch (pre ++ (ch ∷ rest)) ≡ length pre + 1) × (through_ch ch pre ≡ 0)
unfolding through_ch
through_ch-first ch [] rest f = (ground arith, refl)
through_ch-first ch (c ∷ pre) rest f =
    let (hit, miss) = through_ch-first ch pre rest f.1 in
    (rw (ne→not_eq c ch f.0.0, hit) (ground arith), rw (ne→not_eq c ch f.0.0, miss))

-- Of a valid buffer that holds a message, its end mark and what follows, `dumpMsgWithCh` leaves what
-- follows, and `dumpMetaMsgWithSuffix` does the same; both return the size of the message with its mark.
pub dump_message :
    {b : MessageBuffer} (ch : ℕ) (msg rest : List ℕ)
    → IsValid b
    → pending b ≡ msg ++ (ch ∷ rest)
    → Free (ch ∷ []) msg
    → ((b' : MessageBuffer) × (dump_msg_with_ch b ch ≡ some (length msg + 1, b'))
        × (pending b' ≡ rest)
        × IsValid b')
      × ((b' : MessageBuffer) × (dump_meta_msg_with_suffix b ch ≡ some (length msg + 1, b'))
          × (pending b' ≡ rest)
          × IsValid b')
dump_message {b} ch msg rest v e f =
    (finish _ (dump_msg_with_ch-Dumps v ch), finish _ (dump_meta_msg_with_suffix-Dumps v ch))
  where
    size : through_ch ch (pending b) ≡ length msg + 1
    size = rw e (through_ch-first ch msg rest f).0

    left : drop (through_ch ch (pending b)) (pending b) ≡ rest
    left = rw (size, e) (drop-append_add msg (ch ∷ rest) 1)

    finish :
        (r : Option (ℕ × MessageBuffer))
        → Dumps b (through_ch ch (pending b)) r
        → (b' : MessageBuffer) × (r ≡ some (length msg + 1, b')) × (pending b' ≡ rest) × IsValid b'
    finish r (b', q, p, w, v') = (b', q ∙ ap (λ n. some (n, b')) size, p ∙ left, v')
