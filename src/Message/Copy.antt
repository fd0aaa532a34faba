-- ===== src/Message/Copy.antt =====
-- The dump functions of Message/Buffer.antt that copy within the buffer: dumpMsg, dumpMsgWithFlag.
use eset_store.Base.{
  ℕ, ◌+◌, ◌-◌, ◌%◌, ◌^◌, ◌≤◌, ◌<◌, ◌≡◌, refl, ap, sym, ◌∙◌, some, List, [], ◌∷◌, ◌++◌, arith, true,
  ◌&&◌, ◌==◌, if◌then◌else◌, length, take, drop, read_bytes, write_bytes, ◌>>=◌, length-append,
  length-take, length-drop, take-drop, get_or, Bool-cases, inl, inr, Option-cases, read_bytes-some,
  write_bytes-some, drop_all, eq→==, ne→not_eq, get_or-append_self, drop-append_add,
  drop-append_self, append_assoc,
}
use eset_store.Text.Search.{starts_with}
use eset_store.Message.Buffer.{
  MessageBuffer, dump_msg, dump_msg_with_flag, nth_marker, cut_flag, cut_through, flag_end,
}
use eset_store.Text.Markers.{Absent, starts_with_self}
use eset_store.Message.Dump.{IsValid, pending, Dumps, take_front, read_pending, length-pending}

module _ {b : MessageBuffer} (v : IsValid b) (n rest : ℕ) (e : n + rest ≡ b.w_offset) where
  abbrev moved : List ℕ
  moved = take rest (drop n b.buf)

  length-moved : length moved ≡ rest
  length-moved =
      omega (arith, length-take rest (drop n b.buf), length-drop n b.buf, v.buf_length, v.written)

  abbrev copied : List ℕ
  copied = moved ++ drop (length moved) b.buf

  -- What such a function returns takes the first `n` bytes off.
  copied_Dumps :
      (r : ℕ)
      → Dumps b n (
          read_bytes b.buf n rest >>= λ bytes. write_bytes b.buf bytes >>= λ buf.
          some (n, record b { buf = buf; w_offset = rest; r_offset = r }))
  copied_Dumps r = (
    record b { buf = copied; w_offset = rest; r_offset = r },
    rw (read_bytes-some b.buf n rest (omega (arith, v.buf_length, v.written)))
        (rw (write_bytes-some b.buf moved (omega (arith, length-moved, v.buf_length, v.written)))),
    take_front rest moved _ length-moved ∙ take-drop n rest b.w_offset b.buf e,
    omega arith,
    record {
      buf_length = omega (
        arith,
        length-append moved (drop (length moved) b.buf),
        length-drop (length moved) b.buf,
        length-moved,
        v.buf_length,
        v.written,
      );
      swp_length = v.swp_length;
      written = omega (arith, v.written);
      small = v.small;
    },
  )

starts_with-length : (flag text : List ℕ) → starts_with flag text ≡ true → length flag ≤ length text
unfolding starts_with
starts_with-length [] text h = omega arith
starts_with-length (p ∷ ps) [] h = absurd (cc)
starts_with-length (p ∷ ps) (c ∷ cs) h = ground (arith, starts_with-length ps cs)

-- An occurrence that the search finds lies within the text.
nth_marker_fits :
    (flag : List ℕ) (k : ℕ) (text : List ℕ) (i : ℕ)
    → nth_marker flag k text ≡ some i
    → i + length flag ≤ length text
unfolding nth_marker
nth_marker_fits flag k [] i h = ground (arith, starts_with-length flag [])
nth_marker_fits flag k (c ∷ cs) i h = elim (Bool-cases (starts_with flag (c ∷ cs) && k == 1)) [
  | inl here ↦ ground (arith, starts_with-length flag (c ∷ cs))
  | inr later ↦
      elim (Option-cases (nth_marker flag (if starts_with flag (c ∷ cs) then k - 1 else k) cs)) [
        | inl e ↦ absurd (ground arith)
        | inr (j, e) ↦
            let le : j + length flag ≤ length cs =
              nth_marker_fits flag (if starts_with flag (c ∷ cs) then k - 1 else k) cs j e in
            ground arith
      ]
]

nth_marker_first :
    (flag pre rest : List ℕ)
    → Absent flag pre (flag ++ rest)
    → nth_marker flag 1 (pre ++ (flag ++ rest)) ≡ some (length pre)
unfolding nth_marker
nth_marker_first flag [] rest a = at_start (flag ++ rest) (starts_with_self flag rest)
  where
    at_start : (text : List ℕ) → starts_with flag text ≡ true → nth_marker flag 1 text ≡ some 0
    at_start [] h = rw h
    at_start (c ∷ cs) h = rw h
nth_marker_first flag (c ∷ pre) rest a = rw a.0 (rw (nth_marker_first flag pre rest a.1))

-- The one NUL that may follow the flag goes with it.
abbrev pub skip_nul : List ℕ → List ℕ
skip_nul [] = []
skip_nul (c ∷ cs) = if c == 0 then cs else c ∷ cs

module _ {b : MessageBuffer} (v : IsValid b) where
  -- On a valid buffer `dumpMsg` takes off the bytes that were read, where they are not more than were
  -- received, and the buffer stays valid.
  pub dump_msg-Dumps : b.r_offset ≤ b.w_offset → Dumps b b.r_offset (dump_msg b)
  unfolding dump_msg
  dump_msg-Dumps h =
      let rest : (b.w_offset + 2 ^ 64 - b.r_offset) % 2 ^ 64 ≡ b.w_offset - b.r_offset =
        omega (arith, v.written, v.small) in
      rw (rest, dump_msg)
        (elim (Bool-cases (b.r_offset == b.w_offset)) [
          | inl all ↦ rw all (none_left (ground arith))
          | inr left ↦ rw left (copied_Dumps v b.r_offset (b.w_offset - b.r_offset) (omega arith) 0)
        ])
    where
      none_to_take : b.r_offset ≡ b.w_offset → b.w_offset - b.r_offset ≡ 0
      none_to_take e = omega arith

      none_left :
          b.r_offset ≡ b.w_offset
          → Dumps b b.r_offset
              (some (b.r_offset, record b { w_offset = b.w_offset - b.r_offset; r_offset = 0 }))
      none_left e = (
        record b { w_offset = b.w_offset - b.r_offset; r_offset = 0 },
        refl,
        ap (λ k. take k b.buf) (none_to_take e)
            ∙ sym (drop_all b.r_offset (pending b) (omega (arith, length-pending v))),
        omega arith,
        record {
          buf_length = v.buf_length;
          swp_length = v.swp_length;
          written = omega (arith, v.written);
          small = v.small;
        },
      )

  cut_through-Dumps : (end : ℕ) → end ≤ b.w_offset → Dumps b end (cut_through b end)
  unfolding cut_through
  cut_through-Dumps end h = copied_Dumps v end (b.w_offset - end) (omega arith) b.r_offset

  dump_at :
      (flag : List ℕ) (k i : ℕ)
      → nth_marker flag k (pending b) ≡ some i
      → flag_end b (pending b) (i + length flag) ≤ b.w_offset
      → Dumps b (flag_end b (pending b) (i + length flag)) (dump_msg_with_flag b flag k)
  unfolding dump_msg_with_flag
  dump_at flag k i e h =
      rw (read_pending v, dump_msg_with_flag) (rw (e, cut_flag) (cut_through-Dumps _ h))

  -- On a valid buffer, any flag and any count, `dumpMsgWithFlag` has no fault and takes off as many of
  -- the first pending bytes as it returns; the buffer stays valid.
  pub dump_msg_with_flag-Dumps :
      (flag : List ℕ) (k : ℕ) → (n : ℕ) × (n ≤ b.w_offset) × Dumps b n (dump_msg_with_flag b flag k)
  unfolding dump_msg_with_flag
  dump_msg_with_flag-Dumps flag k = elim (Option-cases (nth_marker flag k (pending b))) [
    | inl e ↦ (
      0,
      omega arith,
      rw (read_pending v, dump_msg_with_flag) (rw (e, cut_flag) (b, refl, refl, omega arith, v)),
    )
    | inr (i, e) ↦
        (flag_end b (pending b) (i + length flag), fits i e, dump_at flag k i e (fits i e))
  ]
    where
      fits :
          (i : ℕ)
          → nth_marker flag k (pending b) ≡ some i
          → flag_end b (pending b) (i + length flag) ≤ b.w_offset
      fits i e = ground (arith, nth_marker_fits flag k (pending b) i e, length-pending v)

  flag_end_lem :
      (text front rest : List ℕ) (after : ℕ)
      → text ≡ front ++ rest
      → length front ≡ after
      → length text ≡ b.w_offset
      → (drop (flag_end b text after) text ≡ skip_nul rest) × (flag_end b text after ≤ b.w_offset)
  flag_end_lem text front [] after e l w =
      let here : after ≡ b.w_offset = omega (arith, ap length e, length-append front []) in
      rw (eq→== after b.w_offset here) (drop_all after text (omega arith), omega arith)
  flag_end_lem text front (c ∷ cs) after e l w =
      let room : after < b.w_offset = omega (arith, ap length e, length-append front (c ∷ cs)) in
      let at : get_or text after 1 ≡ c = rw (e, ← l) (get_or-append_self front (c ∷ cs) 1) in
      rw (ne→not_eq after b.w_offset (omega arith), at)
        (elim (Bool-cases (c == 0)) [
          | inl nul ↦ rw nul (rw (e, ← l) (drop-append_add front (c ∷ cs) 1), omega arith)
          | inr other ↦ rw other (rw (e, ← l) (drop-append_self front (c ∷ cs)), omega arith)
        ])

  -- On a valid buffer whose pending bytes have the flag, `dumpMsgWithFlag` at the count 1 takes off the
  -- bytes up to its first occurrence, the flag, and one NUL behind it; the buffer stays valid.
  pub dump_msg_with_flag-first :
      (flag pre rest : List ℕ)
      → pending b ≡ pre ++ (flag ++ rest)
      → Absent flag pre (flag ++ rest)
      → (n : ℕ) × (b' : MessageBuffer) × (dump_msg_with_flag b flag 1 ≡ some (n, b'))
        × (pending b' ≡ skip_nul rest)
        × IsValid b'
  dump_msg_with_flag-first flag pre rest e a =
      let after : ℕ = length pre + length flag in
      let (left, le) =
        flag_end_lem (pending b) (pre ++ flag) rest after (e ∙ sym (append_assoc pre flag rest))
          (length-append pre flag) (length-pending v) in
      let (b', r, p, w, v') =
        dump_at flag 1 (length pre) (rw e (nth_marker_first flag pre rest a)) le in
      (flag_end b (pending b) after, b', r, p ∙ left, v')
