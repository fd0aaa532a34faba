-- ===== src/Servers/Outbox.antt =====
-- The messages that wait to be sent to a storage server: addWriteMsgToBlockserver of
-- ECMeta/BlockServer.c, for a server that is there.
use native.Mathlib.Omega.{arith}
use eset_store.Base.{
  ℕ, zero, suc, ◌-◌, ◌*◌, ◌≤◌, ◌<◌, ◌≡◌, refl, ap, sym, ◌∙◌, Bool-cases, inl, inr, Option, none,
  some, List, [], ◌∷◌, ◌++◌, ◌==◌, if◌then◌else◌, ◌>>=◌, length, take, drop, length-append,
  length-take, length-drop, take-append-drop, append_assoc, append-nil,
}

-- A buffer with what is written into it, which is up to wOffset.
pub record WriteBuffer : Type 0 where
  pub written : List ℕ
  pub buf_size : ℕ

abbrev pub default_read_write_buf_size : ℕ
default_read_write_buf_size = 64 * 1024

-- One copy into the buffer, as much as it has room for, and what is left of the message.
unfoldable copy_in : WriteBuffer → List ℕ → WriteBuffer × List ℕ
copy_in b msg =
    let room = b.buf_size - length b.written in
    (record b { written = b.written ++ take room msg }, drop room msg)

abbrev fresh : WriteBuffer
fresh = record { written = []; buf_size = default_read_write_buf_size }

-- The loop at the last buffer, on fuel; the result are the buffers from that one on.
unfoldable fill : ℕ → WriteBuffer → List ℕ → Option (List WriteBuffer)
unfolding copy_in
fill zero last msg = none
fill (suc fuel) last [] = some (last ∷ [])
fill (suc fuel) last (c ∷ msg) =
    let (next, left) = copy_in fresh (c ∷ msg) in
    let (filled, left') = copy_in last (c ∷ msg) in
    let beyond = fill fuel next left >>= λ buffers. some (last ∷ buffers) in
    let here = fill fuel filled left' in
    if length last.written == last.buf_size then beyond else here

-- The way to the last buffer. The server has a buffer from its creation on; without one the code
-- follows NULL.
unfoldable pub add_write_msg_to_blockserver :
    ℕ → List WriteBuffer → List ℕ → Option (List WriteBuffer)
unfolding fill
add_write_msg_to_blockserver fuel [] msg = none
add_write_msg_to_blockserver fuel (b ∷ []) msg = fill fuel b msg
add_write_msg_to_blockserver fuel (b ∷ c ∷ buffers) msg =
    add_write_msg_to_blockserver fuel (c ∷ buffers) msg >>= λ rest. some (b ∷ rest)

-- What is to be sent, from the first buffer on.
abbrev pub waiting : List WriteBuffer → List ℕ
waiting [] = []
waiting (b ∷ buffers) = b.written ++ waiting buffers

abbrev pub AllFit : List WriteBuffer → Type 0
AllFit [] = Unit {0}
AllFit (b ∷ buffers) = (length b.written ≤ b.buf_size) × AllFit buffers

-- Buffers with these bytes, none beyond its size.
abbrev pub Waits : Option (List WriteBuffer) → List ℕ → Type 0
Waits result bytes =
    (buffers : List WriteBuffer) × (result ≡ some buffers)
    × (waiting buffers ≡ bytes)
    × AllFit buffers

copy_in-parts :
    (b : WriteBuffer) (msg : List ℕ)
    → length b.written ≤ b.buf_size
    → ((copy_in b msg).0.written ++ (copy_in b msg).1 ≡ b.written ++ msg)
      × (length (copy_in b msg).0.written ≤ b.buf_size)
unfolding copy_in
copy_in-parts b msg h = (
  append_assoc b.written (take room msg) (drop room msg)
      ∙ ap (λ rest. b.written ++ rest) (take-append-drop room msg),
  omega (arith, length-append b.written (take room msg), length-take room msg),
)
  where
    room : ℕ
    room = b.buf_size - length b.written

fill-Waits :
    (fuel : ℕ) (last : WriteBuffer) (msg : List ℕ)
    → length msg < fuel
    → length last.written ≤ last.buf_size
    → Waits (fill fuel last msg) (last.written ++ msg)
unfolding fill copy_in
fill-Waits zero last msg h fits = elim h [ ]
fill-Waits (suc fuel) last [] h fits = (last ∷ [], refl, refl, (fits, tt))
fill-Waits (suc fuel) last (c ∷ msg) h fits =
    elim (Bool-cases (length last.written == last.buf_size)) [
      | inl full ↦
          let (same, fits') = copy_in-parts fresh (c ∷ msg) (omega arith) in
          let (buffers, e, bytes, all) =
            fill-Waits fuel (copy_in fresh (c ∷ msg)).0 (copy_in fresh (c ∷ msg)).1
              (omega (arith, length-drop default_read_write_buf_size (c ∷ msg))) fits' in
          (
            last ∷ buffers,
            rw full (rw e refl),
            ap (λ rest. last.written ++ rest) (bytes ∙ same),
            (fits, all),
          )
      | inr roomy ↦
          let (same, fits') = copy_in-parts last (c ∷ msg) fits in
          let (buffers, e, bytes, all) =
            fill-Waits fuel (copy_in last (c ∷ msg)).0 (copy_in last (c ∷ msg)).1
              (ground (arith, roomy, length-drop (last.buf_size - length last.written) (c ∷ msg)))
              fits' in
          (buffers, rw roomy e, bytes ∙ same, all)
    ]

-- On buffers none of which is beyond its size, the first of them there, the bytes of a message are put
-- behind those that wait, in order and with none lost, and no buffer gets beyond its size; rounds of
-- one for each byte and one more are enough.
pub add_write_msg_to_blockserver-Waits :
    (fuel : ℕ) (b : WriteBuffer) (buffers : List WriteBuffer) (msg : List ℕ)
    → length msg < fuel
    → AllFit (b ∷ buffers)
    → Waits (add_write_msg_to_blockserver fuel (b ∷ buffers) msg) (waiting (b ∷ buffers) ++ msg)
unfolding add_write_msg_to_blockserver
add_write_msg_to_blockserver-Waits fuel b [] msg h fits =
    let (chain, e, bytes, all) = fill-Waits fuel b msg h fits.0 in
    (chain, e, bytes ∙ ap (λ front. front ++ msg) (sym (append-nil b.written)), all)
add_write_msg_to_blockserver-Waits fuel b (c ∷ buffers) msg h fits =
    let (chain, e, bytes, all) = add_write_msg_to_blockserver-Waits fuel c buffers msg h fits.1 in
    (
      b ∷ chain,
      rw e refl,
      ap (λ rest. b.written ++ rest) bytes
          ∙ sym (append_assoc b.written (waiting (c ∷ buffers)) msg),
      (fits.0, all),
    )
