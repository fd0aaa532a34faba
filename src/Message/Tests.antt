-- ===== src/Message/Tests.antt =====
-- Runs of the message buffer, and the theorems about it on a concrete buffer.
use native.Mathlib.Omega.{arith}
use eset_store.Base.{◌≡◌, refl, some, [], ◌∷◌}
use eset_store.Message.Buffer.{MessageBuffer, dump_msg_with_ch, dump_meta_msg_with_suffix}
use eset_store.Message.Dump.{IsValid, pending, dump_message}

-- "ok;x" was received, and 3 of its bytes were read
abbrev received : MessageBuffer
received = record {
  buf = b'o' ∷ b'k' ∷ b';' ∷ b'x' ∷ 0 ∷ [];
  swp_buf = 0 ∷ 0 ∷ 0 ∷ 0 ∷ 0 ∷ [];
  buf_size = 5;
  w_offset = 4;
  r_offset = 3;
}

received-IsValid : IsValid received
received-IsValid = omega arith

dump_msg_with_ch_run :
    dump_msg_with_ch received b';'
    ≡ some (
      3,
      record {
        buf = b'x' ∷ b'k' ∷ b';' ∷ b'x' ∷ 0 ∷ [];
        swp_buf = b'x' ∷ 0 ∷ 0 ∷ 0 ∷ 0 ∷ [];
        buf_size = 5;
        w_offset = 1;
        r_offset = 0;
      },
    )
unfolding dump_msg_with_ch
dump_msg_with_ch_run = refl

dump_message_example :
    ((b' : MessageBuffer) × (dump_msg_with_ch received b';' ≡ some (3, b'))
      × (pending b' ≡ b'x' ∷ [])
      × IsValid b')
    × ((b' : MessageBuffer) × (dump_meta_msg_with_suffix received b';' ≡ some (3, b'))
        × (pending b' ≡ b'x' ∷ [])
        × IsValid b')
dump_message_example =
    dump_message b';' (b'o' ∷ b'k' ∷ []) (b'x' ∷ []) received-IsValid refl (omega arith)
