-- ===== src/Protocol/Exchange.antt =====
-- The messages of a block's deletion, from the metadata server to a storage server and back:
-- Protocol/Commands.antt and Protocol/Replies.antt.
use native.Mathlib.Decide.{dec_lt}
use native.Mathlib.Nat.{pow-le-pow_right}
use eset_store.Base.{
  ℕ, suc, ◌+◌, ◌^◌, ◌≤◌, ◌<◌, ◌≡◌, ◌⊎◌, refl, ap, sym, ◌∙◌, false, some, List, [], ◌∷◌, ◌++◌, arith,
  ltb, lt→ltb, length, length-append, inl, inr,
}
use eset_store.Text.Number.{c_str, uint64_to_str, u64_mod}
use eset_store.Text.Decimal.{decimal, length-decimal, IsWidth, uint64_to_str_lem}
use eset_store.Text.Search.{write_to_buf}
use eset_store.Protocol.Commands.{
  suffix, block_id_header, write_in, end_message, write_block_message,
}

write_in_text :
    (des src text : List ℕ)
    → c_str src ≡ text
    → length des + length text ≤ 1024
    → write_in des src ≡ some (des ++ text)
unfolding write_in write_to_buf
write_in_text des src text e h = rw e (rw (not_over (omega (arith, length-append des text))) refl)
  where
    not_over : length (des ++ text) ≤ 1024 → ltb 1024 (length (des ++ text)) ≡ false
    not_over l = ground arith

end_message_text : (text : List ℕ) → length text < 1024 → end_message text ≡ some (text ++ 0 ∷ [])
unfolding end_message
end_message_text text h = rw (lt→ltb (length text) 1024 h) refl

c_str-suffix : c_str suffix ≡ suffix
unfolding c_str
c_str-suffix = refl

c_str-block_id_header : c_str block_id_header ≡ block_id_header
unfolding c_str
c_str-block_id_header = refl

width_small : (n v : ℕ) → IsWidth n v → v < u64_mod → n < 20
width_small n v w h = elim (dec_lt n 20) [
  | yes l ↦ l
  | no g ↦
      absurd
        (clash w.1 (omega arith) (pow-le-pow_right {n = 10} (omega arith) {i = 20} (omega arith)))
]
  where
    clash : (n ≡ 0) ⊎ (10 ^ n ≤ v) → 20 ≤ n → 10 ^ 20 ≤ 10 ^ n → ⊥
    clash (inl e) l' l = omega arith
    clash (inr low) l' l = omega arith

-- The message of a block, with the digits of its number.
abbrev pub block_message : List ℕ → List ℕ → List ℕ
block_message header digits =
    ((((header ++ suffix) ++ block_id_header) ++ digits) ++ suffix) ++ 0 ∷ []

module _ (header temp : List ℕ) (size id : ℕ) (h64 : id < u64_mod) (room : 21 ≤ length temp)
    (told : 20 ≤ size) (text : c_str header ≡ header) (short : length header ≤ 900) where
  length-start : length ((header ++ suffix) ++ block_id_header) ≡ length header + 10
  length-start =
      omega (arith, length-append (header ++ suffix) block_id_header, length-append header suffix)

  -- The texts of a message one after the other, where the number's digits are given.
  write_message_parts :
      (out digits : List ℕ)
      → c_str out ≡ digits
      → length digits ≤ 20
      → uint64_to_str id temp size ≡ some (length digits, out)
      → write_block_message header temp size id ≡ some (block_message header digits)
  unfolding write_block_message
  write_message_parts out digits c l e = rw (write_in_text [] header header text (omega arith)) (
      rw (write_in_text header suffix suffix c_str-suffix (omega arith)) (
        rw
          (write_in_text (header ++ suffix) block_id_header block_id_header c_str-block_id_header
            (omega (arith, length-append header suffix)))
          (rw e (
            rw (write_in_text start out digits c (omega (arith, length-start))) (
              rw
                (write_in_text (start ++ digits) suffix suffix c_str-suffix
                  (omega (arith, length-start, length-append start digits)))
                (end_message_text ((start ++ digits) ++ suffix) (
                  omega (
                    arith,
                    length-start,
                    length-append start digits,
                    length-append (start ++ digits) suffix,
                  ))))))))
    where
      start : List ℕ
      start = (header ++ suffix) ++ block_id_header

  -- A writer with a short header writes the message with the number's decimal digits.
  pub write_block_message_lem :
      (n : ℕ) × IsWidth n id
      × (n < 20)
      × (write_block_message header temp size id ≡ some (block_message header (decimal (suc n) id)))
  write_block_message_lem =
      let (n, out, e, c, w, l) = uint64_to_str_lem id size temp h64 room told in
      let small : n < 20 = width_small n id w h64 in
      (
        n,
        w,
        small,
        write_message_parts out (decimal (suc n) id) c (omega (arith, length-decimal (suc n) id))
            (e ∙ ap (λ m. some (m, out)) (sym (length-decimal (suc n) id))),
      )
