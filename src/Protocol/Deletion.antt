-- ===== src/Protocol/Deletion.antt =====
-- The deletion of a block, from the metadata server to a storage server and back.
use eset_store.Base.{
  ℕ, suc, ◌+◌, ◌≤◌, ◌<◌, ◌≡◌, refl, ap, sym, ◌∙◌, some, List, [], ◌∷◌, ◌++◌, append_assoc,
  append-nil, arith, ◌==◌, length, length-append, Bool-cases, inl, inr,
}
use eset_store.Text.Number.{c_str, u64_mod}
use eset_store.Text.Decimal.{decimal, length-decimal, decimal-AllDigits, AllDigits, IsWidth}
use eset_store.Text.Search.{get_uint64_value_between_strs}
use eset_store.Protocol.Commands.{
  codes, suffix, block_id_header, write_block_message, delete_block_cmd, delete_block,
  parse_meta_command, write_delete_block_cmd, write_delete_ok_cmd, write_delete_failed_cmd,
  process_delete_file, delete_reply, message_buf, told_buf_size,
}
use eset_store.Protocol.Replies.{
  server_event, parse_block_server_reply_command, report_block_deletion, ServerEvent,
}
use eset_store.Protocol.Exchange.{block_message, write_block_message_lem}
use eset_store.Text.Lines.{Free}
use eset_store.Protocol.Reading.{
  sought, parse_meta_command-delete, read_delete, reply_ok, reply_failed, deleted_flag,
}
use eset_store.Protocol.Stream.{Tells}

length-message :
    (header digits : List ℕ)
    → length (block_message header digits) ≡ length header + length digits + 13
length-message header digits = omega (
  arith,
  ap length (append-nil (block_message header digits)),
  ap length (sought header digits []),
  length-append (header ++ suffix) (block_id_header ++ (digits ++ (13 ∷ 10 ∷ 0 ∷ []))),
  length-append header suffix,
  length-append digits (13 ∷ 10 ∷ 0 ∷ []),
)

process_delete_file-found :
    (temp : List ℕ) (ret : ℕ → ℕ) (buf : List ℕ) (w id : ℕ)
    → get_uint64_value_between_strs block_id_header suffix buf w ≡ some id
    → process_delete_file temp ret buf w ≡ delete_reply temp id (ret id)
unfolding process_delete_file
process_delete_file-found temp ret buf w id e = rw e refl

Free-append : (stops xs ys : List ℕ) → Free stops xs → Free stops ys → Free stops (xs ++ ys)
Free-append stops [] ys p q = q
Free-append stops (x ∷ xs) ys p q = (p.0, Free-append stops xs ys p.1 q)

digits-Free : (ds : List ℕ) → AllDigits ds → Free (0 ∷ []) ds
digits-Free [] a = tt
digits-Free (d ∷ ds) a = ((omega arith, tt), digits-Free ds a.2)

-- The message without its NUL.
abbrev message_text : List ℕ → List ℕ → List ℕ
message_text header digits = (((header ++ suffix) ++ block_id_header) ++ digits) ++ suffix

message_text-Free :
    (header digits : List ℕ)
    → Free (0 ∷ []) ((header ++ suffix) ++ block_id_header)
    → AllDigits digits
    → Free (0 ∷ []) (message_text header digits)
message_text-Free header digits p a =
    Free-append (0 ∷ []) _ suffix
      (Free-append (0 ∷ []) ((header ++ suffix) ++ block_id_header) digits p (digits-Free digits a))
      (omega arith)

module _ (temp : List ℕ) (id : ℕ) (h64 : id < u64_mod) (room : 21 ≤ length temp) where
  -- The message of a writer with a header that the metadata server knows.
  told :
      (header : List ℕ) (event : ServerEvent)
      → c_str header ≡ header
      → length header ≤ 900
      → Free (0 ∷ []) ((header ++ suffix) ++ block_id_header)
      → ((after : List ℕ) (n : ℕ)
          → IsWidth n id
          → n < 20
          → server_event (block_message header (decimal (suc n) id) ++ after) (
              parse_block_server_reply_command (block_message header (decimal (suc n) id) ++ after))
            ≡ some event)
      → (text : List ℕ) × (write_block_message header temp told_buf_size id ≡ some (text ++ 0 ∷ []))
        × Tells (text, event)
  told header event c short start reads =
      let (n, w, small, e) =
        write_block_message_lem header temp told_buf_size id h64 room (omega arith) c short in
      let text : List ℕ = message_text header (decimal (suc n) id) in
      (
        text,
        e,
        (
          message_text-Free header (decimal (suc n) id) start (decimal-AllDigits (suc n) id),
          λ after.
              ap (λ memory. server_event memory (parse_block_server_reply_command memory))
                (sym (append_assoc text (0 ∷ []) after))
              ∙ reads after n w small,
        ),
      )

  -- The reply is a message that tells the metadata server of the block's deletion.
  pub delete_reply-Tells :
      (ret : ℕ)
      → (text : List ℕ) × (delete_reply temp id ret ≡ some (text ++ 0 ∷ []))
        × Tells (text, report_block_deletion id (deleted_flag ret))
  unfolding delete_reply write_delete_ok_cmd write_delete_failed_cmd c_str
  delete_reply-Tells ret = elim (Bool-cases (ret == 0)) [
    | inl gone ↦
        rw (gone, delete_reply)
          (told (codes "DeleteOK") (report_block_deletion id 1) refl (omega arith) (omega arith)
            λ after n w small. reply_ok after n id w small h64)
    | inr kept ↦
        rw (kept, delete_reply)
          (told (codes "DeleteFailed") (report_block_deletion id 0) refl (omega arith) (omega arith)
            λ after n w small. reply_failed after n id w small h64)
  ]

-- The message that writeDeleteBlockCmd writes of a 64-bit block number, with its memory for the number of
-- 21 characters or more, is taken for a deletion by the storage server, whatever follows it in the
-- buffer; the reply that the server writes, whatever follows it, makes the metadata server report the
-- deletion of that block, with 1 where deleteFile returned 0 for it and with 0 otherwise.
pub process_delete_file-write_delete_block_cmd :
    (temp temp' rest rest' : List ℕ) (more id : ℕ) (ret : ℕ → ℕ)
    → id < u64_mod
    → 21 ≤ length temp
    → 21 ≤ length temp'
    → (cmd : List ℕ) × (reply : List ℕ) × (write_delete_block_cmd temp id ≡ some cmd)
      × (parse_meta_command (cmd ++ rest) (length cmd + more) ≡ delete_block)
      × (process_delete_file temp' ret (cmd ++ rest) (length cmd + more) ≡ some reply)
      × (server_event (reply ++ rest') (parse_block_server_reply_command (reply ++ rest'))
          ≡ some (report_block_deletion id (deleted_flag (ret id))))
unfolding c_str write_delete_block_cmd
process_delete_file-write_delete_block_cmd temp temp' rest rest' more id ret h64 room room' =
    let (n, w, small, e) =
      write_block_message_lem delete_block_cmd temp message_buf id h64 room (omega arith) refl
        (omega arith) in
    let (text, replied, tells) = delete_reply-Tells temp' id h64 room' (ret id) in
    let digits : List ℕ = decimal (suc n) id in
    let long : 24 + n ≤ length (block_message delete_block_cmd digits) + more =
      omega (arith, length-message delete_block_cmd digits, length-decimal (suc n) id) in
    (
      block_message delete_block_cmd digits,
      text ++ 0 ∷ [],
      e,
      parse_meta_command-delete digits rest _ (omega (arith, long)),
      process_delete_file-found temp' ret _ _ id
            (read_delete rest n id w small h64 _ (omega (arith, long)))
          ∙ replied,
      ap (λ memory. server_event memory (parse_block_server_reply_command memory))
            (append_assoc text (0 ∷ []) rest')
          ∙ tells.1 rest',
    )
