-- ===== src/Protocol/Commands.antt =====
-- Commands of the metadata server to a storage server: writeDeleteBlockCmd of ECMeta/ECBlockServerCmd.c,
-- parseMetaCommand and the replies of ECServer/metaBlockServerCommand.c, and processDeleteFile of
-- ECServer/ECMetaServerHandle.c. A message is the characters that are put into the buffer to write, its
-- NUL included; `temp` is the memory of `tempBuf`.
use Prim.Native.Char.{code}
use Prim.Native.String.{String}
use eset_store.Base.{
  ℕ, ◌*◌, Bool, ◌&&◌, Option, none, some, List, [], ◌∷◌, ◌++◌, ltb, leb, ◌==◌, if◌then◌else◌, ◌>>=◌,
  length,
}
use eset_store.Text.Number.{uint64_to_str}
use eset_store.Text.Search.{starts_with, write_to_buf, get_uint64_value_between_strs}

-- The characters of a text.
abbrev pub codes : String → List ℕ
codes String.[] = []
codes (String.◌∷◌ c s) = code c ∷ codes s

abbrev pub message_buf : ℕ
message_buf = 1024

-- writeToBuf into an array of 1024 characters.
unfoldable pub write_in : List ℕ → List ℕ → Option (List ℕ)
unfolding write_to_buf
write_in des src =
    let out = write_to_buf des src in if ltb message_buf (length out) then none else some out

-- The NUL at the end.
unfoldable pub end_message : List ℕ → Option (List ℕ)
end_message text = if ltb (length text) message_buf then some (text ++ 0 ∷ []) else none

abbrev pub suffix : List ℕ
suffix = 13 ∷ 10 ∷ []

abbrev pub block_id_header : List ℕ
block_id_header = codes "BlockId:"

-- `header`, a line end, and a line for the block; `size` is what uint64_to_str is told of `tempBuf`.
unfoldable pub write_block_message : List ℕ → List ℕ → ℕ → ℕ → Option (List ℕ)
unfolding write_in uint64_to_str end_message
write_block_message header temp size id = write_in [] header >>= λ a. write_in a suffix >>= λ b.
    write_in b block_id_header >>= λ c. uint64_to_str id temp size >>= λ (n, out).
    write_in c out >>= λ d. write_in d suffix >>= λ e. end_message e

abbrev pub delete_block_cmd : List ℕ
delete_block_cmd = codes "DeleteBlock"

unfoldable pub write_delete_block_cmd : List ℕ → ℕ → Option (List ℕ)
unfolding write_block_message
write_delete_block_cmd temp id = write_block_message delete_block_cmd temp message_buf id

pub data MetaServerCommand : Type 0 where
  heart_beat : MetaServerCommand
  create_block : MetaServerCommand
  delete_block : MetaServerCommand
  recover_nodes : MetaServerCommand
  recover_nodes_over : MetaServerCommand
  recover_nodes_abort : MetaServerCommand
  recover_block : MetaServerCommand
  unknown_command : MetaServerCommand

-- `(bufLen >= strlen(header)) && strncmp(header, buf, strlen(header)) == 0`
unfoldable pub is_command : List ℕ → List ℕ → ℕ → Bool
unfolding starts_with
is_command header buf buf_len = leb (length header) buf_len && starts_with header buf

unfoldable pub parse_meta_command : List ℕ → ℕ → MetaServerCommand
unfolding is_command
parse_meta_command buf buf_len =
    if is_command (codes "HeartBeat" ++ suffix) buf buf_len
    then heart_beat
    else if is_command delete_block_cmd buf buf_len
    then delete_block
    else if is_command (codes "RecoveryNodes" ++ suffix) buf buf_len
    then recover_nodes
    else if is_command (codes "EndRecoveryNodes" ++ suffix) buf buf_len
    then recover_nodes_over
    else if is_command (codes "RecoveryBlockGroup" ++ suffix) buf buf_len
    then recover_block
    else unknown_command

-- What the replies' uint64_to_str is told of `tempBuf`, which has 1024 characters.
abbrev pub told_buf_size : ℕ
told_buf_size = 1024 * 1024

unfoldable pub write_delete_ok_cmd : List ℕ → ℕ → Option (List ℕ)
unfolding write_block_message
write_delete_ok_cmd temp id = write_block_message (codes "DeleteOK") temp told_buf_size id

unfoldable pub write_delete_failed_cmd : List ℕ → ℕ → Option (List ℕ)
unfolding write_block_message
write_delete_failed_cmd temp id = write_block_message (codes "DeleteFailed") temp told_buf_size id

-- The reply for a block, by what deleteFile returned for it.
unfoldable pub delete_reply : List ℕ → ℕ → ℕ → Option (List ℕ)
unfolding write_delete_ok_cmd write_delete_failed_cmd
delete_reply temp id ret =
    if ret == 0 then write_delete_ok_cmd temp id else write_delete_failed_cmd temp id

-- `ret` is deleteFile.
unfoldable pub process_delete_file : List ℕ → (ℕ → ℕ) → List ℕ → ℕ → Option (List ℕ)
unfolding delete_reply get_uint64_value_between_strs
process_delete_file temp ret buf w_offset =
    get_uint64_value_between_strs block_id_header suffix buf w_offset >>= λ id.
    delete_reply temp id (ret id)
