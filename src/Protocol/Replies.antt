-- ===== src/Protocol/Replies.antt =====
-- What the metadata server does with the replies of a storage server: parseBlockServerReplyCommand of
-- ECMeta/metaServerBlockServerProtocol.c, canParseServerCmd and processServerCmd of
-- ECMeta/BlockServersManagement.c. The parser also stores the length of the command's header, which
-- its caller does not read; times and output are left out.
use eset_store.Base.{
  ℕ, zero, suc, Bool, true, false, Option, none, some, List, [], ◌∷◌, ◌++◌, ◌==◌, if◌then◌else◌,
  ◌>>=◌, length, take, drop,
}
use eset_store.Text.Number.{c_str}
use eset_store.Text.Search.{
  starts_with, get_uint64_value_between_strs, get_int_value_between_strings,
}
use eset_store.Message.Buffer.{MessageBuffer}
use eset_store.Message.MetaBuffer.{dump_msg_with_ch}
use eset_store.Protocol.Commands.{codes, suffix, block_id_header}

pub data ReplyCommand : Type 0 where
  heart_beat_reply : ReplyCommand
  create_block_reply : ReplyCommand
  delete_block_reply : ReplyCommand
  recovery_nodes_ok_reply : ReplyCommand
  recovery_nodes_failed_reply : ReplyCommand
  recovery_block_ok_reply : ReplyCommand
  recovery_block_failed_reply : ReplyCommand
  delete_block_ok_reply : ReplyCommand
  delete_block_failed_reply : ReplyCommand
  unknown_reply : ReplyCommand

unfoldable pub parse_block_server_reply_command : List ℕ → ReplyCommand
unfolding starts_with
parse_block_server_reply_command buf =
    if starts_with (codes "HeartBeatOK" ++ suffix) buf
    then heart_beat_reply
    else if starts_with (codes "DeleteOK" ++ suffix) buf
    then delete_block_ok_reply
    else if starts_with (codes "DeleteFailed" ++ suffix) buf
    then delete_block_failed_reply
    else if starts_with (codes "RecoveryNodesOK:") buf
    then recovery_nodes_ok_reply
    else if starts_with (codes "RecoveryNodesFailed:") buf
    then recovery_nodes_failed_reply
    else if starts_with (codes "RecoveredBlockGroup" ++ suffix) buf
    then recovery_block_ok_reply
    else unknown_reply

-- What processServerCmd calls for a reply: reportBlockDeletion with the block and its flag, recoverESet
-- with the set and the block.
pub data ServerEvent : Type 0 where
  heart_beat_recvd : ServerEvent
  report_block_deletion : ℕ → ℕ → ServerEvent
  recover_eset : ℕ → ℕ → ServerEvent
  nothing : ServerEvent

-- The switch. The values are looked for from the front of the buffer.
unfoldable pub server_event : List ℕ → ReplyCommand → Option ServerEvent
unfolding get_uint64_value_between_strs get_int_value_between_strings c_str
server_event buf heart_beat_reply = some heart_beat_recvd
server_event buf delete_block_ok_reply =
    get_uint64_value_between_strs block_id_header suffix buf (length (c_str buf)) >>= λ id.
    some (report_block_deletion id 1)
server_event buf delete_block_failed_reply =
    get_uint64_value_between_strs block_id_header suffix buf (length (c_str buf)) >>= λ id.
    some (report_block_deletion id 0)
server_event buf recovery_nodes_ok_reply =
    get_int_value_between_strings (codes "RecoveryNodesOK:") suffix (c_str buf) >>= λ set_idx.
    some (recover_eset set_idx 0)
server_event buf recovery_nodes_failed_reply = some nothing
server_event buf recovery_block_ok_reply =
    get_int_value_between_strings (codes "ESetIdx:") suffix (c_str buf) >>= λ set_idx.
    get_uint64_value_between_strs block_id_header suffix buf (length (c_str buf)) >>= λ id.
    some (recover_eset set_idx id)
server_event buf create_block_reply = some nothing
server_event buf delete_block_reply = some nothing
server_event buf recovery_block_failed_reply = some nothing
server_event buf unknown_reply = some nothing

unfoldable pub has_nul : List ℕ → Bool
has_nul [] = false
has_nul (c ∷ cs) = if c == 0 then true else has_nul cs

unfoldable pub can_parse_server_cmd : List ℕ → ℕ → Bool
unfolding has_nul
can_parse_server_cmd buf buf_size = has_nul (take buf_size buf)

-- The calls that are made, in order, and the buffer afterwards; on fuel of one round for each message and
-- one more. `none`: a fault, or the fuel is out.
unfoldable pub process_server_cmd : ℕ → MessageBuffer → Option (List ServerEvent × MessageBuffer)
unfolding can_parse_server_cmd parse_block_server_reply_command server_event dump_msg_with_ch
process_server_cmd zero b = none
process_server_cmd (suc fuel) b =
    let handled =
      server_event b.buf (parse_block_server_reply_command (drop b.r_offset b.buf)) >>= λ event.
      dump_msg_with_ch b 0 >>= λ (size, b').
      process_server_cmd fuel b' >>= λ (events, last). some (event ∷ events, last) in
    if can_parse_server_cmd b.buf b.w_offset then handled else some ([], b)
