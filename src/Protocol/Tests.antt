-- ===== src/Protocol/Tests.antt =====
-- Runs of the commands, and the theorems about them on concrete blocks.
use native.Mathlib.Omega.{arith}
use eset_store.Base.{
  ℕ, ◌+◌, ◌≡◌, refl, some, List, [], ◌∷◌, ◌++◌, length, map, replicate, ◌==◌, if◌then◌else◌,
}
use eset_store.Message.Buffer.{MessageBuffer}
use eset_store.Message.Dump.{IsValid, pending}
use eset_store.Protocol.Commands.{
  codes, suffix, write_delete_block_cmd, parse_meta_command, delete_block, process_delete_file,
}
use eset_store.Protocol.Replies.{
  ServerEvent, server_event, parse_block_server_reply_command, process_server_cmd, heart_beat_recvd,
  report_block_deletion,
}
use eset_store.Protocol.Deletion.{process_delete_file-write_delete_block_cmd}
use eset_store.Protocol.Reading.{deleted_flag}
use eset_store.Protocol.Stream.{events_of, process_server_cmd-stream}
use eset_store.Protocol.Reports.{delete_replies, report, process_server_cmd-delete_replies}

abbrev temp_buf : List ℕ
temp_buf = replicate 21 0

write_delete_block_cmd_run :
    write_delete_block_cmd temp_buf 256
    ≡ some (codes "DeleteBlock" ++ suffix ++ codes "BlockId:256" ++ suffix ++ 0 ∷ [])
unfolding write_delete_block_cmd
write_delete_block_cmd_run = refl

-- Block 256 is gone, any other one is not there.
abbrev delete_file : ℕ → ℕ
delete_file id = if id == 256 then 0 else 1

process_delete_file-write_delete_block_cmd_example :
    (cmd : List ℕ) × (reply : List ℕ) × (write_delete_block_cmd temp_buf 256 ≡ some cmd)
    × (parse_meta_command (cmd ++ 7 ∷ []) (length cmd + 1) ≡ delete_block)
    × (process_delete_file temp_buf delete_file (cmd ++ 7 ∷ []) (length cmd + 1) ≡ some reply)
    × (server_event (reply ++ []) (parse_block_server_reply_command (reply ++ []))
        ≡ some (report_block_deletion 256 (deleted_flag (delete_file 256))))
process_delete_file-write_delete_block_cmd_example =
    process_delete_file-write_delete_block_cmd temp_buf temp_buf (7 ∷ []) [] 1 256 delete_file
      (omega arith) (omega arith) (omega arith)

-- A heart beat's answer, and the start of another one.
abbrev heart_beat : List ℕ × ServerEvent
heart_beat = (codes "HeartBeatOK" ++ suffix, heart_beat_recvd)

abbrev received : MessageBuffer
received = record {
  buf = codes "HeartBeatOK" ++ suffix ++ 0 ∷ codes "Heart";
  swp_buf = replicate 19 0;
  buf_size = 19;
  w_offset = 19;
  r_offset = 0;
}

process_server_cmd-stream_example :
    (b' : MessageBuffer) × (process_server_cmd 2 received ≡ some (events_of (heart_beat ∷ []), b'))
    × (pending b' ≡ codes "Heart")
    × IsValid b'
    × (b'.r_offset ≡ 0)
unfolding server_event parse_block_server_reply_command
process_server_cmd-stream_example =
    process_server_cmd-stream (heart_beat ∷ []) (codes "Heart") received 2 (omega arith)
      (omega arith) refl refl ((omega arith, λ after. refl), tt) (omega arith)

-- The replies for two blocks, the second of which could not be deleted.
abbrev blocks : List (ℕ × ℕ)
blocks = (256, 0) ∷ (513, 1) ∷ []

abbrev replies : MessageBuffer
replies = record {
  buf =
      codes "DeleteOK"
      ++ suffix
      ++ codes "BlockId:256"
      ++ suffix
      ++ 0 ∷ codes "DeleteFailed"
      ++ suffix
      ++ codes "BlockId:513"
      ++ suffix
      ++ 0 ∷ [];
  swp_buf = replicate 52 0;
  buf_size = 52;
  w_offset = 52;
  r_offset = 0;
}

process_server_cmd-delete_replies_example :
    (b' : MessageBuffer) × (process_server_cmd 3 replies ≡ some (map report blocks, b'))
    × (pending b' ≡ [])
    × IsValid b'
    × (b'.r_offset ≡ 0)
unfolding delete_replies
process_server_cmd-delete_replies_example =
    process_server_cmd-delete_replies temp_buf blocks replies 3 (omega arith) (omega arith)
      (omega arith) (omega arith) refl refl
