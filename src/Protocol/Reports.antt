-- ===== src/Protocol/Reports.antt =====
-- The deletions of several blocks, and what the metadata server makes of their replies.
use mathlib.Core.Option
use eset_store.Base.{
  ℕ, ◌≤◌, ◌<◌, ◌≡◌, refl, ap, sym, ◌∙◌, Option, some, List, [], ◌∷◌, ◌++◌, append_assoc, map, arith,
  length, ◌>>=◌,
}
use eset_store.Text.Number.{u64_mod}
use eset_store.Message.Buffer.{MessageBuffer}
use eset_store.Message.Dump.{IsValid, pending}
use eset_store.Protocol.Commands.{delete_reply}
use eset_store.Protocol.Replies.{ServerEvent, report_block_deletion, process_server_cmd}
use eset_store.Protocol.Reading.{deleted_flag}
use eset_store.Protocol.Deletion.{delete_reply-Tells}
use eset_store.Protocol.Stream.{AllTell, stream, events_of, process_server_cmd-stream}

-- The replies for blocks, each with what deleteFile returned, one after the other.
unfoldable pub delete_replies : List ℕ → List (ℕ × ℕ) → Option (List ℕ)
unfolding delete_reply
delete_replies temp [] = some []
delete_replies temp ((id, ret) ∷ blocks) = delete_reply temp id ret >>= λ reply.
    delete_replies temp blocks >>= λ replies. some (reply ++ replies)

abbrev pub AllIds : List (ℕ × ℕ) → Type 0
AllIds [] = Unit {0}
AllIds ((id, ret) ∷ blocks) = (id < u64_mod) × AllIds blocks

abbrev pub report : ℕ × ℕ → ServerEvent
report (id, ret) = report_block_deletion id (deleted_flag ret)

delete_replies-stream :
    (temp : List ℕ) (blocks : List (ℕ × ℕ))
    → 21 ≤ length temp
    → AllIds blocks
    → (ms : List (List ℕ × ServerEvent)) × (delete_replies temp blocks ≡ some (stream ms []))
      × AllTell ms
      × (events_of ms ≡ map report blocks)
      × (length ms ≡ length blocks)
unfolding delete_replies
delete_replies-stream temp [] room a = ([], refl, tt, refl, refl)
delete_replies-stream temp ((id, ret) ∷ blocks) room (h, a) =
    let (text, e, tells) = delete_reply-Tells temp id h room ret in
    let (ms, es, all, events, l) = delete_replies-stream temp blocks room a in
    (
      (text, report (id, ret)) ∷ ms,
      rw e (rw es (ap some (append_assoc text (0 ∷ []) (stream ms [])))),
      (tells, all),
      ap (◌∷◌ (report (id, ret))) events,
      omega (arith, l),
    )

-- Where a valid buffer of the metadata server, read from its start, holds the replies for blocks with
-- 64-bit numbers, and nothing else, processServerCmd reports the deletion of each of them, in order,
-- with 1 where deleteFile returned 0 and 0 otherwise; it needs more rounds than there are blocks, and
-- leaves an empty valid buffer.
pub process_server_cmd-delete_replies :
    (temp : List ℕ) (blocks : List (ℕ × ℕ)) (b : MessageBuffer) (rounds : ℕ)
    → 21 ≤ length temp
    → AllIds blocks
    → length blocks < rounds
    → IsValid b
    → b.r_offset ≡ 0
    → delete_replies temp blocks ≡ some (pending b)
    → (b' : MessageBuffer) × (process_server_cmd rounds b ≡ some (map report blocks, b'))
      × (pending b' ≡ [])
      × IsValid b'
      × (b'.r_offset ≡ 0)
process_server_cmd-delete_replies temp blocks b rounds room a more v start e =
    let (ms, es, all, events, l) = delete_replies-stream temp blocks room a in
    let (b', run, rest, v', start') =
      process_server_cmd-stream ms [] b rounds (omega (arith, l)) v start
        (Option.some-injective (pending b) (stream ms []) (sym e ∙ es)) all tt in
    (b', run ∙ ap (λ called. some (called, b')) events, rest, v', start')
