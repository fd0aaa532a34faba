-- ===== src/Protocol/Stream.antt =====
-- The replies in a connection's buffer, one after the other: processServerCmd of
-- Protocol/Replies.antt.
use eset_store.Base.{
  ℕ, zero, suc, ◌+◌, ◌<◌, ◌≡◌, refl, ap, sym, ◌∙◌, true, false, some, List, [], ◌∷◌, ◌++◌,
  append_assoc, arith, ne→not_eq, length, drop, take-append-drop,
}
use eset_store.Text.Lines.{Free}
use eset_store.Message.Buffer.{MessageBuffer}
use eset_store.Message.MetaBuffer.{dump_msg_with_ch, dump_msg_with_ch-first}
use eset_store.Message.MetaBuffer.{dump_msg_with_ch}
use eset_store.Message.Dump.{IsValid, pending}
use eset_store.Protocol.Replies.{
  ServerEvent, server_event, parse_block_server_reply_command, has_nul, can_parse_server_cmd,
  process_server_cmd,
}

has_nul-text :
    (text rest : List ℕ)
    → Free (0 ∷ []) text
    → (has_nul (text ++ 0 ∷ rest) ≡ true) × (has_nul text ≡ false)
unfolding has_nul
has_nul-text [] rest f = (refl, refl)
has_nul-text (c ∷ text) rest f =
    let (found, missing) = has_nul-text text rest f.1 in
    (rw (ne→not_eq c 0 f.0.0) found, rw (ne→not_eq c 0 f.0.0) missing)

no_round :
    (b : MessageBuffer) (fuel : ℕ)
    → has_nul (pending b) ≡ false
    → process_server_cmd (suc fuel) b ≡ some ([], b)
unfolding process_server_cmd can_parse_server_cmd
no_round b fuel e = rw (e, process_server_cmd) refl

a_round :
    (b b' last : MessageBuffer) (n fuel : ℕ) (event : ServerEvent) (events : List ServerEvent)
    → has_nul (pending b) ≡ true
    → server_event b.buf (parse_block_server_reply_command (drop b.r_offset b.buf)) ≡ some event
    → dump_msg_with_ch b 0 ≡ some (n, b')
    → process_server_cmd fuel b' ≡ some (events, last)
    → process_server_cmd (suc fuel) b ≡ some (event ∷ events, last)
unfolding process_server_cmd can_parse_server_cmd
a_round b b' last n fuel event events e told dumped run =
    rw (e, process_server_cmd) (rw told (rw dumped (rw run refl)))

-- A text without NUL that makes the metadata server call `event`, whatever follows it in memory.
abbrev pub Tells : List ℕ × ServerEvent → Type 0
Tells (text, event) =
    Free (0 ∷ []) text
    × ((after : List ℕ)
        → server_event (text ++ 0 ∷ after) (parse_block_server_reply_command (text ++ 0 ∷ after))
          ≡ some event)

abbrev pub AllTell : List (List ℕ × ServerEvent) → Type 0
AllTell [] = Unit {0}
AllTell (m ∷ ms) = Tells m × AllTell ms

-- The first message of a buffer that is read from its start tells its event.
front_tells :
    (b : MessageBuffer) (text rest : List ℕ) (event : ServerEvent)
    → b.r_offset ≡ 0
    → pending b ≡ text ++ 0 ∷ rest
    → ((after : List ℕ)
        → server_event (text ++ 0 ∷ after) (parse_block_server_reply_command (text ++ 0 ∷ after))
          ≡ some event)
    → server_event b.buf (parse_block_server_reply_command (drop b.r_offset b.buf)) ≡ some event
front_tells b text rest event start e told =
    ap (λ r. server_event b.buf (parse_block_server_reply_command (drop r b.buf))) start
    ∙ ap (λ memory. server_event memory (parse_block_server_reply_command memory)) whole
    ∙ told (rest ++ drop b.w_offset b.buf)
  where
    whole : b.buf ≡ text ++ 0 ∷ (rest ++ drop b.w_offset b.buf)
    whole =
        sym (take-append-drop b.w_offset b.buf)
        ∙ ap (λ front. front ++ drop b.w_offset b.buf) e
        ∙ append_assoc text (0 ∷ rest) (drop b.w_offset b.buf)

-- The messages one after the other, each with its NUL, and a last text.
abbrev pub stream : List (List ℕ × ServerEvent) → List ℕ → List ℕ
stream [] last = last
stream ((text, event) ∷ ms) last = text ++ 0 ∷ stream ms last

abbrev pub events_of : List (List ℕ × ServerEvent) → List ServerEvent
events_of [] = []
events_of ((text, event) ∷ ms) = event ∷ events_of ms

-- A valid buffer, read from its start, that holds messages and a last part without its NUL: with more
-- rounds than there are messages processServerCmd makes their calls in order, and leaves the last
-- part in a valid buffer that is read from its start.
pub process_server_cmd-stream :
    (ms : List (List ℕ × ServerEvent)) (last : List ℕ) (b : MessageBuffer) (rounds : ℕ)
    → length ms < rounds
    → IsValid b
    → b.r_offset ≡ 0
    → pending b ≡ stream ms last
    → AllTell ms
    → Free (0 ∷ []) last
    → (b' : MessageBuffer) × (process_server_cmd rounds b ≡ some (events_of ms, b'))
      × (pending b' ≡ last)
      × IsValid b'
      × (b'.r_offset ≡ 0)
process_server_cmd-stream ms last b zero more v start e t f = elim more [ ]
process_server_cmd-stream [] last b (suc fuel) more v start e t f =
    (b, no_round b fuel (ap has_nul e ∙ (has_nul-text last [] f).1), e, v, start)
process_server_cmd-stream ((text, event) ∷ ms) last b (suc fuel) more v start e (t, ts) f =
    let (b', dumped, left, v', start') =
      dump_msg_with_ch-first 0 text (stream ms last) v start e t.0 in
    let (b3, run, rest, v3, start3) =
      process_server_cmd-stream ms last b' fuel (omega arith) v' start' left ts f in
    (
      b3,
      a_round b b' b3 (length text + 1) fuel event (events_of ms)
          (ap has_nul e ∙ (has_nul-text text (stream ms last) t.0).0)
          (front_tells b text (stream ms last) event start e t.1) dumped run,
      rest,
      v3,
      start3,
    )
