-- ===== src/Protocol/Reading.antt =====
-- Reading the messages of Protocol/Exchange.antt: the command, the block's number, and the replies.
use eset_store.Base.{
  ℕ, suc, ◌+◌, ◌≤◌, ◌<◌, ◌≡◌, refl, ap, ◌∙◌, Bool, true, false, some, List, [], ◌∷◌, ◌++◌,
  append_assoc, arith, ◌==◌, le→leb, if◌then◌else◌, ne→not_eq, length, length-append, Bool-cases,
  inl, inr, ◌>>=◌,
}
use eset_store.Text.Number.{c_str, u64_mod}
use eset_store.Text.Decimal.{decimal, length-decimal, decimal-AllDigits, AllDigits, IsWidth}
use eset_store.Text.Search.{starts_with, get_uint64_value_between_strs}
use eset_store.Text.Markers.{Absent, get_uint64-decimal}
use eset_store.Protocol.Commands.{
  codes, suffix, block_id_header, delete_block_cmd, delete_block, parse_meta_command,
}
use eset_store.Protocol.Replies.{
  server_event, parse_block_server_reply_command, report_block_deletion,
}
use eset_store.Protocol.Exchange.{block_message}

c_str-digits : (ds rest : List ℕ) → AllDigits ds → c_str (ds ++ rest) ≡ ds ++ c_str rest
unfolding c_str
c_str-digits [] rest a = refl
c_str-digits (d ∷ ds) rest a =
    rw (ne→not_eq d 0 (omega arith)) (ap (◌∷◌ d) (c_str-digits ds rest a.2))

unfoldable is_absent : List ℕ → List ℕ → List ℕ → Bool
unfolding starts_with
is_absent pat [] tail = true
is_absent pat (c ∷ pre) tail =
    if starts_with pat (c ∷ (pre ++ tail)) then false else is_absent pat pre tail

is_absent-Absent : (pat pre tail : List ℕ) → is_absent pat pre tail ≡ true → Absent pat pre tail
unfolding is_absent
is_absent-Absent pat [] tail e = tt
is_absent-Absent pat (c ∷ pre) tail e = elim (Bool-cases (starts_with pat (c ∷ (pre ++ tail)))) [
  | inl found ↦ absurd (ground (arith, found))
  | inr missing ↦ (missing, is_absent-Absent pat pre tail (ground (arith, missing)))
]

-- A message in a buffer, with the bytes after it, as the search for the number sees it.
pub sought :
    (header digits rest : List ℕ)
    → block_message header digits ++ rest
      ≡ (header ++ suffix) ++ (block_id_header ++ (digits ++ (13 ∷ 10 ∷ 0 ∷ rest)))
sought header digits rest = simp append_assoc

module _ (header rest : List ℕ) (n id size : ℕ)
    (absent : is_absent block_id_header
        (header ++ suffix)
        (block_id_header ++ (decimal (suc n) id ++ (13 ∷ 10 ∷ 0 ∷ rest)))
      ≡ true)
    (w : IsWidth n id) (small : n < 20) (h64 : id < u64_mod)
    (room : length header + n + 13 ≤ size) where
  read_block_id :
      get_uint64_value_between_strs block_id_header suffix
        (block_message header (decimal (suc n) id) ++ rest)
        size
      ≡ some id
  read_block_id =
      ap (λ text. get_uint64_value_between_strs block_id_header suffix text size)
        (sought header (decimal (suc n) id) rest)
      ∙ get_uint64-decimal block_id_header (header ++ suffix) (10 ∷ []) (0 ∷ rest) 13 n id size
          (is_absent-Absent block_id_header (header ++ suffix)
            (block_id_header ++ (decimal (suc n) id ++ (13 ∷ 10 ∷ 0 ∷ rest))) absent)
          (omega arith) (omega arith) w.0 h64 (omega (arith, length-append header suffix))

pub parse_meta_command-delete :
    (digits rest : List ℕ) (w : ℕ)
    → 11 ≤ w
    → parse_meta_command (block_message delete_block_cmd digits ++ rest) w ≡ delete_block
unfolding parse_meta_command
parse_meta_command-delete digits rest w h = rw (le→leb 11 w h) refl

-- What a reply tells of the deletion: 1 where deleteFile returned 0.
abbrev pub deleted_flag : ℕ → ℕ
deleted_flag ret = if ret == 0 then 1 else 0

module _ (rest : List ℕ) (n id : ℕ) (w : IsWidth n id) (small : n < 20) (h64 : id < u64_mod) where
  abbrev message : List ℕ → List ℕ
  message header = block_message header (decimal (suc n) id) ++ rest

  length-end : length (c_str (decimal (suc n) id ++ (13 ∷ 10 ∷ 0 ∷ rest))) ≡ n + 3
  unfolding c_str
  length-end =
      rw (c_str-digits (decimal (suc n) id) (13 ∷ 10 ∷ 0 ∷ rest) (decimal-AllDigits (suc n) id)) (
        omega (arith, length-append (decimal (suc n) id) (13 ∷ 10 ∷ []), length-decimal (suc n) id))

  pub read_delete :
      (size : ℕ)
      → 11 + n + 13 ≤ size
      → get_uint64_value_between_strs block_id_header suffix (message delete_block_cmd) size
        ≡ some id
  unfolding is_absent
  read_delete size h = read_block_id delete_block_cmd rest n id size refl w small h64 h

  pub reply_ok :
      server_event
        (message (codes "DeleteOK"))
        (parse_block_server_reply_command (message (codes "DeleteOK")))
      ≡ some (report_block_deletion id 1)
  unfolding is_absent c_str server_event parse_block_server_reply_command
  reply_ok =
      ap (λ found. found >>= λ v. some (report_block_deletion v 1))
        (read_block_id (codes "DeleteOK") rest n id (length (c_str (message (codes "DeleteOK"))))
          refl w small h64
          (omega (
            arith,
            ap (λ t. length (c_str t)) (sought (codes "DeleteOK") (decimal (suc n) id) rest),
            length-end,
          )))

  pub reply_failed :
      server_event
        (message (codes "DeleteFailed"))
        (parse_block_server_reply_command (message (codes "DeleteFailed")))
      ≡ some (report_block_deletion id 0)
  unfolding is_absent c_str server_event parse_block_server_reply_command
  reply_failed =
      ap (λ found. found >>= λ v. some (report_block_deletion v 0))
        (read_block_id (codes "DeleteFailed") rest n id
          (length (c_str (message (codes "DeleteFailed")))) refl w small h64
          (omega (
            arith,
            ap (λ t. length (c_str t)) (sought (codes "DeleteFailed") (decimal (suc n) id) rest),
            length-end,
          )))
