-- ===== src/Servers/Commands.antt =====
-- The commands of a deletion job, and the job from its start to its end: Servers/Deletes.antt.
use eset_store.Base.{
  NotIn, ℕ, suc, ◌+◌, ◌^◌, ◌≡◌, ◌<◌, refl, ap, sym, ◌∙◌, arith, Bool, true, false, ◌&&◌, ◌||◌, none,
  some, List, [], ◌∷◌, ◌++◌, length, length-append, Bool-cases, inl, inr, ltb, lt→ltb, ◌==◌,
  if◌then◌else◌,
}
use eset_store.Placement.Manager.{EcBlock, EcBlockGroup}
use eset_store.WorkerJobs.Queue.{Store, KeyValueJobQueue, put_job, link_in_front}
use eset_store.WorkerJobs.Held.{link_in_front-SameBut, next-linked}
use eset_store.Servers.Deletes.{
  BlockServerManager, Sent, get_active_block_server, delete_command, delete_block_group,
  delete_block_groups, set_num, put_or_report, perform_delete_blocks_job, perform_groups,
  report_servers_delete_job_done, report_all,
}
use eset_store.Servers.Queue.{InProcess, Chain-elsewhere}
use eset_store.Servers.Done.{AllOf, Done, num_set, report_servers-Done, counting_down}

abbrev is_active : List (ℕ × ℕ) → ℕ → ℕ → Bool
is_active [] rack server = false
is_active ((r, s) ∷ servers) rack server =
    (r == rack && s == server) || is_active servers rack server

get_active_block_server_lem :
    (servers : List (ℕ × ℕ)) (rack server : ℕ)
    → get_active_block_server servers rack server
      ≡ (if is_active servers rack server then some (rack, server) else none)
unfolding get_active_block_server
get_active_block_server_lem [] rack server = refl
get_active_block_server_lem ((r, s) ∷ servers) rack server =
    elim (Bool-cases (r == rack && s == server)) [
      | inl here ↦ rw here (let (e, e') = same here in rw (e, e') refl)
      | inr elsewhere ↦ rw elsewhere (get_active_block_server_lem servers rack server)
    ]
  where
    same : (r == rack && s == server) ≡ true → (r ≡ rack) × (s ≡ server)
    same h = (ground (arith, h), ground (arith, h))

-- The blocks with data that are on a server in use.
abbrev pub is_deleted : List (ℕ × ℕ) → EcBlock → Bool
is_deleted servers b = is_active servers b.rack_id b.server_id && ltb 0 b.block_size

abbrev pub wanted : List (ℕ × ℕ) → List EcBlock → List Sent
wanted servers [] = []
wanted servers (b ∷ blocks) =
    let rest = wanted servers blocks in
    if is_deleted servers b then ((b.rack_id, b.server_id), b.block_id) ∷ rest else rest

abbrev pub blocks_of : List EcBlockGroup → List EcBlock
blocks_of [] = []
blocks_of (g ∷ groups) = g.blocks ++ blocks_of groups

delete_command_lem :
    (servers : List (ℕ × ℕ)) (b : EcBlock)
    → delete_command servers b
      ≡ (if is_deleted servers b then ((b.rack_id, b.server_id), b.block_id) ∷ [] else [])
unfolding delete_command
delete_command_lem servers b =
    rw (get_active_block_server_lem servers b.rack_id b.server_id, delete_command)
      (elim (Bool-cases (is_active servers b.rack_id b.server_id)) [
        | inl active ↦ rw active refl
        | inr gone ↦ rw gone refl
      ])

delete_block_group_lem :
    (servers : List (ℕ × ℕ)) (blocks : List EcBlock) (num : ℕ)
    → delete_block_group servers blocks num
      ≡ (wanted servers blocks, num + length (wanted servers blocks))
unfolding delete_block_group
delete_block_group_lem servers [] num = ap (λ n. ([], n)) (omega arith)
delete_block_group_lem servers (b ∷ blocks) num = elim (Bool-cases (is_deleted servers b)) [
  | inl deleted ↦
      let e : delete_command servers b ≡ ((b.rack_id, b.server_id), b.block_id) ∷ [] =
        delete_command_lem servers b ∙ rw deleted refl in
      rw (e, delete_block_group)
        (rw deleted (
          rw (delete_block_group_lem servers blocks (num + 1)) (
            ap (λ n. (((b.rack_id, b.server_id), b.block_id) ∷ wanted servers blocks, n))
              (omega arith))))
  | inr left ↦
      let e : delete_command servers b ≡ [] = delete_command_lem servers b ∙ rw left refl in
      rw (e, delete_block_group) (rw left (delete_block_group_lem servers blocks num))
]

wanted-append :
    (servers : List (ℕ × ℕ)) (bs cs : List EcBlock)
    → wanted servers (bs ++ cs) ≡ wanted servers bs ++ wanted servers cs
wanted-append servers [] cs = refl
wanted-append servers (b ∷ bs) cs = elim (Bool-cases (is_deleted servers b)) [
  | inl deleted ↦
      rw deleted (ap (◌∷◌ ((b.rack_id, b.server_id), b.block_id)) (wanted-append servers bs cs))
  | inr left ↦ rw left (wanted-append servers bs cs)
]

delete_block_groups_lem :
    (servers : List (ℕ × ℕ)) (groups : List EcBlockGroup) (num : ℕ)
    → delete_block_groups servers groups num
      ≡ (wanted servers (blocks_of groups), num + length (wanted servers (blocks_of groups)))
unfolding delete_block_groups
delete_block_groups_lem servers [] num = ap (λ n. ([], n)) (omega arith)
delete_block_groups_lem servers (g ∷ groups) num =
    rw (delete_block_group_lem servers g.blocks num, delete_block_groups)
      (rw (delete_block_groups_lem servers groups (num + length (wanted servers g.blocks))) (
        rw (wanted-append servers g.blocks (blocks_of groups)) (
          ap (λ n. (wanted servers g.blocks ++ wanted servers (blocks_of groups), n))
            (omega (
              arith,
              length-append (wanted servers g.blocks) (wanted servers (blocks_of groups)),
            )))))

abbrev pub sent_of : BlockServerManager → ℕ → List Sent
sent_of m p = wanted m.active_servers (blocks_of (m.groups p))

-- The manager when the commands of the job are sent.
abbrev counted : BlockServerManager → ℕ → List EcBlockGroup → BlockServerManager
counted m p groups = set_num m p (length (wanted m.active_servers (blocks_of groups)))

perform_lem :
    (m : BlockServerManager) (p : ℕ) (g : EcBlockGroup) (groups : List EcBlockGroup)
    → m.groups p ≡ g ∷ groups
    → perform_delete_blocks_job m p ≡ some (sent_of m p, put_or_report (counted m p (m.groups p)) p)
unfolding perform_delete_blocks_job perform_groups
perform_lem m p g groups e =
    ap (perform_groups m p) e
    ∙ ap (λ r. some (r.0, put_or_report (set_num m p r.1) p))
        (delete_block_groups_lem m.active_servers (g ∷ groups) 0
          ∙ ap (λ n. (wanted m.active_servers (blocks_of (g ∷ groups)), n)) (omega arith))
    ∙ ap (λ gs. some (wanted m.active_servers (blocks_of gs), put_or_report (counted m p gs) p))
        (sym e)

-- putJob puts a job in front of those in process.
put_job-InProcess :
    (store : Store) (q : KeyValueJobQueue) (p : ℕ) (ps : List ℕ)
    → InProcess store q ps
    → NotIn p ps
    → InProcess (put_job store q (some p)).1 (put_job store q (some p)).2 (p ∷ ps)
unfolding put_job
put_job-InProcess store q p [] v n = record {
  number = omega (arith, v.number);
  linked = (refl, tt);
  different = (n, tt);
}
put_job-InProcess store q p (x ∷ xs) v n = record {
  number = omega (arith, v.number);
  linked = (
    refl,
    (
      ap (λ o. (link_in_front store p o p).next) v.linked.0 ∙ next-linked store p x,
      (Chain-elsewhere store (link_in_front store p q.job_ptr) p q.job_ptr (x ∷ xs)
          (link_in_front-SameBut store p q.job_ptr) n v.linked).1,
    ),
  );
  different = (n, v.different);
}

put_or_report-done :
    (m : BlockServerManager) (p : ℕ)
    → m.in_processing_num p ≡ 0
    → put_or_report m p ≡ report_servers_delete_job_done m p
unfolding put_or_report
put_or_report-done m p e = rw e refl

abbrev in_front : BlockServerManager → ℕ → BlockServerManager
in_front m p = record m {
  store = (put_job m.store m.in_processing_job_queue (some p)).1;
  in_processing_job_queue = (put_job m.store m.in_processing_job_queue (some p)).2;
}

put_or_report-open :
    (m : BlockServerManager) (p : ℕ)
    → 0 < m.in_processing_num p
    → m.in_processing_num p < 2 ^ 31
    → put_or_report m p ≡ in_front m p
unfolding put_or_report
put_or_report-open m p h small =
    rw (lt→ltb 0 (m.in_processing_num p) h)
      (rw (lt→ltb (m.in_processing_num p) (2 ^ 31) small) refl)

-- A job that is not in process and whose item has a block group: a command is sent for each of its
-- blocks with data that is on a server in use, in order, to that server; and after as many reports for
-- blocks of its groups, in any order, fewer than 2 ^ 31 and maybe none, the job is with its worker as one whose
-- deletion is done, in front of one job more, while the jobs that were in process still are.
pub perform_delete_blocks_job-report_all :
    (m : BlockServerManager) (p : ℕ) (g : EcBlockGroup) (groups : List EcBlockGroup)
    (ps ids : List ℕ)
    → m.groups p ≡ g ∷ groups
    → InProcess m.store m.in_processing_job_queue ps
    → NotIn p ps
    → AllOf m.groups p [] ids
    → length ids ≡ length (sent_of m p)
    → length ids < 2 ^ 31
    → (sent : BlockServerManager) × (done : BlockServerManager) × (perform_delete_blocks_job m p
        ≡ some (sent_of m p, sent))
      × (report_all sent ids ≡ some done)
      × Done m done p ps
unfolding report_all set_num put_job
perform_delete_blocks_job-report_all m p g groups ps [] e v n all l small = (
  report_servers_delete_job_done (counted m p (m.groups p)) p,
  report_servers_delete_job_done (counted m p (m.groups p)) p,
  perform_lem m p g groups e
      ∙ ap (λ after. some (sent_of m p, after))
          (put_or_report-done (counted m p (m.groups p)) p (num_set m p _ ∙ sym l)),
  refl,
  report_servers-Done m (counted m p (m.groups p)) p ps v n refl,
)
perform_delete_blocks_job-report_all m p g groups ps (id ∷ ids) e v n all l small =
    let sent : BlockServerManager = in_front (counted m p (m.groups p)) p in
    let num : sent.in_processing_num p ≡ suc (length ids) = num_set m p _ ∙ sym l in
    let (done, run, finished) =
      counting_down m p [] ps sent (id ∷ ids) (length ids)
        (put_job-InProcess m.store m.in_processing_job_queue p ps v n) tt all refl num refl
        (omega (arith, small)) in
    (
      sent,
      done,
      perform_lem m p g groups e
          ∙ ap (λ after. some (sent_of m p, after))
              (put_or_report-open (counted m p (m.groups p)) p (omega (arith, num))
                (omega (arith, num))),
      run,
      finished,
    )
