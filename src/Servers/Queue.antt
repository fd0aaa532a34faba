-- ===== src/Servers/Queue.antt =====
-- The queue of the deletion jobs that are in process: Servers/Deletes.antt on lists of jobs.
use eset_store.Base.{
  NotIn, AllDifferent, ℕ, ◌-◌, ◌≡◌, ◌≢◌, refl, ap, sym, subst, ◌∙◌, arith, true, false, Option,
  some, List, [], ◌∷◌, ◌++◌, length, length-append, eq→==, ne→not_eq, strncmp_zero,
}
use eset_store.WorkerJobs.Queue.{
  Store, KeyValueJob, KeyValueJobQueue, set_next, has_key, remove_behind, remove_the_job_from_queue,
  less_one,
}
use eset_store.Placement.Manager.{EcBlockGroup}
use eset_store.WorkerJobs.Held.{SameBut}
use eset_store.Servers.Deletes.{BlockServerManager, job_has_the_block, find_job}

-- The jobs follow one another from here; what the last one's `next` is does not matter.
abbrev pub Chain : Store → Option ℕ → List ℕ → Type 0
Chain store from [] = Unit {0}
Chain store from (x ∷ xs) = (from ≡ some x) × Chain store (store x).next xs

-- The queue has these jobs. The `job_ptr` of an empty queue is anything.
pub record InProcess (store : Store) (q : KeyValueJobQueue) (ps : List ℕ) : Type 0 where
  pub number : q.job_size ≡ length ps
  pub linked : Chain store q.job_ptr ps
  pub different : AllDifferent ps

pub Chain-elsewhere :
    (store store' : Store) (p : ℕ) (from : Option ℕ) (xs : List ℕ)
    → SameBut p store store'
    → NotIn p xs
    → Chain store from xs
    → Chain store' from xs
Chain-elsewhere store store' p from [] same n c = tt
Chain-elsewhere store store' p from (x ∷ xs) same n (e, c) = (
  e,
  subst (λ job. Chain store' job.next xs) (sym (same x (λ q. n.0 (sym q))))
      (Chain-elsewhere store store' p (store x).next xs same n.1 c),
)

-- No job of the list has a block of this group.
abbrev pub Lack : (ℕ → List EcBlockGroup) → ℕ → List ℕ → Type 0
Lack groups id [] = Unit {0}
Lack groups id (x ∷ xs) = (job_has_the_block (groups x) id ≡ some false) × Lack groups id xs

-- The search stops at the first job with a block of the group.
pub find_job-first :
    (m : BlockServerManager) (id p : ℕ) (pre post : List ℕ) (from : Option ℕ)
    → Chain m.store from (pre ++ p ∷ post)
    → Lack m.groups id pre
    → job_has_the_block (m.groups p) id ≡ some true
    → find_job (length (pre ++ p ∷ post)) m from id ≡ some (some p, true)
unfolding find_job
find_job-first m id p [] post from (e, c) lack has = rw e (rw has refl)
find_job-first m id p (x ∷ pre) post from (e, c) (lacks, lack) has =
    rw e (rw lacks (find_job-first m id p pre post (m.store x).next c lack has))

strncmp_zero_self : (xs : List ℕ) → strncmp_zero xs xs ≡ true
unfolding strncmp_zero
strncmp_zero_self [] = refl
strncmp_zero_self (x ∷ xs) = rw (eq→== x x refl, strncmp_zero_self xs) (ground arith)

has_key_self : (job : KeyValueJob) → has_key job job ≡ true
unfolding has_key
has_key_self job = rw (eq→== (length job.key) (length job.key) refl, strncmp_zero_self job.key) refl

-- No job of the list has the key of `p`.
abbrev pub OtherKeys : Store → ℕ → List ℕ → Type 0
OtherKeys store p [] = Unit {0}
OtherKeys store p (x ∷ xs) = (has_key (store p) (store x) ≡ false) × OtherKeys store p xs

abbrev last_of : ℕ → List ℕ → ℕ
last_of x [] = x
last_of x (y ∷ ys) = last_of y ys

remove_behind-first :
    (store : Store) (x p : ℕ) (pre post : List ℕ)
    → Chain store (store x).next (pre ++ p ∷ post)
    → OtherKeys store p pre
    → remove_behind (length (pre ++ p ∷ post)) store (store p) x
      ≡ some (true, set_next store (last_of x pre) (store p).next)
unfolding remove_behind
remove_behind-first store x p [] post (e, c) other = rw e (rw (has_key_self (store p)) refl)
remove_behind-first store x p (y ∷ pre) post (e, c) (differs, other) =
    rw e (rw differs (remove_behind-first store y p pre post c other))

set_next-SameBut :
    (store : Store) (p : ℕ) (after : Option ℕ) → SameBut p store (set_next store p after)
unfolding set_next
set_next-SameBut store p after r ne = rw (ne→not_eq r p ne) refl

NotIn-last : (x y p : ℕ) (ys post : List ℕ) → NotIn x (y ∷ ys ++ p ∷ post) → x ≢ last_of y ys
NotIn-last x y p [] post n = n.0
NotIn-last x y p (z ∷ ys) post n = NotIn-last x z p ys post n.1

NotIn-drop : (x p : ℕ) (pre post : List ℕ) → NotIn x (pre ++ p ∷ post) → NotIn x (pre ++ post)
NotIn-drop x p [] post n = n.1
NotIn-drop x p (y ∷ pre) post n = (n.0, NotIn-drop x p pre post n.1)

NotIn-at : (x p : ℕ) (pre post : List ℕ) → NotIn x (pre ++ p ∷ post) → x ≢ p
NotIn-at x p [] post n = n.0
NotIn-at x p (y ∷ pre) post n = NotIn-at x p pre post n.1

pub AllDifferent-drop :
    (p : ℕ) (pre post : List ℕ)
    → AllDifferent (pre ++ p ∷ post)
    → AllDifferent (pre ++ post) × NotIn p (pre ++ post)
AllDifferent-drop p [] post d = (d.1, d.0)
AllDifferent-drop p (x ∷ pre) post d =
    let (d', n) = AllDifferent-drop p pre post d.1 in
    ((NotIn-drop x p pre post d.0, d'), ((λ e. NotIn-at x p pre post d.0 (sym e)), n))

relinked :
    (store : Store) (x p : ℕ) (pre post : List ℕ)
    → AllDifferent (x ∷ pre ++ p ∷ post)
    → Chain store (store x).next (pre ++ p ∷ post)
    → Chain
        (set_next store (last_of x pre) (store p).next)
        (set_next store (last_of x pre) (store p).next x).next
        (pre ++ post)
unfolding set_next
relinked store x p [] post d (e, c) = rw (eq→== x x refl) (
    Chain-elsewhere store (set_next store x (store p).next) x (store p).next post
      (set_next-SameBut store x (store p).next) d.0.1 c)
relinked store x p (y ∷ pre) post d (e, c) = (
  ap (λ job. job.next)
        (set_next-SameBut store (last_of y pre) (store p).next x (NotIn-last x y p pre post d.0))
      ∙ e,
  relinked store y p pre post d.1 c,
)

-- removeTheJobFromQueue takes the job out, where no job before it has its key; it changes no job but
-- in its `next`.
pub remove_the_job-InProcess :
    (store : Store) (q : KeyValueJobQueue) (p : ℕ) (pre post : List ℕ)
    → InProcess store q (pre ++ p ∷ post)
    → OtherKeys store p pre
    → (store' : Store) × (q' : KeyValueJobQueue) × (remove_the_job_from_queue store q p
        ≡ some (store', q'))
      × InProcess store' q' (pre ++ post)
unfolding remove_the_job_from_queue
remove_the_job-InProcess store q p [] post v other = (
  store,
  record { job_ptr = (store p).next; job_size = less_one q.job_size },
  rw v.linked.0 (rw (has_key_self (store p)) refl),
  record { number = ap less_one v.number; linked = v.linked.1; different = v.different.1 },
)
remove_the_job-InProcess store q p (x ∷ pre) post v other = (
  set_next store (last_of x pre) (store p).next,
  record q { job_size = less_one q.job_size },
  rw v.linked.0
      (rw other.0 (rw size (rw (remove_behind-first store x p pre post v.linked.1 other.1) refl))),
  record {
    number =
        omega (arith, ap less_one v.number, length-append pre (p ∷ post), length-append pre post);
    linked = (v.linked.0, relinked store x p pre post v.different v.linked.1);
    different = (AllDifferent-drop p (x ∷ pre) post v.different).0;
  },
)
  where
    size : q.job_size - 1 ≡ length (pre ++ p ∷ post)
    size = omega (arith, v.number)
