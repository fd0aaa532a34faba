-- ===== src/Jobs/Fifo.antt =====
-- The linked queue of Jobs/Queue.antt as a list of jobs: enqueueDiskJob and dequeueDiskJob.
use native.Mathlib.Decide.{ℕ_discrete}
use eset_store.Base.{
  NotIn, AllDifferent, ℕ, ◌+◌, ◌-◌, ◌≡◌, ◌≢◌, refl, ap, sym, ◌∙◌, arith, Option, none, some, List,
  [], ◌∷◌, ◌++◌, length, length-append, eq→==, ne→not_eq,
}
use eset_store.Jobs.Queue.{
  DiskJobQueue, Store, set_job, create_disk_job_queue, link_behind, enqueue_disk_job,
  dequeue_disk_job,
}

-- The jobs of the list follow one another from this pointer on.
abbrev pub IsChain : Store → Option ℕ → List ℕ → Type 0
IsChain store from [] = Unit {0}
IsChain store from (x ∷ xs) = (from ≡ some x) × IsChain store (store x).next xs

-- The pointer is to the last job of the list.
abbrev pub IsLast : ℕ → List ℕ → Type 0
IsLast p [] = ⊥
IsLast p (x ∷ []) = p ≡ x
IsLast p (x ∷ (y ∷ ys)) = IsLast p (y ∷ ys)

abbrev pub EndsWith : Option ℕ → List ℕ → Type 0
EndsWith tail [] = Unit {0}
EndsWith tail (x ∷ xs) = (p : ℕ) × (tail ≡ some p) × IsLast p (x ∷ xs)

-- The queue holds these jobs, the first to leave first.
pub record Holds (store : Store) (q : DiskJobQueue) (xs : List ℕ) : Type 0 where
  pub number : q.job_num ≡ length xs
  pub chain : IsChain store q.disk_job_header xs
  pub tail_last : EndsWith q.disk_job_tail xs
  pub different : AllDifferent xs

last-ne : (x tail : ℕ) (xs : List ℕ) → NotIn x xs → IsLast tail xs → x ≢ tail
last-ne x tail [] n l e = elim l [ ]
last-ne x tail (y ∷ []) n l e = n.0 (e ∙ l)
last-ne x tail (y ∷ (z ∷ zs)) n l e = last-ne x tail (z ∷ zs) n.1 l e

next-kept :
    (store : Store) (tail p x : ℕ) → x ≢ tail → (link_behind store tail p x).next ≡ (store x).next
unfolding link_behind
next-kept store tail p x ne = elim (ℕ_discrete x p) [
  | yes e ↦
      rw (eq→== x p e) (rw (ne→not_eq p tail (λ q. ne (e ∙ q))) (ap (λ y. (store y).next) (sym e)))
  | no other ↦ rw (ne→not_eq x p other) (rw (ne→not_eq x tail ne) refl)
]

next-linked :
    (store : Store) (tail p : ℕ) → p ≢ tail → (link_behind store tail p tail).next ≡ some p
unfolding link_behind
next-linked store tail p ne =
    rw (ne→not_eq tail p (λ e. ne (sym e))) (rw (eq→== tail tail refl) refl)

link_behind-IsChain :
    (store : Store) (from : Option ℕ) (tail p x : ℕ) (xs : List ℕ)
    → IsChain store from (x ∷ xs)
    → IsLast tail (x ∷ xs)
    → AllDifferent (x ∷ xs)
    → NotIn p (x ∷ xs)
    → IsChain (link_behind store tail p) from (x ∷ (xs ++ (p ∷ [])))
link_behind-IsChain store from tail p x [] c l d n = (
  c.0,
  (
    ap (λ y. (link_behind store tail p y).next) (sym l)
        ∙ next-linked store tail p (λ e. n.0 (e ∙ l)),
    tt,
  ),
)
link_behind-IsChain store from tail p x (y ∷ ys) c l d n = (
  c.0,
  link_behind-IsChain store (link_behind store tail p x).next tail p y ys
      (next-kept store tail p x (last-ne x tail (y ∷ ys) d.0 l) ∙ c.1.0, c.1.1) l d.1 n.1,
)

IsLast-append : (p x : ℕ) (xs : List ℕ) → IsLast p (x ∷ (xs ++ (p ∷ [])))
IsLast-append p x [] = refl
IsLast-append p x (y ∷ ys) = IsLast-append p y ys

NotIn-append : (x p : ℕ) (xs : List ℕ) → NotIn x xs → x ≢ p → NotIn x (xs ++ (p ∷ []))
NotIn-append x p [] n ne = (ne, tt)
NotIn-append x p (y ∷ ys) n ne = (n.0, NotIn-append x p ys n.1 ne)

AllDifferent-append :
    (p : ℕ) (xs : List ℕ) → AllDifferent xs → NotIn p xs → AllDifferent (xs ++ (p ∷ []))
AllDifferent-append p [] d n = (tt, tt)
AllDifferent-append p (x ∷ xs) d n =
    (NotIn-append x p xs d.0 (λ e. n.0 (sym e)), AllDifferent-append p xs d.1 n.1)

-- A job that is not in the queue comes to its end by `enqueueDiskJob`, without a fault, and the jobs
-- before it stay in their order.
pub enqueue_disk_job-Holds :
    (store : Store) (q : DiskJobQueue) (p : ℕ) (xs : List ℕ)
    → Holds store q xs
    → NotIn p xs
    → (store' : Store) × (q' : DiskJobQueue) × (enqueue_disk_job store q p ≡ some (store', q'))
      × Holds store' q' (xs ++ (p ∷ []))
unfolding enqueue_disk_job
enqueue_disk_job-Holds store q p [] v n = (
  set_job store p (record (store p) { pre = none; next = none }),
  record { job_num = 1; disk_job_header = some p; disk_job_tail = some p },
  rw (eq→== q.job_num 0 v.number) refl,
  record { number = refl; chain = (refl, tt); tail_last = (p, refl, refl); different = (tt, tt) },
)
enqueue_disk_job-Holds store q p (x ∷ xs) v n =
    let (tail, e, l) = v.tail_last in
    (
      link_behind store tail p,
      record q { disk_job_tail = some p; job_num = q.job_num + 1 },
      rw (ne→not_eq q.job_num 0 (omega (arith, v.number))) (rw e refl),
      record {
        number = omega (arith, v.number, length-append xs (p ∷ []));
        chain = link_behind-IsChain store q.disk_job_header tail p x xs v.chain l v.different n;
        tail_last = (p, refl, IsLast-append p x xs);
        different = AllDifferent-append p (x ∷ xs) v.different n;
      },
    )

-- From a queue with jobs `dequeueDiskJob` takes the first one, without a fault, and the others stay
-- in their order.
pub dequeue_disk_job-Holds :
    (store : Store) (q : DiskJobQueue) (x : ℕ) (xs : List ℕ)
    → Holds store q (x ∷ xs)
    → (q' : DiskJobQueue) × (dequeue_disk_job store q ≡ some (some x, q')) × Holds store q' xs
unfolding dequeue_disk_job
dequeue_disk_job-Holds store q x [] v = (
  create_disk_job_queue,
  rw (ne→not_eq q.job_num 0 (omega (arith, v.number)), eq→== q.job_num 1 v.number)
      (rw v.chain.0 refl),
  record { number = refl; chain = tt; tail_last = tt; different = tt },
)
dequeue_disk_job-Holds store q x (y ∷ ys) v = (
  record q { disk_job_header = (store x).next; job_num = q.job_num - 1 },
  rw
      (
        ne→not_eq q.job_num 0 (omega (arith, v.number)),
        ne→not_eq q.job_num 1 (omega (arith, v.number)),
      )
      (rw v.chain.0 refl),
  record {
    number = omega (arith, v.number);
    chain = v.chain.1;
    tail_last = v.tail_last;
    different = v.different.1;
  },
)
