-- ===== src/WorkerJobs/Held.antt =====
-- The queue of WorkerJobs/Queue.antt as a list of jobs: putJob and getKeyValueJob.
use eset_store.Base.{
  NotIn, AllDifferent, ℕ, suc, ◌≡◌, ◌≢◌, refl, ap, sym, ◌∙◌, arith, Option, none, some, List, [],
  ◌∷◌, length, eq→==, ne→not_eq,
}
use eset_store.WorkerJobs.Queue.{
  Store, KeyValueJobQueue, set_next, link_in_front, put_job, take_job, get_key_value_job,
}

-- The jobs of the list follow this job; the `next` of the last one is anything.
abbrev pub Follow : Store → ℕ → List ℕ → Type 0
Follow store x [] = Unit {0}
Follow store x (y ∷ ys) = ((store x).next ≡ some y) × Follow store y ys

abbrev pub StartsAt : Store → Option ℕ → List ℕ → Type 0
StartsAt store from [] = from ≡ none
StartsAt store from (x ∷ xs) = (from ≡ some x) × Follow store x xs

-- The queue holds these jobs, the next to be taken first.
pub record Holds (store : Store) (q : KeyValueJobQueue) (xs : List ℕ) : Type 0 where
  pub number : q.job_size ≡ length xs
  pub starts : StartsAt store q.job_ptr xs
  pub different : AllDifferent xs

-- The store differs at this address only.
abbrev pub SameBut : ℕ → Store → Store → Type 0
SameBut p store store' = (r : ℕ) → r ≢ p → store' r ≡ store r

pub link_in_front-SameBut :
    (store : Store) (p : ℕ) (head : Option ℕ) → SameBut p store (link_in_front store p head)
unfolding link_in_front set_next
link_in_front-SameBut store p none r ne = refl
link_in_front-SameBut store p (some head) r ne = rw (ne→not_eq r p ne) refl

Follow-elsewhere :
    (store store' : Store) (p x : ℕ) (xs : List ℕ)
    → SameBut p store store'
    → p ≢ x
    → NotIn p xs
    → Follow store x xs
    → Follow store' x xs
Follow-elsewhere store store' p x [] same ne n f = tt
Follow-elsewhere store store' p x (y ∷ ys) same ne n f = (
  ap (λ j. j.next) (same x (λ e. ne (sym e))) ∙ f.0,
  Follow-elsewhere store store' p y ys same n.0 n.1 f.1,
)

-- A queue without the job that is written stays as it is.
pub Holds-elsewhere :
    (store store' : Store) (p : ℕ) (q : KeyValueJobQueue) (xs : List ℕ)
    → SameBut p store store'
    → NotIn p xs
    → Holds store q xs
    → Holds store' q xs
Holds-elsewhere store store' p q [] same n v = record {
  number = v.number;
  starts = v.starts;
  different = tt;
}
Holds-elsewhere store store' p q (x ∷ xs) same n v = record {
  number = v.number;
  starts = (v.starts.0, Follow-elsewhere store store' p x xs same n.0 n.1 v.starts.1);
  different = v.different;
}

pub next-linked :
    (store : Store) (p head : ℕ) → (link_in_front store p (some head) p).next ≡ some head
unfolding link_in_front set_next
next-linked store p head = rw (eq→== p p refl) refl

-- putJob puts a job that is not in the queue in front of the others.
pub put_job-Holds :
    (store : Store) (q : KeyValueJobQueue) (p : ℕ) (xs : List ℕ)
    → Holds store q xs
    → NotIn p xs
    → Holds (put_job store q (some p)).1 (put_job store q (some p)).2 (p ∷ xs)
unfolding put_job
put_job-Holds store q p [] v n = record {
  number = omega (arith, v.number);
  starts = (refl, tt);
  different = (tt, tt);
}
put_job-Holds store q p (x ∷ xs) v n = record {
  number = omega (arith, v.number);
  starts = (
    refl,
    (
      ap (λ o. (link_in_front store p o p).next) v.starts.0 ∙ next-linked store p x,
      Follow-elsewhere store (link_in_front store p q.job_ptr) p x xs
          (link_in_front-SameBut store p q.job_ptr) n.0 n.1 v.starts.1,
    ),
  );
  different = (n, v.different);
}

take_job-Holds :
    (store : Store) (x : ℕ) (xs : List ℕ)
    → Follow store x xs
    → AllDifferent xs
    → ((take_job store (suc (length xs)) (some x)).0 ≡ some x)
      × Holds store (take_job store (suc (length xs)) (some x)).1 xs
unfolding take_job
take_job-Holds store x [] f d = (refl, record { number = refl; starts = refl; different = tt })
take_job-Holds store x (y ∷ ys) f d = (
  refl,
  record {
    number = omega arith;
    starts = rw (ne→not_eq (suc (length ys)) 0 (omega arith)) f;
    different = d;
  },
)

-- getKeyValueJob takes the first job, and the others stay.
pub get_key_value_job-Holds :
    (store : Store) (q : KeyValueJobQueue) (x : ℕ) (xs : List ℕ)
    → Holds store q (x ∷ xs)
    → ((get_key_value_job store q).0 ≡ some x) × Holds store (get_key_value_job store q).1 xs
unfolding get_key_value_job
get_key_value_job-Holds store q x xs v =
    rw (v.number, v.starts.0) (take_job-Holds store x xs v.starts.1 v.different.1)
