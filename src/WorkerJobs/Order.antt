-- ===== src/WorkerJobs/Order.antt =====
-- The order of the jobs from putJob over the loop of startWorker to getKeyValueJob
-- (WorkerJobs/Queue.antt).
use eset_store.Base.{
  NotIn, AllDifferent, ℕ, zero, suc, ◌+◌, ◌<◌, ◌≡◌, refl, sym, subst, ◌∙◌, arith, Option, some,
  List, [], ◌∷◌, ◌++◌, length, append-nil, map, eq→==, ne→not_eq,
}
use eset_store.WorkerJobs.Queue.{Store, KeyValueJobQueue, put_job, get_key_value_job, take_over}
use eset_store.WorkerJobs.Held.{
  Holds, SameBut, link_in_front-SameBut, Holds-elsewhere, put_job-Holds, get_key_value_job-Holds,
}

-- The first list backwards, and the second one after it.
abbrev pub reverse_onto : List ℕ → List ℕ → List ℕ
reverse_onto [] ys = ys
reverse_onto (x ∷ xs) ys = reverse_onto xs (x ∷ ys)

-- No job of the first list is in the second.
abbrev pub Apart : List ℕ → List ℕ → Type 0
Apart [] ys = Unit {0}
Apart (x ∷ xs) ys = NotIn x ys × Apart xs ys

-- The jobs come in one after the other.
unfoldable pub put_all : Store → KeyValueJobQueue → List ℕ → Store × KeyValueJobQueue
put_all store q [] = (store, q)
put_all store q (p ∷ ps) = put_all (put_job store q (some p)).1 (put_job store q (some p)).2 ps

-- The jobs that so many calls of getKeyValueJob return.
unfoldable pub get_all : ℕ → Store → KeyValueJobQueue → List (Option ℕ)
get_all zero store q = []
get_all (suc n) store q =
    (get_key_value_job store q).0 ∷ get_all n store (get_key_value_job store q).1

Apart-cons : (xs ys : List ℕ) (y : ℕ) → NotIn y xs → Apart xs ys → Apart xs (y ∷ ys)
Apart-cons [] ys y n a = tt
Apart-cons (x ∷ xs) ys y n a = (((λ e. n.0 (sym e)), a.0), Apart-cons xs ys y n.1 a.1)

put_job-SameBut :
    (store : Store) (q : KeyValueJobQueue) (p : ℕ) → SameBut p store (put_job store q (some p)).1
unfolding put_job
put_job-SameBut store q p = link_in_front-SameBut store p q.job_ptr

pub take_over-Holds :
    (fuel : ℕ) (store : Store) (pending handling : KeyValueJobQueue) (xs ys : List ℕ)
    → Holds store pending xs
    → Holds store handling ys
    → Apart xs ys
    → length xs < fuel
    → (store' : Store) × (pending' : KeyValueJobQueue) × (handling' : KeyValueJobQueue) × (take_over
          fuel store pending handling
        ≡ some (store', pending', handling'))
      × Holds store' pending' []
      × Holds store' handling' (reverse_onto xs ys)
unfolding take_over
take_over-Holds zero store pending handling xs ys v w a h = absurd (omega arith)
take_over-Holds (suc fuel) store pending handling [] ys v w a h =
    (store, pending, handling, rw (eq→== pending.job_size 0 v.number) refl, v, w)
take_over-Holds (suc fuel) store pending handling (x ∷ xs) ys v w a h =
    let (taken, v') = get_key_value_job-Holds store pending x xs v in
    let w' = put_job-Holds store handling x ys w a.0 in
    let (store', pending', handling', moved, empty, held) =
      take_over-Holds fuel (put_job store handling (some x)).1 (get_key_value_job store pending).1
        (put_job store handling (some x)).2 xs (x ∷ ys)
        (Holds-elsewhere store (put_job store handling (some x)).1 x
          (get_key_value_job store pending).1 xs (put_job-SameBut store handling x) v.different.0
          v')
        w' (Apart-cons xs ys x v.different.0 a.1) (omega (arith, h)) in
    (
      store',
      pending',
      handling',
      rw (ne→not_eq pending.job_size 0 (omega (arith, v.number)), taken) moved,
      empty,
      held,
    )

put_all-Holds :
    (store : Store) (q : KeyValueJobQueue) (ps xs : List ℕ)
    → Holds store q xs
    → AllDifferent ps
    → Apart ps xs
    → Holds (put_all store q ps).0 (put_all store q ps).1 (reverse_onto ps xs)
unfolding put_all
put_all-Holds store q [] xs v d a = v
put_all-Holds store q (p ∷ ps) xs v d a =
    put_all-Holds (put_job store q (some p)).1 (put_job store q (some p)).2 ps (p ∷ xs)
      (put_job-Holds store q p xs v a.0) d.1 (Apart-cons ps xs p d.0 a.1)

Apart-nil : (xs : List ℕ) → Apart xs []
Apart-nil [] = tt
Apart-nil (x ∷ xs) = (tt, Apart-nil xs)

-- The other queue, which is empty, while the jobs come in.
put_all-empty :
    (store : Store) (q other : KeyValueJobQueue) (ps : List ℕ)
    → Holds store other []
    → Holds (put_all store q ps).0 other []
unfolding put_all
put_all-empty store q other [] v = v
put_all-empty store q other (p ∷ ps) v =
    put_all-empty (put_job store q (some p)).1 (put_job store q (some p)).2 other ps (
      Holds-elsewhere store (put_job store q (some p)).1 p other [] (put_job-SameBut store q p) tt
        v)

reverse_onto-reverse_onto :
    (ps xs ys : List ℕ) → reverse_onto (reverse_onto ps xs) ys ≡ reverse_onto xs (ps ++ ys)
reverse_onto-reverse_onto [] xs ys = refl
reverse_onto-reverse_onto (p ∷ ps) xs ys = reverse_onto-reverse_onto ps (p ∷ xs) ys

length-reverse_onto : (ps xs : List ℕ) → length (reverse_onto ps xs) ≡ length ps + length xs
length-reverse_onto [] xs = omega arith
length-reverse_onto (p ∷ ps) xs = omega (arith, length-reverse_onto ps (p ∷ xs))

get_all-Holds :
    (store : Store) (q : KeyValueJobQueue) (xs : List ℕ)
    → Holds store q xs
    → get_all (length xs) store q ≡ map some xs
unfolding get_all
get_all-Holds store q [] v = refl
get_all-Holds store q (x ∷ xs) v =
    let (taken, v') = get_key_value_job-Holds store q x xs v in
    rw (taken, get_all-Holds store (get_key_value_job store q).1 xs v') refl

-- Different jobs that are put one after the other into the empty pending queue of a worker, whose
-- queue in hand is empty too, are taken over by its loop and then taken from the queue in hand in
-- the order in which they came.
pub jobs_in_order :
    (store : Store) (pending handling : KeyValueJobQueue) (ps : List ℕ)
    → Holds store pending []
    → Holds store handling []
    → AllDifferent ps
    → (store' : Store) × (pending' : KeyValueJobQueue) × (handling' : KeyValueJobQueue) × (take_over
          (suc (length ps))
          (put_all store pending ps).0
          (put_all store pending ps).1
          handling
        ≡ some (store', pending', handling'))
      × Holds store' pending' []
      × (get_all (length ps) store' handling' ≡ map some ps)
jobs_in_order store pending handling ps v w d =
    let (store', pending', handling', moved, empty, held) =
      take_over-Holds (suc (length ps)) (put_all store pending ps).0 (put_all store pending ps).1
        handling (reverse_onto ps []) [] (put_all-Holds store pending ps [] v d (Apart-nil ps))
        (put_all-empty store pending handling ps w) (Apart-nil (reverse_onto ps []))
        (omega (arith, length-reverse_onto ps [])) in
    (
      store',
      pending',
      handling',
      moved,
      empty,
      get_all-Holds store' handling' ps (
          subst (Holds store' handling') (reverse_onto-reverse_onto ps [] [] ∙ append-nil ps) held),
    )
