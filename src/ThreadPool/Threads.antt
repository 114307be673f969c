-- ===== src/ThreadPool/Threads.antt =====
-- The threads of a pool: any number of workers in threadpool::run, and one thread that calls append.
-- A step is one call on the mutex or the semaphore, or what a thread does while it holds the mutex.
-- A worker may come out of sem_wait with no request, since a signal interrupts the call and run does
-- not look at its result.
use nowcoder_linux_learning.Base.{ℕ, ◌≡◌, true, false, Option, none, some, List, [], ◌∷◌, ◌++◌}
use nowcoder_linux_learning.Base.Sums.{move}
use nowcoder_linux_learning.ThreadPool.{Pool, push_request, post, wait, pop_request}

-- Whether run unlocks once it has popped a request: webserver/threadpool.h does, and
-- chapter_5/threadpool.h does not.
pub data Version : Type 0 where
  webserver chapter_5 : Version

pub data Thread : Type 0 where
  worker : ℕ → Thread
  main : Thread

-- Where a worker stands: at `wait`, at `lock`, behind it, or in `process`.
pub data Place {ℓ} (A : Type ℓ) : Type ℓ where
  at_wait : Place A
  at_lock : Place A
  inside : Place A
  processing : A → Place A

-- Where the caller of append stands: not in it, at `lock`, behind it, or at `post`.
pub data Caller {ℓ} (A : Type ℓ) : Type ℓ where
  outside : Caller A
  locking : A → Caller A
  appending : A → Caller A
  posting : Caller A

-- `accepted` and `handed` are the requests that append took, and those that the workers got.
pub record System {ℓ} (A : Type ℓ) : Type ℓ where
  pub pool : Pool A
  pub owner : Option Thread
  pub places : ℕ → Place A
  pub caller : Caller A
  pub accepted : List A
  pub handed : List A

-- The owner once a worker has popped a request and goes on to `process`.
abbrev pub released : Version → Option Thread → Option Thread
released webserver o = none
released chapter_5 o = o

pub data Step {ℓ} {A : Type ℓ} (v : Version) (s t : System A) : Type ℓ where
  waits :
      (i : ℕ) (p : Pool A)
      → s.places i ≡ at_wait
      → wait s.pool ≡ some p
      → t ≡ record s { pool = p; places = move s.places i at_lock }
      → Step v s t
  interrupted :
      (i : ℕ)
      → s.places i ≡ at_wait
      → t ≡ record s { places = move s.places i at_lock }
      → Step v s t
  locks :
      (i : ℕ)
      → s.places i ≡ at_lock
      → s.owner ≡ none
      → t ≡ record s { owner = some (worker i); places = move s.places i inside }
      → Step v s t
  finds_none :
      (i : ℕ)
      → s.places i ≡ inside
      → pop_request s.pool ≡ none
      → t ≡ record s { owner = none; places = move s.places i at_wait }
      → Step v s t
  takes :
      (i : ℕ) (r : A) (p : Pool A)
      → s.places i ≡ inside
      → pop_request s.pool ≡ some (r, p)
      → t ≡ record s {
        pool = p;
        owner = released v s.owner;
        places = move s.places i (processing r);
        handed = s.handed ++ (r ∷ []);
      }
      → Step v s t
  processes :
      (i : ℕ) (r : A)
      → s.places i ≡ processing r
      → t ≡ record s { places = move s.places i at_wait }
      → Step v s t
  calls : (r : A) → s.caller ≡ outside → t ≡ record s { caller = locking r } → Step v s t
  enters :
      (r : A)
      → s.caller ≡ locking r
      → s.owner ≡ none
      → t ≡ record s { owner = some main; caller = appending r }
      → Step v s t
  refuses :
      (r : A)
      → s.caller ≡ appending r
      → (push_request s.pool r).1 ≡ false
      → t ≡ record s { owner = none; caller = outside }
      → Step v s t
  pushes :
      (r : A)
      → s.caller ≡ appending r
      → (push_request s.pool r).1 ≡ true
      → t ≡ record s {
        pool = (push_request s.pool r).0;
        owner = none;
        caller = posting;
        accepted = s.accepted ++ (r ∷ []);
      }
      → Step v s t
  posts : s.caller ≡ posting → t ≡ record s { pool = post s.pool; caller = outside } → Step v s t

pub data Reach {ℓ} {A : Type ℓ} (v : Version) (s : System A) : System A → Type ℓ where
  here : Reach v s s
  next : {t u : System A} → Reach v s t → Step v t u → Reach v s u
