-- ===== src/Chapter3/Buffer.antt =====
-- chapter_3/thread/semaphore.cpp: producers and consumers around a buffer, with two semaphores and
-- a mutex. A step is one call on a semaphore or the mutex, or what a thread does behind `lock`.
pub mod Bounds
pub mod Stack
pub mod Exclusion
pub mod Progress
use nowcoder_linux_learning.Base.{ℕ, suc, ◌+◌, ◌<◌, ◌≡◌, Option, none, some, List, [], ◌∷◌, ◌++◌}
use nowcoder_linux_learning.Base.Sums.{move}
use nowcoder_linux_learning.Chapter3.Stack.{pop_back}

abbrev pub producer_num : ℕ
producer_num = 5

abbrev pub consumer_num : ℕ
consumer_num = 5

-- The first value of `sem_p`.
abbrev pub buf_size : ℕ
buf_size = 100

-- Where a thread stands in its loop: at `sem_wait`, at `lock`, behind it, at `unlock`, at `sem_post`.
pub data Place : Type 0 where
  at_wait at_lock inside leaving posting : Place

pub data Owner : Type 0 where
  producer consumer : ℕ → Owner

pub record Shared : Type 0 where
  pub buf : List ℕ
  pub sem_p : ℕ
  pub sem_c : ℕ
  pub mutex : Option Owner
  pub producers : ℕ → Place
  pub consumers : ℕ → Place

-- What main leaves before it creates the threads.
abbrev pub initial : Shared
initial = record {
  buf = [];
  sem_p = buf_size;
  sem_c = 0;
  mutex = none;
  producers = λ i. at_wait;
  consumers = λ i. at_wait;
}

pub data Step (s t : Shared) : Type 0 where
  producer_waits :
      (i n : ℕ)
      → i < producer_num
      → s.producers i ≡ at_wait
      → s.sem_p ≡ suc n
      → t ≡ record s { sem_p = n; producers = move s.producers i at_lock }
      → Step s t
  producer_locks :
      (i : ℕ)
      → i < producer_num
      → s.producers i ≡ at_lock
      → s.mutex ≡ none
      → t ≡ record s { mutex = some (producer i); producers = move s.producers i inside }
      → Step s t
  producer_pushes :
      (i num : ℕ)
      → i < producer_num
      → s.producers i ≡ inside
      → t ≡ record s { buf = s.buf ++ (num ∷ []); producers = move s.producers i leaving }
      → Step s t
  producer_unlocks :
      (i : ℕ)
      → i < producer_num
      → s.producers i ≡ leaving
      → t ≡ record s { mutex = none; producers = move s.producers i posting }
      → Step s t
  producer_posts :
      (i : ℕ)
      → i < producer_num
      → s.producers i ≡ posting
      → t ≡ record s { sem_c = s.sem_c + 1; producers = move s.producers i at_wait }
      → Step s t
  consumer_waits :
      (i n : ℕ)
      → i < consumer_num
      → s.consumers i ≡ at_wait
      → s.sem_c ≡ suc n
      → t ≡ record s { sem_c = n; consumers = move s.consumers i at_lock }
      → Step s t
  consumer_locks :
      (i : ℕ)
      → i < consumer_num
      → s.consumers i ≡ at_lock
      → s.mutex ≡ none
      → t ≡ record s { mutex = some (consumer i); consumers = move s.consumers i inside }
      → Step s t
  consumer_pops :
      (i : ℕ)
      → i < consumer_num
      → s.consumers i ≡ inside
      → t ≡ record s { buf = pop_back s.buf; consumers = move s.consumers i leaving }
      → Step s t
  consumer_unlocks :
      (i : ℕ)
      → i < consumer_num
      → s.consumers i ≡ leaving
      → t ≡ record s { mutex = none; consumers = move s.consumers i posting }
      → Step s t
  consumer_posts :
      (i : ℕ)
      → i < consumer_num
      → s.consumers i ≡ posting
      → t ≡ record s { sem_p = s.sem_p + 1; consumers = move s.consumers i at_wait }
      → Step s t

pub data Reach (s : Shared) : Shared → Type 0 where
  here : Reach s s
  next : {t u : Shared} → Reach s t → Step t u → Reach s u
