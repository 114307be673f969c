-- ===== src/Chapter3/PollBuffer.antt =====
-- chapter_3/thread/producer_consumer.cpp: producers and consumers around a buffer, with a mutex alone. A step is one call on the mutex,
-- the test of the size, or the change of the buffer. What is printed and `usleep` are left out.
pub mod Bounds
use nowcoder_linux_learning.Base.{ℕ, ◌≤◌, ◌<◌, ◌≡◌, Option, none, some, List, [], ◌∷◌, ◌++◌, length}
use nowcoder_linux_learning.Base.Sums.{move}
use nowcoder_linux_learning.Chapter3.Stack.{pop_back}

abbrev pub producer_num : ℕ
producer_num = 5

abbrev pub consumer_num : ℕ
consumer_num = 5

abbrev pub buf_size : ℕ
buf_size = 100

-- Where a thread stands: at `lock`, at the test, at the change of the buffer, or at `unlock`.
pub data Place : Type 0 where
  at_lock testing changing leaving : Place

pub data Owner : Type 0 where
  producer consumer : ℕ → Owner

pub record Shared : Type 0 where
  pub buf : List ℕ
  pub mutex : Option Owner
  pub producers : ℕ → Place
  pub consumers : ℕ → Place

-- What main leaves before it creates the threads.
abbrev pub initial : Shared
initial = record {
  buf = [];
  mutex = none;
  producers = λ i. Place.at_lock;
  consumers = λ i. Place.at_lock;
}

pub data Step (s t : Shared) : Type 0 where
  producer_locks :
      (i : ℕ)
      → i < producer_num
      → s.producers i ≡ at_lock
      → s.mutex ≡ none
      → t ≡ record s { mutex = some (producer i); producers = move s.producers i testing }
      → Step s t
  producer_finds_room :
      (i : ℕ)
      → i < producer_num
      → s.producers i ≡ testing
      → length s.buf < buf_size
      → t ≡ record s { producers = move s.producers i changing }
      → Step s t
  producer_finds_none :
      (i : ℕ)
      → i < producer_num
      → s.producers i ≡ testing
      → buf_size ≤ length s.buf
      → t ≡ record s { producers = move s.producers i leaving }
      → Step s t
  producer_pushes :
      (i num : ℕ)
      → i < producer_num
      → s.producers i ≡ changing
      → t ≡ record s { buf = s.buf ++ (num ∷ []); producers = move s.producers i leaving }
      → Step s t
  producer_unlocks :
      (i : ℕ)
      → i < producer_num
      → s.producers i ≡ leaving
      → t ≡ record s { mutex = none; producers = move s.producers i at_lock }
      → Step s t
  consumer_locks :
      (i : ℕ)
      → i < consumer_num
      → s.consumers i ≡ at_lock
      → s.mutex ≡ none
      → t ≡ record s { mutex = some (consumer i); consumers = move s.consumers i testing }
      → Step s t
  consumer_finds_item :
      (i : ℕ)
      → i < consumer_num
      → s.consumers i ≡ testing
      → 0 < length s.buf
      → t ≡ record s { consumers = move s.consumers i changing }
      → Step s t
  consumer_finds_none :
      (i : ℕ)
      → i < consumer_num
      → s.consumers i ≡ testing
      → length s.buf ≡ 0
      → t ≡ record s { consumers = move s.consumers i leaving }
      → Step s t
  consumer_pops :
      (i : ℕ)
      → i < consumer_num
      → s.consumers i ≡ changing
      → t ≡ record s { buf = pop_back s.buf; consumers = move s.consumers i leaving }
      → Step s t
  consumer_unlocks :
      (i : ℕ)
      → i < consumer_num
      → s.consumers i ≡ leaving
      → t ≡ record s { mutex = none; consumers = move s.consumers i at_lock }
      → Step s t

pub data Reach (s : Shared) : Shared → Type 0 where
  here : Reach s s
  next : {t u : Shared} → Reach s t → Step t u → Reach s u
