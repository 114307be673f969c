-- ===== src/Chapter3/CondBuffer.antt =====
-- chapter_3/thread/pthread_cond.cpp: producers and consumers around a buffer, with a mutex and a
-- condition on which consumers wait. A step is one call on the mutex or the condition,
-- the test of the size, or the change of the buffer. What is printed and `usleep` are left out.
pub mod Bounds
pub mod Counts
pub mod Wakeups
use nowcoder_linux_learning.Base.{
  ℕ, ◌≤◌, ◌<◌, ◌≡◌, ◌≢◌, Option, none, some, List, [], ◌∷◌, ◌++◌, length,
}
use nowcoder_linux_learning.Base.Sums.{move}
use nowcoder_linux_learning.Chapter3.Stack.{pop_back}

abbrev pub producer_num : ℕ
producer_num = 5

abbrev pub consumer_num : ℕ
consumer_num = 5

abbrev pub buf_size : ℕ
buf_size = 100

-- Where a producer stands: at `lock`, at the test, at `push_back`, at `signal`, or at `unlock`.
pub data Producer : Type 0 where
  at_lock testing changing signalling leaving : Producer

-- A consumer: at `lock`, at the test, at `pop_back`, at `pthread_cond_wait`, blocked there, woken
-- but without the mutex, or at `unlock`.
pub data Consumer : Type 0 where
  at_lock testing changing empty_seen blocked woken leaving : Consumer

pub data Owner : Type 0 where
  producer consumer : ℕ → Owner

pub record Shared : Type 0 where
  pub buf : List ℕ
  pub mutex : Option Owner
  pub producers : ℕ → Producer
  pub consumers : ℕ → Consumer

-- What main leaves before it creates the threads.
abbrev pub initial : Shared
initial = record {
  buf = [];
  mutex = none;
  producers = λ i. Producer.at_lock;
  consumers = λ i. Consumer.at_lock;
}

pub data Step (s t : Shared) : Type 0 where
  producer_locks :
      (i : ℕ)
      → i < producer_num
      → s.producers i ≡ Producer.at_lock
      → s.mutex ≡ none
      → t ≡ record s { mutex = some (producer i); producers = move s.producers i Producer.testing }
      → Step s t
  producer_finds_room :
      (i : ℕ)
      → i < producer_num
      → s.producers i ≡ Producer.testing
      → length s.buf < buf_size
      → t ≡ record s { producers = move s.producers i Producer.changing }
      → Step s t
  producer_finds_none :
      (i : ℕ)
      → i < producer_num
      → s.producers i ≡ Producer.testing
      → buf_size ≤ length s.buf
      → t ≡ record s { producers = move s.producers i Producer.leaving }
      → Step s t
  producer_pushes :
      (i num : ℕ)
      → i < producer_num
      → s.producers i ≡ Producer.changing
      → t
        ≡ record s { buf = s.buf ++ (num ∷ []); producers = move s.producers i Producer.signalling }
      → Step s t
  producer_signals :
      (i j : ℕ)
      → i < producer_num
      → j < consumer_num
      → s.producers i ≡ Producer.signalling
      → s.consumers j ≡ Consumer.blocked
      → t ≡ record s {
        producers = move s.producers i Producer.leaving;
        consumers = move s.consumers j Consumer.woken;
      }
      → Step s t
  producer_signals_none :
      (i : ℕ)
      → i < producer_num
      → s.producers i ≡ Producer.signalling
      → ((j : ℕ) → j < consumer_num → s.consumers j ≢ Consumer.blocked)
      → t ≡ record s { producers = move s.producers i Producer.leaving }
      → Step s t
  producer_unlocks :
      (i : ℕ)
      → i < producer_num
      → s.producers i ≡ Producer.leaving
      → t ≡ record s { mutex = none; producers = move s.producers i Producer.at_lock }
      → Step s t
  consumer_locks :
      (i : ℕ)
      → i < consumer_num
      → s.consumers i ≡ Consumer.at_lock
      → s.mutex ≡ none
      → t ≡ record s { mutex = some (consumer i); consumers = move s.consumers i Consumer.testing }
      → Step s t
  consumer_finds_item :
      (i : ℕ)
      → i < consumer_num
      → s.consumers i ≡ Consumer.testing
      → 0 < length s.buf
      → t ≡ record s { consumers = move s.consumers i Consumer.changing }
      → Step s t
  consumer_finds_none :
      (i : ℕ)
      → i < consumer_num
      → s.consumers i ≡ Consumer.testing
      → length s.buf ≡ 0
      → t ≡ record s { consumers = move s.consumers i Consumer.empty_seen }
      → Step s t
  consumer_pops :
      (i : ℕ)
      → i < consumer_num
      → s.consumers i ≡ Consumer.changing
      → t ≡ record s { buf = pop_back s.buf; consumers = move s.consumers i Consumer.leaving }
      → Step s t
  consumer_blocks :
      (i : ℕ)
      → i < consumer_num
      → s.consumers i ≡ Consumer.empty_seen
      → t ≡ record s { mutex = none; consumers = move s.consumers i Consumer.blocked }
      → Step s t
  -- `pthread_cond_wait` may return with no signal.
  consumer_wakes :
      (i : ℕ)
      → i < consumer_num
      → s.consumers i ≡ Consumer.blocked
      → t ≡ record s { consumers = move s.consumers i Consumer.woken }
      → Step s t
  consumer_relocks :
      (i : ℕ)
      → i < consumer_num
      → s.consumers i ≡ Consumer.woken
      → s.mutex ≡ none
      → t ≡ record s { mutex = some (consumer i); consumers = move s.consumers i Consumer.leaving }
      → Step s t
  consumer_unlocks :
      (i : ℕ)
      → i < consumer_num
      → s.consumers i ≡ Consumer.leaving
      → t ≡ record s { mutex = none; consumers = move s.consumers i Consumer.at_lock }
      → Step s t

pub data Reach (s : Shared) : Shared → Type 0 where
  here : Reach s s
  next : {t u : Shared} → Reach s t → Step t u → Reach s u
