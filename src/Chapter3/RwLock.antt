-- ===== src/Chapter3/RwLock.antt =====
-- chapter_3/thread/rwlock.cpp: readers that count themselves, and writers, around a read-write lock.
-- A step is one call on the lock or the mutex, or what a thread does behind it. What is printed is
-- left out.
pub mod Exclusion
use nowcoder_linux_learning.Base.{ℕ, suc, ◌+◌, ◌-◌, ◌<◌, ◌≡◌, Bool, true, false, Option, none, some}
use nowcoder_linux_learning.Base.Sums.{move}

abbrev pub read_threads : ℕ
read_threads = 5

abbrev pub write_threads : ℕ
write_threads = 4

-- Where a reader stands: at `tryrdlock`, at the first `lock`, behind it, between the two parts that
-- the mutex guards, behind the second `lock`, or at the `unlock` of the read-write lock.
pub data Reader : Type 0 where
  trying arriving adding counted removing leaving : Reader

-- A writer: at `trywrlock`, behind it, or at `unlock`.
pub data Writer : Type 0 where
  waiting writing finishing : Writer

-- The read-write lock is held by so many readers, or by a writer.
pub record Shared : Type 0 where
  pub lock_readers : ℕ
  pub lock_writer : Bool
  pub mutex : Option ℕ
  pub rdlock_num : ℕ
  pub rw_num : ℕ
  pub readers : ℕ → Reader
  pub writers : ℕ → Writer

abbrev pub unlocked : Shared
unlocked = record {
  lock_readers = 0;
  lock_writer = false;
  mutex = none;
  rdlock_num = 0;
  rw_num = 0;
  readers = λ i. trying;
  writers = λ i. waiting;
}

pub data Step (s t : Shared) : Type 0 where
  reader_locks :
      (i : ℕ)
      → i < read_threads
      → s.readers i ≡ trying
      → s.lock_writer ≡ false
      → t ≡ record s { lock_readers = s.lock_readers + 1; readers = move s.readers i arriving }
      → Step s t
  reader_enters :
      (i : ℕ)
      → i < read_threads
      → s.readers i ≡ arriving
      → s.mutex ≡ none
      → t ≡ record s { mutex = some i; readers = move s.readers i adding }
      → Step s t
  reader_adds :
      (i : ℕ)
      → i < read_threads
      → s.readers i ≡ adding
      → t ≡ record s {
        mutex = none;
        rdlock_num = s.rdlock_num + 1;
        readers = move s.readers i counted;
      }
      → Step s t
  reader_returns :
      (i : ℕ)
      → i < read_threads
      → s.readers i ≡ counted
      → s.mutex ≡ none
      → t ≡ record s { mutex = some i; readers = move s.readers i removing }
      → Step s t
  reader_removes :
      (i : ℕ)
      → i < read_threads
      → s.readers i ≡ removing
      → t ≡ record s {
        mutex = none;
        rdlock_num = s.rdlock_num - 1;
        readers = move s.readers i leaving;
      }
      → Step s t
  reader_unlocks :
      (i : ℕ)
      → i < read_threads
      → s.readers i ≡ leaving
      → t ≡ record s { lock_readers = s.lock_readers - 1; readers = move s.readers i trying }
      → Step s t
  writer_locks :
      (i : ℕ)
      → i < write_threads
      → s.writers i ≡ waiting
      → s.lock_writer ≡ false
      → s.lock_readers ≡ 0
      → t ≡ record s { lock_writer = true; writers = move s.writers i writing }
      → Step s t
  writer_writes :
      (i : ℕ)
      → i < write_threads
      → s.writers i ≡ writing
      → t ≡ record s { rw_num = s.rw_num + 1; writers = move s.writers i finishing }
      → Step s t
  writer_unlocks :
      (i : ℕ)
      → i < write_threads
      → s.writers i ≡ finishing
      → t ≡ record s { lock_writer = false; writers = move s.writers i waiting }
      → Step s t

pub data Reach (s : Shared) : Shared → Type 0 where
  here : Reach s s
  next : {t u : Shared} → Reach s t → Step t u → Reach s u
