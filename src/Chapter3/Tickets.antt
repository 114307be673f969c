-- ===== src/Chapter3/Tickets.antt =====
-- chapter_3/thread/case_sell_tickets.cpp: threads that sell tickets, each with its own count. A step
-- is a call of `pthread_mutex_trylock` or `pthread_mutex_unlock`, or one access to what the threads
-- share: the test, and the load and the store of `tickets_num--`, are three steps.
pub mod Total
use nowcoder_linux_learning.Base.{ℕ, zero, suc, ◌+◌, ◌-◌, ◌<◌, ◌≡◌, Option, none, some}
use nowcoder_linux_learning.Base.Sums.{move, sum}

abbrev pub thread_num : ℕ
thread_num = 5

abbrev pub tickets_num : ℕ
tickets_num = 1000

-- Where a thread stands: in front of `trylock`; in front of the test; in front of `tickets_num--`;
-- with the value that it has loaded for it; in front of `(*sell)++`; at `unlock` behind a sale; at
-- `unlock` in front of `break`; or behind its loop.
pub data Place : Type 0 where
  trying inside selling : Place
  loaded : ℕ → Place
  counting leaving stopping ended : Place

pub record Office : Type 0 where
  pub tickets : ℕ
  pub mutex : Option ℕ
  pub sell : ℕ → ℕ
  pub places : ℕ → Place

abbrev pub opening : Office
opening = record { tickets = tickets_num; mutex = none; sell = λ i. 0; places = λ i. trying }

-- A thread that has loaded 0 has no next step here: the test has found a ticket, and Total.Inv says
-- that no other thread takes it in between.
pub data Step (s t : Office) : Type 0 where
  locks :
      (i : ℕ)
      → i < thread_num
      → s.places i ≡ trying
      → s.mutex ≡ none
      → t ≡ record s { mutex = some i; places = move s.places i inside }
      → Step s t
  misses : (i k : ℕ) → i < thread_num → s.places i ≡ trying → s.mutex ≡ some k → t ≡ s → Step s t
  finds_ticket :
      (i : ℕ)
      → i < thread_num
      → s.places i ≡ inside
      → 0 < s.tickets
      → t ≡ record s { places = move s.places i selling }
      → Step s t
  finds_none :
      (i : ℕ)
      → i < thread_num
      → s.places i ≡ inside
      → s.tickets ≡ 0
      → t ≡ record s { places = move s.places i stopping }
      → Step s t
  loads :
      (i : ℕ)
      → i < thread_num
      → s.places i ≡ selling
      → t ≡ record s { places = move s.places i (loaded s.tickets) }
      → Step s t
  stores :
      (i n : ℕ)
      → i < thread_num
      → s.places i ≡ loaded (suc n)
      → t ≡ record s { tickets = n; places = move s.places i counting }
      → Step s t
  counts :
      (i : ℕ)
      → i < thread_num
      → s.places i ≡ counting
      → t ≡ record s { sell = move s.sell i (s.sell i + 1); places = move s.places i leaving }
      → Step s t
  unlocks :
      (i : ℕ)
      → i < thread_num
      → s.places i ≡ leaving
      → t ≡ record s { mutex = none; places = move s.places i trying }
      → Step s t
  stops :
      (i : ℕ)
      → i < thread_num
      → s.places i ≡ stopping
      → t ≡ record s { mutex = none; places = move s.places i ended }
      → Step s t

pub data Reach (s : Office) : Office → Type 0 where
  here : Reach s s
  next : {t u : Office} → Reach s t → Step t u → Reach s u

-- The loop of main over the results of the threads.
unfoldable pub join_all : Office → ℕ
unfolding sum
join_all s = sum (λ x. x) thread_num s.sell
