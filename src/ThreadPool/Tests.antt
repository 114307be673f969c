-- ===== src/ThreadPool/Tests.antt =====
-- The theorems on the thread pool at short runs.
use nowcoder_linux_learning.Base.{ℕ, ◌+◌, ◌≤◌, ◌≡◌, refl, none, some, [], ◌∷◌, ◌++◌, length}
use nowcoder_linux_learning.Base.Sums.{move}
use nowcoder_linux_learning.ThreadPool.{Pool, push_request, post, wait, pop_request}
use nowcoder_linux_learning.ThreadPool.Threads.{
  webserver, chapter_5, worker, main, at_wait, at_lock, inside, outside, locking, appending,
  posting, System, Step, waits, locks, calls, enters, pushes, posts, Reach, here, next,
}
use nowcoder_linux_learning.ThreadPool.Safety.{IsInitial, Reach-exclusive, Reach-in_order}
use nowcoder_linux_learning.ThreadPool.Deadlock.{popped, hands_out_one}

abbrev new_pool : Pool ℕ
new_pool = record { max_requests = 2; workqueue = []; queuestat = 0 }

abbrev start : System ℕ
start = record {
  pool = new_pool;
  owner = none;
  places = λ i. at_wait;
  caller = outside;
  accepted = [];
  handed = [];
}

start-IsInitial : IsInitial start
start-IsInitial = record {
  free = refl;
  waiting = λ i. refl;
  idle = refl;
  empty = refl;
  no_accepted = refl;
  no_handed = refl;
}

abbrev called : System ℕ
called = record start { caller = locking 7 }

abbrev entered : System ℕ
entered = record called { owner = some main; caller = appending 7 }

abbrev pushed : System ℕ
pushed = record entered {
  pool = record new_pool { workqueue = 7 ∷ [] };
  owner = none;
  caller = posting;
  accepted = 7 ∷ [];
}

start-called : Step webserver start called
start-called = calls 7 refl refl

start-entered : Reach webserver start entered
start-entered = next (next here start-called) (enters 7 refl refl refl)

start-pushed : Reach webserver start pushed
unfolding push_request
start-pushed = next start-entered (pushes 7 refl refl refl)

Reach-exclusive_example : main ≡ main
Reach-exclusive_example =
    Reach-exclusive webserver start entered main main start-IsInitial start-entered (7, refl)
      (7, refl)

Reach-in_order_example :
    (pushed.accepted ≡ pushed.handed ++ pushed.pool.workqueue)
    × (length pushed.pool.workqueue ≤ 2 + 1)
Reach-in_order_example = Reach-in_order webserver start pushed start-IsInitial start-pushed

-- In chapter_5: the request 7 is appended, and the worker 0 comes for it.
abbrev appended : System ℕ
appended = record pushed { pool = post pushed.pool; caller = outside }

abbrev woken : System ℕ
woken = record appended { pool = pushed.pool; places = move start.places 0 at_lock }

abbrev behind_lock : System ℕ
behind_lock = record woken { owner = some (worker 0); places = move woken.places 0 inside }

start-behind_lock : Reach chapter_5 start behind_lock
unfolding push_request post wait
start-behind_lock =
    next
      (next
        (next
          (next (next (next here (calls 7 refl refl)) (enters 7 refl refl refl))
            (pushes 7 refl refl refl))
          (posts refl refl))
        (waits 0 pushed.pool refl refl refl))
      (locks 0 refl refl refl)

front : pop_request behind_lock.pool ≡ some (7, new_pool)
unfolding pop_request
front = refl

-- A second call of append, which waits for the mutex.
abbrev called_again : System ℕ
called_again = record (popped 0 7 new_pool behind_lock) { caller = locking 8 }

hands_out_one_example : length behind_lock.handed ≤ 1
hands_out_one_example = hands_out_one start behind_lock start-IsInitial start-behind_lock
