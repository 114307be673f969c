-- ===== src/ThreadPool.antt =====
-- webserver/threadpool.h, and chapter_5/threadpool.h, which differs in one line of run.
pub mod Tests
pub mod Threads
pub mod Deadlock
pub mod Safety
use nowcoder_linux_learning.Base.{
  ℕ, zero, suc, ◌+◌, ◌-◌, ◌≡◌, Bool, true, false, ltb, if◌then◌else◌, Option, none, some, List, [],
  ◌∷◌, ◌++◌, length,
}

pub record Pool {ℓ} (A : Type ℓ) : Type ℓ where
  pub max_requests : ℕ
  pub workqueue : List A
  pub queuestat : ℕ

module _ {ℓ} {A : Type ℓ} where
  -- Between lock and unlock.
  unfoldable pub push_request : Pool A → A → Pool A × Bool
  push_request p request =
      if ltb p.max_requests (length p.workqueue)
      then (p, false)
      else (record p { workqueue = p.workqueue ++ (request ∷ []) }, true)

  unfoldable pub post : Pool A → Pool A
  post p = record p { queuestat = p.queuestat + 1 }

  unfoldable pub append : Pool A → A → Pool A × Bool
  unfolding push_request post
  append p request =
      let r = push_request p request in if r.1 then (post r.0, true) else (r.0, false)

  -- `wait` on the semaphore, when it is above 0.
  unfoldable pub wait : Pool A → Option (Pool A)
  wait p = elim p.queuestat [ zero ↦ none | suc n ↦ some (record p { queuestat = n }) ]

  -- Between lock and unlock: `front` and `pop_front`, where the queue is not empty.
  unfoldable pub pop_request : Pool A → Option (A × Pool A)
  pop_request p = elim p.workqueue [
    | [] ↦ none
    | r ∷ rest ↦ some (r, record p { workqueue = rest })
  ]

  -- One turn of the loop of run, up to the call of process. A thread that has to wait, or that
  -- finds the queue empty, has no request.
  unfoldable pub take_request : Pool A → Pool A × Option A
  unfolding wait pop_request
  take_request p = elim (wait p) [
    | none ↦ (p, none)
    | some q ↦ elim (pop_request q) [ none ↦ (q, none) | some (r, q') ↦ (q', some r) ]
  ]
