-- ===== src/ProcessPool/Parent.antt =====
-- processpool<T>::run_parent of chapter_5/CGI/process_pool.cpp, from the return of `epoll_wait` on.
-- What `recv` and `waitpid` return is an argument.
use nowcoder_linux_learning.Base.{
  ℕ, zero, suc, ◌+◌, ◌==◌, ◌||◌, if◌then◌else◌, Option, none, some, List, [], ◌∷◌, ◌++◌, map,
}
use nowcoder_linux_learning.ProcessPool.{
  ProcessPool, dispatch, sigint, sigterm, sigchld, child_ended, kill_all,
}

-- What a child is sent: word of a new connection, or SIGTERM.
pub data Sent : Type 0 where
  new_conn sent_term : ℕ → Sent

-- A byte that `recv` brings, and what `waitpid` returns call by call if its round waits.
pub record Round : Type 0 where
  pub signal : ℕ
  pub pids : List ℕ

pub data ParentEvent : Type 0 where
  connects : ParentEvent
  signalled : List Round → ParentEvent
  other_event : ParentEvent

-- The `switch`, in the event number `i`.
unfoldable pub parent_signal : ℕ → ℕ → List ℕ → ProcessPool → ProcessPool × List Sent
parent_signal i s pids p =
    if s == sigchld
    then (child_ended pids p, [])
    else if s == sigterm || s == sigint
    then (p, map sent_term (kill_all i p))
    else (p, [])

-- The loop over `j`. Each round looks at `signals[i]`, which is `s`.
unfoldable pub parent_signals :
    ℕ → ℕ → List Round → ProcessPool → List Sent → ProcessPool × List Sent
unfolding parent_signal
parent_signals i s [] p sent = (p, sent)
parent_signals i s (r ∷ rounds) p sent =
    let t = parent_signal i s r.pids p in parent_signals i s rounds t.0 (sent ++ t.1)

-- `signals[i]`, where `recv` has filled it.
unfoldable pub signal_at : List Round → ℕ → Option ℕ
signal_at [] i = none
signal_at (r ∷ rounds) zero = some r.signal
signal_at (r ∷ rounds) (suc i) = signal_at rounds i

-- The loop over the events, from the number `i` on; `none` when a byte is read that `recv` has not
-- filled.
unfoldable pub parent_events :
    ℕ → List ParentEvent → ProcessPool → List Sent → Option (ProcessPool × List Sent)
unfolding parent_signals signal_at
parent_events i [] p sent = some (p, sent)
parent_events i (connects ∷ events) p sent =
    let d = dispatch p in
    elim d.1 [
      | none ↦ some (d.0, sent)
      | some j ↦ parent_events (i + 1) events d.0 (sent ++ (new_conn j ∷ []))
    ]
parent_events i (signalled [] ∷ events) p sent = parent_events (i + 1) events p sent
parent_events i (signalled (r ∷ rounds) ∷ events) p sent = elim (signal_at (r ∷ rounds) i) [
  | none ↦ none
  | some s ↦ let t = parent_signals i s (r ∷ rounds) p sent in parent_events (i + 1) events t.0 t.1
]
parent_events i (other_event ∷ events) p sent = parent_events (i + 1) events p sent
