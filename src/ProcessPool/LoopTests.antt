-- ===== src/ProcessPool/LoopTests.antt =====
-- The loops of the parent and of a child at short runs.
use nowcoder_linux_learning.Base.{
  ℕ, ◌+◌, ◌≡◌, refl, true, false, Option, none, some, List, [], ◌∷◌, arith,
}
use nowcoder_linux_learning.ProcessPool.{
  Process, ProcessPool, dead, alive, same_pid, dispatch, sigchld, child_ended, child_signals,
}
use nowcoder_linux_learning.ProcessPool.Parent.{
  ParentEvent, connects, signalled, other_event, parent_events,
}
use nowcoder_linux_learning.ProcessPool.Stops.{parent_events-stop}
use nowcoder_linux_learning.ProcessPool.Child
use nowcoder_linux_learning.Http.Conn.{SockAddr}
use nowcoder_linux_learning.ProcessPool.Child.{Child, ChildEvent, told, readable, run_child}
use nowcoder_linux_learning.ProcessPool.Child.Run.{Lives, handled, any_ends, run_child-handled}

abbrev runs : ℕ → Process
runs p = record { pid = some p }

abbrev two : ProcessPool
two = record { sub_process = runs 100 ∷ runs 101 ∷ []; sub_process_counter = 1; stop = false }

-- Both children end, and then a client comes.
abbrev last_events : List ParentEvent
last_events =
    signalled (record { signal = sigchld; pids = 100 ∷ 101 ∷ [] } ∷ [])
    ∷ connects
    ∷ other_event
    ∷ []

abbrev none_left : ProcessPool
none_left = record { sub_process = dead ∷ dead ∷ []; sub_process_counter = 1; stop = true }

last_events_lem : parent_events 0 last_events two [] ≡ some (none_left, [])
unfolding parent_events dispatch same_pid child_ended
last_events_lem = refl

parent_events-stop_example : alive none_left.sub_process 1 ≡ false
parent_events-stop_example =
    parent_events-stop last_events two none_left [] (omega arith) refl last_events_lem refl 1

-- Each user counts what is done for it, and all together count what is done in all.
abbrev init_user : ℕ → ℕ → ℕ → ℕ → SockAddr → ℕ × ℕ
init_user total u epollfd fd addr = (total + 1, addr.port)

abbrev process_user : ℕ → ℕ → ℕ × ℕ
process_user total u = (total + 1, u + total)

abbrev idle_child : Child ℕ ℕ
idle_child = record { users = λ i. 9; shared = 0; watched = λ i. false; stop = false }

abbrev batches : List (List ChildEvent)
batches =
    (told true (some (7, record { ip = 1; port = 80 })) ∷ [])
    ∷ (readable 8 ∷ readable 7 ∷ Child.signalled (15 ∷ []) ∷ [])
    ∷ (readable 7 ∷ [])
    ∷ []

abbrev ended : Child ℕ ℕ → Option (Child ℕ ℕ) → Child ℕ ℕ
ended c none = c
ended c (some d) = d

abbrev last_child : Child ℕ ℕ
unfolding run_child
last_child = ended idle_child (run_child 4 init_user process_user batches idle_child)

run_child-handled_example :
    Lives 4 init_user process_user 7 (handled batches) 9 (last_child.users 7)
    × (last_child.stop ≡ any_ends (handled batches))
unfolding run_child child_signals
run_child-handled_example =
    run_child-handled 4 init_user process_user 7 batches idle_child last_child refl refl
