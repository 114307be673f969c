-- ===== src/ProcessPool.antt =====
-- chapter_5/CGI/process_pool.h and process_pool.cpp: the parent's choice of a child for a new
-- connection, and what the parent and a child do with signals. A pid of -1 is `none`.
-- What `waitpid` and `recv` return is an argument.
pub mod Tests
pub mod LoopTests
pub mod RoundRobin
pub mod Signals
pub mod Parent
pub mod Stops
pub mod Child
use nowcoder_linux_learning.Base.{
  ℕ, zero, suc, ◌+◌, ◌%◌, Bool, true, false, ◌||◌, ◌==◌, if◌then◌else◌, Option, none, some, List,
  [], ◌∷◌, ◌++◌, map, length, get_or, replicate,
}

pub record Process : Type 0 where
  pub pid : Option ℕ

pub record ProcessPool : Type 0 where
  pub sub_process : List Process
  pub sub_process_counter : ℕ
  pub stop : Bool

abbrev pub dead : Process
dead = record { pid = none }

abbrev pub alive : List Process → ℕ → Bool
alive ps j = elim (get_or ps j dead).pid [ none ↦ false | some pid ↦ true ]

-- The `do … while` loop, on as many rounds as there are processes; `c` is sub_process_counter.
unfoldable pub pick : ℕ → List Process → ℕ → ℕ → ℕ
pick zero ps c j = j
pick (suc rounds) ps c j =
    let k = (j + 1) % length ps in
    let rest = pick rounds ps c k in if alive ps j then j else if k == c then k else rest

-- A new connection: the child that is told of it, if there is one.
unfoldable pub dispatch : ProcessPool → ProcessPool × Option ℕ
unfolding pick
dispatch p =
    let ps = p.sub_process in
    let j = pick (length ps) ps p.sub_process_counter p.sub_process_counter in
    if alive ps j
    then (record p { sub_process_counter = (j + 1) % length ps }, some j)
    else (record p { stop = true }, none)

abbrev pub sigint : ℕ
sigint = 2

abbrev pub sigterm : ℕ
sigterm = 15

abbrev pub sigchld : ℕ
sigchld = 17

pub same_pid : Option ℕ → ℕ → Bool
same_pid none pid = false
same_pid (some p) pid = p == pid

-- A child that has ended, in the inner loop of SIGCHLD.
unfoldable pub reap : ℕ → List Process → List Process
unfolding same_pid
reap pid = map λ p. if same_pid p.pid pid then dead else p

unfoldable pub any_alive : List Process → Bool
any_alive [] = false
any_alive (p ∷ ps) = elim p.pid [ none ↦ any_alive ps | some pid ↦ true ]

unfoldable pub reap_all : List ℕ → List Process → List Process
unfolding reap
reap_all [] ps = ps
reap_all (pid ∷ pids) ps = reap_all pids (reap pid ps)

-- SIGCHLD in run_parent; `pids` is what `waitpid` returns, call by call.
unfoldable pub child_ended : List ℕ → ProcessPool → ProcessPool
unfolding reap_all any_alive
child_ended pids p =
    let ps = reap_all pids p.sub_process in
    record p { sub_process = ps; stop = if any_alive ps then false else p.stop }

-- SIGTERM and SIGINT in run_parent, in the event number `i`: the pids that SIGTERM is sent to. The
-- loop runs over `m`, and reads the process number `i`.
unfoldable pub kill_all : ℕ → ProcessPool → List ℕ
kill_all i p = elim (get_or p.sub_process i dead).pid [
  | none ↦ []
  | some pid ↦ replicate (length p.sub_process) pid
]

-- What a child does with the signals that it has received.
unfoldable pub child_signals : List ℕ → Bool → Bool
child_signals [] stop = stop
child_signals (s ∷ ss) stop = child_signals ss (if s == sigterm || s == sigint then true else stop)
