-- ===== src/ProcessPool/Signals.antt =====
-- SIGCHLD, SIGTERM and SIGINT.
use nowcoder_linux_learning.Base.{
  ℕ, zero, suc, ◌≡◌, refl, false, if◌then◌else◌, none, some, List, [], ◌∷◌, length, get_or,
  replicate, length-replicate, arith,
}
use nowcoder_linux_learning.ProcessPool.{
  Process, ProcessPool, dead, same_pid, reap, child_ended, kill_all,
}

-- After a child has ended, each process of the pool that had its pid has the pid -1, and each other
-- one the pid that it had.
pub get_or-reap :
    (pid : ℕ) (ps : List Process) (j : ℕ)
    → (get_or (reap pid ps) j dead).pid
      ≡ (if same_pid (get_or ps j dead).pid pid then none else (get_or ps j dead).pid)
unfolding reap
get_or-reap pid [] j = refl
get_or-reap pid (p ∷ ps) zero = ground arith
get_or-reap pid (p ∷ ps) (suc j) = get_or-reap pid ps j

-- A parent that runs is not stopped by SIGCHLD, whichever children have ended, be they all of them.
pub child_ended-stop :
    (pids : List ℕ) (p : ProcessPool) → p.stop ≡ false → (child_ended pids p).stop ≡ false
unfolding child_ended
child_ended-stop pids p h = ground arith

abbrev pub AllEqual : ℕ → List ℕ → Type 0
AllEqual a [] = Unit {0}
AllEqual a (x ∷ xs) = (x ≡ a) × AllEqual a xs

replicate-AllEqual : (n a : ℕ) → AllEqual a (replicate n a)
replicate-AllEqual zero a = tt
replicate-AllEqual (suc n) a = (refl, replicate-AllEqual n a)

-- SIGTERM or SIGINT in the event number `i`, where the child number `i` runs, sends SIGTERM to that
-- child alone, as many times as there are children.
pub kill_all_one :
    (i pid : ℕ) (p : ProcessPool)
    → (get_or p.sub_process i dead).pid ≡ some pid
    → AllEqual pid (kill_all i p) × (length (kill_all i p) ≡ length p.sub_process)
unfolding kill_all
kill_all_one i pid p e =
    rw (e, kill_all)
      (replicate-AllEqual (length p.sub_process) pid, length-replicate (length p.sub_process) pid)
