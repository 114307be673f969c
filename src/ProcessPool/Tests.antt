-- ===== src/ProcessPool/Tests.antt =====
-- The theorems on the process pool at pools of three children.
use nowcoder_linux_learning.Base.{ℕ, ◌+◌, ◌%◌, ◌≡◌, refl, true, false, some, [], ◌∷◌, arith}
use nowcoder_linux_learning.ProcessPool.{Process, ProcessPool, dead, alive, dispatch}
use nowcoder_linux_learning.ProcessPool.RoundRobin.{dispatch-alive}

abbrev runs : ℕ → Process
runs p = record { pid = some p }

abbrev three : ProcessPool
three = record {
  sub_process = runs 100 ∷ runs 101 ∷ runs 102 ∷ [];
  sub_process_counter = 2;
  stop = false;
}

-- Only the child at 1 is left, and the counter stands at 2.
abbrev one_left : ProcessPool
one_left = record three { sub_process = dead ∷ runs 101 ∷ dead ∷ [] }

dispatch-alive_example :
    (j : ℕ) × ((dispatch one_left).1 ≡ some j)
    × (alive one_left.sub_process j ≡ true)
    × ((dispatch one_left).0.stop ≡ false)
    × ((dispatch one_left).0.sub_process_counter ≡ (j + 1) % 3)
dispatch-alive_example = dispatch-alive one_left 1 (omega arith) (omega arith) refl
