-- ===== src/Chapter4/ProcessTests.antt =====
-- The theorems on the processes of the TCP server, at two children and at two texts.
use nowcoder_linux_learning.Base.{ℕ, ◌+◌, ◌≡◌, refl, List, [], ◌∷◌, length, arith}
use nowcoder_linux_learning.CString.{Bytes, codes}
use nowcoder_linux_learning.Chapter4.TcpServer.Echo.{AllTexts}
use nowcoder_linux_learning.Chapter4.TcpServer.Processes
use nowcoder_linux_learning.Chapter4.TcpServer.Processes.{
  Waited, sig_child_catch, exits_0, child_loop,
}
use nowcoder_linux_learning.Chapter4.TcpServer.Processes.Children.{
  takes, sleeps, finds_none, sig_child_catch_all,
}

-- The child 8 ends while the handler sleeps.
abbrev waits : List Waited
waits = Processes.ended 7 ∷ Processes.still_runs ∷ Processes.ended 8 ∷ Processes.no_child ∷ []

abbrev gone : List ℕ
gone = 7 ∷ 8 ∷ []

sig_child_catch_all_example : length gone ≡ 1 + 1
unfolding sig_child_catch
sig_child_catch_all_example =
    sig_child_catch_all 1 1 waits gone
      (takes 7 (sleeps {r = 0} {e = 1} 0 (omega arith) (takes 8 finds_none))) refl

abbrev texts : List Bytes
texts = codes "hello" ∷ codes "bye" ∷ []

texts-AllTexts : AllTexts texts
texts-AllTexts = ground arith
