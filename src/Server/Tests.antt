-- ===== src/Server/Tests.antt =====
-- The theorems on the server at short runs. The objects that main allocates hold what is found in
-- memory, here a descriptor 5 in each.
use nowcoder_linux_learning.Base.{◌≡◌, refl, false, some, arith}
use nowcoder_linux_learning.Http.Conn.{SockAddr}
use nowcoder_linux_learning.Http.Tests.{blank_conn, one_file}
use nowcoder_linux_learning.Http.Write.{addfd}
use nowcoder_linux_learning.Http.Serve.{init_conn}
use nowcoder_linux_learning.Server.{
  Server, started, connect, hang_up, accept_user, close_user, step, perform, perform_all,
}
use nowcoder_linux_learning.Server.Count.{IsCounted}
use nowcoder_linux_learning.Server.Started.{Runs, here, next, Runs-IsCounted}
use nowcoder_linux_learning.Server.Leak.{step-is_open}

abbrev client : SockAddr
client = record { ip = 1; port = 80 }

abbrev idle : Server
idle = started (λ i. blank_conn)

-- Two clients come, and the first one hangs up.
abbrev accepted : Server
accepted = accept_user idle 7 client

abbrev both : Server
both = accept_user accepted 8 client

started-both : Runs one_file idle both
unfolding accept_user step init_conn addfd perform_all perform
started-both =
    next (next here (connect (some (7, client))) (omega arith, refl) refl)
      (connect (some (8, client))) (omega arith, refl) refl

Runs-IsCounted_example : IsCounted (close_user both 7)
unfolding accept_user step init_conn addfd perform_all perform
Runs-IsCounted_example =
    Runs-IsCounted one_file (λ i. blank_conn) (close_user both 7)
      (next started-both (hang_up 7) refl refl)

step-is_open_example : (accept_user idle 5 client).is_open 6 ≡ false
unfolding step
step-is_open_example =
    step-is_open one_file idle (accept_user idle 5 client) (connect (some (5, client))) 6
      (omega arith) refl
