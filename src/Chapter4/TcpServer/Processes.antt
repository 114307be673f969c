-- ===== src/Chapter4/TcpServer/Processes.antt =====
-- server_multiprocess and sigChildCatch of chapter_4/tcp_server.cpp: a child for each client. What
-- the calls of the operating system return is an argument.
pub mod Children
pub mod Reply
use nowcoder_linux_learning.Base.{
  ℕ, zero, suc, ◌+◌, ◌≡◌, Bool, ◌==◌, if◌then◌else◌, Option, none, some, List, [], ◌∷◌, ◌++◌,
  length,
}
use nowcoder_linux_learning.CString.{Bytes, codes, c_string}
use nowcoder_linux_learning.Chapter4.TcpServer.{
  recv_size, received, Incoming, message, hang_up, failure,
}

-- A result of `waitpid`.
pub data Waited : Type 0 where
  ended : ℕ → Waited
  still_runs no_child : Waited

-- The pids that are printed, once the handler returns; `none` while it has not.
unfoldable pub sig_child_catch : List Waited → List ℕ → Option (List ℕ)
sig_child_catch [] pids = none
sig_child_catch (ended pid ∷ ws) pids = sig_child_catch ws (pids ++ (pid ∷ []))
sig_child_catch (still_runs ∷ ws) pids = sig_child_catch ws pids
sig_child_catch (no_child ∷ ws) pids = some pids

-- What is written for a buffer, with its NUL; without a NUL in the buffer `sprintf` is undefined.
unfoldable pub process_reply : Bytes → Option Bytes
process_reply recv_buf =
    let s = c_string recv_buf 0 in
    if length s == recv_size then none else some (codes "received " ++ (s ++ (0 ∷ [])))

-- How a child ends, with what it has written: with 0 or with -1, or it does what is undefined, or
-- it still reads.
pub data Ending : Type 0 where
  exits_0 exits reads : List Bytes → Ending
  undefined : Ending

-- The loop of the child. `recv_buf` is all NULs at each `read`.
unfoldable pub child_loop : List Incoming → List Bytes → Ending
unfolding process_reply
child_loop [] sent = reads sent
child_loop (hang_up ∷ rest) sent = exits_0 sent
child_loop (failure ∷ rest) sent = exits sent
child_loop (message bs ok ∷ rest) sent =
    let text = process_reply (received bs) in
    let on : Bytes → Ending = λ t. child_loop rest (sent ++ (t ∷ [])) in
    if length bs == 0
    then exits_0 sent
    else elim text [ none ↦ undefined | some t ↦ if ok then on t else exits sent ]

-- A result of `accept`: a descriptor and whether `fork` makes a child, EINTR, or an error.
pub data Accepted : Type 0 where
  connection : ℕ → Bool → Accepted
  interrupted accept_fails : Accepted

-- The descriptors that the parent has open for clients, and its children; or it exits.
pub data Parent : Type 0 where
  accepts : List ℕ → ℕ → Parent
  exited : Parent

-- The loop of the parent.
unfoldable pub parent_loop : List Accepted → List ℕ → ℕ → Parent
parent_loop [] fds children = accepts fds children
parent_loop (connection fd forked ∷ rest) fds children =
    parent_loop rest (fds ++ (fd ∷ [])) (if forked then children + 1 else children)
parent_loop (interrupted ∷ rest) fds children = parent_loop rest fds children
parent_loop (accept_fails ∷ rest) fds children = exited
