-- ===== src/Chapter4/PollServer.antt =====
-- chapter_4/poll.cpp: one round of the loop of main, after a call of `poll`. What `accept` and
-- `read` return is an argument. What is printed is left out.
pub mod Table
pub mod Polled
use nowcoder_linux_learning.Base.{
  ℕ, zero, suc, ◌+◌, ◌≤◌, ◌<◌, ◌≡◌, ◌≢◌, ◌==◌, ltb, leb, if◌then◌else◌, Option, none, some, List,
  [], ◌∷◌, ◌++◌, take, length, replicate, overwrite,
}
use nowcoder_linux_learning.Base.Sums.{move}
use nowcoder_linux_learning.CString.{Bytes, c_string}
use nowcoder_linux_learning.Chapter4.SelectServer.{Reading, text, closed, failed}

abbrev pub max_client_num : ℕ
max_client_num = 1024

abbrev pub buf_size : ℕ
buf_size = 1024

-- The field `fd` of each entry, `none` for -1, and `cur_max_fd`. `events` is POLLIN everywhere.
pub record PollServer : Type 0 where
  pub fds : ℕ → Option ℕ
  pub cur_max_fd : ℕ

-- Before the first call of `poll`.
abbrev pub listening : ℕ → PollServer
listening listenfd = record { fds = move (λ i. none) 0 (some listenfd); cur_max_fd = 1 }

-- The state and what has been written to whom; or the process ends; or the loop reads behind the
-- table, or `strlen` behind `buf`.
pub data Served : Type 0 where
  serves : PollServer → List (ℕ × Bytes) → Served
  exits undefined : Served

-- The loop that looks for a free entry from `i` on, with `k` entries left.
unfoldable pub insert_client : ℕ → ℕ → (ℕ → Option ℕ) → ℕ → ℕ → Option ℕ
insert_client zero i fds fd = fds
insert_client (suc k) i fds fd = elim (fds i) [
  | none ↦ move fds i (some fd)
  | some f ↦ insert_client k (i + 1) fds fd
]

-- The branch for `listenfd`; `none` when there is no event, or when `accept` fails: then -1 is
-- written over -1.
unfoldable pub accept_client : PollServer → Option ℕ → PollServer
unfolding insert_client
accept_client s none = s
accept_client s (some fd) = record {
  fds = insert_client max_client_num 0 s.fds fd;
  cur_max_fd = if ltb s.cur_max_fd fd then fd else s.cur_max_fd;
}

-- The body of the second `for` loop for an entry whose `fd` is given. `read` fails on -1.
unfoldable pub serve_entry : PollServer → ℕ → Option ℕ → Option Reading → Served
serve_entry s i fd none = serves s []
serve_entry s i none (some r) = exits
serve_entry s i (some fd) (some (text bs)) =
    let line = c_string (overwrite (replicate buf_size 0) 0 (take buf_size bs)) 0 in
    if length line == buf_size then undefined else serves s ((fd, line ++ (0 ∷ [])) ∷ [])
serve_entry s i (some fd) (some closed) = serves (record s { fds = move s.fds i none }) []
serve_entry s i (some fd) (some failed) = exits

-- The loop from `i` on, with `k` entries left. `reads i` is `none` when `revents` has no POLLIN.
unfoldable pub serve_all : ℕ → ℕ → (ℕ → Option Reading) → PollServer → List (ℕ × Bytes) → Served
unfolding serve_entry
serve_all zero i reads s sent = serves s sent
serve_all (suc k) i reads s sent =
    let more : PollServer → List (ℕ × Bytes) → Served =
      λ t now. serve_all k (i + 1) reads t (sent ++ now) in
    if leb max_client_num i then undefined else elim (serve_entry s i (s.fds i) (reads i)) [
      | serves t now ↦ more t now
      | exits ↦ exits
      | undefined ↦ undefined
    ]

unfoldable pub poll_round : PollServer → Option ℕ → (ℕ → Option Reading) → Served
unfolding accept_client serve_all
poll_round s new reads = let t = accept_client s new in serve_all t.cur_max_fd 1 reads t []

-- A descriptor that `accept` may return: above the one that listens, and none of those in use.
pub record IsNew (s : PollServer) (listenfd fd : ℕ) : Type 0 where
  pub above : listenfd < fd
  pub unused : (i : ℕ) → s.fds i ≢ some fd

abbrev pub IsAccepted : PollServer → ℕ → Option ℕ → Type 0
IsAccepted s listenfd none = Unit {0}
IsAccepted s listenfd (some fd) = IsNew s listenfd fd

-- Rounds from the start on.
pub data Reach (listenfd : ℕ) : PollServer → Type 0 where
  start : Reach listenfd (listening listenfd)
  round :
      {s t : PollServer} (new : Option ℕ) (reads : ℕ → Option Reading) (sent : List (ℕ × Bytes))
      → Reach listenfd s
      → IsAccepted s listenfd new
      → poll_round s new reads ≡ serves t sent
      → Reach listenfd t
