-- ===== src/Chapter4/SelectServer.antt =====
-- chapter_4/select.cpp: one round of the loop of main, after a call of `select`. What `accept` and
-- `read` return is an argument. What is printed is left out.
pub mod Rounds
use nowcoder_linux_learning.Base.{
  ℕ, zero, suc, ◌+◌, ◌-◌, Bool, true, false, ◌==◌, ltb, if◌then◌else◌, Option, none, some, List, [],
  ◌∷◌, ◌++◌, take, length, replicate, overwrite,
}
use nowcoder_linux_learning.Base.Sums.{move}
use nowcoder_linux_learning.CString.{Bytes, c_string}

-- `u_read_set` and `MAXFD`, and the descriptors that are open.
pub record Selector : Type 0 where
  pub listenfd : ℕ
  pub read_set : ℕ → Bool
  pub max_fd : ℕ
  pub is_open : ℕ → Bool

-- What `read` returns for a descriptor that is in `k_read_set`.
pub data Reading : Type 0 where
  text : Bytes → Reading
  closed failed : Reading

-- The state and what has been written to whom; or the process ends; or it goes outside an object:
-- FD_SET outside the set, or `strlen` in a buffer without NUL.
pub data Served : Type 0 where
  serves : Selector → List (ℕ × Bytes) → Served
  exits undefined : Served

-- What the branch for `listenfd` gets: `listenfd` is not in `k_read_set`; or `accept` returns -1; or
-- it returns a descriptor.
pub data NewClient : Type 0 where
  not_asked accept_failed : NewClient
  accepted : ℕ → NewClient

-- FD_SETSIZE of <sys/select.h>.
abbrev pub fd_setsize : ℕ
fd_setsize = 1024

-- The branch for `listenfd`, which does not look whether `accept` has failed; `none` when FD_SET is
-- called with -1, or with a descriptor that has no place in the set.
unfoldable pub accept_client : Selector → NewClient → Option Selector
accept_client s not_asked = some s
accept_client s accept_failed = none
accept_client s (accepted fd) =
    if ltb fd fd_setsize
    then some (record s {
      read_set = move s.read_set fd true;
      max_fd = if ltb s.max_fd fd then fd else s.max_fd;
      is_open = move s.is_open fd true;
    })
    else none

abbrev pub recv_size : ℕ
recv_size = 1024

-- The body of the `for` loop for the descriptor `i`.
unfoldable pub serve_client : Selector → ℕ → Option Reading → Served
serve_client s i none = serves s []
serve_client s i (some (text bs)) =
    let line = c_string (overwrite (replicate recv_size 0) 0 (take recv_size bs)) 0 in
    if length line == recv_size then undefined else serves s ((i, line ++ (0 ∷ [])) ∷ [])
serve_client s i (some closed) =
    serves (record s { read_set = move s.read_set i false; is_open = move s.is_open i false }) []
serve_client s i (some failed) = exits

-- The `for` loop from `i` on, over `k` descriptors.
unfoldable pub serve_all : ℕ → ℕ → (ℕ → Option Reading) → Selector → List (ℕ × Bytes) → Served
unfolding serve_client
serve_all zero i reads s sent = serves s sent
serve_all (suc k) i reads s sent =
    let more : Selector → List (ℕ × Bytes) → Served =
      λ t now. serve_all k (i + 1) reads t (sent ++ now) in
    elim (serve_client s i (reads i)) [
      | serves t now ↦ more t now
      | exits ↦ exits
      | undefined ↦ undefined
    ]

unfoldable pub select_round : Selector → NewClient → (ℕ → Option Reading) → Served
unfolding accept_client serve_all
select_round s new reads = elim (accept_client s new) [
  | none ↦ undefined
  | some t ↦ serve_all (t.max_fd - t.listenfd) (t.listenfd + 1) reads t []
]
