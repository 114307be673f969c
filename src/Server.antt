-- ===== src/Server.antt =====
-- webserver/main.cpp: show_error, and the loop of main over the events of epoll, one event at a
-- time, with the queue of the thread pool and a worker's call of process. What the kernel and the
-- clients do in an event is part of the event.
pub mod Tests
pub mod Sockets
pub mod Count
pub mod Leak
pub mod Invariant
pub mod Started
use nowcoder_linux_learning.Base.{
  ℕ, ◌+◌, ◌≡◌, Bool, true, false, ◌==◌, ltb, leb, if◌then◌else◌, Option, none, some, List, [], ◌∷◌,
  ◌++◌, ℤ, pos, negsuc,
}
use nowcoder_linux_learning.CString.{Bytes}
use nowcoder_linux_learning.Http.Conn.{HttpConn, SockAddr}
use nowcoder_linux_learning.Http.Process.{Os}
use nowcoder_linux_learning.Http.Read.{Arrival, read}
use nowcoder_linux_learning.Http.Write.{
  Effect, epoll_add, epoll_del, epoll_mod, close, writev, munmap, Writev, Written, write,
}
use nowcoder_linux_learning.Http.Serve.{Served, init_conn, close_conn, process}
use nowcoder_linux_learning.ThreadPool.{Pool, append, take_request}

abbrev pub max_fd : ℕ
max_fd = 65536

pub record Server : Type 0 where
  pub users : ℕ → HttpConn
  pub user_count : ℤ
  pub pool : Pool ℕ
  pub is_open : ℕ → Bool
  pub is_watched : ℕ → Bool

-- The state in which main enters its loop. `new http_conn[MAX_FD]` leaves the objects as they are
-- found in memory.
abbrev pub started : (ℕ → HttpConn) → Server
started users = record {
  users = users;
  user_count = pos 0;
  pool = record { max_requests = 10000; workqueue = []; queuestat = 0 };
  is_open = λ i. false;
  is_watched = λ i. false;
}

-- One element of `events`, or the next step of a worker thread.
pub data Event : Type 0 where
  connect : Option (ℕ × SockAddr) → Event
  hang_up : ℕ → Event
  readable : ℕ → List Arrival → Event
  writable : ℕ → List Writev → Event
  work : Event

abbrev pub update {ℓ} : {A : Type ℓ} → (ℕ → A) → ℕ → A → ℕ → A
update f k v i = if k == i then v else f i

-- What an effect does to the file descriptors.
unfoldable pub perform : Effect → Server → Server
perform (epoll_add fd one_shot) s = record s { is_watched = update s.is_watched fd true }
perform (epoll_del fd) s = record s { is_watched = update s.is_watched fd false }
perform (close fd) s = record s {
  is_open = update s.is_open fd false;
  is_watched = update s.is_watched fd false;
}
perform _ s = s

unfoldable pub perform_all : List Effect → Server → Server
unfolding perform
perform_all [] s = s
perform_all (e ∷ es) s = perform_all es (perform e s)

-- What it sends is left out.
unfoldable pub show_error : ℕ → Server → Server
unfolding perform
show_error fd s = perform (close fd) s

abbrev pub store : Server → ℕ → Served → Server
store s fd r =
    perform_all r.effects (record s { users = update s.users fd r.conn; user_count = r.user_count })

unfoldable pub close_user : Server → ℕ → Server
close_user s fd = store s fd (close_conn (s.users fd) s.user_count true)

-- `accept` has opened `fd`.
unfoldable pub accept_user : Server → ℕ → SockAddr → Server
accept_user s fd addr =
    let s' = record s { is_open = update s.is_open fd true } in
    elim s.user_count [
      | pos n ↦
          if leb max_fd n
          then show_error fd s'
          else store s' fd (init_conn (s.users fd) s.user_count fd addr)
      | negsuc n ↦ store s' fd (init_conn (s.users fd) s.user_count fd addr)
    ]

unfoldable pub read_user : Server → ℕ → List Arrival → Server
read_user s fd arrivals =
    let r = read arrivals (s.users fd) in
    let s' = record s { users = update s.users fd r.0 } in
    if r.1 then record s' { pool = (append s.pool fd).0 } else close_user s' fd

-- `none` while write still runs.
unfoldable pub write_user : Server → ℕ → List Writev → Option Server
write_user s fd results = elim (write results (s.users fd)) [
  | none ↦ none
  | some r ↦
      let s' = perform_all r.effects (record s { users = update s.users fd r.conn }) in
      some (if r.kept then s' else close_user s' fd)
]

-- A worker takes a request and processes it.
unfoldable pub work_user : Os → Server → Option Server
work_user os s =
    let t = take_request s.pool in
    let s' = record s { pool = t.0 } in
    elim t.1 [
      | none ↦ some s'
      | some fd ↦ elim (process os (s.users fd) s.user_count) [
        | none ↦ none
        | some r ↦ some (store s' fd r)
      ]
    ]

unfoldable pub step : Os → Server → Event → Option Server
unfolding accept_user close_user read_user write_user work_user
step os s (connect none) = some s
step os s (connect (some (fd, addr))) = some (accept_user s fd addr)
step os s (hang_up fd) = some (close_user s fd)
step os s (readable fd arrivals) = some (read_user s fd arrivals)
step os s (writable fd results) = write_user s fd results
step os s work = work_user os s
