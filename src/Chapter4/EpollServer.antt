-- ===== src/Chapter4/EpollServer.antt =====
-- chapter_4/epoll.cpp: one round of the loop of main, after a call of `epoll_wait`. What `accept` and
-- `read` return is an argument. What is printed is left out.
pub mod Deaf
use nowcoder_linux_learning.Base.{
  ℕ, zero, suc, ◌-◌, ◌≡◌, Bool, true, false, ◌==◌, if◌then◌else◌, Option, none, some, List, [], ◌∷◌,
  ◌++◌, take, replicate, overwrite,
}
use nowcoder_linux_learning.Base.Sums.{move}
use nowcoder_linux_learning.CString.{Bytes, c_string}

abbrev pub buf_size : ℕ
buf_size = 6

-- The bits EPOLLIN and EPOLLET of the events that a descriptor is registered for.
pub record Interest : Type 0 where
  pub epollin : Bool
  pub epollet : Bool

-- The descriptors of `epoll_fd`, and those that are open.
pub record Epoll : Type 0 where
  pub listen_fd : ℕ
  pub interest : ℕ → Option Interest
  pub is_open : ℕ → Bool

-- What `epoll_wait` reports: the descriptor, and whether EPOLLIN is among the events.
pub record Event : Type 0 where
  pub fd : ℕ
  pub has_in : Bool

-- What a call of `read` returns.
pub data Reading : Type 0 where
  text : Bytes → Reading
  closed again failed : Reading

-- The state and what has been written to whom; or main returns; or a call of `read` waits; or the
-- fuel is used up.
pub data Served : Type 0 where
  serves : Epoll → List (ℕ × Bytes) → Served
  returns waits out_of_fuel : Served

-- Before the first call of `epoll_wait`.
abbrev pub listening : ℕ → Epoll
listening listen_fd = record {
  listen_fd = listen_fd;
  interest = move (λ i. none) listen_fd (some (record { epollin = true; epollet = false }));
  is_open = move (λ i. false) listen_fd true;
}

-- The branch for `listen_fd`. For -1 `epoll_ctl` fails.
unfoldable pub accept_client : Epoll → Option ℕ → Epoll
accept_client s none = s
accept_client s (some fd) = record s {
  interest = move s.interest fd (some (record { epollin = false; epollet = true }));
  is_open = move s.is_open fd true;
}

-- What is written for what `read` has brought: the line up to its first NUL.
abbrev pub echo : Bytes → Bytes
echo bs = c_string (overwrite (replicate buf_size 0) 0 (take (buf_size - 1) bs)) 0 ++ (0 ∷ [])

-- The body of `while (1)` for a descriptor with EPOLLIN: `read` brings the first of `reads`, and
-- `next` is the rest of the loop.
unfoldable pub read_client :
    (List Reading → List (ℕ × Bytes) → Served)
    → Epoll
    → ℕ
    → List Reading
    → List (ℕ × Bytes)
    → Served
read_client next s fd [] sent = waits
read_client next s fd (text bs ∷ rest) sent = next rest (sent ++ ((fd, echo bs) ∷ []))
read_client next s fd (again ∷ rest) sent = serves s sent
read_client next s fd (closed ∷ rest) sent =
    serves (record s { interest = move s.interest fd none; is_open = move s.is_open fd false }) sent
read_client next s fd (failed ∷ rest) sent = returns

-- The `while (1)`: without EPOLLIN its body does nothing.
unfoldable pub serve_client : ℕ → Epoll → Event → List Reading → List (ℕ × Bytes) → Served
unfolding read_client
serve_client zero s ev reads sent = out_of_fuel
serve_client (suc f) s ev reads sent =
    let nothing : Served = serve_client f s ev reads sent in
    if ev.has_in then read_client (serve_client f s ev) s ev.fd reads sent else nothing

-- The body of the `for` loop. `new` is what `accept` returns, `none` for -1.
unfoldable pub serve_event : ℕ → Epoll → Event → Option ℕ → List Reading → Served
unfolding accept_client serve_client
serve_event f s ev new reads =
    if ev.fd == s.listen_fd then serves (accept_client s new) [] else serve_client f s ev reads []

-- The events that have come, each with what the calls for it return.
pub record Arrival : Type 0 where
  pub event : Event
  pub new : Option ℕ
  pub reads : List Reading

unfoldable pub epoll_round : ℕ → Epoll → List Arrival → List (ℕ × Bytes) → Served
unfolding serve_event
epoll_round f s [] sent = serves s sent
epoll_round f s (a ∷ more) sent = elim (serve_event f s a.event a.new a.reads) [
  | serves t now ↦ epoll_round f t more (sent ++ now)
  | returns ↦ returns
  | waits ↦ waits
  | out_of_fuel ↦ out_of_fuel
]
