-- ===== src/Http/Write.antt =====
-- http_conn::write and unmap of webserver/http_conn.cpp, and the functions on epoll that http_conn
-- calls: addfd, removefd and modfd. What `writev` returns, call by call, is an argument, and what
-- the calls do outside of the object is a list of effects.
pub mod Early
use nowcoder_linux_learning.Base.{
  ℕ, ◌+◌, ◌-◌, Bool, true, false, ◌==◌, leb, if◌then◌else◌, Option, none, some, List, [], ◌∷◌, ◌++◌,
  ℤ, pos, negsuc, sub_ℕ, pos_part, neg_part,
}
use nowcoder_linux_learning.Http.Conn.{HttpConn, Iovec, init}

-- The direction that an `ev` of modfd asks for, EPOLLIN or EPOLLOUT.
pub data Direction : Type 0 where
  epollin epollout : Direction

pub data Effect : Type 0 where
  epoll_add : ℕ → Bool → Effect
  epoll_del : ℕ → Effect
  epoll_mod : Option ℕ → Direction → Effect
  close : ℕ → Effect
  writev : List Iovec → ℕ → Effect
  munmap : ℕ → ℕ → Effect

-- `fcntl` on an open socket has no other effect in the model than that it does not block.
unfoldable pub addfd : ℕ → Bool → List Effect
addfd fd one_shot = epoll_add fd one_shot ∷ []

unfoldable pub removefd : ℕ → List Effect
removefd fd = epoll_del fd ∷ close fd ∷ []

-- On a socket of -1 `epoll_ctl` fails, and nobody looks at its result.
unfoldable pub modfd : Option ℕ → Direction → List Effect
modfd fd ev = epoll_mod fd ev ∷ []

unfoldable pub unmap : HttpConn → HttpConn × List Effect
unmap c =
    if c.file_address == 0
    then (c, [])
    else (record c { file_address = 0 }, munmap c.file_address c.file_stat.st_size ∷ [])

-- A result of `writev`: a number of bytes, EAGAIN, or another error.
pub data Writev : Type 0 where
  sent : ℕ → Writev
  again failure : Writev

pub record Written : Type 0 where
  pub conn : HttpConn
  pub effects : List Effect
  pub kept : Bool

-- `m_iv` and `m_iv_count` as `writev` takes them.
abbrev pub iovecs : HttpConn → List Iovec
iovecs c = if c.iv_count == 2 then c.iv_0 ∷ c.iv_1 ∷ [] else c.iv_0 ∷ []

-- `bytes_to_send - temp`, and the test `bytes_to_send <= bytes_have_send`.
abbrev pub subtract : ℤ → ℕ → ℤ
subtract z n = sub_ℕ (pos_part z) (neg_part z + n)

abbrev pub at_most : ℤ → ℕ → Bool
at_most z n = leb (pos_part z) (n + neg_part z)

-- The lines behind that test.
unfoldable pub finish_write : HttpConn → List Effect → Written
unfolding unmap modfd init
finish_write c before =
    let u = unmap c in
    if c.linger
    then record {
      conn = init u.0;
      effects = before ++ (u.1 ++ modfd c.sockfd epollin);
      kept = true;
    }
    else record { conn = u.0; effects = before ++ (u.1 ++ modfd c.sockfd epollin); kept = false }

-- The loop; `none` while it still runs when the results of `writev` are used up.
unfoldable pub write_loop : List Writev → HttpConn → ℤ → ℕ → List Effect → Option Written
unfolding finish_write
write_loop [] c to_send have_sent before = none
write_loop (again ∷ rest) c to_send have_sent before =
    some (record { conn = c; effects = before ++ modfd c.sockfd epollout; kept = true })
write_loop (failure ∷ rest) c to_send have_sent before =
    let u = unmap c in some (record { conn = u.0; effects = before ++ u.1; kept = false })
write_loop (sent n ∷ rest) c to_send have_sent before =
    let now = before ++ (writev (iovecs c) n ∷ []) in
    let more = write_loop rest c (subtract to_send n) (have_sent + n) now in
    if at_most (subtract to_send n) (have_sent + n) then some (finish_write c now) else more

unfoldable pub write : List Writev → HttpConn → Option Written
unfolding write_loop
write results c =
    if c.write_idx == 0
    then some (record { conn = init c; effects = modfd c.sockfd epollin; kept = true })
    else write_loop results c (pos c.write_idx) 0 []
