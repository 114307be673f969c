-- ===== src/Http/Serve.antt =====
-- http_conn::init_conn, close_conn and process of webserver/http_conn.cpp. The static m_user_count
-- is passed along.
use nowcoder_linux_learning.Base.{
  ℕ, ◌+◌, Bool, true, false, if◌then◌else◌, Option, none, some, List, [], ◌++◌, ℤ, sub_ℕ, pos_part,
  neg_part,
}
use nowcoder_linux_learning.Http.Conn.{HttpConn, SockAddr, no_request, init}
use nowcoder_linux_learning.Http.Process.{Os, done, undefined, out_of_fuel, process_read}
use nowcoder_linux_learning.Http.Response.{process_write}
use nowcoder_linux_learning.Http.Write.{Effect, epollin, epollout, addfd, modfd}

abbrev pub increment : ℤ → ℤ
increment z = sub_ℕ (pos_part z + 1) (neg_part z)

abbrev pub decrement : ℤ → ℤ
decrement z = sub_ℕ (pos_part z) (neg_part z + 1)

-- An object, m_user_count, and what was done to the world.
pub record Served : Type 0 where
  pub conn : HttpConn
  pub user_count : ℤ
  pub effects : List Effect

unfoldable pub init_conn : HttpConn → ℤ → ℕ → SockAddr → Served
init_conn c count fd addr = record {
  conn = init (record c { sockfd = some fd; address = addr });
  user_count = increment count;
  effects = addfd fd true;
}

unfoldable pub close_conn : HttpConn → ℤ → Bool → Served
close_conn c count real_close =
    let stays : Served = record { conn = c; user_count = count; effects = [] } in
    let goes : Served = record {
      conn = record c { sockfd = none };
      user_count = decrement count;
      effects = [];
    } in
    elim c.sockfd [ none ↦ stays | some fd ↦ if real_close then goes else stays ]

-- From the test `!write_ret` on.
unfoldable pub after_write : HttpConn × Bool → ℤ → Served
unfolding close_conn
after_write (c, true) count = record {
  conn = c;
  user_count = count;
  effects = modfd c.sockfd epollout;
}
after_write (c, false) count =
    let closed = close_conn c count true in
    record closed { effects = closed.effects ++ modfd closed.conn.sockfd epollout }

-- `none` where process_read is undefined.
unfoldable pub process : Os → HttpConn → ℤ → Option Served
unfolding after_write
process os c count = elim (process_read os c) [
  | done c' no_request ↦
      some (record { conn = c'; user_count = count; effects = modfd c'.sockfd epollin })
  | done c' code ↦ some (after_write (process_write c' code) count)
  | undefined ↦ none
  | out_of_fuel ↦ none
]
