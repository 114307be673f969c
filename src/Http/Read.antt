-- ===== src/Http/Read.antt =====
-- http_conn::read of webserver/http_conn.cpp: the loop over `recv` on a socket that does not block.
pub mod Bounds
use nowcoder_linux_learning.Base.{
  ◌+◌, ◌-◌, Bool, true, false, leb, ◌==◌, if◌then◌else◌, List, [], ◌∷◌, length, take, overwrite,
}
use nowcoder_linux_learning.CString.{Bytes}
use nowcoder_linux_learning.Http.Conn.{read_buffer_size, HttpConn}

-- What the socket has for the calls of `recv`: bytes that arrived together, of which `recv` takes
-- as many as there is room for, EAGAIN, another error, or the end of the stream.
pub data Arrival : Type 0 where
  bytes : Bytes → Arrival
  again failure : Arrival

-- `recv` into `m_read_buf + m_read_idx`, and `m_read_idx += bytes_read`.
unfoldable pub receive : HttpConn → Bytes → HttpConn
receive c bs = record c {
  read_buf = overwrite c.read_buf c.read_idx bs;
  read_idx = c.read_idx + length bs;
}

-- The loop. No arrival is left at the end of the stream, where `recv` returns 0, as it does for
-- bytes that meet no room.
unfoldable pub recv_loop : List Arrival → HttpConn → HttpConn × Bool
unfolding receive
recv_loop [] c = (c, false)
recv_loop (again ∷ rest) c = (c, true)
recv_loop (failure ∷ rest) c = (c, false)
recv_loop (bytes bs ∷ rest) c =
    let got = take (read_buffer_size - c.read_idx) bs in
    let more = recv_loop rest (receive c got) in if length got == 0 then (c, false) else more

unfoldable pub read : List Arrival → HttpConn → HttpConn × Bool
unfolding recv_loop
read arrivals c = if leb read_buffer_size c.read_idx then (c, false) else recv_loop arrivals c
