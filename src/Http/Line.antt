-- ===== src/Http/Line.antt =====
-- http_conn::parse_line of webserver/http_conn.cpp.

pub mod Resume
pub mod Complete
pub mod Bad
use nowcoder_linux_learning.Base.{ℕ, zero, suc, ◌+◌, ◌-◌, ◌&&◌, ◌==◌, ltb, if◌then◌else◌, set}
use nowcoder_linux_learning.CString.{Bytes, byte}
use nowcoder_linux_learning.Http.Conn.{LineStatus, line_ok, line_bad, line_open, HttpConn}

-- What a scan leaves: the buffer, the index of the byte in hand, the status.
pub record Scan : Type 0 where
  pub buf : Bytes
  pub idx : ℕ
  pub status : LineStatus

abbrev pub cr : ℕ
cr = b'\r'

abbrev pub lf : ℕ
lf = b'\n'

-- `temp == '\r'`
unfoldable pub at_cr : Bytes → ℕ → ℕ → Scan
at_cr buf i n =
    if i + 1 == n
    then record { buf = buf; idx = i; status = line_open }
    else if byte buf (i + 1) == lf
    then record { buf = set (set buf i 0) (i + 1) 0; idx = i + 2; status = line_ok }
    else record { buf = buf; idx = i; status = line_bad }

-- `temp == '\n'`
unfoldable pub at_lf : Bytes → ℕ → Scan
at_lf buf i =
    if ltb 1 i && byte buf (i - 1) == cr
    then record { buf = set (set buf (i - 1) 0) i 0; idx = i + 1; status = line_ok }
    else record { buf = buf; idx = i; status = line_bad }

-- The loop from index `i` on, with `k` bytes left before `read_idx`, which is `n`.
unfoldable pub scan : ℕ → Bytes → ℕ → ℕ → Scan
scan zero buf i n = record { buf = buf; idx = i; status = line_open }
scan (suc k) buf i n =
    let rest = scan k buf (i + 1) n in
    if byte buf i == cr then at_cr buf i n else if byte buf i == lf then at_lf buf i else rest

abbrev pub scan_line : HttpConn → Scan
scan_line c = scan (c.read_idx - c.checked_idx) c.read_buf c.checked_idx c.read_idx

unfoldable pub parse_line : HttpConn → HttpConn × LineStatus
parse_line c = let s = scan_line c in (record c { read_buf = s.buf; checked_idx = s.idx }, s.status)
