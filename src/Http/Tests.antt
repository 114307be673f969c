-- ===== src/Http/Tests.antt =====
-- Connections and requests for the tests, and a run of the parser.
pub mod Parsing
pub mod Replies
pub mod Requests
use nowcoder_linux_learning.Base.{
  ◌≡◌, refl, true, Option, none, some, [], ◌++◌, replicate, pos, length,
}
use nowcoder_linux_learning.CString.{
  Bytes, codes, c_string, strpbrk, strcasecmp, strspn, strncasecmp,
}
use nowcoder_linux_learning.Http.Conn.{
  HttpConn, HttpCode, file_request, get, check_state_requestline, write_buffer,
}
use nowcoder_linux_learning.Http.Process.{Os, Outcome, done, process_read, do_request}
use nowcoder_linux_learning.Http.Line.{scan, at_cr}
use nowcoder_linux_learning.Http.Request.{parse_request_line}
use nowcoder_linux_learning.Http.Headers.{parse_headers}

abbrev pub blank_conn : HttpConn
blank_conn = record {
  sockfd = some 5;
  address = record { ip = 0; port = 0 };
  read_buf = replicate 2048 0;
  write_buf = replicate 1024 0;
  read_idx = 0;
  checked_idx = 0;
  start_line = 0;
  write_idx = 0;
  check_state = check_state_requestline;
  method = get;
  real_file = replicate 200 0;
  url = none;
  host = none;
  version = none;
  content_length = pos 0;
  linger = true;
  file_address = 0;
  file_stat = record { st_mode = 0; st_size = 0 };
  iv_0 = record { iov_base = write_buffer; iov_len = 0 };
  iv_1 = record { iov_base = write_buffer; iov_len = 0 };
  iv_count = 0;
}

abbrev pub holding : Bytes → HttpConn
holding bs = record blank_conn { read_buf = bs ++ replicate 100 0; read_idx = length bs }

abbrev pub one_file : Os
one_file = record {
  stat = λ p. some (record { st_mode = 0o100644; st_size = 42 });
  open_file = λ p. some 9;
  mmap = λ n fd. 4096;
}

abbrev code_of : Outcome → Option HttpCode
code_of (done c k) = some k
code_of _ = none

abbrev file_of : Outcome → Bytes
file_of (done c k) = c_string c.real_file 0
file_of _ = []

get_index :
    code_of (process_read one_file (holding (codes "GET /index.html HTTP/1.1\r\nHost: a\r\n\r\n")))
    ≡ some file_request
unfolding process_read scan at_cr parse_request_line strpbrk c_string strcasecmp strspn strncasecmp
    parse_headers do_request
get_index = refl
