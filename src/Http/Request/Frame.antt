-- ===== src/Http/Request/Frame.antt =====
-- What parse_request_line leaves alone, and what it returns.
use nowcoder_linux_learning.Base.{◌≡◌, ◌⊎◌, arith, ℕ}
use nowcoder_linux_learning.Http.Conn.{
  HttpConn, HttpCode, no_request, bad_request, check_state_header,
}
use nowcoder_linux_learning.Http.Request.{check_slash, parse_request_line}

pub record Frame (c : HttpConn) (r : HttpConn × HttpCode) : Type 0 where
  pub read_idx_kept : r.0.read_idx ≡ c.read_idx
  pub checked_idx_kept : r.0.checked_idx ≡ c.checked_idx
  pub start_line_kept : r.0.start_line ≡ c.start_line
  pub content_length_kept : r.0.content_length ≡ c.content_length
  pub linger_kept : r.0.linger ≡ c.linger
  pub real_file_kept : r.0.real_file ≡ c.real_file
  pub moves_on :
      ((r.1 ≡ no_request) × (r.0.check_state ≡ check_state_header))
      ⊎ ((r.1 ≡ bad_request) × (r.0.check_state ≡ c.check_state))

check_slash-Frame : (c : HttpConn) → Frame c (check_slash c)
unfolding check_slash
check_slash-Frame c = ground arith

pub parse_request_line-Frame : (c : HttpConn) (text : ℕ) → Frame c (parse_request_line c text)
unfolding parse_request_line
parse_request_line-Frame c text = ground arith
