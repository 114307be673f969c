-- ===== src/Http/Headers.antt =====
-- http_conn::parse_headers of webserver/http_conn.cpp. What it prints is left out.
pub mod Local
use nowcoder_linux_learning.Base.{
  ℕ, ◌+◌, Bool, false, ◌==◌, some, if◌then◌else◌, ℤ, pos, negsuc, to_int,
}
use nowcoder_linux_learning.CString.{
  codes, byte, c_string, is_blank, strspn, strcasecmp, strncasecmp, atol,
}
use nowcoder_linux_learning.Http.Conn.{
  check_state_content, HttpConn, HttpCode, no_request, get_request,
}

-- `m_conten_length != 0`
abbrev pub is_zero : ℤ → Bool
is_zero (pos n) = n == 0
is_zero (negsuc n) = false

-- Where the value of a header starts, whose name and colon take `n` bytes.
unfoldable pub value_at : HttpConn → ℕ → ℕ → ℕ
value_at c text n = text + n + strspn is_blank (c_string c.read_buf (text + n))

unfoldable pub parse_headers : HttpConn → ℕ → HttpConn × HttpCode
unfolding value_at
parse_headers c text =
    if byte c.read_buf text == 0
    then (if is_zero c.content_length
        then (c, get_request)
        else (record c { check_state = check_state_content }, no_request))
    else if strncasecmp (c_string c.read_buf text) (codes "Proxy-Connection:") 17
    then (if strcasecmp (c_string c.read_buf (value_at c text 17)) (codes "keep-alive")
        then (c, no_request)
        else (record c { linger = false }, no_request))
    else if strncasecmp (c_string c.read_buf text) (codes "Content-Length:") 15
    then (
      record c { content_length = to_int (atol (c_string c.read_buf (value_at c text 15))) },
      no_request,
    )
    else if strncasecmp (c_string c.read_buf text) (codes "Host:") 5
    then (record c { host = some (value_at c text 5) }, no_request)
    else (c, no_request)
