-- ===== src/Http/Request.antt =====
-- http_conn::parse_request_line of webserver/http_conn.cpp, test by test.
pub mod Local
pub mod Frame
pub mod Size
pub mod Accepts
use mathlib.Core.Option
use nowcoder_linux_learning.Base.{ℕ, ◌+◌, ◌==◌, none, some, if◌then◌else◌, set}
use nowcoder_linux_learning.CString.{
  codes, byte, c_string, is_blank, strpbrk, strspn, strchr, strcasecmp, strncasecmp,
}
use nowcoder_linux_learning.Http.Conn.{
  check_state_header, HttpConn, HttpCode, no_request, bad_request, get,
}

-- `!m_url || m_url[0] != '/'`
unfoldable pub check_slash : HttpConn → HttpConn × HttpCode
check_slash c = elim c.url [
  | none ↦ (c, bad_request)
  | some u ↦
      if byte c.read_buf u == b'/'
      then (record c { check_state = check_state_header }, no_request)
      else (c, bad_request)
]

-- The URL at `u` may have the form `http://host/path`: then it starts at the slash of its path.
unfoldable pub check_url : HttpConn → ℕ → HttpConn × HttpCode
unfolding check_slash
check_url c u =
    if strncasecmp (c_string c.read_buf u) (codes "http://") 7
    then check_slash
        (record c { url = Option.map (λ n. u + 7 + n) (strchr (c_string c.read_buf (u + 7)) b'/') })
    else check_slash c

-- The version starts at `v`, where the URL was cut off, or further right.
unfoldable pub check_version : HttpConn → ℕ → ℕ → HttpConn × HttpCode
unfolding check_url
check_version c u v =
    let w = v + strspn is_blank (c_string c.read_buf v) in
    let c' = record c { version = some w } in
    if strcasecmp (c_string c.read_buf w) (codes "HTTP/1.1")
    then check_url c' u
    else (c', bad_request)

-- The URL starts at `u`, where the method was cut off, or further right.
unfoldable pub find_version : HttpConn → ℕ → HttpConn × HttpCode
unfolding check_version
find_version c u =
    let v = u + strspn is_blank (c_string c.read_buf u) in
    elim (strpbrk is_blank (c_string c.read_buf v)) [
      | none ↦ (record c { url = some v; version = none }, bad_request)
      | some n ↦
          check_version (record c { url = some v; read_buf = set c.read_buf (v + n) 0 }) v
            (v + n + 1)
    ]

unfoldable pub check_method : HttpConn → ℕ → ℕ → HttpConn × HttpCode
unfolding find_version
check_method c text u =
    if strcasecmp (c_string c.read_buf text) (codes "GET")
    then find_version (record c { method = get }) u
    else (c, bad_request)

unfoldable pub parse_request_line : HttpConn → ℕ → HttpConn × HttpCode
unfolding check_method
parse_request_line c text = elim (strpbrk is_blank (c_string c.read_buf text)) [
  | none ↦ (record c { url = none }, bad_request)
  | some n ↦
      check_method (record c { url = some (text + n + 1); read_buf = set c.read_buf (text + n) 0 })
        text (text + n + 1)
]
