-- ===== src/HeaderParser/Webserver.antt =====
-- The parser of chapter_5 against the one of the web server.
use nowcoder_linux_learning.Base.{ℕ, zero, suc, ◌+◌, ◌-◌, ◌≡◌, ◌≢◌, refl, ap, sym, ◌∙◌, arith}
use native.Mathlib.Numerals.{add-one}
use nowcoder_linux_learning.CString.{Bytes}
use nowcoder_linux_learning.Http.Conn
use nowcoder_linux_learning.Http.Conn.{HttpConn, LineStatus, line_ok, line_bad, line_open}
use nowcoder_linux_learning.Http.Line
use nowcoder_linux_learning.Http.Line.{scan, Scan}
use nowcoder_linux_learning.Http.Request
use nowcoder_linux_learning.HeaderParser.{
  CheckState, check_state_requestline, check_state_header, HttpCode, no_request, get_request,
  bad_request, Parser, line_loop, parse_line, parse_requestline, parse_headers, Result, returns,
  undefined, on_line, content_loop, parse_content,
}

line_loop-scan :
    (k : ℕ) (buf : Bytes) (i n : ℕ)
    → line_loop k buf i n ≡ ((scan k buf i n).buf, (scan k buf i n).idx, (scan k buf i n).status)
unfolding line_loop scan Line.at_cr Line.at_lf
line_loop-scan zero buf i n = refl
line_loop-scan (suc k) buf i n = ground (arith, line_loop-scan k buf (i + 1) n)

-- The codes and states of the two programs that mean the same.
abbrev pub code_of : HttpCode → Conn.HttpCode
code_of no_request = Conn.no_request
code_of get_request = Conn.get_request
code_of bad_request = Conn.bad_request
code_of HttpCode.forbidden_request = Conn.forbidden_request
code_of HttpCode.internal_error = Conn.internal_error
code_of HttpCode.closed_connection = Conn.closed_connection

abbrev pub state_of : CheckState → Conn.CheckState
state_of check_state_requestline = Conn.check_state_requestline
state_of check_state_header = Conn.check_state_header

-- A connection whose parser stands where `p` does.
pub record Agree (p : Parser) (c : HttpConn) : Type 0 where
  pub same_buffer : c.read_buf ≡ p.buffer
  pub same_checked : c.checked_idx ≡ p.checked_index
  pub same_read : c.read_idx ≡ p.read_index
  pub same_start : c.start_line ≡ p.start_line
  pub same_state : c.check_state ≡ state_of p.checkstate

-- On the same buffer and indices parse_line of chapter_5/http_header_parser.cpp and parse_line of
-- the web server return the same status and leave the same buffer and indices.
pub parse_line-Agree :
    (p : Parser) (c : HttpConn)
    → Agree p c
    → Agree (parse_line p).0 (Line.parse_line c).0 × ((Line.parse_line c).1 ≡ (parse_line p).1)
unfolding parse_line Line.parse_line
parse_line-Agree p c a =
    let e = line_loop-scan (p.read_index - p.checked_index) p.buffer p.checked_index p.read_index in
    let s : Line.scan_line c
        ≡ scan (p.read_index - p.checked_index) p.buffer p.checked_index p.read_index =
      cc in
    (
      record {
        same_buffer = ap (λ x. x.buf) s ∙ sym (ap (λ x. x.0) e);
        same_checked = ap (λ x. x.idx) s ∙ sym (ap (λ x. x.1) e);
        same_read = a.same_read;
        same_start = a.same_start;
        same_state = a.same_state;
      },
      ap (λ x. x.status) s ∙ sym (ap (λ x. x.2) e),
    )

-- On the same buffer, indices and state parse_requestline of chapter_5/http_header_parser.cpp and
-- parse_request_line of the web server return the same code and leave the same buffer, indices and
-- state.
pub parse_requestline-Agree :
    (p : Parser) (c : HttpConn) (text : ℕ)
    → Agree p c
    → Agree (parse_requestline p text).0 (Request.parse_request_line c text).0
      × ((Request.parse_request_line c text).1 ≡ code_of (parse_requestline p text).1)
unfolding parse_requestline Request.parse_request_line
parse_requestline-Agree p c text a = ground arith

on_line-ne :
    (next : Parser → Result) (p r : Parser) (temp : ℕ)
    → ((q : Parser) → next q ≢ returns r no_request)
    → on_line next p temp ≢ returns r no_request
unfolding on_line parse_headers
on_line-ne next p r temp h = ground (arith, h (parse_requestline p temp).0, h p)

content_loop-ne : (f : ℕ) (p r : Parser) → content_loop f p ≢ returns r no_request
unfolding content_loop
content_loop-ne zero p r e = cc
content_loop-ne (suc f) p r e =
    let q = (parse_line p).0 in
    ground (
      arith,
      on_line-ne (content_loop f) (record q { start_line = q.checked_index }) r q.start_line
          (λ x. content_loop-ne f x r),
    )

-- parse_content of chapter_5/http_header_parser.cpp never returns NO_REQUEST, the one result with
-- which main waits for more bytes.
pub parse_content-ne : (p r : Parser) → parse_content p ≢ returns r no_request
unfolding parse_content
parse_content-ne p r = content_loop-ne _ p r

content_loop_incomplete :
    (f : ℕ) (p : Parser) → (parse_line p).1 ≢ line_ok → content_loop (suc f) p ≡ undefined
unfolding content_loop
content_loop_incomplete f p h = ground arith

-- Where the bytes read hold no complete line, parse_content ends without a result.
pub parse_content_incomplete :
    (p : Parser) → (parse_line p).1 ≢ line_ok → parse_content p ≡ undefined
unfolding parse_content
parse_content_incomplete p h = rw add-one (content_loop_incomplete _ p h)
