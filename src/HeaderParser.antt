-- ===== src/HeaderParser.antt =====
-- chapter_5/http_header_parser.cpp: a parser for the header of a request, and the loop of main that
-- reads one request from a client. What the functions print is left out.
pub mod Tests
pub mod Webserver
use nowcoder_linux_learning.Base.{
  ℕ, zero, suc, ◌+◌, ◌-◌, Bool, true, false, ◌&&◌, ◌==◌, ltb, if◌then◌else◌, Option, none, some,
  List, [], ◌∷◌, set, take, length, overwrite,
}
use mathlib.Core.Option
use nowcoder_linux_learning.CString.{
  Bytes, codes, byte, c_string, is_blank, strpbrk, strspn, strchr, strcasecmp, strncasecmp,
}
use nowcoder_linux_learning.Http.Conn.{LineStatus, line_ok, line_bad, line_open}
use nowcoder_linux_learning.Http.Read.{Arrival, bytes, again, failure}

abbrev pub buffer_size : ℕ
buffer_size = 4096

-- This file's own enums; LINE_STATUS is the one of webserver/http_conn.h.
pub data CheckState : Type 0 where
  check_state_requestline check_state_header : CheckState

pub data HttpCode : Type 0 where
  no_request get_request bad_request forbidden_request internal_error closed_connection : HttpCode

-- The variables of main that the functions take by reference.
pub record Parser : Type 0 where
  pub buffer : Bytes
  pub checked_index : ℕ
  pub read_index : ℕ
  pub start_line : ℕ
  pub checkstate : CheckState

-- The loop of parse_line from `checked_index` on, with `k` bytes left before `read_index`.
unfoldable pub line_loop : ℕ → Bytes → ℕ → ℕ → Bytes × ℕ × LineStatus
line_loop zero buf i n = (buf, i, line_open)
line_loop (suc k) buf i n =
    let rest = line_loop k buf (i + 1) n in
    if byte buf i == b'\r'
    then (if i + 1 == n
        then (buf, i, line_open)
        else if byte buf (i + 1) == b'\n'
        then (set (set buf i 0) (i + 1) 0, i + 2, line_ok)
        else (buf, i, line_bad))
    else if byte buf i == b'\n'
    then (if ltb 1 i && byte buf (i - 1) == b'\r'
        then (set (set buf (i - 1) 0) i 0, i + 1, line_ok)
        else (buf, i, line_bad))
    else rest

unfoldable pub parse_line : Parser → Parser × LineStatus
parse_line p =
    let (buf, i, status) =
      line_loop (p.read_index - p.checked_index) p.buffer p.checked_index p.read_index in
    (record p { buffer = buf; checked_index = i }, status)

-- From `url += strspn(…)` on, with `url` at `u`.
unfoldable pub check_target : Parser → ℕ → Parser × HttpCode
check_target p u =
    let v = u + strspn is_blank (c_string p.buffer u) in
    elim (strpbrk is_blank (c_string p.buffer v)) [
      | none ↦ (p, bad_request)
      | some n ↦
          let q = record p { buffer = set p.buffer (v + n) 0 } in
          let w = v + n + 1 + strspn is_blank (c_string q.buffer (v + n + 1)) in
          let url : Option ℕ =
            if strncasecmp (c_string q.buffer v) (codes "http://") 7
            then Option.map (λ m. v + 7 + m) (strchr (c_string q.buffer (v + 7)) b'/')
            else some v in
          let checked : Parser × HttpCode = elim url [
            | none ↦ (q, bad_request)
            | some x ↦
                if byte q.buffer x == b'/'
                then (record q { checkstate = check_state_header }, no_request)
                else (q, bad_request)
          ] in
          if strcasecmp (c_string q.buffer w) (codes "HTTP/1.1") then checked else (q, bad_request)
    ]

unfoldable pub parse_requestline : Parser → ℕ → Parser × HttpCode
unfolding check_target
parse_requestline p temp = elim (strpbrk is_blank (c_string p.buffer temp)) [
  | none ↦ (p, bad_request)
  | some n ↦
      let q = record p { buffer = set p.buffer (temp + n) 0 } in
      if strcasecmp (c_string q.buffer temp) (codes "GET")
      then check_target q (temp + n + 1)
      else (q, bad_request)
]

unfoldable pub parse_headers : Parser → ℕ → HttpCode
parse_headers p temp = if byte p.buffer temp == 0 then get_request else no_request

-- A result of parse_content: `undefined` where the function ends with no return statement.
pub data Result : Type 0 where
  returns : Parser → HttpCode → Result
  undefined : Result
  out_of_fuel : Result

-- The switch, for a line that starts at `temp`; `next` is the rest of the loop.
unfoldable pub on_line : (Parser → Result) → Parser → ℕ → Result
on_line next p temp = elim p.checkstate [
  | check_state_requestline ↦
      let r = parse_requestline p temp in
      elim r.1 [ bad_request ↦ returns r.0 bad_request | _ ↦ next r.0 ]
  | check_state_header ↦ elim (parse_headers p temp) [
    | bad_request ↦ returns p bad_request
    | get_request ↦ returns p get_request
    | _ ↦ next p
  ]
]

unfoldable pub content_loop : ℕ → Parser → Result
unfolding on_line parse_line
content_loop zero p = out_of_fuel
content_loop (suc f) p =
    let r = parse_line p in
    let line =
      on_line (content_loop f) (record r.0 { start_line = r.0.checked_index }) r.0.start_line in
    elim r.1 [ line_ok ↦ line | _ ↦ undefined ]

unfoldable pub parse_content : Parser → Result
unfolding content_loop
parse_content p = content_loop (p.read_index - p.checked_index + 1) p

-- What main sends, if anything, once it leaves its loop.
pub data Reply : Type 0 where
  silent correct wrong unknown : Reply

-- The loop of main: `recv`, and parse_content on what has arrived.
unfoldable pub serve : List Arrival → Parser → Reply
unfolding parse_content
serve [] p = silent
serve (again ∷ rest) p = silent
serve (failure ∷ rest) p = silent
serve (bytes bs ∷ rest) p =
    let got = take (buffer_size - p.read_index) bs in
    let q = record p {
      buffer = overwrite p.buffer p.read_index got;
      read_index = p.read_index + length got;
    } in
    let reply : Reply = elim (parse_content q) [
      | returns r no_request ↦ serve rest r
      | returns r get_request ↦ correct
      | returns r code ↦ wrong
      | _ ↦ unknown
    ] in
    if length got == 0 then silent else reply
