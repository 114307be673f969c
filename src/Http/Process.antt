-- ===== src/Http/Process.antt =====
-- http_conn::parse_content, process_read and do_request of webserver/http_conn.cpp.
-- The file system is a parameter. `undefined` stands for what C++ leaves undefined: a write outside
-- of the read buffer, a string function on NULL, an overflow of `int`, and the use of the result of
-- a call that ran off the end of its function.
pub mod Cases
pub mod Path
pub mod Resume
pub mod Kept
pub mod Stuck
use nowcoder_linux_learning.Base.{
  ℕ, zero, suc, ◌+◌, ◌-◌, ◌/◌, ◌%◌, Bool, not, ◌==◌, ltb, leb, if◌then◌else◌, Option, none, some,
  [], ◌∷◌, ◌++◌, set, length, take, replicate, overwrite, pos, negsuc,
}
use nowcoder_linux_learning.CString.{Bytes, codes, c_string}
use nowcoder_linux_learning.Http.Conn.{
  filename_len, read_buffer_size, HttpConn, HttpCode, no_request, get_request, bad_request,
  no_resource, forbidden_request, file_request, check_state_requestline, check_state_header,
  check_state_content, line_ok, FileStat,
}
use nowcoder_linux_learning.Http.Line.{parse_line}
use nowcoder_linux_learning.Http.Request.{parse_request_line}
use nowcoder_linux_learning.Http.Headers.{parse_headers}

pub data Outcome : Type 0 where
  done : HttpConn → HttpCode → Outcome
  undefined : Outcome
  out_of_fuel : Outcome

-- The calls of the operating system: `stat` on a path; `open` of a path, `none` for -1; and the
-- address that `mmap` returns for a length and what `open` returned, with MAP_FAILED as one of them.
pub record Os : Type 0 where
  pub stat : Bytes → Option FileStat
  pub open_file : Bytes → Option ℕ
  pub mmap : ℕ → Option ℕ → ℕ

-- The calls of `open` and `mmap` for a path and a length. Neither result is tested.
abbrev pub map_file : Os → Bytes → ℕ → ℕ
map_file os path n = os.mmap n (os.open_file path)

abbrev pub doc_root : Bytes
doc_root = codes "/home/ouyangyiqi/Learning/Linux/html"

-- The bytes that `strncpy` writes: `n`, the string cut off or filled up with NULs.
unfoldable pub strncpy_bytes : Bytes → ℕ → Bytes
strncpy_bytes s n = take n s ++ replicate (n - length s) 0

abbrev pub read_by_others : FileStat → Bool
read_by_others st = st.st_mode / 4 % 2 == 1

abbrev pub is_directory : FileStat → Bool
is_directory st = st.st_mode / 0o10000 % 16 == 4

module _ (os : Os) where
  -- From the return of `stat` on.
  unfoldable pub serve_file : HttpConn → Option FileStat → Outcome
  serve_file c none = done c no_resource
  serve_file c (some st) =
      let c' = record c { file_stat = st } in
      if not (read_by_others st)
      then done c' forbidden_request
      else if is_directory st
      then done c' bad_request
      else done (record c' { file_address = map_file os (c_string c.real_file 0) st.st_size })
          file_request

  -- The path of the URL that starts at `u`, and what is done with it.
  unfoldable pub request_file : HttpConn → ℕ → Outcome
  unfolding serve_file strncpy_bytes
  request_file c u =
      let root = overwrite c.real_file 0 (doc_root ++ 0 ∷ []) in
      let len = length doc_root in
      let name = strncpy_bytes (c_string c.read_buf u) (filename_len - len - 1) in
      let c' = record c { real_file = overwrite root len name } in
      serve_file c' (os.stat (c_string c'.real_file 0))

  unfoldable pub do_request : HttpConn → Outcome
  unfolding request_file
  do_request c = elim c.url [ none ↦ undefined | some u ↦ request_file c u ]

-- `none` where the result is undefined. Otherwise it is GET_REQUEST.
unfoldable pub parse_content : HttpConn → ℕ → Option HttpConn
parse_content c text = elim c.content_length [
  | pos n ↦
      if ltb 0x7fff_ffff (n + c.checked_idx)
      then none
      else if leb (n + c.checked_idx) c.read_idx
      then (if ltb (text + n) read_buffer_size
          then some (record c { read_buf = set c.read_buf (text + n) 0 })
          else none)
      else none
  | negsuc n ↦
      if leb c.checked_idx (c.read_idx + suc n)
      then (if leb (suc n) text
          then some (record c { read_buf = set c.read_buf (text - suc n) 0 })
          else none)
      else none
]

abbrev pub next_line : HttpConn → HttpConn
next_line c = record c { start_line = c.checked_idx }

-- The body of the loop for a line that starts at `text`; `next` is the rest of the loop.
unfoldable pub on_request_line : (HttpConn → Outcome) → HttpConn → ℕ → Outcome
on_request_line next c text =
    let r = parse_request_line c text in
    elim r.1 [ bad_request ↦ done r.0 bad_request | _ ↦ next r.0 ]

module _ (os : Os) where
  unfoldable pub on_header : (HttpConn → Outcome) → HttpConn → ℕ → Outcome
  on_header next c text =
      let r = parse_headers c text in
      elim r.1 [
        | bad_request ↦ done r.0 bad_request
        | get_request ↦ do_request os r.0
        | _ ↦ next r.0
      ]

  unfoldable pub on_content : HttpConn → ℕ → Outcome
  on_content c text = elim (parse_content c text) [ none ↦ undefined | some c' ↦ do_request os c' ]

  unfoldable pub on_line : (HttpConn → Outcome) → HttpConn → Outcome
  on_line next c = elim c.check_state [
    | check_state_requestline ↦ on_request_line next (next_line c) c.start_line
    | check_state_header ↦ on_header next (next_line c) c.start_line
    | check_state_content ↦ on_content (next_line c) c.start_line
  ]

  -- One round: in the state CONTENT no line is read.
  unfoldable pub round : (HttpConn → Outcome) → HttpConn → Outcome
  round next c =
      let r = parse_line c in
      let read_one : Outcome = elim r.1 [ line_ok ↦ on_line next r.0 | _ ↦ done r.0 no_request ] in
      elim c.check_state [ check_state_content ↦ on_line next c | _ ↦ read_one ]

  unfoldable pub process_loop : ℕ → HttpConn → Outcome
  unfolding round on_line on_request_line on_header on_content parse_line
  process_loop zero c = out_of_fuel
  process_loop (suc f) c = round (process_loop f) c

  -- A round that goes on has consumed a byte at least, or has reached the state CONTENT.
  unfoldable pub process_read : HttpConn → Outcome
  unfolding process_loop
  process_read c = process_loop (c.read_idx - c.checked_idx + 2) c
