-- ===== src/Http/Tests/Parsing.antt =====
-- The theorems on the parser at small requests.
use nowcoder_linux_learning.Base.{◌≡◌, ◌≢◌, ◌≤◌, arith, refl, some, [], ◌∷◌, ◌++◌, replicate}
use nowcoder_linux_learning.CString.{codes, c_string, strcasecmp}
use nowcoder_linux_learning.CString.Words.{IsWord}
use nowcoder_linux_learning.Http.Conn.{
  HttpConn, no_request, line_ok, line_bad, line_open, check_state_header, filename_len,
}
use nowcoder_linux_learning.Http.Line.{parse_line, scan, at_cr}
use nowcoder_linux_learning.Http.Request.{parse_request_line}
use nowcoder_linux_learning.Http.Request.Accepts.{request_line, parse_request_line_accepts}
use nowcoder_linux_learning.Http.Process.{done, out_of_fuel, process_read, do_request}
use nowcoder_linux_learning.Http.Process.Resume.{
  IsOrdered, process_read_ends, process_read-IsOrdered, process_read-receive,
}
use nowcoder_linux_learning.Http.Process.Stuck.{feed, bad_line-forever}
use nowcoder_linux_learning.Http.Process.Path.{answer, path_of, do_request-answer}
use nowcoder_linux_learning.Http.Read.{receive, bytes, again, read}
use nowcoder_linux_learning.Http.Read.Bounds.{Grows, read-Grows}
use nowcoder_linux_learning.Http.Tests.{holding, one_file}

abbrev half_line : HttpConn
half_line = holding (codes "GET / HT")

abbrev waiting : HttpConn
waiting = record half_line { checked_idx = 8 }

half_line-IsOrdered : IsOrdered half_line
half_line-IsOrdered = record { line_le = omega arith; checked_le = omega arith }

half_line_waits : process_read one_file half_line ≡ done waiting no_request
unfolding process_read scan
half_line_waits = refl

process_read-receive_example :
    process_read one_file (receive waiting (codes "TP/1.1\r\n\r\n"))
    ≡ process_read one_file (receive half_line (codes "TP/1.1\r\n\r\n"))
process_read-receive_example =
    process_read-receive one_file half_line waiting (codes "TP/1.1\r\n\r\n") half_line-IsOrdered
      half_line_waits

process_read_ends_example : process_read one_file half_line ≢ out_of_fuel
process_read_ends_example = process_read_ends one_file half_line half_line-IsOrdered

process_read-IsOrdered_example :
    IsOrdered waiting
    × (waiting.read_idx ≡ half_line.read_idx)
    × (half_line.checked_idx ≤ waiting.checked_idx)
process_read-IsOrdered_example =
    process_read-IsOrdered one_file half_line waiting half_line-IsOrdered half_line_waits

half_line_open : (parse_line half_line).1 ≡ line_open
unfolding parse_line scan
half_line_open = refl

abbrev whole_line : HttpConn
whole_line = holding (codes "GET / HTTP/1.1\r\nHo")

whole_line_ok : (parse_line whole_line).1 ≡ line_ok
unfolding parse_line scan at_cr
whole_line_ok = refl

-- A connection whose first line is cut out by parse_line.
abbrev cut_line : HttpConn
cut_line = holding (codes "GET / HTTP/1.1" ++ (0 ∷ 0 ∷ codes "Host: a"))

abbrev cut_header : HttpConn
cut_header = holding (codes "Content-Length: 12" ++ (0 ∷ 0 ∷ codes "Ho"))

do_request-answer_example :
    let c = record cut_line { url = some 4; real_file = replicate filename_len 0 } in
    let path = path_of (c_string c.read_buf 4) in
    (d : HttpConn) × (do_request one_file c ≡ done d (answer (one_file.stat path)))
    × (c_string d.real_file 0 ≡ path)
do_request-answer_example =
    do_request-answer one_file
      (record cut_line { url = some 4; real_file = replicate filename_len 0 }) 4 refl refl

abbrev raw_line : HttpConn
raw_line = holding (request_line (codes "get") (codes "/a") (codes "HTTP/1.1") (codes "Host"))

version-IsWord : IsWord (codes "HTTP/1.1")
version-IsWord = (
  refl,
  refl,
  (
    refl,
    refl,
    (refl, refl, (refl, refl, (refl, refl, (refl, refl, (refl, refl, (refl, refl, tt)))))),
  ),
)

parse_request_line_accepts_example :
    let r = parse_request_line raw_line 0 in
    (r.1 ≡ no_request)
    × (r.0.check_state ≡ check_state_header)
    × (r.0.url ≡ some 4)
    × (c_string r.0.read_buf 4 ≡ codes "/a")
unfolding strcasecmp
parse_request_line_accepts_example =
    parse_request_line_accepts raw_line 0 (codes "get") (codes "a") (codes "HTTP/1.1")
      (codes "Host" ++ replicate 100 0) (refl, refl, (refl, refl, (refl, refl, tt)))
      (refl, refl, (refl, refl, tt)) version-IsWord refl refl refl

-- Eight bytes are there, and three more arrive.
read-Grows_example : Grows half_line (read (bytes (codes "TP/") ∷ again ∷ []) half_line).0
read-Grows_example = read-Grows (bytes (codes "TP/") ∷ again ∷ []) half_line (omega arith)

-- A carriage return in the middle of a line.
abbrev bad_line : HttpConn
bad_line = holding (codes "GET /\r HTTP/1.1\r\n")

bad_line_found : (parse_line bad_line).1 ≡ line_bad
unfolding parse_line scan at_cr
bad_line_found = refl

bad_line-forever_example :
    (process_read one_file bad_line ≡ done (parse_line bad_line).0 no_request)
    × (process_read one_file (feed (parse_line bad_line).0 (codes "\r\n" ∷ []))
        ≡ done (feed (parse_line bad_line).0 (codes "\r\n" ∷ [])) no_request)
bad_line-forever_example =
    bad_line-forever one_file bad_line (codes "\r\n" ∷ []) (omega arith) (λ e. cc) bad_line_found
