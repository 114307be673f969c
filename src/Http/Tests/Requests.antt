-- ===== src/Http/Tests/Requests.antt =====
-- A whole request with two headers.
use nowcoder_linux_learning.Base.{refl, pos, arith, List, [], ◌∷◌}
use nowcoder_linux_learning.CString.{Bytes, codes, strcasecmp, strncasecmp}
use nowcoder_linux_learning.Http.Conn.{init}
use nowcoder_linux_learning.Http.Read.{receive}
use nowcoder_linux_learning.Http.Whole.First.{IsFirstLine}
use nowcoder_linux_learning.Http.Whole.Answer.{Answers, AllHeaders}
use nowcoder_linux_learning.Http.Whole.Fresh.{request, request-Answers}
use nowcoder_linux_learning.Http.Whole.Response.{Responds, request-Responds}
use nowcoder_linux_learning.Http.Tests.{blank_conn, one_file}

abbrev two_headers : List Bytes
two_headers = codes "Host: a.b" ∷ codes "Connection: keep-alive" ∷ []

two_headers-AllHeaders : AllHeaders two_headers
unfolding strncasecmp strcasecmp
two_headers-AllHeaders = (
  record { is_line = ground arith; not_empty = omega arith; no_body = refl },
  (record { is_line = ground arith; not_empty = omega arith; no_body = refl }, tt),
)

index_line : IsFirstLine (codes "GET") (codes "index.html") (codes "HTTP/1.1")
unfolding strcasecmp
index_line = record {
  is_line = ground arith;
  method_word = ground arith;
  url_word = ground arith;
  version_word = ground arith;
  is_get = refl;
  is_http = refl;
}

request-Answers_example :
    Answers one_file
      (receive
        (init blank_conn)
        (request (codes "GET") (codes "/index.html") (codes "HTTP/1.1") two_headers))
      (codes "/index.html")
request-Answers_example =
    request-Answers one_file blank_conn (codes "GET") (codes "index.html") (codes "HTTP/1.1")
      two_headers index_line two_headers-AllHeaders (omega arith)

request-Responds_example :
    Responds one_file
      (receive
        (init blank_conn)
        (request (codes "GET") (codes "/index.html") (codes "HTTP/1.1") two_headers))
      (pos 1)
      (codes "/index.html")
      (record { st_mode = 0o100644; st_size = 42 })
request-Responds_example =
    request-Responds one_file blank_conn (pos 1) (codes "GET") (codes "index.html")
      (codes "HTTP/1.1") two_headers (record { st_mode = 0o100644; st_size = 42 }) index_line
      two_headers-AllHeaders (omega arith) refl refl (ground arith) (omega arith)
