-- ===== src/Http/Whole/Fresh.antt =====
-- A whole request that arrives behind http_conn::init.
use nowcoder_linux_learning.Base.{
  ℕ, ◌≤◌, ◌≡◌, refl, arith, List, ◌∷◌, ◌++◌, length, length-append, length-replicate,
}
use nowcoder_linux_learning.CString.{Bytes}
use nowcoder_linux_learning.Http.Conn.{HttpConn, read_buffer_size, init}
use nowcoder_linux_learning.Http.Process.{Os}
use nowcoder_linux_learning.Http.Read.{receive}
use nowcoder_linux_learning.Http.Response.{crlf}
use nowcoder_linux_learning.Http.Whole.First.{first_line, IsFirstLine, IsFresh, first_line-Ready}
use nowcoder_linux_learning.Http.Whole.Answer.{
  Answers, header_block, AllHeaders, Answers-receive, headers-Answers,
}

-- The bytes of a request: its first line, its headers and the blank line.
abbrev pub request : Bytes → Bytes → Bytes → List Bytes → Bytes
request method url version headers = (first_line method url version ++ crlf) ++ header_block headers

init-IsFresh : (c : HttpConn) → IsFresh (init c)
unfolding init
init-IsFresh c = record {
  idle = record { all_checked = refl; at_line = refl; in_lines = λ s. cc };
  state = refl;
  no_file = refl;
  no_content = refl;
}

init_room : (c : HttpConn) → ((init c).read_idx ≡ 0) × (length (init c).read_buf ≡ read_buffer_size)
unfolding init
init_room c = (refl, length-replicate {A = ℕ} read_buffer_size 0)

-- A whole request is understood. On a connection that init has prepared, the bytes of `GET` and a
-- path that begins with a slash and `HTTP/1.1` (the two words in capitals or not), one blank
-- between two, then any number of headers that are not empty and are no Content-Length, then the
-- blank line, each line without CR, LF and NUL and with CR and LF behind it, 2048 bytes at most in
-- all: process_read comes to an end, looks for the file of that path under the root of the
-- documents, cut off after 163 bytes of the path, gives the answer that stat calls for, and leaves
-- the name of the file in m_real_file.
pub request-Answers :
    (os : Os) (c : HttpConn) (method path version : Bytes) (headers : List Bytes)
    → IsFirstLine method path version
    → AllHeaders headers
    → length (request method (b'/' ∷ path) version headers) ≤ read_buffer_size
    → Answers os (receive (init c) (request method (b'/' ∷ path) version headers)) (b'/' ∷ path)
request-Answers os c method path version headers h hs room =
    let line = first_line method (b'/' ∷ path) version in
    let n = length-append (line ++ crlf) (header_block headers) in
    let m = length-append line crlf in
    let (i, s) = init_room c in
    let (d, e, r, j, t) =
      first_line-Ready os (init c) method path version (init-IsFresh c) h
        (omega (arith, n, m, i, s, room)) in
    Answers-receive os (init c) d (line ++ crlf) (header_block headers) (b'/' ∷ path)
      (init-IsFresh c).idle e
      (headers-Answers os d (b'/' ∷ path) headers r hs (omega (arith, i, s, j, t, n, m, room)))
