-- ===== src/Http/Response.antt =====
-- http_conn::add_response and its callers, and process_write, of webserver/http_conn.cpp.
-- add_response takes the text that its format and arguments stand for.
pub mod Append
pub mod Codes
pub mod Pages
use nowcoder_linux_learning.Base.{
  ℕ, ◌+◌, ◌-◌, Bool, true, false, ◌==◌, leb, if◌then◌else◌, List, [], ◌∷◌, ◌++◌, take, length,
  overwrite, pos, to_int, ℤ,
}
use nowcoder_linux_learning.CString.{Bytes, codes, print_int}
use nowcoder_linux_learning.Http.Conn.{
  write_buffer_size, HttpConn, HttpCode, no_request, get_request, bad_request, no_resource,
  forbidden_request, file_request, internal_error, closed_connection, write_buffer, address, Iovec,
}

abbrev pub crlf : Bytes
crlf = codes "\r\n"

abbrev pub ok_200_title : Bytes
ok_200_title = codes "OK"

abbrev pub error_400_title : Bytes
error_400_title = codes "Bad Request"

abbrev pub error_400_form : Bytes
error_400_form = codes "Bad syntax"

abbrev pub error_403_title : Bytes
error_403_title = codes "Forbidden"

abbrev pub error_403_form : Bytes
error_403_form = codes "Permission Forbidden"

abbrev pub error_500_title : Bytes
error_500_title = codes "Internal Error"

abbrev pub error_500_form : Bytes
error_500_form = codes "Server Internal Error"

-- What `vsnprintf` writes for a text, given `room` bytes: the text cut off, and a NUL.
unfoldable pub vsnprintf_bytes : Bytes → ℕ → Bytes
vsnprintf_bytes text room = if room == 0 then [] else take (room - 1) text ++ 0 ∷ []

unfoldable pub add_response : HttpConn → Bytes → HttpConn × Bool
unfolding vsnprintf_bytes
add_response c text =
    let room = write_buffer_size - 1 - c.write_idx in
    let c' = record c {
      write_buf = overwrite c.write_buf c.write_idx (vsnprintf_bytes text room);
    } in
    if leb write_buffer_size c.write_idx
    then (c, false)
    else if leb room (length text)
    then (c', false)
    else (record c' { write_idx = c.write_idx + length text }, true)

unfoldable pub status_line : ℕ → Bytes → Bytes
status_line status title =
    codes "HTTP/1.1 " ++ (print_int (pos status) ++ (codes " " ++ (title ++ crlf)))

unfoldable pub content_length_line : ℤ → Bytes
content_length_line n = codes "Content-Length: " ++ (print_int n ++ crlf)

unfoldable pub linger_line : Bool → Bytes
linger_line linger =
    codes "Connection: " ++ ((if linger then codes "keep-alive" else codes "close") ++ crlf)

unfoldable pub add_status_line : HttpConn → ℕ → Bytes → HttpConn × Bool
add_status_line c status title = add_response c (status_line status title)

unfoldable pub add_content_length : HttpConn → ℤ → HttpConn × Bool
add_content_length c n = add_response c (content_length_line n)

unfoldable pub add_linger : HttpConn → HttpConn × Bool
add_linger c = add_response c (linger_line c.linger)

unfoldable pub add_blank_line : HttpConn → HttpConn × Bool
add_blank_line c = add_response c crlf

unfoldable pub add_content : HttpConn → Bytes → HttpConn × Bool
add_content c content = add_response c content

-- The function has no return statement, and no caller looks at a result.
unfoldable pub add_headers : HttpConn → ℤ → HttpConn
add_headers c n = (add_blank_line (add_linger (add_content_length c n).0).0).0

-- `add_status_line`, `add_headers` and `add_content` of a case, with the result of the last.
unfoldable pub add_page : HttpConn → ℕ → Bytes → Bytes → HttpConn × Bool
add_page c status title form =
    add_content (add_headers (add_status_line c status title).0 (pos (length form))) form

abbrev pub ok_string : Bytes
ok_string = codes "<html><body></body></html>"

-- The lines behind the switch.
unfoldable pub send_buffer : HttpConn → HttpConn × Bool
send_buffer c = (
  record c { iv_0 = record { iov_base = write_buffer; iov_len = c.write_idx }; iv_count = 1 },
  true,
)

abbrev pub and_send : HttpConn × Bool → HttpConn × Bool
and_send r = if r.1 then send_buffer r.0 else (r.0, false)

-- The case FORBIDDEN_REQUEST, which the case NO_RESOURCE runs into.
unfoldable pub write_forbidden : HttpConn → HttpConn × Bool
write_forbidden c = and_send (add_page c 403 error_403_title error_403_form)

unfoldable pub write_file : HttpConn → HttpConn × Bool
write_file c =
    let c1 = (add_status_line c 200 ok_200_title).0 in
    let c2 = add_headers c1 (to_int (pos c.file_stat.st_size)) in
    if c.file_stat.st_size == 0
    then and_send (add_content (add_headers c1 (pos (length ok_string))) ok_string)
    else (
      record c2 {
        iv_0 = record { iov_base = write_buffer; iov_len = c2.write_idx };
        iv_1 = record { iov_base = address c.file_address; iov_len = c.file_stat.st_size };
        iv_count = 2;
      },
      true,
    )

-- In the case BAD_REQUEST a semicolon ends the `if`, and `return false` is always run.
unfoldable pub process_write : HttpConn → HttpCode → HttpConn × Bool
process_write c internal_error = and_send (add_page c 500 error_500_title error_500_form)
process_write c bad_request = ((add_page c 400 error_400_title error_400_form).0, false)
process_write c no_resource =
    let r = add_page c 400 error_400_title error_400_form in
    if r.1 then write_forbidden r.0 else (r.0, false)
process_write c forbidden_request = write_forbidden c
process_write c file_request = write_file c
process_write c _ = send_buffer c
