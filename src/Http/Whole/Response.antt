-- ===== src/Http/Whole/Response.antt =====
-- From the bytes of a request to the response that is ready to be sent.
use nowcoder_linux_learning.Base.{
  ℕ, ◌≤◌, ◌≡◌, ◌≢◌, refl, ap, sym, ◌∙◌, arith, Bool, true, false, some, List, ◌∷◌, ◌++◌, length,
  length-replicate, take, ℤ, pos, to_int, to_int_pos, ◌<◌,
}
use nowcoder_linux_learning.CString.{Bytes, c_string}
use nowcoder_linux_learning.Http.Conn.{
  HttpConn, FileStat, file_request, read_buffer_size, write_buffer_size, Iovec, write_buffer,
  address, init,
}
use nowcoder_linux_learning.Http.Read.{receive}
use nowcoder_linux_learning.Http.Process.{Os, map_file, done, process_read}
use nowcoder_linux_learning.Http.Process.Path.{answer, path_of}
use nowcoder_linux_learning.Http.Process.Kept.{process_read-Kept}
use nowcoder_linux_learning.Http.Response.{ok_200_title, process_write}
use nowcoder_linux_learning.Http.Response.Append.{IsWritable, written}
use nowcoder_linux_learning.Http.Response.Pages.{head}
use nowcoder_linux_learning.Http.Response.Codes.{process_write-SendsFile}
use nowcoder_linux_learning.Http.Write.{epollout, modfd}
use nowcoder_linux_learning.Http.Serve.{Served, after_write, process}
use nowcoder_linux_learning.Http.Whole.First.{IsFirstLine}
use nowcoder_linux_learning.Http.Whole.Answer.{AllHeaders}
use nowcoder_linux_learning.Http.Whole.Fresh.{request, request-Answers}

-- The head of a 200 and the file are ready, and the socket is watched for room to send them.
pub record Responds (os : Os) (c : HttpConn) (count : ℤ) (path : Bytes) (st : FileStat)
    : Type 0 where
  pub served : Served
  pub ends : process os c count ≡ some served
  pub same_count : served.user_count ≡ count
  pub watched : served.effects ≡ modfd served.conn.sockfd epollout
  pub linger : Bool
  pub content : written served.conn ≡ head linger 200 ok_200_title (pos st.st_size)
  pub first : served.conn.iv_0 ≡ record { iov_base = write_buffer; iov_len = served.conn.write_idx }
  pub second :
      served.conn.iv_1
      ≡ record { iov_base = address (map_file os (path_of path) st.st_size); iov_len = st.st_size }
  pub two : served.conn.iv_count ≡ 2

after_write-true :
    (r : HttpConn × Bool) (count : ℤ)
    → r.1 ≡ true
    → after_write r count
      ≡ record { conn = r.0; user_count = count; effects = modfd r.0.sockfd epollout }
unfolding after_write
after_write-true (c, true) count e = refl
after_write-true (c, false) count e = absurd cc

process_file :
    (os : Os) (c d : HttpConn) (count : ℤ)
    → process_read os c ≡ done d file_request
    → process os c count ≡ some (after_write (process_write d file_request) count)
unfolding process
process_file os c d count e = rw (e, process) refl

abbrev file_vec : ℕ → ℕ → Iovec
file_vec a n = record { iov_base = address a; iov_len = n }

-- A connection with nothing in its write buffer, for which process_read has found a file.
respond :
    (os : Os) (c d : HttpConn) (count : ℤ) (path : Bytes) (st : FileStat)
    → length c.write_buf ≡ write_buffer_size
    → c.write_idx ≡ 0
    → st.st_size ≢ 0
    → st.st_size < 0x8000_0000
    → os.stat (path_of path) ≡ some st
    → process_read os c ≡ done d file_request
    → c_string d.real_file 0 ≡ path_of path
    → Responds os c count path st
respond os c d count path st sized fresh ne small stat ends file =
    let (k, h) = process_read-Kept os c d file_request ends in
    let w = h refl in
    let same : d.file_stat ≡ st = cc (w.found, ap os.stat file, stat) in
    let idx : d.write_idx ≡ 0 = k.kept_idx ∙ fresh in
    let writable : IsWritable d = record {
      sized = ap length k.kept_buf ∙ sized;
      in_bounds = omega (arith, idx);
    } in
    let s = process_write-SendsFile d writable idx (λ z. ne (sym (ap (λ t. t.st_size) same) ∙ z)) in
    let r = process_write d file_request in
    let t = after_write-true r count s.accepted in
    let at : d.file_address ≡ map_file os (path_of path) st.st_size =
      w.mapped
      ∙ ap (λ p. map_file os p d.file_stat.st_size) file
      ∙ ap (λ f. map_file os (path_of path) f.st_size) same in
    record {
      served = record { conn = r.0; user_count = count; effects = modfd r.0.sockfd epollout };
      ends = process_file os c d count ends ∙ ap some t;
      same_count = refl;
      watched = refl;
      linger = d.linger;
      content =
          s.content
          ∙ ap
              (λ n.
                take n d.write_buf
                ++ head d.linger 200 ok_200_title (to_int (pos d.file_stat.st_size)))
              idx
          ∙ ap (λ f. head d.linger 200 ok_200_title (to_int (pos f.st_size))) same
          ∙ ap (head d.linger 200 ok_200_title) (to_int_pos st.st_size small);
      first = s.first;
      second =
          s.second
          ∙ ap (λ a. file_vec a d.file_stat.st_size) at
          ∙ ap (λ f. file_vec (map_file os (path_of path) st.st_size) f.st_size) same;
      two = s.two;
    }

init_empty :
    (c : HttpConn) (bs : Bytes)
    → (length (receive (init c) bs).write_buf ≡ write_buffer_size)
      × ((receive (init c) bs).write_idx ≡ 0)
unfolding init receive
init_empty c bs = (length-replicate {A = ℕ} write_buffer_size 0, refl)

-- From a request to its response. On a connection that init has prepared, with the bytes of a whole
-- request (`GET`, a path that begins with a slash and `HTTP/1.1`, the two words in capitals or not,
-- with one blank between two; then any number of headers that are not empty and are no
-- Content-Length; then the blank line; each line without CR, LF and NUL and with CR and LF behind
-- it, 2048 bytes at most in all), if stat finds the path under the root of the documents, the file
-- is one for FILE_REQUEST, and it is not empty and shorter than 2 GiB, then process comes to an end
-- without a change of m_user_count and asks epoll to tell when the socket can be written: the write
-- buffer holds the head of a 200 with the length of the file, the first iovec is that head, and the
-- second has the length of the file, and the address that mmap returned for what open returned for
-- that path: neither result is tested, and the address may be MAP_FAILED.
pub request-Responds :
    (os : Os) (c : HttpConn) (count : ℤ) (method path version : Bytes) (headers : List Bytes)
    (st : FileStat)
    → IsFirstLine method path version
    → AllHeaders headers
    → length (request method (b'/' ∷ path) version headers) ≤ read_buffer_size
    → os.stat (path_of (b'/' ∷ path)) ≡ some st
    → answer (some st) ≡ file_request
    → st.st_size ≢ 0
    → st.st_size < 0x8000_0000
    → Responds os
        (receive (init c) (request method (b'/' ∷ path) version headers))
        count
        (b'/' ∷ path)
        st
request-Responds os c count method path version headers st h hs room stat is_file ne small =
    let bytes = request method (b'/' ∷ path) version headers in
    let r = request-Answers os c method path version headers h hs room in
    let (sized, fresh) = init_empty c bytes in
    let ends = r.ends ∙ ap (λ o. done r.last (answer o)) stat ∙ ap (done r.last) is_file in
    respond os (receive (init c) bytes) r.last count (b'/' ∷ path) st sized fresh ne small stat ends
      r.file
