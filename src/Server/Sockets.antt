-- ===== src/Server/Sockets.antt =====
-- What the operations of http_conn do to m_sockfd and to the file descriptors.
use nowcoder_linux_learning.Base.{
  ℕ, zero, suc, ◌+◌, ◌-◌, ◌≡◌, refl, ◌∙◌, Bool, true, false, ◌==◌, if◌then◌else◌, Option, none,
  some, Option-cases, Bool-cases, inl, inr, List, [], ◌∷◌, ◌++◌, ℤ, arith, take,
}
use nowcoder_linux_learning.CString.{Bytes}
use nowcoder_linux_learning.Http.Conn.{HttpConn, HttpCode, init, read_buffer_size}
use nowcoder_linux_learning.Http.Process.{
  Os, Outcome, done, do_request, on_request_line, on_header, on_content, on_line, round,
  process_loop, process_read, parse_content, next_line,
}
use nowcoder_linux_learning.Http.Line.{parse_line}
use nowcoder_linux_learning.Http.Request.{parse_request_line}
use nowcoder_linux_learning.Http.Headers.{parse_headers}
use nowcoder_linux_learning.Http.Read.{Arrival, bytes, again, failure, receive, recv_loop, read}
use nowcoder_linux_learning.Http.Response.{
  add_response, process_write, add_page, write_file, add_headers, add_blank_line, add_linger,
  add_content_length, add_content, add_status_line, and_send, send_buffer, write_forbidden,
  error_400_title, ok_200_title, ok_string, error_400_form,
}
use nowcoder_linux_learning.Http.Write.{
  iovecs, at_most, subtract, epollin, Effect, close, unmap, modfd, finish_write, Writev, sent,
  Written, write_loop, write,
}

recv_loop-sockfd :
    (arrivals : List Arrival) (c : HttpConn) → (recv_loop arrivals c).0.sockfd ≡ c.sockfd
unfolding recv_loop
recv_loop-sockfd [] c = refl
recv_loop-sockfd (again ∷ arrivals) c = refl
recv_loop-sockfd (failure ∷ arrivals) c = refl
recv_loop-sockfd (bytes bs ∷ arrivals) c =
    ground (arith, recv_loop-sockfd arrivals (receive c (take (read_buffer_size - c.read_idx) bs)))

pub read-sockfd : (arrivals : List Arrival) (c : HttpConn) → (read arrivals c).0.sockfd ≡ c.sockfd
unfolding read
read-sockfd arrivals c = ground (arith, recv_loop-sockfd arrivals c)

abbrev pub NoClose : List Effect → Type 0
NoClose [] = Unit {0}
NoClose (close fd ∷ es) = ⊥
NoClose (e ∷ es) = NoClose es

-- The result of write keeps m_sockfd, and closes no descriptor.
abbrev pub Keeps : Option ℕ → Option Written → Type 0
Keeps fd none = Unit {0}
Keeps fd (some r) = (r.conn.sockfd ≡ fd) × NoClose r.effects

NoClose-append : (es fs : List Effect) → NoClose es → NoClose fs → NoClose (es ++ fs)
NoClose-append [] fs h k = k
NoClose-append (close fd ∷ es) fs h k = elim h [ ]
NoClose-append (Effect.epoll_add fd b ∷ es) fs h k = NoClose-append es fs h k
NoClose-append (Effect.epoll_del fd ∷ es) fs h k = NoClose-append es fs h k
NoClose-append (Effect.epoll_mod fd d ∷ es) fs h k = NoClose-append es fs h k
NoClose-append (Effect.writev l n ∷ es) fs h k = NoClose-append es fs h k
NoClose-append (Effect.munmap a n ∷ es) fs h k = NoClose-append es fs h k

unmap_keeps : (c : HttpConn) → ((unmap c).0.sockfd ≡ c.sockfd) × NoClose (unmap c).1
unfolding unmap
unmap_keeps c = ground arith

finish_write-Keeps :
    (c : HttpConn) (es : List Effect) → NoClose es → Keeps c.sockfd (some (finish_write c es))
unfolding finish_write
finish_write-Keeps c es h =
    let u = unmap_keeps c in
    let quiet : NoClose (es ++ ((unmap c).1 ++ modfd c.sockfd epollin)) =
      NoClose-append es ((unmap c).1 ++ modfd c.sockfd epollin) h
        (NoClose-append (unmap c).1 (modfd c.sockfd epollin) u.1 tt) in
    go c.linger (unmap c) u.0 quiet
  where
    go :
        (linger : Bool) (r : HttpConn × List Effect)
        → r.0.sockfd ≡ c.sockfd
        → NoClose (es ++ (r.1 ++ modfd c.sockfd epollin))
        → Keeps c.sockfd (
            some (
              if linger
              then record {
                conn = init r.0;
                effects = es ++ (r.1 ++ modfd c.sockfd epollin);
                kept = true;
              }
              else record {
                conn = r.0;
                effects = es ++ (r.1 ++ modfd c.sockfd epollin);
                kept = false;
              }))
    go true r e n = (e, n)
    go false r e n = (e, n)

write_loop-Keeps :
    (rs : List Writev) (c : HttpConn) (z : ℤ) (n : ℕ) (es : List Effect)
    → NoClose es
    → Keeps c.sockfd (write_loop rs c z n es)
unfolding write_loop
write_loop-Keeps [] c z n es h = tt
write_loop-Keeps (Writev.again ∷ rs) c z n es h = (refl, NoClose-append es _ h tt)
write_loop-Keeps (Writev.failure ∷ rs) c z n es h =
    ((unmap_keeps c).0, NoClose-append es _ h (unmap_keeps c).1)
write_loop-Keeps (sent m ∷ rs) c z n es h =
    let now = es ++ (Effect.writev (iovecs c) m ∷ []) in
    let quiet : NoClose now = NoClose-append es _ h tt in
    elim (Bool-cases (at_most (subtract z m) (n + m))) [
      | inl e ↦ rw e (finish_write-Keeps c now quiet)
      | inr e ↦ rw e (write_loop-Keeps rs c (subtract z m) (n + m) now quiet)
    ]

pub write-Keeps : (rs : List Writev) (c : HttpConn) → Keeps c.sockfd (write rs c)
unfolding write
write-Keeps rs c = elim (Bool-cases (c.write_idx == 0)) [
  | inl e ↦ rw e (refl, tt)
  | inr e ↦ rw e (write_loop-Keeps rs c _ 0 [] tt)
]

-- The result of process_read keeps m_sockfd.
abbrev pub KeepsSocket : Option ℕ → Outcome → Type 0
KeepsSocket fd (done d k) = d.sockfd ≡ fd
KeepsSocket fd _ = Unit {0}

parse_sockfd :
    (c : HttpConn) (text : ℕ)
    → ((parse_request_line c text).0.sockfd ≡ c.sockfd)
      × ((parse_headers c text).0.sockfd ≡ c.sockfd)
unfolding parse_request_line parse_headers
parse_sockfd c text = (ground arith, ground arith)

do_request-KeepsSocket : (os : Os) (c : HttpConn) → KeepsSocket c.sockfd (do_request os c)
unfolding do_request
do_request-KeepsSocket os c = ground arith

parse_content-sockfd :
    (c : HttpConn) (text : ℕ) (d : HttpConn) → parse_content c text ≡ some d → d.sockfd ≡ c.sockfd
unfolding parse_content
parse_content-sockfd c text d e = ground arith

module _ (os : Os) (fd : Option ℕ) (next : HttpConn → Outcome)
    (keeps : (d : HttpConn) → d.sockfd ≡ fd → KeepsSocket fd (next d)) where
  on_request_line-KeepsSocket :
      (c : HttpConn) (text : ℕ) → c.sockfd ≡ fd → KeepsSocket fd (on_request_line next c text)
  unfolding on_request_line
  on_request_line-KeepsSocket c text e =
      ground (arith, (parse_sockfd c text).0, keeps (parse_request_line c text).0)

  on_header-KeepsSocket :
      (c : HttpConn) (text : ℕ) → c.sockfd ≡ fd → KeepsSocket fd (on_header os next c text)
  unfolding on_header
  on_header-KeepsSocket c text e = ground (
    arith,
    (parse_sockfd c text).1,
    keeps (parse_headers c text).0,
    do_request-KeepsSocket os (parse_headers c text).0,
  )

  on_content-KeepsSocket :
      (c : HttpConn) (text : ℕ) → c.sockfd ≡ fd → KeepsSocket fd (on_content os c text)
  unfolding on_content
  on_content-KeepsSocket c text e = elim (Option-cases (parse_content c text)) [
    | inl n ↦ rw (n, on_content) tt
    | inr (d, n) ↦
        rw (n, on_content)
          (rw (← parse_content-sockfd c text d n ∙ e) (do_request-KeepsSocket os d))
  ]

  on_line-KeepsSocket : (c : HttpConn) → c.sockfd ≡ fd → KeepsSocket fd (on_line os next c)
  unfolding on_line
  on_line-KeepsSocket c e = ground (
    arith,
    on_request_line-KeepsSocket (next_line c) c.start_line e,
    on_header-KeepsSocket (next_line c) c.start_line e,
    on_content-KeepsSocket (next_line c) c.start_line e,
  )

  round-KeepsSocket : (c : HttpConn) → c.sockfd ≡ fd → KeepsSocket fd (round os next c)
  unfolding round parse_line
  round-KeepsSocket c e =
      ground (arith, on_line-KeepsSocket c e, on_line-KeepsSocket (parse_line c).0 e)

process_loop-KeepsSocket :
    (os : Os) (fd : Option ℕ) (f : ℕ) (c : HttpConn)
    → c.sockfd ≡ fd
    → KeepsSocket fd (process_loop os f c)
unfolding process_loop
process_loop-KeepsSocket os fd zero c e = tt
process_loop-KeepsSocket os fd (suc f) c e =
    round-KeepsSocket os fd (process_loop os f) (process_loop-KeepsSocket os fd f) c e

pub process_read-KeepsSocket : (os : Os) (c : HttpConn) → KeepsSocket c.sockfd (process_read os c)
unfolding process_read
process_read-KeepsSocket os c = process_loop-KeepsSocket os c.sockfd _ c refl

add_response-sockfd : (c : HttpConn) (text : Bytes) → (add_response c text).0.sockfd ≡ c.sockfd
unfolding add_response
add_response-sockfd c text = ground arith

add_headers-sockfd : (c : HttpConn) (n : ℤ) → (add_headers c n).sockfd ≡ c.sockfd
unfolding add_headers add_blank_line add_linger add_content_length
add_headers-sockfd c n = simp add_response-sockfd

add_page-sockfd :
    (c : HttpConn) (status : ℕ) (title form : Bytes)
    → (add_page c status title form).0.sockfd ≡ c.sockfd
unfolding add_page add_content add_status_line
add_page-sockfd c status title form = simp (add_response-sockfd, add_headers-sockfd)

and_send-sockfd : (r : HttpConn × Bool) → (and_send r).0.sockfd ≡ r.0.sockfd
unfolding send_buffer
and_send-sockfd (c, true) = refl
and_send-sockfd (c, false) = refl

write_forbidden-sockfd : (c : HttpConn) → (write_forbidden c).0.sockfd ≡ c.sockfd
unfolding write_forbidden
write_forbidden-sockfd c = and_send-sockfd _ ∙ add_page-sockfd c _ _ _

write_file-sockfd : (c : HttpConn) → (write_file c).0.sockfd ≡ c.sockfd
unfolding write_file add_content add_status_line add_page
write_file-sockfd c = elim (Bool-cases (c.file_stat.st_size == 0)) [
  | inl e ↦ rw e (
      and_send-sockfd (add_page c 200 ok_200_title ok_string)
      ∙ add_page-sockfd c 200 ok_200_title ok_string)
  | inr e ↦ rw e (simp (add_response-sockfd, add_headers-sockfd))
]

pub process_write-sockfd : (c : HttpConn) (k : HttpCode) → (process_write c k).0.sockfd ≡ c.sockfd
unfolding process_write
process_write-sockfd c HttpCode.internal_error = and_send-sockfd _ ∙ add_page-sockfd c _ _ _
process_write-sockfd c HttpCode.bad_request = add_page-sockfd c _ _ _
process_write-sockfd c HttpCode.no_resource = ground (
  arith,
  add_page-sockfd c 400 error_400_title error_400_form,
  write_forbidden-sockfd (add_page c 400 error_400_title error_400_form).0,
)
process_write-sockfd c HttpCode.forbidden_request = write_forbidden-sockfd c
process_write-sockfd c HttpCode.file_request = write_file-sockfd c
process_write-sockfd c k = unfold send_buffer in refl
