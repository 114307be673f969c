-- ===== src/Http/Response/Pages.antt =====
-- The responses that process_write puts together.
use nowcoder_linux_learning.Base.{
  ℕ, ◌+◌, ◌-◌, ◌≤◌, ◌<◌, ◌≡◌, refl, sym, subst, ◌∙◌, Bool, true, false, ◌++◌, length, length-append,
  arith, ℤ, pos,
}
use mathlib.Core.List.{append_assoc}
use nowcoder_linux_learning.CString.{Bytes}
use nowcoder_linux_learning.Http.Conn.{write_buffer_size, HttpConn, write_buffer}
use nowcoder_linux_learning.Http.Response.{
  crlf, status_line, content_length_line, linger_line, add_response, add_status_line,
  add_content_length, add_linger, add_blank_line, add_content, add_headers, add_page, send_buffer,
  and_send,
}
use nowcoder_linux_learning.Http.Response.Append.{
  written, IsWritable, Appends, add_response-Appends, Appends-next,
}

-- The status line and the headers of a response, by HTTP/1.1.
unfoldable pub head : Bool → ℕ → Bytes → ℤ → Bytes
head linger status title n =
    status_line status title ++ (content_length_line n ++ (linger_line linger ++ crlf))

unfoldable pub page : Bool → ℕ → Bytes → Bytes → Bytes
page linger status title form = head linger status title (pos (length form)) ++ form

pub length-linger_line-le : (linger : Bool) → length (linger_line linger) ≤ 24
unfolding linger_line
length-linger_line-le true = omega arith
length-linger_line-le false = omega arith

-- Four texts in a row.
add_four-Appends :
    (c : HttpConn) (s t u v : Bytes)
    → IsWritable c
    → c.write_idx + length (s ++ (t ++ (u ++ v))) < write_buffer_size - 1
    → let d = (add_response (add_response (add_response c s).0 t).0 u).0 in
      Appends c (s ++ (t ++ (u ++ v))) (add_response d v).0
add_four-Appends c s t u v w h =
    let n : length (s ++ (t ++ (u ++ v))) ≡ length s + (length t + (length u + length v)) =
      omega (arith, length-append s (t ++ (u ++ v)), length-append t (u ++ v), length-append u v) in
    let a = add_response-Appends c s w (omega arith) in
    let b = Appends-next t a.1 (omega arith) in
    let l = Appends-next u b.1 (omega (arith, length-append s t)) in
    let e = Appends-next v l.1 (omega (arith, length-append s t, length-append (s ++ t) u)) in
    let d = (add_response (add_response (add_response c s).0 t).0 u).0 in
    subst (λ x. Appends c x (add_response d v).0)
      (append_assoc (s ++ t) u v ∙ append_assoc s t (u ++ v)) e.1

add_response_linger : (c : HttpConn) (text : Bytes) → (add_response c text).0.linger ≡ c.linger
unfolding add_response
add_response_linger c text = ground arith

-- The head goes into the buffer whole, where there is room for it.
pub add_head-Appends :
    (c : HttpConn) (status : ℕ) (title : Bytes) (n : ℤ)
    → IsWritable c
    → c.write_idx + length (head c.linger status title n) < write_buffer_size - 1
    → Appends c (head c.linger status title n) (add_headers (add_status_line c status title).0 n)
unfolding head add_headers add_status_line add_linger add_blank_line add_content_length
add_head-Appends c status title n w h =
    let s = status_line status title in
    let t = content_length_line n in
    let kept : (add_response (add_response c s).0 t).0.linger ≡ c.linger =
      add_response_linger (add_response c s).0 t ∙ add_response_linger c s in
    let d = (add_response (add_response c s).0 t).0 in
    subst
      (λ l.
        Appends c (head c.linger status title n)
          (add_response (add_response d (linger_line l)).0 crlf).0)
      (sym kept) (add_four-Appends c s t (linger_line c.linger) crlf w h)

pub add_page-Appends :
    (c : HttpConn) (status : ℕ) (title form : Bytes)
    → IsWritable c
    → c.write_idx + length (page c.linger status title form) < write_buffer_size - 1
    → ((add_page c status title form).1 ≡ true)
      × Appends c (page c.linger status title form) (add_page c status title form).0
unfolding add_page page add_content
add_page-Appends c status title form w h =
    let k = length-append (head c.linger status title (pos (length form))) form in
    let a = add_head-Appends c status title (pos (length form)) w (omega (arith, k)) in
    Appends-next form a (omega (arith, k))

-- What is in the response to an error: its page, in the one buffer that is sent.
pub record Sends (c : HttpConn) (text : Bytes) (r : HttpConn × Bool) : Type 0 where
  pub accepted : r.1 ≡ true
  pub content : written r.0 ≡ written c ++ text
  pub first : r.0.iv_0 ≡ record { iov_base = write_buffer; iov_len = r.0.write_idx }
  pub one : r.0.iv_count ≡ 1

pub send_page :
    (c : HttpConn) (text : Bytes) (r : HttpConn × Bool)
    → (r.1 ≡ true) × Appends c text r.0
    → Sends c text (and_send r)
unfolding send_buffer
send_page c text r (ok, a) =
    rw ok (record { accepted = refl; content = a.appended; first = refl; one = refl })
