-- ===== src/Http/Response/Codes.antt =====
-- What process_write sends for each result of process_read.
use nowcoder_linux_learning.Base.{
  ◌≤◌, ◌≡◌, ◌≢◌, refl, ap, Bool, true, false, ◌==◌, Bool-cases, inl, inr, ◌++◌, length,
  length-append, arith, ℤ, pos, to_int, ==_true,
}
use nowcoder_linux_learning.CString.{print_int, decimal}
use nowcoder_linux_learning.CString.Decimal.{length-print_int-le}
use nowcoder_linux_learning.Http.Conn.{
  HttpConn, no_resource, forbidden_request, file_request, internal_error, write_buffer, address,
}
use nowcoder_linux_learning.Http.Response.{
  crlf, ok_200_title, error_400_title, error_400_form, error_403_title, error_403_form,
  error_500_title, error_500_form, status_line, content_length_line, linger_line, ok_string,
  add_page, write_forbidden, write_file, process_write,
}
use nowcoder_linux_learning.Http.Response.Append.{written, IsWritable, Appends-trans}
use nowcoder_linux_learning.Http.Response.Pages.{
  head, page, length-linger_line-le, add_head-Appends, add_page-Appends, Sends, send_page,
}

length-page :
    (linger : Bool)
    → (length (page linger 500 error_500_title error_500_form) ≤ 120)
      × (length (page linger 403 error_403_title error_403_form) ≤ 120)
      × (length (page linger 400 error_400_title error_400_form) ≤ 120)
      × (length (page linger 200 ok_200_title ok_string) ≤ 120)
unfolding page head status_line content_length_line linger_line print_int
length-page true = omega arith
length-page false = omega arith

module _ (c : HttpConn) (w : IsWritable c) (fresh : c.write_idx ≡ 0) where
  -- With nothing in the write buffer yet, process_write answers INTERNAL_ERROR by the page of 500
  -- and FORBIDDEN_REQUEST by the page of 403, each with the length of its text, and sends the write
  -- buffer alone.
  pub process_write_error :
      Sends c (page c.linger 500 error_500_title error_500_form) (process_write c internal_error)
      × Sends c
          (page c.linger 403 error_403_title error_403_form)
          (process_write c forbidden_request)
  unfolding process_write write_forbidden
  process_write_error =
      let l = length-page c.linger in
      (
        send_page c _ _
            (add_page-Appends c 500 error_500_title error_500_form w (omega (arith, l.0))),
        send_page c _ _
            (add_page-Appends c 403 error_403_title error_403_form w (omega (arith, l.1))),
      )

  -- With nothing in the write buffer yet, process_write answers NO_RESOURCE by two whole responses,
  -- the page of 400 and behind it the page of 403.
  pub process_write_no_resource :
      Sends c
        (page c.linger 400 error_400_title error_400_form
          ++ page c.linger 403 error_403_title error_403_form)
        (process_write c no_resource)
  unfolding process_write write_forbidden
  process_write_no_resource =
      let l = length-page c.linger in
      let r = add_page c 400 error_400_title error_400_form in
      let (ok, a) = add_page-Appends c 400 error_400_title error_400_form w (omega (arith, l.2)) in
      let kept : r.0.linger ≡ c.linger = ap (λ x. x.linger) a.frame in
      let (ok', b) =
        add_page-Appends r.0 403 error_403_title error_403_form a.writable
          (rw kept (omega (arith, l.1, l.2, a.advanced))) in
      rw ok (send_page c _ _ (ok', Appends-trans a (rw kept at b)))

  -- With nothing in the write buffer yet, process_write answers FILE_REQUEST with an empty file by
  -- a 200 with an empty page and its length, and sends the write buffer alone.
  pub process_write_empty :
      c.file_stat.st_size ≡ 0
      → Sends c (page c.linger 200 ok_200_title ok_string) (process_write c file_request)
  unfolding process_write write_file add_page
  process_write_empty e =
      let l = length-page c.linger in
      let test : (c.file_stat.st_size == 0) ≡ true = ground arith in
      rw test
        (send_page c _ _ (add_page-Appends c 200 ok_200_title ok_string w (omega (arith, l.3))))

-- The head of a response is sent from the write buffer, and the file from its mapping.
pub record SendsFile (c : HttpConn) (r : HttpConn × Bool) : Type 0 where
  pub accepted : r.1 ≡ true
  pub content :
      written r.0 ≡ written c ++ head c.linger 200 ok_200_title (to_int (pos c.file_stat.st_size))
  pub first : r.0.iv_0 ≡ record { iov_base = write_buffer; iov_len = r.0.write_idx }
  pub second :
      r.0.iv_1 ≡ record { iov_base = address c.file_address; iov_len = c.file_stat.st_size }
  pub two : r.0.iv_count ≡ 2

length-head_file : (linger : Bool) (n : ℤ) → length (head linger 200 ok_200_title (to_int n)) ≤ 120
unfolding head status_line content_length_line print_int decimal
length-head_file linger n = omega (
  arith,
  length-append (print_int (to_int n)) (crlf ++ (linger_line linger ++ crlf)),
  length-append (print_int (to_int n) ++ crlf) (linger_line linger ++ crlf),
  length-append (print_int (to_int n)) crlf,
  length-append (linger_line linger) crlf,
  length-linger_line-le linger,
  length-print_int-le n,
)

-- For FILE_REQUEST with a file that is not empty, and nothing in the write buffer yet,
-- process_write returns true: the write buffer holds the head of a 200 whose Content-Length is the
-- size of the file converted to int, the first iovec is the write buffer up to m_write_idx, and the
-- second m_file_address with the size of the file itself.
pub process_write-SendsFile :
    (c : HttpConn)
    → IsWritable c
    → c.write_idx ≡ 0
    → c.file_stat.st_size ≢ 0
    → SendsFile c (process_write c file_request)
unfolding process_write write_file
process_write-SendsFile c w fresh ne =
    let n = to_int (pos c.file_stat.st_size) in
    let a =
      add_head-Appends c 200 ok_200_title n w
        (omega (arith, length-head_file c.linger (pos c.file_stat.st_size))) in
    elim (Bool-cases (c.file_stat.st_size == 0)) [
      | inl e ↦ absurd (ne (==_true _ _ e))
      | inr e ↦ rw e (record {
        accepted = refl;
        content = a.appended;
        first = refl;
        second = refl;
        two = refl;
      })
    ]
