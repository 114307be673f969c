-- ===== src/Http/Request/Size.antt =====
-- parse_request_line writes NULs into the read buffer, which keeps its size.
use nowcoder_linux_learning.Base.{
  ℕ, ◌+◌, ◌≡◌, ◌∙◌, Option-cases, inl, inr, length, length-set, set, some, arith,
}
use nowcoder_linux_learning.CString.{c_string, is_blank, strpbrk, strspn}
use nowcoder_linux_learning.Http.Conn.{HttpConn, get}
use nowcoder_linux_learning.Http.Request.{
  check_version, find_version, check_method, parse_request_line,
}

length-check_version :
    (c : HttpConn) (u v : ℕ) → length (check_version c u v).0.read_buf ≡ length c.read_buf
unfolding check_version
length-check_version c u v = ground arith

length-find_version :
    (c : HttpConn) (u : ℕ) → length (find_version c u).0.read_buf ≡ length c.read_buf
unfolding find_version
length-find_version c u =
    let v = u + strspn is_blank (c_string c.read_buf u) in
    elim (Option-cases (strpbrk is_blank (c_string c.read_buf v))) [
      | inl e ↦ rw (e, find_version)
      | inr (n, e) ↦
          rw (e, find_version)
            (length-check_version (record c { url = some v; read_buf = set c.read_buf (v + n) 0 }) v
                (v + n + 1)
              ∙ length-set c.read_buf (v + n) 0)
    ]

length-check_method :
    (c : HttpConn) (text u : ℕ) → length (check_method c text u).0.read_buf ≡ length c.read_buf
unfolding check_method
length-check_method c text u = ground (arith, length-find_version (record c { method = get }) u)

pub length-parse_request_line :
    (c : HttpConn) (text : ℕ) → length (parse_request_line c text).0.read_buf ≡ length c.read_buf
unfolding parse_request_line
length-parse_request_line c text =
    elim (Option-cases (strpbrk is_blank (c_string c.read_buf text))) [
      | inl e ↦ rw (e, parse_request_line)
      | inr (n, e) ↦
          rw (e, parse_request_line)
            (length-check_method
                (record c { url = some (text + n + 1); read_buf = set c.read_buf (text + n) 0 })
                text (text + n + 1)
              ∙ length-set c.read_buf (text + n) 0)
    ]
