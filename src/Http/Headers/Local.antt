-- ===== src/Http/Headers/Local.antt =====
-- parse_headers looks at its line only: bytes that arrive behind the line change neither what it
-- does nor what it returns.
use nowcoder_linux_learning.Base.{
  ℕ, ◌+◌, ◌≤◌, ◌≡◌, refl, true, ◌==◌, inl, inr, Bool-cases, length, take, overwrite,
  get_or-overwrite_below, arith,
}
use nowcoder_linux_learning.CString.{Bytes, codes, byte, c_string, strncasecmp}
use nowcoder_linux_learning.CString.Bounds.{length-c_string-le, strncasecmp-le}
use nowcoder_linux_learning.Http.Conn.{HttpConn}
use nowcoder_linux_learning.Http.Read.{receive}
use nowcoder_linux_learning.Http.Request.Local.{EndsAt, receive_in, c_string-receive, span-le}
use nowcoder_linux_learning.Http.Headers.{value_at, parse_headers}

module _ (bs : Bytes) (z : ℕ) (c : HttpConn) (text : ℕ) (e : EndsAt c z) (h : text ≤ z) where
  -- The name of a header that was recognised lies in front of `z`.
  name-le :
      (name : Bytes) (n : ℕ)
      → length (take n name) ≡ n
      → strncasecmp (c_string c.read_buf text) name n ≡ true
      → text + n ≤ z
  name-le name n l m = omega (
    arith,
    strncasecmp-le (c_string c.read_buf text) name n m,
    length-c_string-le c.read_buf text z h e.nul,
  )

  value_at-receive : (n : ℕ) → text + n ≤ z → value_at (receive c bs) text n ≡ value_at c text n
  unfolding value_at
  value_at-receive n l = rw (c_string-receive bs z c (text + n) e l)

  value-receive :
      (n : ℕ)
      → text + n ≤ z
      → c_string (receive c bs).read_buf (value_at (receive c bs) text n)
        ≡ c_string c.read_buf (value_at c text n)
  value-receive n l =
      rw (value_at-receive n l)
        (unfold value_at in c_string-receive bs z c _ e (span-le bs z c (text + n) e l))

  -- For a line that starts at `text` and has its NUL at `z`, among the bytes read, parse_headers
  -- looks at the line only: bytes that arrive behind change neither what it does nor what it
  -- returns.
  pub parse_headers-receive :
      parse_headers (receive c bs) text ≡ receive_in bs (parse_headers c text)
  unfolding parse_headers receive
  parse_headers-receive =
      let at_text : byte (overwrite c.read_buf c.read_idx bs) text ≡ byte c.read_buf text =
        get_or-overwrite_below c.read_buf c.read_idx bs text 0 (omega (arith, e.below)) in
      let line = c_string-receive bs z c text e h in
      elim (Bool-cases (byte c.read_buf text == 0)) [
        | inl a ↦ rw (at_text, a) (ground arith)
        | inr a ↦
            rw (at_text, a, line)
              (elim (Bool-cases
                (strncasecmp (c_string c.read_buf text) (codes "Proxy-Connection:") 17)) [
                  | inl p ↦
                      rw (p, value-receive 17 (name-le (codes "Proxy-Connection:") 17 refl p))
                        (ground arith)
                  | inr p ↦
                      rw p
                        (elim (Bool-cases
                          (strncasecmp (c_string c.read_buf text) (codes "Content-Length:") 15)) [
                            | inl q ↦
                                rw (
                                  q,
                                  value-receive 15 (name-le (codes "Content-Length:") 15 refl q),
                                )
                            | inr q ↦
                                rw q
                                  (elim (Bool-cases
                                    (strncasecmp (c_string c.read_buf text) (codes "Host:") 5)) [
                                      | inl r ↦
                                          rw (
                                            r,
                                            value_at-receive 5 (name-le (codes "Host:") 5 refl r),
                                          )
                                      | inr r ↦ rw r
                                    ])
                          ])
                ])
      ]
