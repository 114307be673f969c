-- ===== src/Http/Line/Resume.antt =====
-- parse_line on a line that arrives in parts.
use nowcoder_linux_learning.Base.{
  ℕ, ◌≢◌, zero, suc, ◌+◌, ◌-◌, ◌≤◌, ◌≡◌, refl, ◌∙◌, true, false, ◌==◌, inl, inr, Bool-cases, length,
  overwrite, get_or-overwrite_below, arith,
}
use nowcoder_linux_learning.CString.{Bytes, byte}
use nowcoder_linux_learning.Http.Conn.{HttpConn, LineStatus, line_bad, line_ok, line_open}
use nowcoder_linux_learning.Http.Read.{receive}
use nowcoder_linux_learning.Http.Line.{Scan, at_cr, at_lf, scan, scan_line, parse_line, cr, lf}

-- An incomplete scan has changed nothing, and stands where a scan of more bytes may take over.
record Resumes (buf : Bytes) (i n : ℕ) (s : Scan) (bs : Bytes) (m q : ℕ) : Type 0 where
  same : s.buf ≡ buf
  low : i ≤ s.idx
  high : s.idx ≤ n
  resume :
      scan (n + m - s.idx) (overwrite buf n bs) s.idx (n + m)
      ≡ scan q (overwrite buf n bs) i (n + m)

at_lf_stays :
    (buf : Bytes) (i : ℕ)
    → (at_lf buf i).status ≢ line_ok
    → at_lf buf i ≡ record { buf = buf; idx = i; status = line_bad }
unfolding at_lf
at_lf_stays buf i = ground arith

at_cr_stays :
    (buf : Bytes) (i n : ℕ)
    → (at_cr buf i n).status ≢ line_ok
    → at_cr buf i n ≡ record { buf = buf; idx = i; status = (at_cr buf i n).status }
unfolding at_cr
at_cr_stays buf i n = ground arith

-- Where the scan stays at its first byte.
stay :
    (buf bs : Bytes) (i n m q : ℕ) (st : LineStatus)
    → i ≤ n
    → q ≡ n + m - i
    → Resumes buf i n (record { buf = buf; idx = i; status = st }) bs m q
stay buf bs i n m q st h e = record { same = refl; low = omega arith; high = h; resume = rw e }

pub scan_plain :
    (k : ℕ) (buf : Bytes) (i n : ℕ)
    → (byte buf i == cr) ≡ false
    → (byte buf i == lf) ≡ false
    → scan (suc k) buf i n ≡ scan k buf (i + 1) n
unfolding scan
scan_plain k buf i n a b = rw (a, b)

pub scan-cr :
    (k : ℕ) (buf : Bytes) (i n : ℕ)
    → (byte buf i == cr) ≡ true
    → scan (suc k) buf i n ≡ at_cr buf i n
unfolding scan
scan-cr k buf i n a = rw a

pub scan-lf :
    (k : ℕ) (buf : Bytes) (i n : ℕ)
    → (byte buf i == cr) ≡ false
    → (byte buf i == lf) ≡ true
    → scan (suc k) buf i n ≡ at_lf buf i
unfolding scan
scan-lf k buf i n a b = rw (a, b)

scan-Resumes :
    (k : ℕ) (buf bs : Bytes) (i n m q : ℕ)
    → i + k ≡ n
    → q ≡ k + m
    → (scan k buf i n).status ≢ line_ok
    → Resumes buf i n (scan k buf i n) bs m q
scan-Resumes zero buf bs i n m q e eq o =
    unfold scan in stay buf bs i n m q line_open (omega arith) (omega arith)
scan-Resumes (suc k) buf bs i n m zero e eq o = absurd (omega arith)
scan-Resumes (suc k) buf bs i n m (suc q) e eq o = elim (Bool-cases (byte buf i == cr)) [
  | inl a ↦
      rw (scan-cr k buf i n a, at_cr_stays buf i n (rw (scan-cr k buf i n a) at o))
        (stay buf bs i n m (suc q) _ (omega arith) (omega arith))
  | inr a ↦ elim (Bool-cases (byte buf i == lf)) [
    | inl b ↦
        rw (scan-lf k buf i n a b, at_lf_stays buf i (rw (scan-lf k buf i n a b) at o))
          (stay buf bs i n m (suc q) line_bad (omega arith) (omega arith))
    | inr b ↦
        let r =
          scan-Resumes k buf bs (i + 1) n m q (omega arith) (omega arith)
            (rw (scan_plain k buf i n a b) at o) in
        let same_byte : byte (overwrite buf n bs) i ≡ byte buf i =
          get_or-overwrite_below buf n bs i 0 (omega arith) in
        rw (scan_plain k buf i n a b) (record {
          same = r.same;
          low = omega arith;
          high = r.high;
          resume =
              r.resume
              ∙ rw (scan_plain q (overwrite buf n bs) i (n + m) (rw same_byte a) (rw same_byte b));
        })
  ]
]

module _ (c : HttpConn) (bs : Bytes) (h : c.checked_idx ≤ c.read_idx)
    (o : (parse_line c).1 ≢ line_ok) where
  scan_line-Resumes :
      Resumes c.read_buf c.checked_idx c.read_idx
        (scan_line c)
        bs
        (length bs)
        (c.read_idx + length bs - c.checked_idx)
  unfolding parse_line
  scan_line-Resumes =
      scan-Resumes (c.read_idx - c.checked_idx) c.read_buf bs c.checked_idx c.read_idx (length bs)
        (c.read_idx + length bs - c.checked_idx) (omega arith) (omega arith) o

  -- If parse_line does not find a whole line, then a second call after more bytes have arrived ends
  -- in the same state and with the same status as one call on all the bytes.
  pub parse_line-receive : parse_line (receive (parse_line c).0 bs) ≡ parse_line (receive c bs)
  unfolding parse_line receive
  parse_line-receive = rw (scan_line-Resumes.same, scan_line-Resumes.resume)

  -- And it leaves the buffer and the other fields as they were, and the index within the bytes read.
  pub parse_line_stays :
      ((parse_line c).0 ≡ record c { checked_idx = (parse_line c).0.checked_idx })
      × (c.checked_idx ≤ (parse_line c).0.checked_idx)
      × ((parse_line c).0.checked_idx ≤ c.read_idx)
  unfolding parse_line
  parse_line_stays = (rw scan_line-Resumes.same, scan_line-Resumes.low, scan_line-Resumes.high)
