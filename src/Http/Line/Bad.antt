-- ===== src/Http/Line/Bad.antt =====
-- http_conn::parse_line on a bad line.
use nowcoder_linux_learning.Base.{
  ℕ, zero, suc, ◌+◌, ◌-◌, ◌≤◌, ◌<◌, ◌≡◌, ◌≢◌, refl, ◌∙◌, true, false, ◌==◌, ◌&&◌, ltb, inl, inr,
  Bool-cases, length, overwrite, get_or-overwrite_below, arith,
}
use nowcoder_linux_learning.CString.{Bytes, byte}
use nowcoder_linux_learning.Http.Conn.{HttpConn, line_bad}
use nowcoder_linux_learning.Http.Read.{receive}
use nowcoder_linux_learning.Http.Line.{at_cr, at_lf, scan, parse_line, cr, lf}
use nowcoder_linux_learning.Http.Line.Resume.{scan_plain, scan-cr, scan-lf}

-- A CR with another byte than LF behind it, or a LF with no CR in front, among the first `n` bytes.
pub data IsBad (buf : Bytes) (i n : ℕ) : Type 0 where
  lone_cr : i + 1 < n → (byte buf i == cr) ≡ true → (byte buf (i + 1) == lf) ≡ false → IsBad buf i n
  lone_lf :
      i < n
      → (byte buf i == cr) ≡ false
      → (byte buf i == lf) ≡ true
      → (ltb 1 i && byte buf (i - 1) == cr) ≡ false
      → IsBad buf i n

at_cr_bad :
    (buf : Bytes) (i n : ℕ)
    → (at_cr buf i n).status ≡ line_bad
    → (i + 1 ≢ n)
      × ((byte buf (i + 1) == lf) ≡ false)
      × ((at_cr buf i n).idx ≡ i)
      × ((at_cr buf i n).buf ≡ buf)
unfolding at_cr
at_cr_bad buf i n h = (ground (arith, h), ground (arith, h), ground (arith, h), ground (arith, h))

at_lf_bad :
    (buf : Bytes) (i : ℕ)
    → (at_lf buf i).status ≡ line_bad
    → ((ltb 1 i && byte buf (i - 1) == cr) ≡ false)
      × ((at_lf buf i).idx ≡ i)
      × ((at_lf buf i).buf ≡ buf)
unfolding at_lf
at_lf_bad buf i h = (ground (arith, h), ground (arith, h), ground (arith, h))

scan-IsBad :
    (k : ℕ) (buf : Bytes) (i n : ℕ)
    → i + k ≡ n
    → (scan k buf i n).status ≡ line_bad
    → IsBad buf (scan k buf i n).idx n × ((scan k buf i n).buf ≡ buf)
scan-IsBad zero buf i n e o = absurd (unfold scan in cc)
scan-IsBad (suc k) buf i n e o = elim (Bool-cases (byte buf i == cr)) [
  | inl a ↦
      let s = scan-cr k buf i n a in
      let (last, other, at, same) = at_cr_bad buf i n (rw s at o) in
      rw (s, at) (lone_cr (ground (arith, last, e)) a other, same)
  | inr a ↦ elim (Bool-cases (byte buf i == lf)) [
    | inl b ↦
        let s = scan-lf k buf i n a b in
        let (other, at, same) = at_lf_bad buf i (rw s at o) in
        rw (s, at) (lone_lf (omega arith) a b other, same)
    | inr b ↦
        let s = scan_plain k buf i n a b in
        rw s (scan-IsBad k buf (i + 1) n (omega arith) (rw s at o))
  ]
]

scan_at_bad :
    (q : ℕ) (buf : Bytes) (i n : ℕ)
    → IsBad buf i n
    → scan (suc q) buf i n ≡ record { buf = buf; idx = i; status = line_bad }
scan_at_bad q buf i n (lone_cr h a b) =
    let apart : (i + 1 == n) ≡ false = ground arith in
    scan-cr q buf i n a ∙ unfold at_cr in rw (apart, b) refl
scan_at_bad q buf i n (lone_lf h a b o) = scan-lf q buf i n a b ∙ unfold at_lf in rw o refl

overwrite-IsBad :
    (buf bs : Bytes) (i n m : ℕ) → IsBad buf i n → IsBad (overwrite buf n bs) i (n + m)
overwrite-IsBad buf bs i n m (lone_cr h a b) =
    let at_i = get_or-overwrite_below buf n bs i 0 (omega arith) in
    let behind = get_or-overwrite_below buf n bs (i + 1) 0 h in
    lone_cr (omega arith) (rw at_i a) (rw behind b)
overwrite-IsBad buf bs i n m (lone_lf h a b o) =
    let at_i = get_or-overwrite_below buf n bs i 0 h in
    let before = get_or-overwrite_below buf n bs (i - 1) 0 (omega arith) in
    lone_lf (omega arith) (rw at_i a) (rw at_i b) (rw before o)

bad_below : (buf : Bytes) (i n : ℕ) → IsBad buf i n → i < n
bad_below buf i n (lone_cr h a b) = omega arith
bad_below buf i n (lone_lf h a b o) = h

-- The connection stands at a bad line.
abbrev pub IsBadLine : HttpConn → Type 0
IsBadLine c = IsBad c.read_buf c.checked_idx c.read_idx

pub parse_line_at_bad : (c : HttpConn) → IsBadLine c → parse_line c ≡ (c, line_bad)
unfolding parse_line
parse_line_at_bad c w =
    let i : c.checked_idx < c.read_idx = bad_below c.read_buf c.checked_idx c.read_idx w in
    let k : c.read_idx - c.checked_idx ≡ suc (c.read_idx - c.checked_idx - 1) = omega arith in
    let s = scan_at_bad (c.read_idx - c.checked_idx - 1) c.read_buf c.checked_idx c.read_idx w in
    rw (k, s) refl

pub receive-IsBadLine : (c : HttpConn) (bs : Bytes) → IsBadLine c → IsBadLine (receive c bs)
unfolding receive
receive-IsBadLine c bs w = overwrite-IsBad c.read_buf bs c.checked_idx c.read_idx (length bs) w

pub parse_line-IsBadLine :
    (c : HttpConn)
    → c.checked_idx ≤ c.read_idx
    → (parse_line c).1 ≡ line_bad
    → IsBadLine (parse_line c).0
unfolding parse_line
parse_line-IsBadLine c h o =
    let (b, same) =
      scan-IsBad (c.read_idx - c.checked_idx) c.read_buf c.checked_idx c.read_idx (omega arith) o in
    rw same b
