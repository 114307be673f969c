-- ===== src/Http/Line/Complete.antt =====
-- parse_line on a line that is complete: where it stops, and that its two NULs end the line.
use nowcoder_linux_learning.Base.{
  ℕ, ◌≢◌, subst, zero, suc, ◌+◌, ◌-◌, ◌≤◌, ◌<◌, ◌≡◌, refl, ◌∙◌, true, false, ◌==◌, [], ◌∷◌, inl,
  inr, Bool-cases, length, set, overwrite, get_or-overwrite_below, set-overwrite_below, arith,
}
use nowcoder_linux_learning.CString.{Bytes, byte}
use nowcoder_linux_learning.Http.Conn.{HttpConn, line_ok}
use nowcoder_linux_learning.Http.Read.{receive}
use nowcoder_linux_learning.Http.Line.{Scan, at_cr, at_lf, scan, parse_line, cr, lf}
use nowcoder_linux_learning.Http.Line.Resume.{scan_plain, scan-cr, scan-lf}

pub byte-set_nul : (buf : Bytes) (i : ℕ) → byte (set buf i 0) i ≡ 0
byte-set_nul [] i = refl
byte-set_nul (x ∷ buf) zero = refl
byte-set_nul (x ∷ buf) (suc i) = byte-set_nul buf i

-- A NUL stays one when NULs are written.
pub byte-set_keeps_nul : (buf : Bytes) (i j : ℕ) → byte buf j ≡ 0 → byte (set buf i 0) j ≡ 0
byte-set_keeps_nul [] i j h = refl
byte-set_keeps_nul (x ∷ buf) zero zero h = refl
byte-set_keeps_nul (x ∷ buf) zero (suc j) h = h
byte-set_keeps_nul (x ∷ buf) (suc i) zero h = h
byte-set_keeps_nul (x ∷ buf) (suc i) (suc j) h = byte-set_keeps_nul buf i j h

record Completes (buf : Bytes) (i n : ℕ) (s : Scan) (bs : Bytes) (m q : ℕ) : Type 0 where
  grows : i < s.idx
  within : s.idx ≤ n
  ended : byte s.buf (s.idx - 1) ≡ 0
  same :
      scan q (overwrite buf n bs) i (n + m)
      ≡ record { buf = overwrite s.buf n bs; idx = s.idx; status = line_ok }

module _ (buf bs : Bytes) (i n m q : ℕ) where
  two_writes :
      (a b : ℕ)
      → a < n
      → b < n
      → set (set (overwrite buf n bs) a 0) b 0 ≡ overwrite (set (set buf a 0) b 0) n bs
  two_writes a b ha hb =
      rw (set-overwrite_below buf n bs a 0 ha) (set-overwrite_below (set buf a 0) n bs b 0 hb)

  cr_scan : Scan
  cr_scan = record { buf = set (set buf i 0) (i + 1) 0; idx = i + 2; status = line_ok }

  lf_scan : Scan
  lf_scan = record { buf = set (set buf (i - 1) 0) i 0; idx = i + 1; status = line_ok }

  at_cr_ok :
      (at_cr buf i n).status ≡ line_ok
      → (at_cr buf i n ≡ cr_scan) × (i + 1 ≢ n) × (byte buf (i + 1) ≡ lf)
  unfolding at_cr cr_scan
  at_cr_ok o = (ground arith, ground arith, ground arith)

  at_lf_ok :
      (at_lf buf i).status ≡ line_ok → (at_lf buf i ≡ lf_scan) × (1 < i) × (byte buf (i - 1) ≡ cr)
  unfolding at_lf lf_scan
  at_lf_ok o = (ground arith, ground arith, ground arith)

  cr-Completes :
      i < n
      → (byte buf i == cr) ≡ true
      → (at_cr buf i n).status ≡ line_ok
      → Completes buf i n (at_cr buf i n) bs m (suc q)
  unfolding cr_scan
  cr-Completes h a o =
      let (e, last, feed) = at_cr_ok o in
      let at_i : byte (overwrite buf n bs) i ≡ byte buf i = get_or-overwrite_below buf n bs i 0 h in
      let at_next : byte (overwrite buf n bs) (i + 1) ≡ byte buf (i + 1) =
        get_or-overwrite_below buf n bs (i + 1) 0 (omega arith) in
      rw e (record {
        grows = omega arith;
        within = omega arith;
        ended =
            subst (λ k. byte (set (set buf i 0) (i + 1) 0) k ≡ 0) (omega arith)
              (byte-set_nul (set buf i 0) (i + 1));
        same =
            scan-cr q (overwrite buf n bs) i (n + m) (rw at_i a)
            ∙ unfold at_cr in ground (arith, two_writes i (i + 1));
      })

  lf-Completes :
      i < n
      → (byte buf i == cr) ≡ false
      → (byte buf i == lf) ≡ true
      → (at_lf buf i).status ≡ line_ok
      → Completes buf i n (at_lf buf i) bs m (suc q)
  unfolding lf_scan
  lf-Completes h a b o =
      let (e, far, ret) = at_lf_ok o in
      let at_i : byte (overwrite buf n bs) i ≡ byte buf i = get_or-overwrite_below buf n bs i 0 h in
      let before : byte (overwrite buf n bs) (i - 1) ≡ byte buf (i - 1) =
        get_or-overwrite_below buf n bs (i - 1) 0 (omega arith) in
      rw e (record {
        grows = omega arith;
        within = omega arith;
        ended =
            subst (λ k. byte (set (set buf (i - 1) 0) i 0) k ≡ 0) (omega arith)
              (byte-set_nul (set buf (i - 1) 0) i);
        same =
            scan-lf q (overwrite buf n bs) i (n + m) (rw at_i a) (rw at_i b)
            ∙ unfold at_lf in ground (arith, two_writes (i - 1) i);
      })

scan-Completes :
    (k : ℕ) (buf bs : Bytes) (i n m q : ℕ)
    → i + k ≡ n
    → q ≡ k + m
    → (scan k buf i n).status ≡ line_ok
    → Completes buf i n (scan k buf i n) bs m q
scan-Completes zero buf bs i n m q e eq o = absurd (unfold scan in cc)
scan-Completes (suc k) buf bs i n m zero e eq o = absurd (omega arith)
scan-Completes (suc k) buf bs i n m (suc q) e eq o = elim (Bool-cases (byte buf i == cr)) [
  | inl a ↦
      rw (scan-cr k buf i n a)
        (cr-Completes buf bs i n m q (omega arith) a (rw (scan-cr k buf i n a) at o))
  | inr a ↦ elim (Bool-cases (byte buf i == lf)) [
    | inl b ↦
        rw (scan-lf k buf i n a b)
          (lf-Completes buf bs i n m q (omega arith) a b (rw (scan-lf k buf i n a b) at o))
    | inr b ↦
        let r =
          scan-Completes k buf bs (i + 1) n m q (omega arith) (omega arith)
            (rw (scan_plain k buf i n a b) at o) in
        let at_i : byte (overwrite buf n bs) i ≡ byte buf i =
          get_or-overwrite_below buf n bs i 0 (omega arith) in
        rw (scan_plain k buf i n a b) (record {
          grows = omega (arith, r.grows);
          within = r.within;
          ended = r.ended;
          same = scan_plain q (overwrite buf n bs) i (n + m) (rw at_i a) (rw at_i b) ∙ r.same;
        })
  ]
]

-- A whole line is found among the bytes read, and ends in a NUL that lies among them; more bytes
-- behind those change nothing.
pub record FindsLine (c : HttpConn) (bs : Bytes) : Type 0 where
  pub grows : c.checked_idx < (parse_line c).0.checked_idx
  pub within : (parse_line c).0.checked_idx ≤ c.read_idx
  pub ended : byte (parse_line c).0.read_buf ((parse_line c).0.checked_idx - 1) ≡ 0
  pub same : parse_line (receive c bs) ≡ (receive (parse_line c).0 bs, line_ok)

-- When parse_line returns LINE_OK, m_checked_idx has moved on and lies within the bytes read, the
-- byte in front of it is a NUL, and bytes that arrive behind would have changed neither the status
-- nor what the call does.
pub parse_line-FindsLine :
    (c : HttpConn) (bs : Bytes)
    → c.checked_idx ≤ c.read_idx
    → (parse_line c).1 ≡ line_ok
    → FindsLine c bs
unfolding parse_line receive
parse_line-FindsLine c bs h o =
    let r =
      scan-Completes (c.read_idx - c.checked_idx) c.read_buf bs c.checked_idx c.read_idx (length bs)
        (c.read_idx + length bs - c.checked_idx) (omega arith) (omega arith) o in
    record { grows = r.grows; within = r.within; ended = r.ended; same = rw r.same }
