-- ===== src/Http/Whole/Lines.antt =====
-- A line that has just arrived: parse_line cuts it out.
use nowcoder_linux_learning.Base.{
  ℕ, zero, suc, ◌+◌, ◌-◌, ◌≤◌, ◌≡◌, ◌≢◌, refl, ap, ◌∙◌, false, ◌==◌, [], ◌∷◌, ◌++◌, length,
  length-append, length-set, length-overwrite, drop, set, overwrite, arith,
}
use mathlib.Core.List.{append_assoc}
use nowcoder_linux_learning.CString.{Bytes, byte}
use nowcoder_linux_learning.CString.Words.{byte-drop, drop-drop, HasNoNul}
use nowcoder_linux_learning.Http.Conn.{HttpConn, check_state_content, line_ok, line_open}
use nowcoder_linux_learning.Http.Line.{scan, at_cr, cr, lf, parse_line}
use nowcoder_linux_learning.Http.Line.Resume.{scan_plain}
use nowcoder_linux_learning.Http.Read.{receive}
use nowcoder_linux_learning.Http.Response.{crlf}

-- Neither CR nor LF nor NUL.
abbrev pub IsLine : Bytes → Type 0
IsLine [] = Unit {0}
IsLine (x ∷ l) = ((x == cr) ≡ false) × ((x == lf) ≡ false) × ((x == 0) ≡ false) × IsLine l

pub IsLine-HasNoNul : (l : Bytes) → IsLine l → HasNoNul l
IsLine-HasNoNul [] h = tt
IsLine-HasNoNul (x ∷ l) h = (h.2, IsLine-HasNoNul l h.3)

pub overwrite_all :
    (buf : Bytes) (n : ℕ) (a b : Bytes)
    → overwrite (overwrite buf n a) (n + length a) b ≡ overwrite buf n (a ++ b)
overwrite_all [] n a b = refl
overwrite_all (x ∷ buf) zero [] b = let e : 0 + 0 ≡ 0 = omega arith in rw e
overwrite_all (x ∷ buf) zero (y ∷ a) b =
    let e : 0 + suc (length a) ≡ suc (0 + length a) = omega arith in
    rw e (ap (◌∷◌ y) (overwrite_all buf zero a b))
overwrite_all (x ∷ buf) (suc n) a b =
    let e : suc n + length a ≡ suc (n + length a) = omega arith in
    rw e (ap (◌∷◌ x) (overwrite_all buf n a b))

-- Bytes that arrive together arrive one after the other.
pub receive-append : (c : HttpConn) (a b : Bytes) → receive (receive c a) b ≡ receive c (a ++ b)
unfolding receive
receive-append c a b =
    let n : c.read_idx + length a + length b ≡ c.read_idx + length (a ++ b) =
      omega (arith, length-append a b) in
    rw (overwrite_all c.read_buf c.read_idx a b, n)

overwrite_front :
    (buf bs : Bytes) → length bs ≤ length buf → (rest : Bytes) × (overwrite buf 0 bs ≡ bs ++ rest)
overwrite_front [] [] h = ([], refl)
overwrite_front [] (y ∷ bs) h = absurd (omega arith)
overwrite_front (x ∷ buf) [] h = (x ∷ buf, refl)
overwrite_front (x ∷ buf) (y ∷ bs) h =
    let (rest, e) = overwrite_front buf bs (omega arith) in (rest, ap (◌∷◌ y) e)

-- What has arrived stands at its place, if there is room.
pub drop-overwrite :
    (buf bs : Bytes) (n : ℕ)
    → n + length bs ≤ length buf
    → (rest : Bytes) × (drop n (overwrite buf n bs) ≡ bs ++ rest)
drop-overwrite buf bs zero h = overwrite_front buf bs (omega arith)
drop-overwrite [] bs (suc n) h = absurd (omega arith)
drop-overwrite (x ∷ buf) bs (suc n) h = drop-overwrite buf bs n (omega arith)

scan_line_lem :
    (l rest buf : Bytes) (i : ℕ)
    → IsLine l
    → drop i buf ≡ l ++ (cr ∷ lf ∷ rest)
    → scan (length l + 2) buf i (i + length l + 2) ≡ record {
      buf = set (set buf (i + length l) 0) (i + length l + 1) 0;
      idx = i + length l + 2;
      status = line_ok;
    }
unfolding scan at_cr
scan_line_lem [] rest buf i h e =
    let a : byte buf i ≡ cr = byte-drop buf i cr (lf ∷ rest) e in
    let d : drop (i + 1) buf ≡ lf ∷ rest = rw (drop-drop buf i 1, e) in
    let b : byte buf (i + 1) ≡ lf = byte-drop buf (i + 1) lf rest d in
    let z : i + 0 ≡ i = omega arith in
    let f : 0 + 2 ≡ suc 1 = omega arith in
    let t : (i + 1 == i + 2) ≡ false = ground arith in rw (f, z, a, t, b)
scan_line_lem (x ∷ l) rest buf i h e =
    let a : byte buf i ≡ x = byte-drop buf i x (l ++ (cr ∷ lf ∷ rest)) e in
    let d : drop (i + 1) buf ≡ l ++ (cr ∷ lf ∷ rest) = rw (drop-drop buf i 1, e) in
    let f : suc (length l) + 2 ≡ suc (length l + 2) = omega arith in
    let n : i + suc (length l) + 2 ≡ i + 1 + length l + 2 = omega arith in
    let m : i + suc (length l) ≡ i + 1 + length l = omega arith in
    let s = scan_plain (length l + 2) buf i (i + 1 + length l + 2) (rw a h.0) (rw a h.1) in
    rw (f, n, m) (s ∙ scan_line_lem l rest buf (i + 1) h.3 d)

-- All that has been read has been looked at, and begins no line.
pub record IsIdle (c : HttpConn) : Type 0 where
  pub all_checked : c.checked_idx ≡ c.read_idx
  pub at_line : c.start_line ≡ c.read_idx
  pub in_lines : c.check_state ≢ check_state_content

pub parse_line_idle : (c : HttpConn) → c.checked_idx ≡ c.read_idx → parse_line c ≡ (c, line_open)
unfolding parse_line scan
parse_line_idle c h = let z : c.read_idx - c.checked_idx ≡ 0 = omega (arith, h) in rw z

-- The buffer once a line has arrived behind `n` bytes and its CR and LF are NULs.
unfoldable pub cut_buffer : Bytes → ℕ → Bytes → Bytes
cut_buffer buf n l = set (set (overwrite buf n (l ++ crlf)) (n + length l) 0) (n + length l + 1) 0

pub length-cut_buffer : (buf : Bytes) (n : ℕ) (l : Bytes) → length (cut_buffer buf n l) ≡ length buf
unfolding cut_buffer
length-cut_buffer buf n l =
    let b = overwrite buf n (l ++ crlf) in
    length-set (set b (n + length l) 0) (n + length l + 1) 0
    ∙ length-set b (n + length l) 0
    ∙ length-overwrite buf n (l ++ crlf)

pub parse_line-receive_line :
    (c : HttpConn) (l : Bytes)
    → IsIdle c
    → IsLine l
    → c.read_idx + length l + 2 ≤ length c.read_buf
    → parse_line (receive c (l ++ crlf)) ≡ (
      record c {
        read_buf = cut_buffer c.read_buf c.read_idx l;
        read_idx = c.read_idx + length l + 2;
        checked_idx = c.read_idx + length l + 2;
      },
      line_ok,
    )
unfolding parse_line receive cut_buffer
parse_line-receive_line c l w h room =
    let n : length (l ++ crlf) ≡ length l + 2 = length-append l crlf in
    let (rest, e) = drop-overwrite c.read_buf (l ++ crlf) c.read_idx (omega (arith, n, room)) in
    let k : c.read_idx + length (l ++ crlf) - c.checked_idx ≡ length l + 2 =
      omega (arith, n, w.all_checked) in
    let m : c.read_idx + length (l ++ crlf) ≡ c.read_idx + length l + 2 = omega (arith, n) in
    let s =
      scan_line_lem l rest (overwrite c.read_buf c.read_idx (l ++ crlf)) c.read_idx h
        (e ∙ append_assoc l crlf rest) in
    rw (k, m, w.all_checked, s)
