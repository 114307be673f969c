-- ===== src/Http/Whole/Headers.antt =====
-- The headers of a request, one after the other.
use nowcoder_linux_learning.Base.{
  ℕ, zero, suc, ◌+◌, ◌-◌, ◌≤◌, ◌<◌, ◌≡◌, refl, ap, ◌∙◌, false, ◌==◌, some, [], ◌∷◌, ◌++◌, length,
  length-append, replicate, drop, set, overwrite, get_or-overwrite_below, pos, arith,
}
use mathlib.Core.List.{append_assoc}
use nowcoder_linux_learning.Base.Sorted.{set-append}
use nowcoder_linux_learning.CString.{Bytes, byte, codes, c_string, strncasecmp}
use nowcoder_linux_learning.CString.Bounds.{c_string-overwrite}
use nowcoder_linux_learning.CString.Words.{
  byte-drop, drop-set, set_behind, c_string_ended, c_string_end,
}
use nowcoder_linux_learning.Http.Conn.{
  HttpConn, HttpCode, filename_len, check_state_header, no_request, line_open,
}
use nowcoder_linux_learning.Http.Line.{parse_line, lf, cr}
use nowcoder_linux_learning.Http.Headers.{parse_headers}
use nowcoder_linux_learning.Http.Process.{Os, done, next_line, on_line, process_loop, process_read}
use nowcoder_linux_learning.Http.Process.Cases.{on_line_header, on_header_next}
use nowcoder_linux_learning.Http.Process.Resume.{round_line_ok, round_no_line}
use nowcoder_linux_learning.Http.Read.{receive}
use nowcoder_linux_learning.Http.Response.{crlf}
use nowcoder_linux_learning.Http.Whole.Lines.{
  IsLine, IsLine-HasNoNul, drop-overwrite, IsIdle, parse_line_idle, cut_buffer, length-cut_buffer,
  parse_line-receive_line,
}

set-eq-overwrite : (buf : Bytes) (n v : ℕ) → set buf n v ≡ overwrite buf n (v ∷ [])
set-eq-overwrite [] n v = refl
set-eq-overwrite (x ∷ []) zero v = refl
set-eq-overwrite (x ∷ y ∷ buf) zero v = refl
set-eq-overwrite (x ∷ buf) (suc n) v = ap (◌∷◌ x) (set-eq-overwrite buf n v)

-- What ends below `n` is left alone when a line is cut out behind `n`.
module _ (buf : Bytes) (n u z : ℕ) (l : Bytes) (a : u ≤ z) (b : z < n) (e : byte buf z ≡ 0) where
  byte-cut_buffer : byte (cut_buffer buf n l) z ≡ 0
  unfolding cut_buffer
  byte-cut_buffer =
      let o = overwrite buf n (l ++ crlf) in
      let p = get_or-overwrite_below buf n (l ++ crlf) z 0 b in
      let q = get_or-overwrite_below o (n + length l) (0 ∷ []) z 0 (omega arith) in
      let r =
        get_or-overwrite_below (set o (n + length l) 0) (n + length l + 1) (0 ∷ []) z 0
          (omega arith) in
      rw (
        set-eq-overwrite (set o (n + length l) 0) (n + length l + 1) 0,
        r,
        set-eq-overwrite o (n + length l) 0,
        q,
        p,
        e,
      )

  c_string-cut_buffer : c_string (cut_buffer buf n l) u ≡ c_string buf u
  unfolding cut_buffer
  c_string-cut_buffer =
      let o = overwrite buf n (l ++ crlf) in
      let s = set o (n + length l) 0 in
      let p = get_or-overwrite_below buf n (l ++ crlf) z 0 b ∙ e in
      let q =
        ap (λ w. byte w z) (set-eq-overwrite o (n + length l) 0)
        ∙ get_or-overwrite_below o (n + length l) (0 ∷ []) z 0 (omega arith)
        ∙ p in
      ap (λ w. c_string w u) (set-eq-overwrite s (n + length l + 1) 0)
      ∙ c_string-overwrite s (0 ∷ []) (n + length l + 1) u z a (omega arith) q
      ∙ ap (λ w. c_string w u) (set-eq-overwrite o (n + length l) 0)
      ∙ c_string-overwrite o (0 ∷ []) (n + length l) u z a (omega arith) p
      ∙ c_string-overwrite buf (l ++ crlf) n u z a b e

-- The line stands at its place, with two NULs behind it.
pub drop-cut_buffer :
    (buf : Bytes) (n : ℕ) (l : Bytes)
    → n + length l + 2 ≤ length buf
    → (rest : Bytes) × (drop n (cut_buffer buf n l) ≡ l ++ (0 ∷ 0 ∷ rest))
unfolding cut_buffer
drop-cut_buffer buf n l room =
    let (rest, e) = drop-overwrite buf (l ++ crlf) n (omega (arith, length-append l crlf)) in
    let o = overwrite buf n (l ++ crlf) in
    let f = e ∙ append_assoc l crlf rest in
    let m : n + length l + 1 ≡ n + (length l + 1) = omega arith in
    (
      rest,
      ap (λ i. drop n (set (set o (n + length l) 0) i 0)) m
          ∙ drop-set (set o (n + length l) 0) n (length l + 1) 0
          ∙ ap (λ w. set w (length l + 1) 0)
              (drop-set o n (length l) 0
                ∙ ap (λ w. set w (length l) 0) f
                ∙ set_behind l cr (lf ∷ rest) 0)
          ∙ set-append l (0 ∷ lf ∷ rest) 1 0,
    )

-- A header that is no Content-Length; not empty, since an empty line ends the headers.
pub record IsHeader (l : Bytes) : Type 0 where
  pub is_line : IsLine l
  pub not_empty : 0 < length l
  pub no_body : strncasecmp l (codes "Content-Length:") 15 ≡ false

-- Only the fields for `Connection` and `Host` may change.
record Keeps (c : HttpConn) (r : HttpConn × HttpCode) : Type 0 where
  code : r.1 ≡ no_request
  same : r.0 ≡ record c { linger = r.0.linger; host = r.0.host }

parse_headers-Keeps :
    (c : HttpConn) (text : ℕ) (l rest : Bytes)
    → IsHeader l
    → drop text c.read_buf ≡ l ++ (0 ∷ rest)
    → Keeps c (parse_headers c text)
unfolding parse_headers
parse_headers-Keeps c text [] rest h e = absurd (omega (arith, h.not_empty))
parse_headers-Keeps c text (x ∷ l) rest h e =
    let b : byte c.read_buf text ≡ x = byte-drop c.read_buf text x (l ++ (0 ∷ rest)) e in
    let s = c_string_ended c.read_buf text (x ∷ l) rest (IsLine-HasNoNul (x ∷ l) h.is_line) e in
    let not_end : (byte c.read_buf text == 0) ≡ false = rw b (h.is_line.2) in
    let other = h.no_body in
    rw (not_end, s, other) (record { code = ground arith; same = ground arith })

-- The headers of a request for `path` are under way: all that was read is done with.
pub record Ready (c : HttpConn) (path : Bytes) : Type 0 where
  pub idle : IsIdle c
  pub state : c.check_state ≡ check_state_header
  pub at_url : ℕ
  pub url : c.url ≡ some at_url
  pub target : c_string c.read_buf at_url ≡ path
  pub within : at_url + length path < c.read_idx
  pub real_file : c.real_file ≡ replicate filename_len 0
  pub no_content : c.content_length ≡ pos 0

-- The connection behind a line that parse_line has cut out.
abbrev pub behind_line : HttpConn → Bytes → HttpConn
behind_line c l = record c {
  read_buf = cut_buffer c.read_buf c.read_idx l;
  read_idx = c.read_idx + length l + 2;
  checked_idx = c.read_idx + length l + 2;
}

module _ (os : Os) (c : HttpConn) where
  pub process_line :
      (l : Bytes)
      → IsIdle c
      → IsLine l
      → c.read_idx + length l + 2 ≤ length c.read_buf
      → process_read os (receive c (l ++ crlf))
        ≡ on_line os (process_loop os (suc (length l + 2))) (behind_line c l)
  unfolding process_read process_loop receive
  process_line l w h room =
      let d = receive c (l ++ crlf) in
      let p = parse_line-receive_line c l w h room in
      let n : c.read_idx + length (l ++ crlf) - c.checked_idx + 2 ≡ suc (suc (length l + 2)) =
        omega (arith, length-append l crlf, w.all_checked) in
      ap (λ f. process_loop os f d) n
      ∙ round_line_ok os (process_loop os (suc (length l + 2))) d w.in_lines (ap (λ r. r.1) p)
      ∙ ap (λ r. on_line os (process_loop os (suc (length l + 2))) r.0) p

  pub idle_waits : (f : ℕ) → IsIdle c → process_loop os (suc f) c ≡ done c no_request
  unfolding process_loop
  idle_waits f w =
      let p = parse_line_idle c w.all_checked in
      let open_line : (parse_line c).1 ≡ line_open = ap (λ r. r.1) p in
      round_no_line os (process_loop os f) c w.in_lines (ground (arith, open_line))
      ∙ ap (λ r. done r.0 no_request) p

module _ (c : HttpConn) (l path : Bytes) (w : Ready c path) where
  pub kept_url : c_string (cut_buffer c.read_buf c.read_idx l) w.at_url ≡ path
  kept_url =
      let e = rw w.target at (c_string_end c.read_buf w.at_url) in
      c_string-cut_buffer c.read_buf c.read_idx w.at_url (w.at_url + length path) l (omega arith)
        w.within e
      ∙ w.target

  -- A header leaves the connection ready for the next.
  pub header-Ready :
      (os : Os)
      → IsHeader l
      → c.read_idx + length l + 2 ≤ length c.read_buf
      → (d : HttpConn) × (process_read os (receive c (l ++ crlf)) ≡ done d no_request)
        × Ready d path
        × (d.read_idx ≡ c.read_idx + length l + 2)
        × (length d.read_buf ≡ length c.read_buf)
  header-Ready os h room =
      let e = next_line (behind_line c l) in
      let r = parse_headers e c.start_line in
      let (rest, at) = drop-cut_buffer c.read_buf c.read_idx l room in
      let k =
        parse_headers-Keeps e c.start_line l (0 ∷ rest) h
          (ap (λ i. drop i (cut_buffer c.read_buf c.read_idx l)) w.idle.at_line ∙ at) in
      let d = record e { linger = r.0.linger; host = r.0.host } in
      let idle : IsIdle d = record {
        all_checked = refl;
        at_line = refl;
        in_lines = w.idle.in_lines;
      } in
      let loop = process_loop os (suc (length l + 2)) in
      let go : on_line os loop (behind_line c l) ≡ loop d =
        on_line_header os loop (behind_line c l) w.state
        ∙ on_header_next os loop e c.start_line k.code
        ∙ ap loop k.same in
      (
        d,
        process_line os c l w.idle h.is_line room ∙ go ∙ idle_waits os d (length l + 2) idle,
        record {
          idle = idle;
          state = w.state;
          at_url = w.at_url;
          url = w.url;
          target = kept_url;
          within = omega (arith, w.within);
          real_file = w.real_file;
          no_content = w.no_content;
        },
        refl,
        length-cut_buffer c.read_buf c.read_idx l,
      )
