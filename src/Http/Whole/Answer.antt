-- ===== src/Http/Whole/Answer.antt =====
-- The request line, the headers and the blank line together.
use nowcoder_linux_learning.Base.{
  ℕ, suc, ◌+◌, ◌≤◌, ◌≡◌, ap, sym, ◌∙◌, List, [], ◌∷◌, ◌++◌, length, length-append, pos, arith,
}
use nowcoder_linux_learning.CString.{Bytes, byte, c_string}
use nowcoder_linux_learning.CString.Words.{byte-drop}
use nowcoder_linux_learning.Http.Conn.{HttpConn, get_request, no_request}
use nowcoder_linux_learning.Http.Headers.{parse_headers}
use nowcoder_linux_learning.Http.Process.{
  Os, done, next_line, process_loop, process_read, do_request,
}
use nowcoder_linux_learning.Http.Process.Path.{answer, path_of, do_request-answer}
use nowcoder_linux_learning.Http.Process.Resume.{IsOrdered, process_read-receive}
use nowcoder_linux_learning.Http.Read.{receive}
use nowcoder_linux_learning.Http.Response.{crlf}
use nowcoder_linux_learning.Http.Whole.Lines.{IsIdle, receive-append}
use nowcoder_linux_learning.Http.Process.Cases.{on_line_header, on_header_get}
use nowcoder_linux_learning.Http.Whole.Headers.{
  IsHeader, Ready, behind_line, process_line, drop-cut_buffer, kept_url, header-Ready,
}

-- The file that is asked for, and what is answered.
pub record Answers (os : Os) (c : HttpConn) (path : Bytes) : Type 0 where
  pub last : HttpConn
  pub ends : process_read os c ≡ done last (answer (os.stat (path_of path)))
  pub file : c_string last.real_file 0 ≡ path_of path

blank_line :
    (c : HttpConn) (text : ℕ)
    → byte c.read_buf text ≡ 0
    → c.content_length ≡ pos 0
    → parse_headers c text ≡ (c, get_request)
unfolding parse_headers
blank_line c text b e = ground arith

-- The blank line ends the headers.
blank-Answers :
    (os : Os) (c : HttpConn) (path : Bytes)
    → Ready c path
    → c.read_idx + 2 ≤ length c.read_buf
    → Answers os (receive c crlf) path
blank-Answers os c path w room =
    let more : c.read_idx + 0 + 2 ≤ length c.read_buf = omega arith in
    let e = next_line (behind_line c []) in
    let (rest, at) = drop-cut_buffer c.read_buf c.read_idx [] more in
    let b : byte e.read_buf c.start_line ≡ 0 =
      ap (byte e.read_buf) w.idle.at_line ∙ byte-drop e.read_buf c.read_idx 0 (0 ∷ rest) at in
    let p = blank_line e c.start_line b w.no_content in
    let (d, ends, file) = do_request-answer os e w.at_url w.url w.real_file in
    let k = kept_url c [] path w in
    let loop = process_loop os (suc (0 + 2)) in
    record {
      last = d;
      ends =
          process_line os c [] w.idle tt more
          ∙ on_line_header os loop (behind_line c []) w.state
          ∙ on_header_get os loop e c.start_line (ap (λ r. r.1) p)
          ∙ ap (λ r. do_request os r.0) p
          ∙ ends
          ∙ ap (λ u. done d (answer (os.stat (path_of u)))) k;
      file = file ∙ ap path_of k;
    }

-- Each header with its CR and LF, and the blank line.
abbrev pub header_block : List Bytes → Bytes
header_block [] = crlf
header_block (h ∷ hs) = (h ++ crlf) ++ header_block hs

abbrev pub AllHeaders : List Bytes → Type 0
AllHeaders [] = Unit {0}
AllHeaders (h ∷ hs) = IsHeader h × AllHeaders hs

-- A connection takes over where another has stopped to wait.
pub Answers-receive :
    (os : Os) (c d : HttpConn) (a b path : Bytes)
    → IsIdle c
    → process_read os (receive c a) ≡ done d no_request
    → Answers os (receive d b) path
    → Answers os (receive c (a ++ b)) path
unfolding receive
Answers-receive os c d a b path w e r =
    let o : IsOrdered (receive c a) = record {
      line_le = omega (arith, w.at_line, w.all_checked);
      checked_le = omega (arith, w.all_checked);
    } in
    record {
      last = r.last;
      ends =
          ap (process_read os) (sym (receive-append c a b))
          ∙ sym (process_read-receive os (receive c a) d b o e)
          ∙ r.ends;
      file = r.file;
    }

pub headers-Answers :
    (os : Os) (c : HttpConn) (path : Bytes) (hs : List Bytes)
    → Ready c path
    → AllHeaders hs
    → c.read_idx + length (header_block hs) ≤ length c.read_buf
    → Answers os (receive c (header_block hs)) path
headers-Answers os c path [] w h room = blank-Answers os c path w room
headers-Answers os c path (l ∷ hs) w h room =
    let n = length-append (l ++ crlf) (header_block hs) in
    let m = length-append l crlf in
    let (d, e, r, i, s) = header-Ready c l path w os h.0 (omega (arith, n, m, room)) in
    Answers-receive os c d (l ++ crlf) (header_block hs) path w.idle e
      (headers-Answers os d path hs r h.1 (omega (arith, i, s, n, m, room)))
