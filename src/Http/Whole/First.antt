-- ===== src/Http/Whole/First.antt =====
-- The request line of a request.
use nowcoder_linux_learning.Base.{
  suc, ◌+◌, ◌≤◌, ◌≡◌, ap, sym, ◌∙◌, true, ◌∷◌, ◌++◌, length, length-append, replicate, drop, pos,
  arith,
}
use mathlib.Core.List.{append_assoc}
use nowcoder_linux_learning.CString.{Bytes, codes, strcasecmp}
use nowcoder_linux_learning.CString.Words.{IsWord}
use nowcoder_linux_learning.Http.Conn.{HttpConn, filename_len, check_state_requestline, no_request}
use nowcoder_linux_learning.Http.Request.{parse_request_line}
use nowcoder_linux_learning.Http.Request.Accepts.{request_line, parse_request_line_accepts}
use nowcoder_linux_learning.Http.Request.Frame.{parse_request_line-Frame}
use nowcoder_linux_learning.Http.Request.Size.{length-parse_request_line}
use nowcoder_linux_learning.Http.Process.{
  Os, Outcome, done, next_line, on_request_line, on_line, process_loop, process_read,
}
use nowcoder_linux_learning.Http.Read.{receive}
use nowcoder_linux_learning.Http.Response.{crlf}
use nowcoder_linux_learning.Http.Whole.Lines.{IsLine, IsIdle, length-cut_buffer}
use nowcoder_linux_learning.Http.Whole.Headers.{
  Ready, behind_line, drop-cut_buffer, process_line, idle_waits,
}

-- Three words with one blank between two.
abbrev pub first_line : Bytes → Bytes → Bytes → Bytes
first_line method url version = method ++ (b' ' ∷ (url ++ (b' ' ∷ version)))

-- `GET /path HTTP/1.1`, the first and the last word in capitals or not.
pub record IsFirstLine (method path version : Bytes) : Type 0 where
  pub is_line : IsLine (first_line method (b'/' ∷ path) version)
  pub method_word : IsWord method
  pub url_word : IsWord (b'/' ∷ path)
  pub version_word : IsWord version
  pub is_get : strcasecmp method (codes "GET") ≡ true
  pub is_http : strcasecmp version (codes "HTTP/1.1") ≡ true

-- A connection on which no request has begun.
pub record IsFresh (c : HttpConn) : Type 0 where
  pub idle : IsIdle c
  pub state : c.check_state ≡ check_state_requestline
  pub no_file : c.real_file ≡ replicate filename_len 0
  pub no_content : c.content_length ≡ pos 0

on_first_line :
    (os : Os) (next : HttpConn → Outcome) (c : HttpConn)
    → c.check_state ≡ check_state_requestline
    → (parse_request_line (next_line c) c.start_line).1 ≡ no_request
    → on_line os next c ≡ next (parse_request_line (next_line c) c.start_line).0
unfolding on_line on_request_line
on_first_line os next c s e = ground arith

first_line-ended :
    (method url version rest : Bytes)
    → first_line method url version ++ (0 ∷ rest) ≡ request_line method url version rest
first_line-ended method url version rest =
    append_assoc method (b' ' ∷ (url ++ (b' ' ∷ version))) (0 ∷ rest)
    ∙ ap (λ w. method ++ (b' ' ∷ w)) (append_assoc url (b' ' ∷ version) (0 ∷ rest))

length-first_line :
    (method url version : Bytes)
    → length (first_line method url version) ≡ length method + 1 + length url + 1 + length version
length-first_line method url version =
    let a = length-append method (b' ' ∷ (url ++ (b' ' ∷ version))) in
    let b = length-append url (b' ' ∷ version) in omega (arith, a, b)

-- The request line makes the connection ready for the headers.
module _ (os : Os) (c : HttpConn) (method path version : Bytes) where
  pub first_line-Ready :
      IsFresh c
      → IsFirstLine method path version
      → let l = first_line method (b'/' ∷ path) version in
        c.read_idx + length l + 2 ≤ length c.read_buf
        → (d : HttpConn) × (process_read os (receive c (l ++ crlf)) ≡ done d no_request)
          × Ready d (b'/' ∷ path)
          × (d.read_idx ≡ c.read_idx + length l + 2)
          × (length d.read_buf ≡ length c.read_buf)
  first_line-Ready w h room =
      let url = b'/' ∷ path in
      let l = first_line method url version in
      let e = next_line (behind_line c l) in
      let (rest, at) = drop-cut_buffer c.read_buf c.read_idx l room in
      let shape =
        ap (λ i. drop i e.read_buf) w.idle.at_line
        ∙ at
        ∙ first_line-ended method url version (0 ∷ rest) in
      let (code, state, at_url, target) =
        parse_request_line_accepts e c.start_line method path version (0 ∷ rest) h.method_word
          h.url_word h.version_word h.is_get h.is_http shape in
      let f = parse_request_line-Frame e c.start_line in
      let d = (parse_request_line e c.start_line).0 in
      let idle : IsIdle d = record {
        all_checked = f.checked_idx_kept ∙ sym f.read_idx_kept;
        at_line = f.start_line_kept ∙ sym f.read_idx_kept;
        in_lines = λ s. cc;
      } in
      let loop = process_loop os (suc (length l + 2)) in
      (
        d,
        process_line os c l w.idle h.is_line room
            ∙ on_first_line os loop (behind_line c l) w.state code
            ∙ idle_waits os d (length l + 2) idle,
        record {
          idle = idle;
          state = state;
          at_url = c.start_line + length method + 1;
          url = at_url;
          target = target;
          within =
              omega (arith, f.read_idx_kept, w.idle.at_line, length-first_line method url version);
          real_file = f.real_file_kept ∙ w.no_file;
          no_content = f.content_length_kept ∙ w.no_content;
        },
        f.read_idx_kept,
        length-parse_request_line e c.start_line ∙ length-cut_buffer c.read_buf c.read_idx l,
      )
