-- ===== src/Http/Process/Kept.antt =====
-- What process_read leaves alone, and what it has stored when it answers FILE_REQUEST.
use nowcoder_linux_learning.Base.{
  ℕ, zero, suc, ◌≡◌, ◌≢◌, refl, sym, subst, ◌∙◌, Option, none, some, Option-cases, Bool-cases, inl,
  inr, ◌⊎◌, ◌-◌, ◌++◌, ◌∷◌, [], overwrite, length, arith,
}
use nowcoder_linux_learning.CString.{c_string}
use nowcoder_linux_learning.Http.Conn.{
  filename_len, HttpConn, HttpCode, CheckState, file_request, check_state_requestline,
  check_state_header, check_state_content, FileStat, LineStatus, line_ok, line_bad, line_open,
}
use nowcoder_linux_learning.Http.Line.{parse_line}
use nowcoder_linux_learning.Http.Request.{check_slash, parse_request_line}
use nowcoder_linux_learning.Http.Headers.{parse_headers}
use nowcoder_linux_learning.Http.Request.Frame.{parse_request_line-Frame}
use nowcoder_linux_learning.Http.Process.Cases.{
  parse_headers_frame, on_request_line_bad, on_request_line_next, on_header_get, on_header_next,
  on_line_requestline, on_line_header, on_line_content,
}
use nowcoder_linux_learning.Http.Process.Path.{do_request-file}
use nowcoder_linux_learning.Http.Process.Resume.{round_content, round_line_ok, round_no_line}
use nowcoder_linux_learning.Http.Process.{
  doc_root, strncpy_bytes, read_by_others, is_directory, Os, map_file, Outcome, done, undefined,
  out_of_fuel, serve_file, request_file, do_request, parse_content, next_line, on_request_line,
  on_header, on_content, on_line, round, process_loop, process_read,
}

-- The write buffer and the socket.
pub record Kept (c d : HttpConn) : Type 0 where
  pub kept_buf : d.write_buf ≡ c.write_buf
  pub kept_idx : d.write_idx ≡ c.write_idx
  pub kept_fd : d.sockfd ≡ c.sockfd

Kept-refl : (c : HttpConn) → Kept c c
Kept-refl c = record { kept_buf = refl; kept_idx = refl; kept_fd = refl }

Kept-trans : (c d e : HttpConn) → Kept c d → Kept d e → Kept c e
Kept-trans c d e a b = record {
  kept_buf = b.kept_buf ∙ a.kept_buf;
  kept_idx = b.kept_idx ∙ a.kept_idx;
  kept_fd = b.kept_fd ∙ a.kept_fd;
}

check_slash-Kept : (c : HttpConn) → Kept c (check_slash c).0
unfolding check_slash
check_slash-Kept c = ground arith

parse_request_line-Kept : (c : HttpConn) (text : ℕ) → Kept c (parse_request_line c text).0
unfolding parse_request_line
parse_request_line-Kept c text = ground arith

parse_headers-Kept : (c : HttpConn) (text : ℕ) → Kept c (parse_headers c text).0
unfolding parse_headers
parse_headers-Kept c text = ground arith

parse_content-Kept : (c d : HttpConn) (text : ℕ) → parse_content c text ≡ some d → Kept c d
unfolding parse_content
parse_content-Kept c d text e = ground (arith, e)

parse_line-Kept : (c : HttpConn) → Kept c (parse_line c).0
unfolding parse_line
parse_line-Kept c = record { kept_buf = refl; kept_idx = refl; kept_fd = refl }

state-cases :
    (s : CheckState)
    → (s ≡ check_state_requestline) ⊎ ((s ≡ check_state_header) ⊎ (s ≡ check_state_content))
state-cases check_state_requestline = inl refl
state-cases check_state_header = inr (inl refl)
state-cases check_state_content = inr (inr refl)

state-or : (s : CheckState) → (s ≢ check_state_content) ⊎ (s ≡ check_state_content)
state-or check_state_requestline = inl (λ e. cc)
state-or check_state_header = inl (λ e. cc)
state-or check_state_content = inr refl

line-cases : (s : LineStatus) → (s ≡ line_ok) ⊎ (s ≢ line_ok)
line-cases line_ok = inl refl
line-cases line_bad = inr (λ e. cc)
line-cases line_open = inr (λ e. cc)

module _ (os : Os) where
  -- The file that stat has found under m_real_file, and its mapping.
  pub record Holds (d : HttpConn) : Type 0 where
    pub found : os.stat (c_string d.real_file 0) ≡ some d.file_stat
    pub mapped : d.file_address ≡ map_file os (c_string d.real_file 0) d.file_stat.st_size

  abbrev Good : HttpConn → Outcome → Type 0
  Good c (done d k) = Kept c d × (k ≡ file_request → Holds d)
  Good c undefined = Unit {0}
  Good c out_of_fuel = Unit {0}

  serve_file-Good :
      (c : HttpConn) (o : Option FileStat)
      → os.stat (c_string c.real_file 0) ≡ o
      → Good c (serve_file os c o)
  unfolding serve_file
  serve_file-Good c none e = (Kept-refl c, λ h. cc)
  serve_file-Good c (some st) e = elim (Bool-cases (read_by_others st)) [
    | inr a ↦ rw a (record { kept_buf = refl; kept_idx = refl; kept_fd = refl }, λ h. cc)
    | inl a ↦ elim (Bool-cases (is_directory st)) [
      | inl b ↦ rw (a, b) (record { kept_buf = refl; kept_idx = refl; kept_fd = refl }, λ h. cc)
      | inr b ↦
          rw (a, b)
            (
              record { kept_buf = refl; kept_idx = refl; kept_fd = refl },
              λ h. record { found = e; mapped = refl },
            )
    ]
  ]

  Good-from : (c d : HttpConn) (o : Outcome) → Kept c d → Good d o → Good c o
  Good-from c d (done e k) a b = (Kept-trans c d e a b.0, b.1)
  Good-from c d undefined a b = tt
  Good-from c d out_of_fuel a b = tt

  request_file-Good : (c : HttpConn) (u : ℕ) → Good c (request_file os c u)
  unfolding request_file
  request_file-Good c u =
      let root = overwrite c.real_file 0 (doc_root ++ (0 ∷ [])) in
      let name = strncpy_bytes (c_string c.read_buf u) (filename_len - length doc_root - 1) in
      let d = record c { real_file = overwrite root (length doc_root) name } in
      let o = os.stat (c_string d.real_file 0) in
      let k : Kept c d = record { kept_buf = refl; kept_idx = refl; kept_fd = refl } in
      Good-from c d (serve_file os d o) k (serve_file-Good d o refl)

  do_request-none : (c : HttpConn) → c.url ≡ none → do_request os c ≡ undefined
  unfolding do_request
  do_request-none c e = ground (arith, e)

  do_request-Good : (c : HttpConn) → Good c (do_request os c)
  do_request-Good c = elim (Option-cases c.url) [
    | inl e ↦ subst (Good c) (sym (do_request-none c e)) tt
    | inr (u, e) ↦ subst (Good c) (sym (do_request-file os c u e)) (request_file-Good c u)
  ]

  on_content-Good : (c : HttpConn) (text : ℕ) → Good c (on_content os c text)
  unfolding on_content
  on_content-Good c text = elim (Option-cases (parse_content c text)) [
    | inl e ↦ rw (e, on_content) tt
    | inr (d, e) ↦
        rw (e, on_content)
          (Good-from c d (do_request os d) (parse_content-Kept c d text e) (do_request-Good d))
  ]

  -- With the rest of the loop known to be good.
  module _ (next : HttpConn → Outcome) (n : (d : HttpConn) → Good d (next d)) where
    from_next : (c d : HttpConn) → Kept c d → Good c (next d)
    from_next c d k = Good-from c d (next d) k (n d)

    on_request_line-Good : (c : HttpConn) (text : ℕ) → Good c (on_request_line next c text)
    on_request_line-Good c text =
        let r = parse_request_line c text in
        let k = parse_request_line-Kept c text in
        elim (parse_request_line-Frame c text).moves_on [
          | inl (e, _) ↦
              subst (Good c) (sym (on_request_line_next next c text e)) (from_next c r.0 k)
          | inr (e, _) ↦ subst (Good c) (sym (on_request_line_bad next c text e)) (k, λ h. cc)
        ]

    on_header-Good : (c : HttpConn) (text : ℕ) → Good c (on_header os next c text)
    on_header-Good c text =
        let r = parse_headers c text in
        let k = parse_headers-Kept c text in
        elim (parse_headers_frame c text).3 [
          | inl e ↦ subst (Good c) (sym (on_header_next os next c text e)) (from_next c r.0 k)
          | inr e ↦
              subst (Good c) (sym (on_header_get os next c text e))
                (Good-from c r.0 (do_request os r.0) k (do_request-Good r.0))
        ]

    on_line-Good : (c : HttpConn) → Good c (on_line os next c)
    on_line-Good c =
        let k : Kept c (next_line c) = record {
          kept_buf = refl;
          kept_idx = refl;
          kept_fd = refl;
        } in
        elim (state-cases c.check_state) [
          | inl e ↦
              subst (Good c) (sym (on_line_requestline os next c e))
                (Good-from c (next_line c) _ k (on_request_line-Good (next_line c) c.start_line))
          | inr (inl e) ↦
              subst (Good c) (sym (on_line_header os next c e))
                (Good-from c (next_line c) _ k (on_header-Good (next_line c) c.start_line))
          | inr (inr e) ↦
              subst (Good c) (sym (on_line_content os next c e))
                (Good-from c (next_line c) _ k (on_content-Good (next_line c) c.start_line))
        ]

    -- In the state CONTENT no line is read; otherwise the line may not be whole.
    round-Good : (c : HttpConn) → Good c (round os next c)
    round-Good c = elim (state-or c.check_state) [
      | inr e ↦ subst (Good c) (sym (round_content os next c e)) (on_line-Good c)
      | inl e ↦ elim (line-cases (parse_line c).1) [
        | inl o ↦
            subst (Good c) (sym (round_line_ok os next c e o))
              (Good-from c (parse_line c).0 _ (parse_line-Kept c) (on_line-Good (parse_line c).0))
        | inr o ↦ subst (Good c) (sym (round_no_line os next c e o)) (parse_line-Kept c, λ h. cc)
      ]
    ]

  process_loop-Good : (f : ℕ) (c : HttpConn) → Good c (process_loop os f c)
  unfolding process_loop
  process_loop-Good zero c = tt
  process_loop-Good (suc f) c = round-Good (process_loop os f) (λ d. process_loop-Good f d) c

  -- process_read leaves the write buffer and the socket alone, and when it answers FILE_REQUEST it has
  -- stored what stat says of m_real_file, and the address of its mapping.
  pub process_read-Kept :
      (c d : HttpConn) (k : HttpCode)
      → process_read os c ≡ done d k
      → Kept c d × (k ≡ file_request → Holds d)
  unfolding process_read
  process_read-Kept c d k e = subst (Good c) e (process_loop-Good _ c)
