-- ===== src/Http/Process/Stuck.antt =====
-- A connection that has sent a bad line.
use nowcoder_linux_learning.Base.{suc, ◌+◌, ◌-◌, ◌≤◌, ◌≡◌, ◌≢◌, ap, ◌∙◌, List, [], ◌∷◌, arith}
use nowcoder_linux_learning.CString.{Bytes}
use nowcoder_linux_learning.Http.Conn.{HttpConn, no_request, line_bad, check_state_content}
use nowcoder_linux_learning.Http.Line.{parse_line}
use nowcoder_linux_learning.Http.Line.Bad.{
  IsBadLine, parse_line_at_bad, receive-IsBadLine, parse_line-IsBadLine,
}
use nowcoder_linux_learning.Http.Read.{receive}
use nowcoder_linux_learning.Http.Process.{Os, done, process_loop, process_read}
use nowcoder_linux_learning.Http.Process.Resume.{round_no_line}

-- What arrives, one part after the other.
abbrev pub feed : HttpConn → List Bytes → HttpConn
feed c [] = c
feed c (bs ∷ more) = feed (receive c bs) more

module _ (os : Os) where
  waits_bad :
      (c : HttpConn)
      → c.check_state ≢ check_state_content
      → (parse_line c).1 ≡ line_bad
      → process_read os c ≡ done (parse_line c).0 no_request
  unfolding process_read process_loop
  waits_bad c st o =
      let n : c.read_idx - c.checked_idx + 2 ≡ suc (c.read_idx - c.checked_idx + 1) = omega arith in
      ap (λ f. process_loop os f c) n
      ∙ round_no_line os (process_loop os (c.read_idx - c.checked_idx + 1)) c st (ground (arith, o))

  stands_bad :
      (c : HttpConn)
      → c.check_state ≢ check_state_content
      → IsBadLine c
      → process_read os c ≡ done c no_request
  stands_bad c st w =
      let p = parse_line_at_bad c w in
      waits_bad c st (ap (λ r. r.1) p) ∙ ap (λ r. done r.0 no_request) p

  fed_bad :
      (arrivals : List Bytes) (c : HttpConn)
      → c.check_state ≢ check_state_content
      → IsBadLine c
      → process_read os (feed c arrivals) ≡ done (feed c arrivals) no_request
  unfolding receive
  fed_bad [] c st w = stands_bad c st w
  fed_bad (bs ∷ more) c st w = fed_bad more (receive c bs) st (receive-IsBadLine c bs w)

  -- A bad line is never answered. On a connection that is not in the state CONTENT, if
  -- m_checked_idx is not beyond the bytes read and parse_line returns LINE_BAD, then process_read
  -- returns NO_REQUEST, and so it does again after any more parts have arrived behind, without a
  -- change of the connection.
  pub bad_line-forever :
      (c : HttpConn) (arrivals : List Bytes)
      → c.checked_idx ≤ c.read_idx
      → c.check_state ≢ check_state_content
      → (parse_line c).1 ≡ line_bad
      → let d = (parse_line c).0 in
        (process_read os c ≡ done d no_request)
        × (process_read os (feed d arrivals) ≡ done (feed d arrivals) no_request)
  unfolding parse_line
  bad_line-forever c arrivals h st o =
      (waits_bad c st o, fed_bad arrivals (parse_line c).0 st (parse_line-IsBadLine c h o))
