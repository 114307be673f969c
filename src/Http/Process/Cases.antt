-- ===== src/Http/Process/Cases.antt =====
-- One round of the loop of process_read: either it goes on, and does so with the same result when
-- more bytes have arrived, or it ends the loop with a result other than NO_REQUEST.
use nowcoder_linux_learning.Base.{ℕ, ◌≤◌, ◌≡◌, refl, ap, ◌∙◌, Option-cases, arith, inl, inr, ◌⊎◌}
use nowcoder_linux_learning.CString.{Bytes}
use nowcoder_linux_learning.Http.Conn.{
  HttpConn, CheckState, no_request, get_request, bad_request, check_state_requestline,
  check_state_header, check_state_content,
}
use nowcoder_linux_learning.Http.Read.{receive}
use nowcoder_linux_learning.Http.Request.{parse_request_line}
use nowcoder_linux_learning.Http.Request.Local.{EndsAt, parse_request_line-receive}
use nowcoder_linux_learning.Http.Request.Frame.{parse_request_line-Frame}
use nowcoder_linux_learning.Http.Headers.{parse_headers}
use nowcoder_linux_learning.Http.Headers.Local.{parse_headers-receive}
use nowcoder_linux_learning.Http.Process.{
  Os, Outcome, done, undefined, out_of_fuel, do_request, parse_content, next_line, on_request_line,
  on_header, on_content, on_line,
}

-- A result that ends the loop: not NO_REQUEST, and not for lack of fuel.
abbrev pub IsAnswer : Outcome → Type 0
IsAnswer (done c no_request) = ⊥
IsAnswer (done c _) = Unit {0}
IsAnswer undefined = Unit {0}
IsAnswer out_of_fuel = ⊥

-- do_request never answers that the request is incomplete.
pub do_request-IsAnswer : (os : Os) (c : HttpConn) → IsAnswer (do_request os c)
unfolding do_request
do_request-IsAnswer os c = ground arith

pub on_content-IsAnswer : (os : Os) (c : HttpConn) (text : ℕ) → IsAnswer (on_content os c text)
unfolding on_content
on_content-IsAnswer os c text = elim (Option-cases (parse_content c text)) [
  | inl e ↦ rw (e, on_content) tt
  | inr (d, e) ↦ rw (e, on_content) (do_request-IsAnswer os d)
]

pub data LineCase (os : Os) (c : HttpConn) (bs : Bytes) : Type 0 where
  goes :
      (d : HttpConn)
      → d.read_idx ≡ c.read_idx
      → d.checked_idx ≡ c.checked_idx
      → d.start_line ≡ c.checked_idx
      → ((next : HttpConn → Outcome) → on_line os next c ≡ next d)
      → ((next : HttpConn → Outcome) → on_line os next (receive c bs) ≡ next (receive d bs))
      → LineCase os c bs
  ends :
      (o : Outcome)
      → ((next : HttpConn → Outcome) → on_line os next c ≡ o)
      → IsAnswer o
      → LineCase os c bs

pub parse_headers_frame :
    (c : HttpConn) (text : ℕ)
    → ((parse_headers c text).0.read_idx ≡ c.read_idx)
      × ((parse_headers c text).0.checked_idx ≡ c.checked_idx)
      × ((parse_headers c text).0.start_line ≡ c.start_line)
      × (((parse_headers c text).1 ≡ no_request) ⊎ ((parse_headers c text).1 ≡ get_request))
unfolding parse_headers
parse_headers_frame c text = ground arith

module _ (next : HttpConn → Outcome) (c : HttpConn) (text : ℕ) where
  pub on_request_line_bad :
      (parse_request_line c text).1 ≡ bad_request
      → on_request_line next c text ≡ done (parse_request_line c text).0 bad_request
  unfolding on_request_line
  on_request_line_bad e = rw (e, on_request_line)

  pub on_request_line_next :
      (parse_request_line c text).1 ≡ no_request
      → on_request_line next c text ≡ next (parse_request_line c text).0
  unfolding on_request_line
  on_request_line_next e = rw (e, on_request_line)

module _ (os : Os) (next : HttpConn → Outcome) (c : HttpConn) where
  pub on_header_get :
      (text : ℕ)
      → (parse_headers c text).1 ≡ get_request
      → on_header os next c text ≡ do_request os (parse_headers c text).0
  unfolding on_header
  on_header_get text e = rw (e, on_header)

  pub on_header_next :
      (text : ℕ)
      → (parse_headers c text).1 ≡ no_request
      → on_header os next c text ≡ next (parse_headers c text).0
  unfolding on_header
  on_header_next text e = rw (e, on_header)

  pub on_line_requestline :
      c.check_state ≡ check_state_requestline
      → on_line os next c ≡ on_request_line next (next_line c) c.start_line
  unfolding on_line
  on_line_requestline st = ground arith

  pub on_line_header :
      c.check_state ≡ check_state_header
      → on_line os next c ≡ on_header os next (next_line c) c.start_line
  unfolding on_line
  on_line_header st = ground arith

  pub on_line_content :
      c.check_state ≡ check_state_content
      → on_line os next c ≡ on_content os (next_line c) c.start_line
  unfolding on_line
  on_line_content st = ground arith

module _ (os : Os) (c : HttpConn) (bs : Bytes) (z : ℕ) (e : EndsAt c z) (h : c.start_line ≤ z) where
  ends_next : EndsAt (next_line c) z
  ends_next = record { below = e.below; nul = e.nul }

  request_line-LineCase : c.check_state ≡ check_state_requestline → LineCase os c bs
  unfolding receive
  request_line-LineCase st =
      let text = c.start_line in
      let r = parse_request_line (next_line c) text in
      let f = parse_request_line-Frame (next_line c) text in
      let q = parse_request_line-receive bs z (next_line c) text ends_next h in
      elim f.moves_on [
        | inr (bad, _) ↦
            ends (done r.0 bad_request)
              (λ next.
                on_line_requestline os next c st ∙ on_request_line_bad next (next_line c) text bad)
              tt
        | inl (good, _) ↦
            goes r.0 f.read_idx_kept f.checked_idx_kept f.start_line_kept
              (λ next.
                on_line_requestline os next c st
                ∙ on_request_line_next next (next_line c) text good)
              (λ next.
                on_line_requestline os next (receive c bs) st
                ∙ on_request_line_next next (next_line (receive c bs)) text (ap (λ p. p.1) q ∙ good)
                ∙ ap (λ p. next p.0) q)
      ]

  header-LineCase : c.check_state ≡ check_state_header → LineCase os c bs
  unfolding receive
  header-LineCase st =
      let text = c.start_line in
      let r = parse_headers (next_line c) text in
      let f = parse_headers_frame (next_line c) text in
      let q = parse_headers-receive bs z (next_line c) text ends_next h in
      elim f.3 [
        | inr last ↦
            ends (do_request os r.0)
              (λ next. on_line_header os next c st ∙ on_header_get os next (next_line c) text last)
              (do_request-IsAnswer os r.0)
        | inl more ↦
            goes r.0 f.0 f.1 f.2
              (λ next. on_line_header os next c st ∙ on_header_next os next (next_line c) text more)
              (λ next.
                on_line_header os next (receive c bs) st
                ∙ on_header_next os next (next_line (receive c bs)) text (ap (λ p. p.1) q ∙ more)
                ∙ ap (λ p. next p.0) q)
      ]

  line-LineCase : (st : CheckState) → c.check_state ≡ st → LineCase os c bs
  line-LineCase check_state_requestline s = request_line-LineCase s
  line-LineCase check_state_header s = header-LineCase s
  line-LineCase check_state_content s =
      ends (on_content os (next_line c) c.start_line) (λ next. on_line_content os next c s)
        (on_content-IsAnswer os (next_line c) c.start_line)

  pub on_line-LineCase : LineCase os c bs
  on_line-LineCase = line-LineCase c.check_state refl
