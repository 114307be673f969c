-- ===== src/Http/Process/Resume.antt =====
-- The loop of process_read: its fuel is enough, and a request may arrive in parts.
use nowcoder_linux_learning.Base.{
  ℕ, zero, suc, ◌+◌, ◌-◌, ◌≤◌, ◌<◌, ◌≡◌, ◌≢◌, refl, ap, sym, ◌∙◌, arith, length, [], subst,
}
use nowcoder_linux_learning.CString.{Bytes}
use nowcoder_linux_learning.Http.Conn.{
  HttpConn, CheckState, LineStatus, no_request, check_state_requestline, check_state_header,
  check_state_content, line_ok, line_bad, line_open,
}
use nowcoder_linux_learning.Http.Read.{receive}
use nowcoder_linux_learning.Http.Line.{parse_line}
use nowcoder_linux_learning.Http.Line.Resume.{parse_line-receive, parse_line_stays}
use nowcoder_linux_learning.Http.Line.Complete.{parse_line-FindsLine}
use nowcoder_linux_learning.Http.Process.{
  Os, Outcome, done, out_of_fuel, next_line, on_content, on_line, round, process_loop, process_read,
}
use nowcoder_linux_learning.Http.Process.Cases.{
  goes, ends, on_line-LineCase, on_line_content, on_content-IsAnswer, IsAnswer,
}

-- The indices of the read buffer are in order.
pub record IsOrdered (c : HttpConn) : Type 0 where
  pub line_le : c.start_line ≤ c.checked_idx
  pub checked_le : c.checked_idx ≤ c.read_idx

data RoundCase (os : Os) (c : HttpConn) (bs : Bytes) : Type 0 where
  continues :
      (d : HttpConn)
      → IsOrdered d
      → d.read_idx ≡ c.read_idx
      → c.checked_idx < d.checked_idx
      → ((next : HttpConn → Outcome) → round os next c ≡ next d)
      → ((next : HttpConn → Outcome) → round os next (receive c bs) ≡ next (receive d bs))
      → RoundCase os c bs
  waits :
      (d : HttpConn)
      → IsOrdered d
      → d.read_idx ≡ c.read_idx
      → c.checked_idx ≤ d.checked_idx
      → ((next : HttpConn → Outcome) → round os next c ≡ done d no_request)
      → ((next : HttpConn → Outcome) → round os next (receive d bs) ≡ round os next (receive c bs))
      → RoundCase os c bs
  answers :
      (o : Outcome)
      → ((next : HttpConn → Outcome) → round os next c ≡ o)
      → IsAnswer o
      → RoundCase os c bs

module _ (os : Os) (next : HttpConn → Outcome) (c : HttpConn) where
  pub round_content : c.check_state ≡ check_state_content → round os next c ≡ on_line os next c
  unfolding round
  round_content st = ground arith

  pub round_line_ok :
      c.check_state ≢ check_state_content
      → (parse_line c).1 ≡ line_ok
      → round os next c ≡ on_line os next (parse_line c).0
  unfolding round
  round_line_ok st o = ground arith

  pub round_no_line :
      c.check_state ≢ check_state_content
      → (parse_line c).1 ≢ line_ok
      → round os next c ≡ done (parse_line c).0 no_request
  unfolding round
  round_no_line st o = ground arith

parse_line_frame :
    (c : HttpConn)
    → ((parse_line c).0.start_line ≡ c.start_line)
      × ((parse_line c).0.read_idx ≡ c.read_idx)
      × ((parse_line c).0.check_state ≡ c.check_state)
unfolding parse_line
parse_line_frame c = (refl, refl, refl)

-- Two connections in one state that see the same line do the same.
round_same :
    (os : Os) (next : HttpConn → Outcome) (c d : HttpConn)
    → d.check_state ≡ c.check_state
    → c.check_state ≢ check_state_content
    → parse_line d ≡ parse_line c
    → round os next d ≡ round os next c
unfolding round
round_same os next c d s st p = ground arith

module _ (os : Os) (c : HttpConn) (bs : Bytes) (w : IsOrdered c) where
  ok-RoundCase :
      c.check_state ≢ check_state_content → (parse_line c).1 ≡ line_ok → RoundCase os c bs
  unfolding receive
  ok-RoundCase st o =
      let l = parse_line-FindsLine c bs w.checked_le o in
      let f = parse_line_frame c in
      let c1 = (parse_line c).0 in
      elim (on_line-LineCase os c1 bs (c1.checked_idx - 1)
        (record { below = omega (arith, l.grows, l.within); nul = l.ended })
        (omega (arith, l.grows, w.line_le))) [
          | ends x all never ↦ answers x (λ next. round_line_ok os next c st o ∙ all next) never
          | goes d r k s all more ↦
              continues d
                (record {
                  line_le = omega (arith, s, k);
                  checked_le = omega (arith, r, k, l.within);
                })
                (r ∙ f.1) (omega (arith, k, l.grows))
                (λ next. round_line_ok os next c st o ∙ all next)
                (λ next.
                  round_line_ok os next (receive c bs) st (ap (λ p. p.1) l.same)
                  ∙ ap (λ p. on_line os next p.0) l.same
                  ∙ more next)
        ]

  no-RoundCase :
      c.check_state ≢ check_state_content → (parse_line c).1 ≢ line_ok → RoundCase os c bs
  unfolding receive
  no-RoundCase st o =
      let (e, low, high) = parse_line_stays c bs w.checked_le o in
      let f = parse_line_frame c in
      waits (parse_line c).0
        (record { line_le = omega (arith, f.0, w.line_le); checked_le = omega (arith, f.1) }) f.1
        low (λ next. round_no_line os next c st o)
        (λ next.
          round_same os next (receive c bs) (receive (parse_line c).0 bs) f.2 st
            (parse_line-receive c bs w.checked_le o))

  content-RoundCase : c.check_state ≡ check_state_content → RoundCase os c bs
  content-RoundCase s =
      answers (on_content os (next_line c) c.start_line)
        (λ next. round_content os next c s ∙ on_line_content os next c s)
        (on_content-IsAnswer os (next_line c) c.start_line)

  line-RoundCase :
      c.check_state ≢ check_state_content
      → (st : LineStatus) → (parse_line c).1 ≡ st
      → RoundCase os c bs
  line-RoundCase ne line_ok o = ok-RoundCase ne o
  line-RoundCase ne line_bad o = no-RoundCase ne (λ e. cc)
  line-RoundCase ne line_open o = no-RoundCase ne (λ e. cc)

  state-RoundCase : (st : CheckState) → c.check_state ≡ st → RoundCase os c bs
  state-RoundCase check_state_content s = content-RoundCase s
  state-RoundCase check_state_requestline s = line-RoundCase (λ e. cc) (parse_line c).1 refl
  state-RoundCase check_state_header s = line-RoundCase (λ e. cc) (parse_line c).1 refl

  round-RoundCase : RoundCase os c bs
  round-RoundCase = state-RoundCase c.check_state refl

done-injective : {c d : HttpConn} → done c no_request ≡ done d no_request → c ≡ d
done-injective e = cc

done-ne : {c : HttpConn} → done c no_request ≡ out_of_fuel → ⊥
done-ne e = cc

-- With more fuel than bytes to look at, the result does not depend on the fuel.
process_loop_fuel :
    (os : Os) (f g : ℕ) (c : HttpConn)
    → IsOrdered c
    → c.read_idx - c.checked_idx < f
    → c.read_idx - c.checked_idx < g
    → process_loop os f c ≡ process_loop os g c
unfolding process_loop
process_loop_fuel os zero g c w hf hg = absurd (omega arith)
process_loop_fuel os (suc f) zero c w hf hg = absurd (omega arith)
process_loop_fuel os (suc f) (suc g) c w hf hg = elim (round-RoundCase os c [] w) [
  | continues d v r k all _ ↦
      all (process_loop os f)
      ∙ process_loop_fuel os f g d v (omega (arith, v.checked_le)) (omega (arith, v.checked_le))
      ∙ sym (all (process_loop os g))
  | waits d v r k all _ ↦ all (process_loop os f) ∙ sym (all (process_loop os g))
  | answers o all _ ↦ all (process_loop os f) ∙ sym (all (process_loop os g))
]

-- The state that a loop leaves which read no whole request, and the loop that takes over there.
process_loop-IsOrdered :
    (os : Os) (f : ℕ) (c c' : HttpConn)
    → IsOrdered c
    → process_loop os f c ≡ done c' no_request
    → IsOrdered c' × (c'.read_idx ≡ c.read_idx) × (c.checked_idx ≤ c'.checked_idx)
unfolding process_loop
process_loop-IsOrdered os zero c c' w e = absurd cc
process_loop-IsOrdered os (suc f) c c' w e = elim (round-RoundCase os c [] w) [
  | continues d v r k all _ ↦
      let (v', r', k') = process_loop-IsOrdered os f d c' v (sym (all (process_loop os f)) ∙ e) in
      (v', r' ∙ r, omega (arith, k, k'))
  | waits d v r k all _ ↦
      let same : d ≡ c' = done-injective (sym (all (process_loop os f)) ∙ e) in
      rw (← same) (v, r, k)
  | answers o all a ↦ absurd (subst IsAnswer (sym (all (process_loop os f)) ∙ e) a)
]

process_loop-receive :
    (os : Os) (bs : Bytes) (f g h : ℕ) (c c' : HttpConn)
    → IsOrdered c
    → process_loop os f c ≡ done c' no_request
    → c.read_idx + length bs - c.checked_idx < g
    → c'.read_idx + length bs - c'.checked_idx < h
    → process_loop os h (receive c' bs) ≡ process_loop os g (receive c bs)
unfolding process_loop receive
process_loop-receive os bs zero g h c c' w e hg hh = absurd cc
process_loop-receive os bs (suc f) zero h c c' w e hg hh = absurd (omega arith)
process_loop-receive os bs (suc f) (suc g) h c c' w e hg hh = elim (round-RoundCase os c bs w) [
  | continues d v r k all more ↦
      process_loop-receive os bs f g h d c' v (sym (all (process_loop os f)) ∙ e)
        (omega (arith, v.checked_le, r, k)) hh
      ∙ sym (more (process_loop os g))
  | waits d v r k all more ↦
      let same : d ≡ c' = done-injective (sym (all (process_loop os f)) ∙ e) in
      let fits : d.read_idx + length bs - d.checked_idx < suc g = omega (arith, r, k) in
      rw (← same) (
        process_loop_fuel os h (suc g) (receive d bs)
          (record { line_le = v.line_le; checked_le = omega (arith, v.checked_le) }) (rw same hh)
          fits
        ∙ more (process_loop os g))
  | answers o all a ↦ absurd (subst IsAnswer (sym (all (process_loop os f)) ∙ e) a)
]

process_loop_ends :
    (os : Os) (f : ℕ) (c : HttpConn)
    → IsOrdered c
    → c.read_idx - c.checked_idx < f
    → process_loop os f c ≢ out_of_fuel
unfolding process_loop
process_loop_ends os zero c w h e = absurd (omega arith)
process_loop_ends os (suc f) c w h e = elim (round-RoundCase os c [] w) [
  | continues d v r k all _ ↦
      process_loop_ends os f d v (omega (arith, v.checked_le)) (sym (all (process_loop os f)) ∙ e)
  | waits d v r k all _ ↦ absurd (done-ne (sym (all (process_loop os f)) ∙ e))
  | answers o all a ↦ absurd (subst IsAnswer (sym (all (process_loop os f)) ∙ e) a)
]

-- On a connection whose indices are in order the loop of process_read comes to an end: the fuel of
-- two rounds more than there are bytes to look at is never used up.
pub process_read_ends : (os : Os) (c : HttpConn) → IsOrdered c → process_read os c ≢ out_of_fuel
unfolding process_read
process_read_ends os c w = process_loop_ends os _ c w (omega arith)

-- When process_read waits for more bytes, the start of the line, m_checked_idx and m_read_idx are
-- in this order if they were before; m_read_idx is what it was, and m_checked_idx has not gone
-- back.
pub process_read-IsOrdered :
    (os : Os) (c c' : HttpConn)
    → IsOrdered c
    → process_read os c ≡ done c' no_request
    → IsOrdered c' × (c'.read_idx ≡ c.read_idx) × (c.checked_idx ≤ c'.checked_idx)
unfolding process_read
process_read-IsOrdered os c c' = process_loop-IsOrdered os _ c c'

-- A request may arrive in two parts at any place: on a connection whose indices are in order, if
-- process_read answers the first part by NO_REQUEST, then process_read on the rest, from the state
-- that it left, ends in the same state with the same result as one call on all the bytes.
pub process_read-receive :
    (os : Os) (c c' : HttpConn) (bs : Bytes)
    → IsOrdered c
    → process_read os c ≡ done c' no_request
    → process_read os (receive c' bs) ≡ process_read os (receive c bs)
unfolding process_read receive
process_read-receive os c c' bs w e =
    process_loop-receive os bs _ _ _ c c' w e (omega arith) (omega arith)
