-- ===== src/Http/Request/Local.antt =====
-- parse_request_line looks at its line only: bytes that arrive behind the line change neither what
-- it does nor what it returns.
use mathlib.Core.Option
use nowcoder_linux_learning.Base.{
  ℕ, ◌+◌, ◌≤◌, ◌<◌, ◌≡◌, refl, Bool, ◌==◌, Option, none, some, Option-cases, inl, inr, Bool-cases,
  set, overwrite, get_or-overwrite_below, set-overwrite_below, arith,
}
use nowcoder_linux_learning.CString.{
  Bytes, codes, byte, c_string, is_blank, strpbrk, strspn, strchr, strcasecmp, strncasecmp,
}
use nowcoder_linux_learning.CString.Bounds.{
  c_string-overwrite, length-c_string-le, strpbrk-lt, strspn-le, strncasecmp-le,
}
use nowcoder_linux_learning.Http.Conn.{HttpConn, HttpCode, get}
use nowcoder_linux_learning.Http.Read.{receive}
use nowcoder_linux_learning.Http.Line.Complete.{byte-set_keeps_nul}
use nowcoder_linux_learning.Http.Request.{
  check_slash, check_url, check_version, find_version, check_method, parse_request_line,
}

-- The line of `c` ends at `z`, among the bytes read.
pub record EndsAt (c : HttpConn) (z : ℕ) : Type 0 where
  pub below : z < c.read_idx
  pub nul : byte c.read_buf z ≡ 0

abbrev pub receive_in : Bytes → HttpConn × HttpCode → HttpConn × HttpCode
receive_in bs r = (receive r.0 bs, r.1)

some_value : {a b : ℕ} → some a ≡ some b → a ≡ b
some_value e = cc

map-eq-some {ℓ κ} :
    {A : Type ℓ} {B : Type κ} (f : A → B) (o : Option A) {b : B}
    → Option.map f o ≡ some b
    → (a : A) × (o ≡ some a) × (f a ≡ b)
map-eq-some f none e = cc
map-eq-some f (some a) e = (a, refl, cc)

module _ (bs : Bytes) (z : ℕ) where
  pub c_string-receive :
      (c : HttpConn) (off : ℕ)
      → EndsAt c z
      → off ≤ z
      → c_string (receive c bs).read_buf off ≡ c_string c.read_buf off
  unfolding receive
  c_string-receive c off e h = c_string-overwrite c.read_buf bs c.read_idx off z h e.below e.nul

  pub span-le :
      (c : HttpConn) (off : ℕ)
      → EndsAt c z
      → off ≤ z
      → off + strspn is_blank (c_string c.read_buf off) ≤ z
  span-le c off e h = omega (
    arith,
    length-c_string-le c.read_buf off z h e.nul,
    strspn-le is_blank (c_string c.read_buf off),
  )

  break-lt :
      (accept : ℕ → Bool) (c : HttpConn) (off n : ℕ)
      → EndsAt c z
      → off ≤ z
      → strpbrk accept (c_string c.read_buf off) ≡ some n
      → off + n < z
  break-lt accept c off n e h q = omega (
    arith,
    length-c_string-le c.read_buf off z h e.nul,
    strpbrk-lt accept (c_string c.read_buf off) n q,
  )

  chr-lt :
      (c : HttpConn) (off n : ℕ)
      → EndsAt c z
      → off ≤ z
      → strchr (c_string c.read_buf off) b'/' ≡ some n
      → off + n < z
  unfolding strchr
  chr-lt c off n = break-lt (λ d. d == b'/') c off n

  check_slash-receive :
      (c : HttpConn) (o : Option ℕ)
      → EndsAt c z
      → c.url ≡ o
      → ((u : ℕ) → o ≡ some u → u ≤ z)
      → check_slash (receive c bs) ≡ receive_in bs (check_slash c)
  unfolding check_slash receive
  check_slash-receive c none e q h = rw (q, check_slash)
  check_slash-receive c (some u) e q h =
      let at_u : byte (overwrite c.read_buf c.read_idx bs) u ≡ byte c.read_buf u =
        get_or-overwrite_below c.read_buf c.read_idx bs u 0 (omega (arith, h u refl, e.below)) in
      ground (arith, at_u)

  check_url-receive :
      (c : HttpConn) (u : ℕ)
      → EndsAt c z
      → u ≤ z
      → c.url ≡ some u
      → check_url (receive c bs) u ≡ receive_in bs (check_url c u)
  unfolding check_url receive
  check_url-receive c u e h q =
      elim (Bool-cases (strncasecmp (c_string c.read_buf u) (codes "http://") 7)) [
        | inr a ↦
            rw (c_string-receive c u e h, a)
              (check_slash-receive c (some u) e q (λ v p. omega (arith, some_value p)))
        | inl a ↦
            let reach : u + 7 ≤ z = omega (
              arith,
              strncasecmp-le (c_string c.read_buf u) (codes "http://") 7 a,
              length-c_string-le c.read_buf u z h e.nul,
            ) in
            let slash : (v : ℕ)
                → Option.map (λ n. u + 7 + n) (strchr (c_string c.read_buf (u + 7)) b'/') ≡ some v
                → v ≤ z =
              λ v p.
                let (n, found, at) =
                  map-eq-some (λ n. u + 7 + n) (strchr (c_string c.read_buf (u + 7)) b'/') p in
                omega (arith, at, chr-lt c (u + 7) n e reach found) in
            rw (c_string-receive c u e h, a, c_string-receive c (u + 7) e reach)
              (check_slash-receive
                (record c {
                  url = Option.map (λ n. u + 7 + n) (strchr (c_string c.read_buf (u + 7)) b'/');
                })
                _ (record { below = e.below; nul = e.nul }) refl (λ v p. slash v p))
      ]

  check_version-receive :
      (c : HttpConn) (u v : ℕ)
      → EndsAt c z
      → u ≤ z
      → v ≤ z
      → c.url ≡ some u
      → check_version (receive c bs) u v ≡ receive_in bs (check_version c u v)
  unfolding check_version receive
  check_version-receive c u v e h hv q =
      let w = v + strspn is_blank (c_string c.read_buf v) in
      elim (Bool-cases (strcasecmp (c_string c.read_buf w) (codes "HTTP/1.1"))) [
        | inr a ↦ rw (c_string-receive c v e hv, c_string-receive c w e (span-le c v e hv), a)
        | inl a ↦
            rw (c_string-receive c v e hv, c_string-receive c w e (span-le c v e hv), a)
              (check_url-receive (record c { version = some w }) u
                (record { below = e.below; nul = e.nul }) h q)
      ]

  -- A NUL written at or in front of `z` leaves the end where it is.
  set-EndsAt :
      (c : HttpConn) (o : Option ℕ) (i : ℕ)
      → EndsAt c z
      → EndsAt (record c { url = o; read_buf = set c.read_buf i 0 }) z
  set-EndsAt c o i e = record { below = e.below; nul = byte-set_keeps_nul c.read_buf i z e.nul }

  find_version-receive :
      (c : HttpConn) (u : ℕ)
      → EndsAt c z
      → u ≤ z
      → find_version (receive c bs) u ≡ receive_in bs (find_version c u)
  unfolding find_version receive
  find_version-receive c u e h =
      let v = u + strspn is_blank (c_string c.read_buf u) in
      let hv : v ≤ z = span-le c u e h in
      let t = c_string-receive c u e h in
      let t' = c_string-receive c v e hv in
      elim (Option-cases (strpbrk is_blank (c_string c.read_buf v))) [
        | inl a ↦ rw (t, find_version, t', find_version, a, t)
        | inr (n, a) ↦
            let lt : v + n < z = break-lt is_blank c v n e hv a in
            rw
              (
                t,
                find_version,
                t',
                a,
                find_version,
                t,
                set-overwrite_below c.read_buf c.read_idx bs (v + n) 0 (omega (arith, e.below)),
              )
              (check_version-receive
                (record c { url = some v; read_buf = set c.read_buf (v + n) 0 }) v (v + n + 1)
                (set-EndsAt c (some v) (v + n) e) hv (omega arith) refl)
      ]

  check_method-receive :
      (c : HttpConn) (text u : ℕ)
      → EndsAt c z
      → text ≤ z
      → u ≤ z
      → check_method (receive c bs) text u ≡ receive_in bs (check_method c text u)
  unfolding check_method receive
  check_method-receive c text u e h hu =
      elim (Bool-cases (strcasecmp (c_string c.read_buf text) (codes "GET"))) [
        | inr a ↦ rw (c_string-receive c text e h, a)
        | inl a ↦
            rw (c_string-receive c text e h, a)
              (find_version-receive (record c { method = get }) u
                (record { below = e.below; nul = e.nul }) hu)
      ]

  -- For a line that starts at `text` and has its NUL at `z`, among the bytes read,
  -- parse_request_line looks at the line only: bytes that arrive behind change neither what it does
  -- nor what it returns.
  pub parse_request_line-receive :
      (c : HttpConn) (text : ℕ)
      → EndsAt c z
      → text ≤ z
      → parse_request_line (receive c bs) text ≡ receive_in bs (parse_request_line c text)
  unfolding parse_request_line receive
  parse_request_line-receive c text e h =
      let t = c_string-receive c text e h in
      elim (Option-cases (strpbrk is_blank (c_string c.read_buf text))) [
        | inl a ↦ rw (t, a, parse_request_line)
        | inr (n, a) ↦
            let lt : text + n < z = break-lt is_blank c text n e h a in
            rw
              (
                t,
                a,
                parse_request_line,
                set-overwrite_below c.read_buf c.read_idx bs (text + n) 0 (omega (arith, e.below)),
              )
              (check_method-receive
                (record c { url = some (text + n + 1); read_buf = set c.read_buf (text + n) 0 })
                text (text + n + 1) (set-EndsAt c (some (text + n + 1)) (text + n) e) h
                (omega arith))
      ]
