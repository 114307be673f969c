-- ===== src/Http/Request/Accepts.antt =====
-- A request line of three words is accepted, and its URL is kept.
use nowcoder_linux_learning.Base.{
  ℕ, ◌+◌, ◌≡◌, refl, ap, ◌∙◌, true, false, some, ◌∷◌, ◌++◌, length, drop, set, arith,
}
use native.Mathlib.Nat.{add-zero, add_assoc}
use nowcoder_linux_learning.CString.{
  Bytes, codes, byte, c_string, is_blank, strpbrk, strspn, strcasecmp, strncasecmp,
}
use nowcoder_linux_learning.CString.Words.{
  IsWord, drop-drop, drop-set, byte-drop, drop_past, set_behind, strpbrk-word, strspn-word,
  strspn-IsWord, c_string-word, c_string_blank,
}
use nowcoder_linux_learning.Http.Conn.{HttpConn, no_request, get, check_state_header}
use nowcoder_linux_learning.Http.Request.{
  check_url, check_version, find_version, check_method, parse_request_line,
}

module _ (c : HttpConn) where
  parse_step :
      (text n : ℕ)
      → strpbrk is_blank (c_string c.read_buf text) ≡ some n
      → parse_request_line c text
        ≡ check_method
            (record c { url = some (text + n + 1); read_buf = set c.read_buf (text + n) 0 })
            text
            (text + n + 1)
  unfolding parse_request_line
  parse_step text n e = rw (e, parse_request_line)

  method_step :
      (text u : ℕ)
      → strcasecmp (c_string c.read_buf text) (codes "GET") ≡ true
      → check_method c text u ≡ find_version (record c { method = get }) u
  unfolding check_method
  method_step text u e = rw e

  find_step :
      (u n : ℕ)
      → strspn is_blank (c_string c.read_buf u) ≡ 0
      → strpbrk is_blank (c_string c.read_buf u) ≡ some n
      → find_version c u
        ≡ check_version
            (record c { url = some u; read_buf = set c.read_buf (u + n) 0 })
            u
            (u + n + 1)
  unfolding find_version
  find_step u n s e = rw (s, find_version, add-zero, find_version, e, find_version, s, add-zero)

  version_step :
      (u v : ℕ)
      → strcasecmp
          (c_string c.read_buf (v + strspn is_blank (c_string c.read_buf v)))
          (codes "HTTP/1.1")
        ≡ true
      → check_version c u v
        ≡ check_url (record c { version = some (v + strspn is_blank (c_string c.read_buf v)) }) u
  unfolding check_version
  version_step u v e = rw e

  slash_step :
      (u : ℕ)
      → c.url ≡ some u
      → strncasecmp (c_string c.read_buf u) (codes "http://") 7 ≡ false
      → byte c.read_buf u ≡ b'/'
      → check_url c u ≡ (record c { check_state = check_state_header }, no_request)
  unfolding check_url
  slash_step u e s b = rw s (ground arith)

-- A NUL written behind a word.
cut :
    (buf : Bytes) (off : ℕ) (w s : Bytes) (b : ℕ)
    → drop off buf ≡ w ++ (b ∷ s)
    → (drop off (set buf (off + length w) 0) ≡ w ++ (0 ∷ s))
      × (drop (off + length w + 1) (set buf (off + length w) 0) ≡ s)
cut buf off w s b e =
    let here : drop off (set buf (off + length w) 0) ≡ w ++ (0 ∷ s) =
      rw (drop-set buf off (length w) 0, e) (set_behind w b s 0) in
    (
      here,
      rw
          (
            add_assoc off (length w) 1,
            drop-drop (set buf (off + length w) 0) off (length w + 1),
            here,
          )
          (drop_past w 0 s),
    )

no_scheme : (path : Bytes) → strncasecmp (b'/' ∷ path) (codes "http://") 7 ≡ false
unfolding strncasecmp strcasecmp
no_scheme path = refl

-- The three words of a request line, with a blank between two and a NUL behind the last.
abbrev pub request_line : Bytes → Bytes → Bytes → Bytes → Bytes
request_line method url version rest = method ++ (b' ' ∷ (url ++ (b' ' ∷ (version ++ (0 ∷ rest)))))

-- A request line of three words with a blank between two and a NUL behind the last is accepted if
-- the method is GET and the version HTTP/1.1, both in capitals or not, and the URL begins with a
-- slash: the state moves on to the headers, and m_url is the URL.
pub parse_request_line_accepts :
    (c : HttpConn) (text : ℕ) (method path version rest : Bytes)
    → IsWord method
    → IsWord (b'/' ∷ path)
    → IsWord version
    → strcasecmp method (codes "GET") ≡ true
    → strcasecmp version (codes "HTTP/1.1") ≡ true
    → drop text c.read_buf ≡ request_line method (b'/' ∷ path) version rest
    → let r = parse_request_line c text in
      let u = text + length method + 1 in
      (r.1 ≡ no_request)
      × (r.0.check_state ≡ check_state_header)
      × (r.0.url ≡ some u)
      × (c_string r.0.read_buf u ≡ b'/' ∷ path)
parse_request_line_accepts c text method path version rest hm hu hv gm gv e =
    let url = b'/' ∷ path in
    let tail = url ++ (b' ' ∷ (version ++ (0 ∷ rest))) in
    let u = text + length method + 1 in
    let line = c_string_blank c.read_buf text method tail hm e in
    let found = parse_step c text (length method) (rw line (strpbrk-word method b' ' _ hm refl)) in
    let c1 = record c { url = some u; read_buf = set c.read_buf (text + length method) 0 } in
    let (at_method, at_url) = cut c.read_buf text method tail b' ' e in
    let named =
      method_step c1 text u (rw (c_string-word c1.read_buf text method tail hm at_method) gm) in
    let c2 = record c1 { method = get } in
    let target = c_string_blank c1.read_buf u url (version ++ (0 ∷ rest)) hu at_url in
    let split =
      find_step c2 u (length url) (rw target (strspn-word b'/' path _ hu))
        (rw target (strpbrk-word url b' ' _ hu refl)) in
    let c3 = record c2 { url = some u; read_buf = set c2.read_buf (u + length url) 0 } in
    let v = u + length url + 1 in
    let (at_target, at_version) = cut c2.read_buf u url (version ++ (0 ∷ rest)) b' ' at_url in
    let last = c_string-word c3.read_buf v version rest hv at_version in
    let none_skipped : v + strspn is_blank (c_string c3.read_buf v) ≡ v =
      ap (λ k. v + k) (rw last (strspn-IsWord version hv)) ∙ add-zero v in
    let checked = version_step c3 u v (rw (none_skipped, last) gv) in
    let c4 = record c3 { version = some (v + strspn is_blank (c_string c3.read_buf v)) } in
    let kept = c_string-word c3.read_buf u url (version ++ (0 ∷ rest)) hu at_target in
    let slash =
      slash_step c4 u refl (rw kept (no_scheme path)) (byte-drop c3.read_buf u b'/' _ at_target) in
    let all = found ∙ named ∙ split ∙ checked ∙ slash in
    (
      ap (λ r. r.1) all,
      ap (λ r. r.0.check_state) all,
      ap (λ r. r.0.url) all,
      ap (λ r. c_string r.0.read_buf u) all ∙ kept,
    )
