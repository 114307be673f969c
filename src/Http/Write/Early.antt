-- ===== src/Http/Write/Early.antt =====
-- When http_conn::write takes a response for sent.
use nowcoder_linux_learning.Base.{
  ℕ, ◌+◌, ◌*◌, ◌≤◌, ◌<◌, ◌≡◌, true, false, ◌==◌, leb, some, List, [], ◌∷◌, ◌++◌, pos, sub_ℕ, arith,
  map, ◌∙◌,
}
use mathlib.Core.List.{append-nil, append_assoc}
use native.Mathlib.Nat.{add_assoc}
use nowcoder_linux_learning.Http.Conn.{HttpConn}
use nowcoder_linux_learning.Http.Write.{
  Effect, writev, epollout, modfd, Writev, sent, again, iovecs, subtract, at_most, finish_write,
  write_loop, write,
}

abbrev pub total : List ℕ → ℕ
total [] = 0
total (n ∷ ns) = n + total ns

abbrev pub sends : HttpConn → List ℕ → List Effect
sends c [] = []
sends c (n ∷ ns) = writev (iovecs c) n ∷ sends c ns

-- `bytes_to_send` and `bytes_have_send` once `s` of `w` bytes are sent.
stops_iff : (w s n : ℕ) → at_most (subtract (sub_ℕ w s) n) (s + n) ≡ leb w (2 * (s + n))
stops_iff w s n = ground arith

subtract_step : (w s n : ℕ) → subtract (sub_ℕ w s) n ≡ sub_ℕ w (s + n)
subtract_step w s n = ground arith

-- As long as twice the bytes sent are fewer than `w`, the loop goes on with the same iovecs.
write_loop_goes_on :
    (ns : List ℕ) (rest : List Writev) (c : HttpConn) (w s : ℕ) (before : List Effect)
    → 2 * (s + total ns) < w
    → write_loop (map sent ns ++ rest) c (sub_ℕ w s) s before
      ≡ write_loop rest c (sub_ℕ w (s + total ns)) (s + total ns) (before ++ sends c ns)
unfolding write_loop
write_loop_goes_on [] rest c w s before h = let e : s + 0 ≡ s = omega arith in rw (e, append-nil)
write_loop_goes_on (n ∷ ns) rest c w s before h =
    let on : leb w (2 * (s + n)) ≡ false = ground arith in
    rw (stops_iff w s n, on, subtract_step w s n)
      (write_loop_goes_on ns rest c w (s + n) (before ++ writev (iovecs c) n ∷ []) (omega arith)
        ∙ rw (add_assoc s n (total ns), append_assoc))

module _ (c : HttpConn) (ns : List ℕ) (rest : List Writev) (h : 2 * total ns < c.write_idx) where
  write_goes_on :
      (next : Writev)
      → write (map sent ns ++ (next ∷ rest)) c
        ≡ write_loop (next ∷ rest) c (sub_ℕ c.write_idx (total ns)) (total ns) (sends c ns)
  unfolding write
  write_goes_on next =
      let some_bytes : (c.write_idx == 0) ≡ false = ground arith in
      let start : pos c.write_idx ≡ sub_ℕ c.write_idx 0 = ground arith in
      let e : 0 + total ns ≡ total ns = omega arith in
      rw some_bytes
        (rw start (write_loop_goes_on ns (next ∷ rest) c c.write_idx 0 [] (omega arith) ∙ rw e))

  -- As long as the bytes sent are fewer than half of m_write_idx, write goes on. It returns after
  -- the first writev with which they come to half of m_write_idx, gives up the mapping, and sends
  -- nothing else: neither the length of the file nor the second half of the head counts.
  pub write_stops :
      (n : ℕ)
      → c.write_idx ≤ 2 * (total ns + n)
      → write (map sent ns ++ (sent n ∷ rest)) c
        ≡ some (finish_write c (sends c ns ++ (writev (iovecs c) n ∷ [])))
  unfolding write_loop
  write_stops n k =
      let off : leb c.write_idx (2 * (total ns + n)) ≡ true = ground arith in
      write_goes_on (sent n) ∙ rw (stops_iff c.write_idx (total ns) n, off)

  -- When the socket is full after fewer bytes than half of m_write_idx, write leaves the object as
  -- it was: the iovecs that the next call sends from start at the first byte again, however many
  -- bytes were sent.
  pub write_again :
      write (map sent ns ++ (again ∷ rest)) c
      ≡ some (record { conn = c; effects = sends c ns ++ modfd c.sockfd epollout; kept = true })
  unfolding write_loop
  write_again = write_goes_on again
