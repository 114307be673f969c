-- ===== src/Http/Read/Bounds.antt =====
-- Where the indices stand when http_conn::read returns.
use nowcoder_linux_learning.Base.{
  ◌-◌, ◌≤◌, ◌≡◌, refl, ◌==◌, leb, Bool-cases, inl, inr, List, [], ◌∷◌, take, length, length-take,
  arith,
}
use nowcoder_linux_learning.Http.Conn.{HttpConn, read_buffer_size}
use nowcoder_linux_learning.Http.Read.{Arrival, bytes, again, failure, receive, recv_loop, read}

-- The bytes read are more or as many, and lie in the buffer; the other indices are what they were.
pub record Grows (c d : HttpConn) : Type 0 where
  pub more : c.read_idx ≤ d.read_idx
  pub within : d.read_idx ≤ read_buffer_size
  pub checked_kept : d.checked_idx ≡ c.checked_idx
  pub start_kept : d.start_line ≡ c.start_line

Grows-refl : (c : HttpConn) → c.read_idx ≤ read_buffer_size → Grows c c
Grows-refl c h = record { more = omega arith; within = h; checked_kept = refl; start_kept = refl }

recv_loop-Grows :
    (arrivals : List Arrival) (c : HttpConn)
    → c.read_idx ≤ read_buffer_size
    → Grows c (recv_loop arrivals c).0
unfolding recv_loop receive
recv_loop-Grows [] c h = Grows-refl c h
recv_loop-Grows (again ∷ rest) c h = Grows-refl c h
recv_loop-Grows (failure ∷ rest) c h = Grows-refl c h
recv_loop-Grows (bytes bs ∷ rest) c h =
    let got = take (read_buffer_size - c.read_idx) bs in
    let l = length-take (read_buffer_size - c.read_idx) bs in
    let w = recv_loop-Grows rest (receive c got) (omega (arith, l)) in
    elim (Bool-cases (length got == 0)) [
      | inl e ↦ rw e (Grows-refl c h)
      | inr e ↦ rw e (record {
        more = omega (arith, w.more);
        within = w.within;
        checked_kept = w.checked_kept;
        start_kept = w.start_kept;
      })
    ]

-- If m_read_idx lies within the read buffer, then it does so when read returns, whatever has
-- arrived and however read ends; it has not gone back, and m_checked_idx and the start of the line
-- are what they were.
pub read-Grows :
    (arrivals : List Arrival) (c : HttpConn)
    → c.read_idx ≤ read_buffer_size
    → Grows c (read arrivals c).0
unfolding read
read-Grows arrivals c h = elim (Bool-cases (leb read_buffer_size c.read_idx)) [
  | inl e ↦ rw e (Grows-refl c h)
  | inr e ↦ rw e (recv_loop-Grows arrivals c h)
]
