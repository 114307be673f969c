-- ===== src/Chapter4/TcpServer/Slots.antt =====
-- The table of clients.
use nowcoder_linux_learning.Base.{
  ℕ, zero, suc, ◌+◌, ◌-◌, ◌<◌, ◌≤◌, ◌≡◌, ◌≢◌, ◌==◌, ==_true, Bool-cases, Option-cases, inl, inr,
  subst, if◌then◌else◌, none, some, List, [], ◌∷◌, set, length, get_or, get_or-set_self,
  get_or-set_ne, arith,
}
use nowcoder_linux_learning.Http.Conn.{SockAddr}
use nowcoder_linux_learning.Chapter4.TcpServer.{ClientInfo, no_client, find_free, add_client}

-- The entry `k` is the first that is free.
record IsFirst (i : ℕ) (cs : List ClientInfo) (k : ℕ) : Type 0 where
  low : i ≤ k
  high : k < i + length cs
  free : (get_or cs (k - i) no_client).c_sockfd ≡ 0

find_free-some : (i : ℕ) (cs : List ClientInfo) (k : ℕ) → find_free i cs ≡ some k → IsFirst i cs k
unfolding find_free
find_free-some i [] k e = absurd cc
find_free-some i (c ∷ cs) k e = elim (Bool-cases (c.c_sockfd == 0)) [
  | inl a ↦
      let same : i ≡ k = ground (arith, e, a) in
      let z : k - i ≡ 0 = omega (arith, same) in
      record { low = omega (arith, same); high = omega (arith, same); free = rw z (==_true _ _ a) }
  | inr a ↦
      let r = find_free-some (i + 1) cs k (ground (arith, e, a)) in
      let z : k - i ≡ suc (k - (i + 1)) = omega (arith, r.low) in
      record { low = omega (arith, r.low); high = omega (arith, r.high); free = rw z r.free }
]

find_free-none :
    (i : ℕ) (cs : List ClientInfo) (k : ℕ)
    → find_free i cs ≡ none
    → k < length cs
    → (get_or cs k no_client).c_sockfd ≢ 0
unfolding find_free
find_free-none i [] k e h = absurd (omega arith)
find_free-none i (c ∷ cs) zero e h = ground arith
find_free-none i (c ∷ cs) (suc k) e h = find_free-none (i + 1) cs k (ground arith) (omega arith)

-- main of chapter_4/tcp_server.cpp waits with a new client only while every entry of the table is
-- in use.
pub add_client_waits :
    (cs : List ClientInfo) (fd tid k : ℕ) (addr : SockAddr)
    → add_client cs fd tid addr ≡ none
    → k < length cs
    → (get_or cs k no_client).c_sockfd ≢ 0
unfolding add_client
add_client_waits cs fd tid k addr e h = elim (Option-cases (find_free 0 cs)) [
  | inl n ↦ find_free-none 0 cs k n h
  | inr (j, p) ↦ absurd (ground (arith, e, p))
]

-- When main of chapter_4/tcp_server.cpp puts a new client into the table, the entry was free
-- before, it holds the new client then, and every other entry is what it was.
pub add_client_keeps :
    (cs ds : List ClientInfo) (fd tid : ℕ) (addr : SockAddr)
    → add_client cs fd tid addr ≡ some ds
    → (k : ℕ) × ((get_or cs k no_client).c_sockfd ≡ 0)
      × (get_or ds k no_client ≡ record { c_sockfd = fd; tid = tid; addr = addr })
      × ((j : ℕ)
          → get_or ds j no_client
            ≡ (if k == j then get_or ds k no_client else get_or cs j no_client))
unfolding add_client
add_client_keeps cs ds fd tid addr e = elim (Option-cases (find_free 0 cs)) [
  | inl n ↦ absurd (ground (arith, e, n))
  | inr (k, p) ↦
      let r = find_free-some 0 cs k p in
      let z : k - 0 ≡ k = omega arith in
      let d : ds ≡ set cs k (record { c_sockfd = fd; tid = tid; addr = addr }) =
        ground (arith, e, p) in
      (
        k,
        subst (λ n. (get_or cs n no_client).c_sockfd ≡ 0) z r.free,
        rw d (get_or-set_self cs k _ no_client (omega (arith, r.high))),
        λ j. elim (Bool-cases (k == j)) [
          | inl q ↦ let same : k ≡ j = ==_true k j q in rw (q, same)
          | inr q ↦ rw (q, d) (get_or-set_ne cs k j _ no_client (ground (arith, q)))
        ],
      )
]
