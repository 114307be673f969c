-- ===== src/Chapter4/PollServer/Polled.antt =====
-- The entries that chapter_4/poll.cpp tells `poll` of.
use native.Mathlib.Decide.{dec_lt}
use nowcoder_linux_learning.Base.{
  ℕ, zero, suc, ◌+◌, ◌-◌, ◌≤◌, ◌<◌, ◌≡◌, ◌≢◌, ◌==◌, Bool-cases, refl, ap, subst, ◌∙◌, ◌⊎◌, inl, inr,
  Option, none, some, ltb, if◌then◌else◌, List, [], ◌++◌, arith,
}
use nowcoder_linux_learning.Base.Sums.{move}
use nowcoder_linux_learning.Base.Pigeonhole.{pigeonhole}
use nowcoder_linux_learning.CString.{Bytes}
use nowcoder_linux_learning.Chapter4.SelectServer.{Reading}
use nowcoder_linux_learning.Chapter4.PollServer.{
  max_client_num, PollServer, listening, Served, serves, exits, undefined, accept_client,
  serve_entry, serve_all, poll_round, IsNew, IsAccepted, Reach, start, round,
}
use nowcoder_linux_learning.Chapter4.PollServer.Table.{insert_client-cases}

-- The entries hold different descriptors, above the one that listens but for the first, and the
-- entries in use are looked at.
record Inv (listenfd : ℕ) (s : PollServer) : Type 0 where
  first : s.fds 0 ≡ some listenfd
  different : (i j f : ℕ) → s.fds i ≡ some f → s.fds j ≡ some f → i ≡ j
  clients : (i f : ℕ) → s.fds (suc i) ≡ some f → (listenfd < f) × (f ≤ s.cur_max_fd)
  looked_at : (i f : ℕ) → s.fds i ≡ some f → i < s.cur_max_fd

-- Taking clients out keeps the invariant.
record Fewer (s t : PollServer) : Type 0 where
  same_max : t.cur_max_fd ≡ s.cur_max_fd
  same_first : t.fds 0 ≡ s.fds 0
  was_there : (i f : ℕ) → t.fds i ≡ some f → s.fds i ≡ some f

Fewer-Inv : (listenfd : ℕ) (s t : PollServer) → Fewer s t → Inv listenfd s → Inv listenfd t
Fewer-Inv listenfd s t k w = record {
  first = k.same_first ∙ w.first;
  different = λ i j f a b. w.different i j f (k.was_there i f a) (k.was_there j f b);
  clients = λ i f a. rw k.same_max (w.clients i f (k.was_there (suc i) f a));
  looked_at = λ i f a. rw k.same_max (w.looked_at i f (k.was_there i f a));
}

Fewer-refl : (s : PollServer) → Fewer s s
Fewer-refl s = record { same_max = refl; same_first = refl; was_there = λ i f a. a }

Fewer-trans : (s t u : PollServer) → Fewer s t → Fewer t u → Fewer s u
Fewer-trans s t u a b = record {
  same_max = b.same_max ∙ a.same_max;
  same_first = b.same_first ∙ a.same_first;
  was_there = λ i f e. a.was_there i f (b.was_there i f e);
}

serve_entry-Fewer :
    (s t : PollServer) (i : ℕ) (fd : Option ℕ) (r : Option Reading) (now : List (ℕ × Bytes))
    → serve_entry s (suc i) fd r ≡ serves t now
    → Fewer s t
unfolding serve_entry
serve_entry-Fewer s t i fd r now e = record {
  same_max = ground (arith, e);
  same_first = ground (arith, e);
  was_there = λ j f a. ground (arith, e, a);
}

Served-cases :
    (r : Served)
    → ((t : PollServer) × (now : List (ℕ × Bytes)) × (r ≡ serves t now))
      ⊎ ((r ≡ exits) ⊎ (r ≡ undefined))
Served-cases (serves t now) = inl (t, now, refl)
Served-cases exits = inr (inl refl)
Served-cases undefined = inr (inr refl)

serve_all-Fewer :
    (k i : ℕ) (reads : ℕ → Option Reading) (s u : PollServer) (sent out : List (ℕ × Bytes))
    → serve_all k (suc i) reads s sent ≡ serves u out
    → Fewer s u
unfolding serve_all
serve_all-Fewer zero i reads s u sent out e =
    let same : s ≡ u = ground (arith, e) in subst (Fewer s) same (Fewer-refl s)
serve_all-Fewer (suc k) i reads s u sent out e =
    elim (Served-cases (serve_entry s (suc i) (s.fds (suc i)) (reads (suc i)))) [
      | inl (t, now, p) ↦
          let more : serve_all k (suc i + 1) reads t (sent ++ now) ≡ serves u out =
            ground (arith, e, p) in
          let n : suc (i + 1) ≡ suc i + 1 = omega arith in
          let same = ap (λ m. serve_all k m reads t (sent ++ now)) n in
          Fewer-trans s t u (serve_entry-Fewer s t i (s.fds (suc i)) (reads (suc i)) now p)
            (serve_all-Fewer k (i + 1) reads t u (sent ++ now) out (same ∙ more))
      | inr (inl p) ↦ absurd (ground (arith, e, p))
      | inr (inr p) ↦ absurd (ground (arith, e, p))
    ]

abbrev value : Option ℕ → ℕ
value none = 0
value (some f) = f

is_some : (o : Option ℕ) → o ≢ none → o ≡ some (value o)
is_some none h = absurd (h refl)
is_some (some f) h = refl

-- So many clients have descriptors at least as high.
filled_bound :
    (listenfd a : ℕ) (s : PollServer)
    → 0 < listenfd
    → 0 < a
    → ((i j f : ℕ) → s.fds i ≡ some f → s.fds j ≡ some f → i ≡ j)
    → ((i f : ℕ) → s.fds (suc i) ≡ some f → (listenfd < f) × (f ≤ s.cur_max_fd))
    → ((j : ℕ) → 1 ≤ j → j ≤ a → s.fds j ≢ none)
    → a < s.cur_max_fd
filled_bound listenfd a s l p different clients filled =
    let at =
      λ (j : ℕ) (h : j < a). is_some (s.fds (suc j)) (filled (suc j) (omega arith) (omega arith)) in
    let n =
      pigeonhole (s.cur_max_fd - listenfd) a (λ j. value (s.fds (suc j)) - suc listenfd)
        (λ j h. let c = clients j (value (s.fds (suc j))) (at j h) in omega (arith, c.0, c.1))
        (λ i j h k e.
          let c = clients i (value (s.fds (suc i))) (at i h) in
          let d = clients j (value (s.fds (suc j))) (at j k) in
          let same : value (s.fds (suc i)) ≡ value (s.fds (suc j)) = omega (arith, e, c.0, d.0) in
          let r =
            different (suc i) (suc j) (value (s.fds (suc j))) (at i h ∙ ap some same) (at j k) in
          omega (arith, r)) in
    let c = clients 0 (value (s.fds 1)) (at 0 p) in omega (arith, n, c.0, c.1)

-- A new descriptor in an entry that was free, with those in front of it in use.
module _ (listenfd a fd m : ℕ) (s : PollServer) (l : 0 < listenfd) (w : Inv listenfd s)
    (n : IsNew s listenfd fd) where
  abbrev put : PollServer
  put = record { fds = move s.fds a (some fd); cur_max_fd = m }

  put-different : (i j f : ℕ) → put.fds i ≡ some f → put.fds j ≡ some f → i ≡ j
  put-different i j f p q = ground (arith, p, q, w.different i j f, n.unused i, n.unused j)

  put-clients :
      s.cur_max_fd ≤ m → fd ≤ m → (i f : ℕ) → put.fds (suc i) ≡ some f → (listenfd < f) × (f ≤ m)
  put-clients h k i f p = elim (Bool-cases (a == suc i)) [
    | inl e ↦
        let same : fd ≡ f = ground (arith, p, e) in
        (omega (arith, same, n.above), omega (arith, same))
    | inr e ↦ let c = w.clients i f (ground (arith, p, e)) in (c.0, omega (arith, c.1))
  ]

  put-Inv :
      s.cur_max_fd ≤ m
      → fd ≤ m
      → s.fds a ≡ none
      → ((j : ℕ) → 0 ≤ j → j < a → s.fds j ≢ none)
      → Inv listenfd put
  put-Inv h k free before =
      let later : 0 < a = elim (dec_lt 0 a) [
        | no e ↦
            let zero_at : a ≡ 0 = omega arith in absurd (ground (arith, zero_at, w.first, free))
        | yes e ↦ e
      ] in
      let bound = filled_bound listenfd a put l later put-different (put-clients h k) (λ j p q.
        elim (Bool-cases (a == j)) [
          | inl e ↦ λ z. ground (arith, z, e)
          | inr e ↦ λ z. before j (omega arith) (ground (arith, e)) (ground (arith, z, e))
        ]) in
      record {
        first = ground (arith, later, w.first);
        different = put-different;
        clients = put-clients h k;
        looked_at = λ i f p. elim (Bool-cases (a == i)) [
          | inl e ↦ ground (arith, bound, e)
          | inr e ↦ omega (arith, w.looked_at i f (ground (arith, p, e)), h)
        ];
      }

accept_client-Inv :
    (listenfd : ℕ) (s : PollServer) (new : Option ℕ)
    → 0 < listenfd
    → IsAccepted s listenfd new
    → Inv listenfd s
    → Inv listenfd (accept_client s new)
unfolding accept_client
accept_client-Inv listenfd s none l n w = w
accept_client-Inv listenfd s (some fd) l n w =
    let m : ℕ = if ltb s.cur_max_fd fd then fd else s.cur_max_fd in
    let h : s.cur_max_fd ≤ m = ground arith in
    let k : fd ≤ m = ground arith in
    elim (insert_client-cases max_client_num 0 s.fds fd) [
      | inl r ↦ rw r.result (put-Inv listenfd r.at fd m s l w n h k r.free r.before)
      | inr r ↦ rw r.result (record {
        first = w.first;
        different = w.different;
        clients = λ i f p. let c = w.clients i f p in (c.0, omega (arith, c.1));
        looked_at = λ i f p. omega (arith, w.looked_at i f p);
      })
    ]

listening-Inv : (listenfd : ℕ) → Inv listenfd (listening listenfd)
listening-Inv listenfd = record {
  first = refl;
  different = λ i j f p q. ground (arith, p, q);
  clients = λ i f p. absurd (ground (arith, p));
  looked_at = λ i f p. ground (arith, p);
}

Reach-Inv : (listenfd : ℕ) (s : PollServer) → 0 < listenfd → Reach listenfd s → Inv listenfd s
unfolding poll_round
Reach-Inv listenfd s l start = listening-Inv listenfd
Reach-Inv listenfd s l (round {s = t} new reads sent r n e) =
    let u = accept_client t new in
    Fewer-Inv listenfd u s (serve_all-Fewer u.cur_max_fd 0 reads u s [] sent e)
      (accept_client-Inv listenfd t new l n (Reach-Inv listenfd t l r))

-- chapter_4/poll.cpp tells poll of every client, though cur_max_fd is the largest descriptor and
-- not the number of entries: in every state that rounds of the loop reach, each entry in use lies
-- below cur_max_fd, provided that accept returns descriptors that are not in the table and lie
-- above the listening one, which is not 0.
pub Reach-looked_at :
    (listenfd i fd : ℕ) (s : PollServer)
    → 0 < listenfd
    → Reach listenfd s
    → s.fds i ≡ some fd
    → i < s.cur_max_fd
Reach-looked_at listenfd i fd s l r e = (Reach-Inv listenfd s l r).looked_at i fd e
