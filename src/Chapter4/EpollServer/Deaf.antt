-- ===== src/Chapter4/EpollServer/Deaf.antt =====
-- The clients of chapter_4/epoll.cpp, and what they are registered for.
use nowcoder_linux_learning.Base.{
  ℕ, zero, suc, ◌≡◌, ◌≢◌, refl, ap, sym, subst, ◌∙◌, ◌⊎◌, inl, inr, Bool, true, false, Bool-cases,
  ◌==◌, ==_true, if◌then◌else◌, Option, none, some, List, [], ◌∷◌, ◌++◌, arith,
}
use nowcoder_linux_learning.Base.Sums.{move}
use nowcoder_linux_learning.Base.Sorted.{All, All-map}
use nowcoder_linux_learning.CString.{Bytes}
use nowcoder_linux_learning.Chapter4.EpollServer.{
  Interest, Epoll, Event, Reading, text, closed, again, failed, Served, serves, returns, waits,
  out_of_fuel, listening, accept_client, read_client, serve_client, serve_event, Arrival,
  epoll_round,
}

-- Rounds from the start on.
pub data Reach (listen_fd : ℕ) : Epoll → Type 0 where
  start : Reach listen_fd (listening listen_fd)
  round :
      {s t : Epoll} (f : ℕ) (arrivals : List Arrival) (sent : List (ℕ × Bytes))
      → Reach listen_fd s
      → epoll_round f s arrivals [] ≡ serves t sent
      → Reach listen_fd t

-- `epoll_wait` reports a descriptor that is registered, and EPOLLIN if it is registered for that.
pub record IsReported (s : Epoll) (ev : Event) : Type 0 where
  pub interest : Interest
  pub registered : s.interest ev.fd ≡ some interest
  pub asked_for : ev.has_in ≡ true → interest.epollin ≡ true

-- No client is registered for EPOLLIN.
record Inv (listen_fd : ℕ) (s : Epoll) : Type 0 where
  listens : s.listen_fd ≡ listen_fd
  deaf : (fd : ℕ) (i : Interest) → fd ≢ listen_fd → s.interest fd ≡ some i → i.epollin ≡ false

accept_client-Inv : (l : ℕ) (s : Epoll) (new : Option ℕ) → Inv l s → Inv l (accept_client s new)
unfolding accept_client
accept_client-Inv l s none w = w
accept_client-Inv l s (some fd) w = record {
  listens = w.listens;
  deaf = λ k i h e. ground (arith, e, w.deaf k i h);
}

read_client-Inv :
    (next : List Reading → List (ℕ × Bytes) → Served) (l fd : ℕ) (s t : Epoll)
    (reads : List Reading) (sent out : List (ℕ × Bytes))
    → ((rest : List Reading) (now : List (ℕ × Bytes)) → next rest now ≡ serves t out → Inv l t)
    → read_client next s fd reads sent ≡ serves t out
    → Inv l s
    → Inv l t
unfolding read_client
read_client-Inv next l fd s t [] sent out h e w = absurd cc
read_client-Inv next l fd s t (text bs ∷ rest) sent out h e w = h rest _ e
read_client-Inv next l fd s t (again ∷ rest) sent out h e w =
    let same : s ≡ t = cc in subst (Inv l) same w
read_client-Inv next l fd s t (closed ∷ rest) sent out h e w =
    let d : Epoll = record s {
      interest = move s.interest fd none;
      is_open = move s.is_open fd false;
    } in
    let same : d ≡ t = cc in
    let v : Inv l d = record {
      listens = w.listens;
      deaf = λ k i n a. ground (arith, a, w.deaf k i n);
    } in
    subst (Inv l) same v
read_client-Inv next l fd s t (failed ∷ rest) sent out h e w = absurd cc

serve_client_step :
    (f : ℕ) (s : Epoll) (ev : Event) (reads : List Reading) (sent : List (ℕ × Bytes)) (b : Bool)
    → ev.has_in ≡ b
    → serve_client (suc f) s ev reads sent ≡ (
        if b
        then read_client (serve_client f s ev) s ev.fd reads sent
        else serve_client f s ev reads sent)
unfolding serve_client
serve_client_step f s ev reads sent b e =
    ap
      (λ c.
        if c
        then read_client (serve_client f s ev) s ev.fd reads sent
        else serve_client f s ev reads sent)
      e

serve_client-Inv :
    (f l : ℕ) (s t : Epoll) (ev : Event) (reads : List Reading) (sent out : List (ℕ × Bytes))
    → serve_client f s ev reads sent ≡ serves t out
    → Inv l s
    → Inv l t
unfolding serve_client
serve_client-Inv zero l s t ev reads sent out e w = absurd cc
serve_client-Inv (suc f) l s t ev reads sent out e w = elim (Bool-cases ev.has_in) [
  | inr b ↦
      serve_client-Inv f l s t ev reads sent out
        (sym (serve_client_step f s ev reads sent false b) ∙ e) w
  | inl b ↦
      read_client-Inv (serve_client f s ev) l ev.fd s t reads sent out
        (λ rest now q. serve_client-Inv f l s t ev rest now out q w)
        (sym (serve_client_step f s ev reads sent true b) ∙ e) w
]

Served-cases :
    (r : Served)
    → ((t : Epoll) × (now : List (ℕ × Bytes)) × (r ≡ serves t now))
      ⊎ ((r ≡ returns) ⊎ ((r ≡ waits) ⊎ (r ≡ out_of_fuel)))
Served-cases (serves t now) = inl (t, now, refl)
Served-cases returns = inr (inl refl)
Served-cases waits = inr (inr (inl refl))
Served-cases out_of_fuel = inr (inr (inr refl))

serve_event-Inv :
    (f l : ℕ) (s t : Epoll) (ev : Event) (new : Option ℕ) (reads : List Reading)
    (out : List (ℕ × Bytes))
    → serve_event f s ev new reads ≡ serves t out
    → Inv l s
    → Inv l t
unfolding serve_event
serve_event-Inv f l s t ev new reads out e w = elim (Bool-cases (ev.fd == s.listen_fd)) [
  | inl b ↦
      let same : accept_client s new ≡ t = cc (rw b at e) in
      subst (Inv l) same (accept_client-Inv l s new w)
  | inr b ↦ serve_client-Inv f l s t ev reads [] out (rw b at e) w
]

epoll_round-Inv :
    (f l : ℕ) (s t : Epoll) (arrivals : List Arrival) (sent out : List (ℕ × Bytes))
    → epoll_round f s arrivals sent ≡ serves t out
    → Inv l s
    → Inv l t
unfolding epoll_round
epoll_round-Inv f l s t [] sent out e w = let same : s ≡ t = cc in subst (Inv l) same w
epoll_round-Inv f l s t (a ∷ more) sent out e w =
    elim (Served-cases (serve_event f s a.event a.new a.reads)) [
      | inl (u, now, p) ↦
          epoll_round-Inv f l u t more (sent ++ now) out (cc (rw (p, epoll_round) at e))
            (serve_event-Inv f l s u a.event a.new a.reads now p w)
      | inr p ↦ absurd (ground (arith, e, p))
    ]

Reach-Inv : (l : ℕ) (s : Epoll) → Reach l s → Inv l s
Reach-Inv l s start = record { listens = refl; deaf = λ fd i h e. ground (arith, h, e) }
Reach-Inv l s (round {s = t} f arrivals sent r e) =
    epoll_round-Inv f l t s arrivals [] sent e (Reach-Inv l t r)

-- What is reported for a client comes without EPOLLIN.
abbrev IsDeaf : ℕ → Event → Type 0
IsDeaf l ev = ev.fd ≢ l → ev.has_in ≡ false

reported-IsDeaf : (l : ℕ) (s : Epoll) (ev : Event) → Inv l s → IsReported s ev → IsDeaf l ev
reported-IsDeaf l s ev w r h = elim (Bool-cases ev.has_in) [
  | inr b ↦ b
  | inl b ↦ absurd (cc (r.asked_for b, w.deaf ev.fd r.interest h r.registered))
]

spins :
    (f : ℕ) (s : Epoll) (ev : Event) (reads : List Reading) (sent : List (ℕ × Bytes))
    → ev.has_in ≡ false
    → serve_client f s ev reads sent ≡ out_of_fuel
unfolding serve_client
spins zero s ev reads sent h = refl
spins (suc f) s ev reads sent h =
    serve_client_step f s ev reads sent false h ∙ spins f s ev reads sent h

-- An event is one of a client, and the loop hangs, or a new client is accepted.
serve_event_lem :
    (f : ℕ) (s : Epoll) (ev : Event) (new : Option ℕ) (reads : List Reading)
    → IsDeaf s.listen_fd ev
    → ((ev.fd ≢ s.listen_fd) × (serve_event f s ev new reads ≡ out_of_fuel))
      ⊎ ((ev.fd ≡ s.listen_fd) × (serve_event f s ev new reads ≡ serves (accept_client s new) []))
unfolding serve_event
serve_event_lem f s ev new reads d = elim (Bool-cases (ev.fd == s.listen_fd)) [
  | inl b ↦ inr (==_true ev.fd s.listen_fd b, rw b refl)
  | inr b ↦
      let n : ev.fd ≢ s.listen_fd = ground (arith, b) in inl (n, rw b (spins f s ev reads [] (d n)))
]

accept_client-listen_fd :
    (s : Epoll) (new : Option ℕ) → (accept_client s new).listen_fd ≡ s.listen_fd
unfolding accept_client
accept_client-listen_fd s none = refl
accept_client-listen_fd s (some fd) = refl

-- The events in front of one of a client are for the listening descriptor, or hang already.
hangs :
    (f l : ℕ) (s : Epoll) (before after : List Arrival) (c : Arrival) (sent : List (ℕ × Bytes))
    → s.listen_fd ≡ l
    → All (λ a. IsDeaf l a.event) before
    → IsDeaf l c.event
    → c.event.fd ≢ l
    → epoll_round f s (before ++ (c ∷ after)) sent ≡ out_of_fuel
unfolding epoll_round
hangs f l s [] after c sent k d h n = elim (serve_event_lem f s c.event c.new c.reads (rw k h)) [
  | inl (_, e) ↦ rw (e, epoll_round) refl
  | inr (at, _) ↦ absurd (n (at ∙ k))
]
hangs f l s (a ∷ before) after c sent k d h n =
    elim (serve_event_lem f s a.event a.new a.reads (rw k d.0)) [
      | inl (_, e) ↦ rw (e, epoll_round) refl
      | inr (_, e) ↦
          rw (e, epoll_round)
            (hangs f l (accept_client s a.new) before after c (sent ++ [])
              (accept_client-listen_fd s a.new ∙ k) d.1 h n)
    ]

-- chapter_4/epoll.cpp hangs at the first event of a client: in every state that rounds reach, a
-- round with such an event does not end, whatever the fuel, provided that epoll_wait reports
-- EPOLLIN only for descriptors that are registered for it.
pub epoll_round-hangs :
    (l f : ℕ) (s : Epoll) (before after : List Arrival) (c : Arrival)
    → Reach l s
    → All (λ a. IsReported s a.event) before
    → IsReported s c.event
    → c.event.fd ≢ l
    → epoll_round f s (before ++ (c ∷ after)) [] ≡ out_of_fuel
epoll_round-hangs l f s before after c r b h n =
    let w = Reach-Inv l s r in
    hangs f l s before after c [] w.listens
      (All-map (λ a. IsReported s a.event) (λ (a : Arrival). IsDeaf l a.event) before
        (λ a. reported-IsDeaf l s a.event w) b)
      (reported-IsDeaf l s c.event w h) n
