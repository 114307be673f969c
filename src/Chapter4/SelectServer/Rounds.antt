-- ===== src/Chapter4/SelectServer/Rounds.antt =====
-- What a round leaves of each client.
use nowcoder_linux_learning.Base.{
  ℕ, zero, suc, ◌+◌, ◌-◌, ◌<◌, ◌≤◌, ◌≡◌, ◌≢◌, refl, ap, ◌⊎◌, ◌∙◌, subst, Bool, false, ◌==◌, ==_true,
  Bool-cases, inl, inr, Option, some, List, [], ◌++◌, arith,
}
use nowcoder_linux_learning.CString.{Bytes}
use nowcoder_linux_learning.Chapter4.SelectServer.{
  Selector, Reading, closed, NewClient, not_asked, accept_failed, accepted, Served, serves, exits,
  undefined, accept_client, serve_client, serve_all, select_round,
}

-- Whether a client stays, by what `read` returns for it.
abbrev pub stays : Option Reading → Bool → Bool
stays (some closed) b = false
stays _ b = b

-- The client `fd` of `t`, against the one of `s`.
pub record Follows (reads : ℕ → Option Reading) (s t : Selector) (fd : ℕ) : Type 0 where
  pub set_follows : t.read_set fd ≡ stays (reads fd) (s.read_set fd)
  pub open_follows : t.is_open fd ≡ stays (reads fd) (s.is_open fd)

record Keeps (s t : Selector) (fd : ℕ) : Type 0 where
  set_kept : t.read_set fd ≡ s.read_set fd
  open_kept : t.is_open fd ≡ s.is_open fd

serve_client_other :
    (s t : Selector) (i fd : ℕ) (r : Option Reading) (now : List (ℕ × Bytes))
    → i ≢ fd
    → serve_client s i r ≡ serves t now
    → Keeps s t fd
unfolding serve_client
serve_client_other s t i fd r now h e = record {
  set_kept = ground (arith, e, h);
  open_kept = ground (arith, e, h);
}

serve_client_self :
    (s t : Selector) (i : ℕ) (reads : ℕ → Option Reading) (now : List (ℕ × Bytes))
    → serve_client s i (reads i) ≡ serves t now
    → Follows reads s t i
unfolding serve_client
serve_client_self s t i reads now e = record {
  set_follows = ground (arith, e);
  open_follows = ground (arith, e);
}

-- A loop that comes to its end has served its first client, and then the others.
record First (k i : ℕ) (reads : ℕ → Option Reading) (s u : Selector) (sent out : List (ℕ × Bytes))
    : Type 0 where
  state : Selector
  now : List (ℕ × Bytes)
  served : serve_client s i (reads i) ≡ serves state now
  others : serve_all k (i + 1) reads state (sent ++ now) ≡ serves u out

Served-cases :
    (r : Served)
    → ((t : Selector) × (now : List (ℕ × Bytes)) × (r ≡ serves t now))
      ⊎ ((r ≡ exits) ⊎ (r ≡ undefined))
Served-cases (serves t now) = inl (t, now, refl)
Served-cases exits = inr (inl refl)
Served-cases undefined = inr (inr refl)

serve_all-First :
    (k i : ℕ) (reads : ℕ → Option Reading) (s u : Selector) (sent out : List (ℕ × Bytes))
    → serve_all (suc k) i reads s sent ≡ serves u out
    → First k i reads s u sent out
unfolding serve_all
serve_all-First k i reads s u sent out e = elim (Served-cases (serve_client s i (reads i))) [
  | inl (t, now, p) ↦ record { state = t; now = now; served = p; others = ground (arith, e, p) }
  | inr (inl p) ↦ absurd (ground (arith, e, p))
  | inr (inr p) ↦ absurd (ground (arith, e, p))
]

-- A client that the loop has passed is left alone.
serve_all_passed :
    (k i fd : ℕ) (reads : ℕ → Option Reading) (s u : Selector) (sent out : List (ℕ × Bytes))
    → fd < i
    → serve_all k i reads s sent ≡ serves u out
    → Keeps s u fd
unfolding serve_all
serve_all_passed zero i fd reads s u sent out h e = record {
  set_kept = ground (arith, e);
  open_kept = ground (arith, e);
}
serve_all_passed (suc k) i fd reads s u sent out h e =
    let f = serve_all-First k i reads s u sent out e in
    let a = serve_client_other s f.state i fd (reads i) f.now (omega arith) f.served in
    let b =
      serve_all_passed k (i + 1) fd reads f.state u (sent ++ f.now) out (omega arith) f.others in
    record { set_kept = b.set_kept ∙ a.set_kept; open_kept = b.open_kept ∙ a.open_kept }

serve_all-Follows :
    (k i fd : ℕ) (reads : ℕ → Option Reading) (s u : Selector) (sent out : List (ℕ × Bytes))
    → i ≤ fd
    → fd < i + k
    → serve_all k i reads s sent ≡ serves u out
    → Follows reads s u fd
serve_all-Follows zero i fd reads s u sent out l h e = absurd (omega arith)
serve_all-Follows (suc k) i fd reads s u sent out l h e =
    let f = serve_all-First k i reads s u sent out e in
    elim (Bool-cases (i == fd)) [
      | inl q ↦
          let same : i ≡ fd = ==_true i fd q in
          let a =
            subst (Follows reads s f.state) same
              (serve_client_self s f.state i reads f.now f.served) in
          let b =
            serve_all_passed k (i + 1) fd reads f.state u (sent ++ f.now) out (omega (arith, same))
              f.others in
          record {
            set_follows = b.set_kept ∙ a.set_follows;
            open_follows = b.open_kept ∙ a.open_follows;
          }
      | inr q ↦
          let apart : i ≢ fd = ground (arith, q) in
          let a = serve_client_other s f.state i fd (reads i) f.now apart f.served in
          let b =
            serve_all-Follows k (i + 1) fd reads f.state u (sent ++ f.now) out
              (ground (arith, apart)) (omega arith) f.others in
          record {
            set_follows = b.set_follows ∙ ap (stays (reads fd)) a.set_kept;
            open_follows = b.open_follows ∙ ap (stays (reads fd)) a.open_kept;
          }
    ]

accept_client-listenfd :
    (s t : Selector) (new : NewClient) → accept_client s new ≡ some t → t.listenfd ≡ s.listenfd
unfolding accept_client
accept_client-listenfd s t not_asked e = ground (arith, e)
accept_client-listenfd s t accept_failed e = absurd cc
accept_client-listenfd s t (accepted fd) e = ground (arith, e)

select_round-accepted :
    (s t u : Selector) (new : NewClient) (reads : ℕ → Option Reading) (out : List (ℕ × Bytes))
    → accept_client s new ≡ some t
    → select_round s new reads ≡ serves u out
    → serve_all (t.max_fd - t.listenfd) (t.listenfd + 1) reads t [] ≡ serves u out
unfolding select_round
select_round-accepted s t u new reads out a e = ground (arith, a, e)

-- When a round of the loop of chapter_4/select.cpp comes to its end, and accept, if it was called,
-- has returned a descriptor below FD_SETSIZE, then each descriptor above the listening one, up to
-- MAXFD, has been taken off u_read_set and closed if read found its client gone, and otherwise is
-- in u_read_set and open as it was once the new client was accepted.
pub select_round-Follows :
    (s t u : Selector) (new : NewClient) (reads : ℕ → Option Reading) (out : List (ℕ × Bytes))
    (fd : ℕ)
    → accept_client s new ≡ some t
    → select_round s new reads ≡ serves u out
    → s.listenfd < fd
    → fd ≤ t.max_fd
    → Follows reads t u fd
select_round-Follows s t u new reads out fd a e l h =
    serve_all-Follows (t.max_fd - t.listenfd) (t.listenfd + 1) fd reads t u [] out
      (omega (arith, accept_client-listenfd s t new a))
      (omega (arith, accept_client-listenfd s t new a))
      (select_round-accepted s t u new reads out a e)
