-- ===== src/Server/Leak.antt =====
-- Which descriptors the server closes.
use nowcoder_linux_learning.Base.{
  ℕ, ◌≡◌, ◌≢◌, refl, ap, subst, ◌∙◌, Bool, true, false, Option, none, some, Option-cases,
  Bool-cases, inl, inr, List, ℤ, arith,
}
use nowcoder_linux_learning.Http.Conn.{HttpConn, SockAddr, no_request}
use nowcoder_linux_learning.Http.Process.{Os, Outcome, done, undefined, out_of_fuel, process_read}
use nowcoder_linux_learning.Http.Read.{Arrival, read}
use nowcoder_linux_learning.Http.Response.{process_write}
use nowcoder_linux_learning.Http.Write.{addfd, modfd, Writev, write}
use nowcoder_linux_learning.Http.Serve.{Served, init_conn, close_conn, after_write, process}
use nowcoder_linux_learning.ThreadPool.{take_request}
use nowcoder_linux_learning.Server.Sockets.{NoClose, Keeps, write-Keeps}
use nowcoder_linux_learning.Server.Count.{perform_all-is_open}
use nowcoder_linux_learning.Server.{
  Server, Event, connect, hang_up, readable, writable, work, update, perform_all, show_error,
  close_user, accept_user, read_user, write_user, work_user, step,
}

pub close_conn-NoClose : (c : HttpConn) (n : ℤ) (b : Bool) → NoClose (close_conn c n b).effects
unfolding close_conn
close_conn-NoClose c n b = ground arith

pub close_user-is_open : (s : Server) (fd : ℕ) → (close_user s fd).is_open ≡ s.is_open
unfolding close_user
close_user-is_open s fd =
    perform_all-is_open (close_conn (s.users fd) s.user_count true).effects _
      (close_conn-NoClose (s.users fd) s.user_count true)

read_user-is_open :
    (s : Server) (fd : ℕ) (arrivals : List Arrival) → (read_user s fd arrivals).is_open ≡ s.is_open
unfolding read_user
read_user-is_open s fd arrivals =
    let c = (read arrivals (s.users fd)).0 in
    elim (Bool-cases (read arrivals (s.users fd)).1) [
      | inl e ↦ rw e
      | inr e ↦ rw e (close_user-is_open (record s { users = update s.users fd c }) fd)
    ]

abbrev StaysOpen : Server → Option Server → Type 0
StaysOpen s none = Unit {0}
StaysOpen s (some s') = s'.is_open ≡ s.is_open

write_user-StaysOpen :
    (s : Server) (fd : ℕ) (results : List Writev) → StaysOpen s (write_user s fd results)
unfolding write_user
write_user-StaysOpen s fd results = elim (Option-cases (write results (s.users fd))) [
  | inl e ↦ rw (e, write_user) tt
  | inr (r, e) ↦
      let keeps : Keeps (s.users fd).sockfd (some r) = rw e at (write-Keeps results (s.users fd)) in
      let s' = record s { users = update s.users fd r.conn } in
      let opened = perform_all-is_open r.effects s' keeps.1 in
      rw (e, write_user)
        (elim (Bool-cases r.kept) [
          | inl k ↦ rw k opened
          | inr k ↦ rw k (close_user-is_open (perform_all r.effects s') fd ∙ opened)
        ])
]

pub after_write-NoClose : (r : HttpConn × Bool) (n : ℤ) → NoClose (after_write r n).effects
unfolding after_write modfd close_conn
after_write-NoClose (c, true) n = tt
after_write-NoClose (c, false) n = ground arith

pub process-NoClose :
    (os : Os) (c : HttpConn) (n : ℤ) (o : Outcome)
    → process_read os c ≡ o
    → (r : Served) → process os c n ≡ some r
    → NoClose r.effects
unfolding process modfd
process-NoClose os c n undefined p r e = absurd cc
process-NoClose os c n out_of_fuel p r e = absurd cc
process-NoClose os c n (done d no_request) p r e = ground arith
process-NoClose os c n (done d k) p r e = ground (arith, after_write-NoClose (process_write d k) n)

work_user-StaysOpen : (os : Os) (s : Server) → StaysOpen s (work_user os s)
unfolding work_user
work_user-StaysOpen os s = elim (Option-cases (take_request s.pool).1) [
  | inl e ↦ rw (e, work_user) refl
  | inr (fd, e) ↦ elim (Option-cases (process os (s.users fd) s.user_count)) [
    | inl p ↦ rw (e, work_user, p, work_user) tt
    | inr (r, p) ↦
        rw (e, work_user, p, work_user)
          (perform_all-is_open r.effects _
            (process-NoClose os (s.users fd) s.user_count (process_read os (s.users fd)) refl r p))
  ]
]

accept_user-is_open :
    (s : Server) (new fd : ℕ) (addr : SockAddr)
    → new ≢ fd
    → (accept_user s new addr).is_open fd ≡ s.is_open fd
unfolding accept_user show_error init_conn addfd perform_all
accept_user-is_open s new fd addr h = ground arith

-- The descriptor is not the one that `accept` returns.
abbrev pub IsOther : ℕ → Event → Type 0
IsOther fd (connect (some (new, addr))) = new ≢ fd
IsOther fd _ = Unit {0}

-- A descriptor that is open stays open until the kernel hands out its number anew: no event of the
-- loop of main and no turn of a worker closes the descriptor of a connection, also not when the
-- client hangs up, the response is complete, or an error ends the connection.
pub step-is_open :
    (os : Os) (s s' : Server) (e : Event) (fd : ℕ)
    → IsOther fd e
    → step os s e ≡ some s'
    → s'.is_open fd ≡ s.is_open fd
unfolding step
step-is_open os s s' (connect none) fd h p = ground arith
step-is_open os s s' (connect (some (new, addr))) fd h p =
    ground (arith, accept_user-is_open s new fd addr h)
step-is_open os s s' (hang_up k) fd h p =
    ap (λ f. f fd) (subst (StaysOpen s) p (close_user-is_open s k))
step-is_open os s s' (readable k arrivals) fd h p =
    ap (λ f. f fd) (subst (StaysOpen s) p (read_user-is_open s k arrivals))
step-is_open os s s' (writable k results) fd h p =
    ap (λ f. f fd) (subst (StaysOpen s) p (write_user-StaysOpen s k results))
step-is_open os s s' work fd h p = ap (λ f. f fd) (subst (StaysOpen s) p (work_user-StaysOpen os s))
