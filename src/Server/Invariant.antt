-- ===== src/Server/Invariant.antt =====
-- The connections of the server: how many there are.
use nowcoder_linux_learning.Base.{
  ℕ, zero, suc, ◌+◌, [], ◌∷◌, ltb, length, ◌<◌, ◌≡◌, refl, ap, sym, subst, ◌∙◌, Bool, true, false,
  Option, none, some, Option-cases, Bool-cases, inl, inr, List, ℤ, pos, arith,
}
use nowcoder_linux_learning.Http.Conn.{HttpConn, no_request}
use nowcoder_linux_learning.Http.Process.{Os, Outcome, done, undefined, out_of_fuel, process_read}
use nowcoder_linux_learning.Http.Read.{Arrival, read}
use nowcoder_linux_learning.Http.Response.{process_write}
use nowcoder_linux_learning.Http.Write.{Writev, write}
use nowcoder_linux_learning.Http.Serve.{Served, decrement, after_write, process}
use nowcoder_linux_learning.ThreadPool.{
  Pool, push_request, post, append, wait, pop_request, take_request,
}
use nowcoder_linux_learning.Server.Leak.{close_conn-NoClose, process-NoClose}
use nowcoder_linux_learning.Server.Sockets.{
  read-sockfd, NoClose, Keeps, write-Keeps, process_read-KeepsSocket, process_write-sockfd,
}
use nowcoder_linux_learning.Server.{
  max_fd, Server, Event, connect, hang_up, readable, writable, work, update, perform_all, store,
  close_user, read_user, write_user, work_user,
}
use nowcoder_linux_learning.Server.Count.{
  live, count_live, count_live-change, AllOpen, AllOpen-append, IsCounted, Accounts,
  perform_all-is_open, close_conn-Accounts, perform_all_same, some_eq, live-none, decrement_pos,
  live_same,
}

-- A table with one place changed, of a descriptor that is open.
changed :
    (s : Server) (fd : ℕ) (c : HttpConn)
    → IsCounted s
    → s.is_open fd ≡ true
    → count_live max_fd s.is_open (update s.users fd c) + live (s.users fd)
      ≡ count_live max_fd s.is_open s.users + live c
changed s fd c w o =
    let k =
      count_live-change max_fd fd s.is_open s.is_open s.users (update s.users fd c) (w.placed fd o)
        (λ i e. rw e refl) in
    let now : update s.users fd c fd ≡ c = ground arith in rw (o, now) at k

-- The object of an open descriptor is replaced, with what is done to the descriptors.
store-IsCounted :
    (s : Server) (fd : ℕ) (r : Served)
    → s.is_open fd ≡ true
    → IsCounted s
    → Accounts (s.users fd) s.user_count r
    → NoClose r.effects
    → IsCounted (store s fd r)
store-IsCounted s fd r o w a h =
    let s' = record s { users = update s.users fd r.conn; user_count = r.user_count } in
    let (u, n, q) = perform_all_same r.effects s' in
    let opened = perform_all-is_open r.effects s' h in
    let k = changed s fd r.conn w o in
    record {
      counted =
          rw (u, n, opened)
            (elim a [
              | inl (e, m) ↦
                  m ∙ w.counted ∙ ap pos (omega (arith, k, live_same (s.users fd) r.conn e))
              | inr (e, l, m) ↦
                  m
                  ∙ ap decrement w.counted
                  ∙ decrement_pos _ _ (omega (arith, k, l, live-none r.conn e))
            ]);
      placed = rw opened w.placed;
      queued = rw (opened, q) w.queued;
    }

-- What the kernel may do: `accept` returns a descriptor that is not open and below MAX_FD, and epoll
-- reports open ones.
abbrev pub IsPossible : Server → Event → Type 0
IsPossible s (connect none) = Unit {0}
IsPossible s (connect (some (fd, addr))) = (fd < max_fd) × (s.is_open fd ≡ false)
IsPossible s (hang_up fd) = s.is_open fd ≡ true
IsPossible s (readable fd arrivals) = s.is_open fd ≡ true
IsPossible s (writable fd results) = s.is_open fd ≡ true
IsPossible s work = Unit {0}

-- A step that reaches a state keeps the count.
abbrev pub Reaches : Option Server → Type 0
Reaches none = Unit {0}
Reaches (some s) = IsCounted s

pub close_user-IsCounted :
    (s : Server) (fd : ℕ) → s.is_open fd ≡ true → IsCounted s → IsCounted (close_user s fd)
unfolding close_user
close_user-IsCounted s fd o w =
    store-IsCounted s fd _ o w (close_conn-Accounts (s.users fd) s.user_count true)
      (close_conn-NoClose (s.users fd) s.user_count true)

-- An object is replaced by one with the same socket.
replace-IsCounted :
    (s : Server) (fd : ℕ) (c : HttpConn)
    → s.is_open fd ≡ true
    → c.sockfd ≡ (s.users fd).sockfd
    → IsCounted s
    → IsCounted (record s { users = update s.users fd c })
replace-IsCounted s fd c o e w = record {
  counted = w.counted ∙ ap pos (omega (arith, changed s fd c w o, live_same (s.users fd) c e));
  placed = w.placed;
  queued = w.queued;
}

append-AllOpen :
    (opened : ℕ → Bool) (p : Pool ℕ) (fd : ℕ)
    → AllOpen opened p.workqueue
    → opened fd ≡ true
    → AllOpen opened (append p fd).0.workqueue
unfolding append push_request post
append-AllOpen opened p fd h o = elim (Bool-cases (ltb p.max_requests (length p.workqueue))) [
  | inl e ↦ rw e h
  | inr e ↦ rw e (AllOpen-append opened p.workqueue fd h o)
]

pub read_user-IsCounted :
    (s : Server) (fd : ℕ) (arrivals : List Arrival)
    → s.is_open fd ≡ true
    → IsCounted s
    → IsCounted (read_user s fd arrivals)
unfolding read_user
read_user-IsCounted s fd arrivals o w =
    let c = (read arrivals (s.users fd)).0 in
    let kept = replace-IsCounted s fd c o (read-sockfd arrivals (s.users fd)) w in
    elim (Bool-cases (read arrivals (s.users fd)).1) [
      | inl e ↦ rw e (record {
        counted = kept.counted;
        placed = kept.placed;
        queued = append-AllOpen s.is_open s.pool fd w.queued o;
      })
      | inr e ↦ rw e (close_user-IsCounted (record s { users = update s.users fd c }) fd o kept)
    ]

pub write_user-IsCounted :
    (s : Server) (fd : ℕ) (results : List Writev)
    → s.is_open fd ≡ true
    → IsCounted s
    → Reaches (write_user s fd results)
unfolding write_user
write_user-IsCounted s fd results o w = elim (Option-cases (write results (s.users fd))) [
  | inl e ↦ rw (e, write_user) tt
  | inr (r, e) ↦
      let keeps : Keeps (s.users fd).sockfd (some r) = rw e at (write-Keeps results (s.users fd)) in
      let kept : IsCounted (perform_all r.effects (record s { users = update s.users fd r.conn })) =
        store-IsCounted s fd
          (record { conn = r.conn; user_count = s.user_count; effects = r.effects }) o w
          (inl (keeps.0, refl)) keeps.1 in
      let s' = perform_all r.effects (record s { users = update s.users fd r.conn }) in
      let still : s'.is_open fd ≡ true =
        rw (perform_all-is_open r.effects (record s { users = update s.users fd r.conn }) keeps.1)
          o in
      rw (e, write_user)
        (elim (Bool-cases r.kept) [
          | inl k ↦ rw k kept
          | inr k ↦ rw k (close_user-IsCounted s' fd still kept)
        ])
]

after_write-Accounts :
    (c d : HttpConn) (b : Bool) (n : ℤ) → d.sockfd ≡ c.sockfd → Accounts c n (after_write (d, b) n)
unfolding after_write
after_write-Accounts c d true n e = inl (e, refl)
after_write-Accounts c d false n e = elim (close_conn-Accounts d n true) [
  | inl (x, m) ↦ inl (x ∙ e, m)
  | inr (x, l, m) ↦ inr (x, sym (live_same c d e) ∙ l, m)
]

process_outcome :
    (os : Os) (c : HttpConn) (n : ℤ) (o : Outcome)
    → process_read os c ≡ o
    → (r : Served) → process os c n ≡ some r
    → Accounts c n r
unfolding process
process_outcome os c n undefined p r e = absurd cc
process_outcome os c n out_of_fuel p r e = absurd cc
process_outcome os c n (done d no_request) p r e =
    let kept : d.sockfd ≡ c.sockfd = rw p at (process_read-KeepsSocket os c) in ground arith
process_outcome os c n (done d k) p r e =
    let kept : d.sockfd ≡ c.sockfd = rw p at (process_read-KeepsSocket os c) in
    let w = process_write d k in
    let a = after_write-Accounts c w.0 w.1 n (process_write-sockfd d k ∙ kept) in
    let same : after_write (process_write d k) n ≡ r = some_eq (rw (p, process) at e) in
    subst (Accounts c n) same a

process-Accounts :
    (os : Os) (c : HttpConn) (n : ℤ) (r : Served) → process os c n ≡ some r → Accounts c n r
process-Accounts os c n r = process_outcome os c n (process_read os c) refl r

take_request_fields :
    (opened : ℕ → Bool) (m n : ℕ) (q : List ℕ)
    → AllOpen opened q
    → AllOpen opened
        (take_request (record { max_requests = m; workqueue = q; queuestat = n })).0.workqueue
      × ((fd : ℕ)
          → (take_request (record { max_requests = m; workqueue = q; queuestat = n })).1 ≡ some fd
          → opened fd ≡ true)
unfolding take_request wait pop_request
take_request_fields opened m zero q h = (h, λ fd e. absurd cc)
take_request_fields opened m (suc n) [] h = (h, λ fd e. absurd cc)
take_request_fields opened m (suc n) (x ∷ q) h =
    (h.1, λ fd e. subst (λ k. opened k ≡ true) (some_eq e) h.0)

-- A worker takes an open descriptor from the queue, and leaves open ones.
take_request-AllOpen :
    (opened : ℕ → Bool) (p : Pool ℕ)
    → AllOpen opened p.workqueue
    → AllOpen opened (take_request p).0.workqueue
      × ((fd : ℕ) → (take_request p).1 ≡ some fd → opened fd ≡ true)
take_request-AllOpen opened p h =
    take_request_fields opened p.max_requests p.queuestat p.workqueue h

pub work_user-IsCounted : (os : Os) (s : Server) → IsCounted s → Reaches (work_user os s)
unfolding work_user
work_user-IsCounted os s w =
    let s' = record s { pool = (take_request s.pool).0 } in
    let (left, taken) = take_request-AllOpen s.is_open s.pool w.queued in
    let w' : IsCounted s' = record { counted = w.counted; placed = w.placed; queued = left } in
    elim (Option-cases (take_request s.pool).1) [
      | inl e ↦ rw (e, work_user) w'
      | inr (fd, e) ↦ elim (Option-cases (process os (s.users fd) s.user_count)) [
        | inl p ↦ rw (e, work_user, p, work_user) tt
        | inr (r, p) ↦
            rw (e, work_user, p, work_user)
              (store-IsCounted s' fd r (taken fd e) w'
                (process-Accounts os (s.users fd) s.user_count r p)
                (process-NoClose os (s.users fd) s.user_count (process_read os (s.users fd)) refl r
                  p))
      ]
    ]
