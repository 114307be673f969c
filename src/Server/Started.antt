-- ===== src/Server/Started.antt =====
-- The server from its start on: how a connection is accepted, and what holds in each state that is
-- reached.
use nowcoder_linux_learning.Base.{
  ℕ, ◌==◌, ==_true, if◌then◌else◌, ◌<◌, ◌≡◌, refl, ap, sym, subst, ◌∙◌, Bool, true, false, leb,
  none, some, Bool-cases, inl, inr, List, pos, arith,
}
use nowcoder_linux_learning.Http.Conn.{HttpConn, SockAddr, init}
use nowcoder_linux_learning.Http.Process.{Os}
use nowcoder_linux_learning.Http.Write.{addfd}
use nowcoder_linux_learning.Http.Serve.{increment, init_conn}
use nowcoder_linux_learning.Server.{
  max_fd, Server, Event, connect, hang_up, readable, writable, work, update, perform, perform_all,
  started, show_error, store, accept_user, step,
}
use nowcoder_linux_learning.Server.Count.{
  in_use, count_live, count_live-same, count_live-none, count_live-change, AllOpen, AllOpen-mono,
  IsCounted, some_eq, increment_pos,
}
use nowcoder_linux_learning.Server.Invariant.{
  IsPossible, Reaches, close_user-IsCounted, read_user-IsCounted, write_user-IsCounted,
  work_user-IsCounted,
}

-- A new descriptor among those that are open.
opened-AllOpen :
    (opened : ℕ → Bool) (fd : ℕ) (b : Bool) (fds : List ℕ)
    → opened fd ≡ false
    → AllOpen opened fds
    → AllOpen (update opened fd b) fds
opened-AllOpen opened fd b fds h =
    AllOpen-mono opened (update opened fd b) fds (λ i o. ground (arith, h, o))

new_conn-IsCounted :
    (s : Server) (fd : ℕ) (addr : SockAddr)
    → fd < max_fd
    → s.is_open fd ≡ false
    → IsCounted s
    → IsCounted (
        store
          (record s { is_open = update s.is_open fd true })
          fd
          (init_conn (s.users fd) s.user_count fd addr))
unfolding init_conn init addfd perform_all perform
new_conn-IsCounted s fd addr h o w =
    let c = (init_conn (s.users fd) s.user_count fd addr).conn in
    let k =
      count_live-change max_fd fd s.is_open (update s.is_open fd true) s.users (update s.users fd c)
        h (λ i e. rw e refl) in
    let now : update s.users fd c fd ≡ c = ground arith in
    let opened : update s.is_open fd true fd ≡ true = ground arith in
    let k' = rw (now, opened, o) at k in
    record {
      counted = ap increment w.counted ∙ increment_pos _ _ (omega (arith, k'));
      placed = λ i a. ground (arith, w.placed i);
      queued = opened-AllOpen s.is_open fd true s.pool.workqueue o w.queued;
    }

-- A descriptor that is closed as soon as it is accepted.
refused-IsCounted :
    (s : Server) (fd : ℕ)
    → s.is_open fd ≡ false
    → IsCounted s
    → IsCounted (show_error fd (record s { is_open = update s.is_open fd true }))
unfolding show_error perform
refused-IsCounted s fd o w =
    let after = update (update s.is_open fd true) fd false in
    let same : (i : ℕ) → after i ≡ s.is_open i = λ i. elim (Bool-cases (fd == i)) [
      | inl e ↦ rw (e, ← ==_true fd i e, o) refl
      | inr e ↦ rw e refl
    ] in
    record {
      counted =
          w.counted
          ∙ ap pos (
              sym (
                count_live-same max_fd s.is_open after s.users s.users
                  (λ i l. ap (λ b. in_use b (s.users i)) (same i))));
      placed = λ i a. w.placed i (sym (same i) ∙ a);
      queued = AllOpen-mono s.is_open after s.pool.workqueue (λ i a. same i ∙ a) w.queued;
    }

accept_user_pos :
    (s : Server) (fd : ℕ) (addr : SockAddr) (n : ℕ)
    → s.user_count ≡ pos n
    → let s' = record s { is_open = update s.is_open fd true } in
      accept_user s fd addr ≡ (
        if leb max_fd n
        then show_error fd s'
        else store s' fd (init_conn (s.users fd) s.user_count fd addr))
unfolding accept_user
accept_user_pos s fd addr n e = rw e refl

accept_user-IsCounted :
    (s : Server) (fd : ℕ) (addr : SockAddr)
    → fd < max_fd
    → s.is_open fd ≡ false
    → IsCounted s
    → IsCounted (accept_user s fd addr)
accept_user-IsCounted s fd addr h o w =
    let added = new_conn-IsCounted s fd addr h o w in
    let refused = refused-IsCounted s fd o w in
    let c = accept_user_pos s fd addr _ w.counted in
    elim (Bool-cases (leb max_fd (count_live max_fd s.is_open s.users))) [
      | inl b ↦ subst IsCounted (sym (c ∙ rw b refl)) refused
      | inr b ↦ subst IsCounted (sym (c ∙ rw b refl)) added
    ]

step-IsCounted :
    (os : Os) (s s' : Server) (e : Event)
    → IsPossible s e
    → IsCounted s
    → step os s e ≡ some s'
    → IsCounted s'
unfolding step
step-IsCounted os s s' (connect none) h w p = subst IsCounted (some_eq p) w
step-IsCounted os s s' (connect (some (fd, addr))) h w p =
    subst IsCounted (some_eq p) (accept_user-IsCounted s fd addr h.0 h.1 w)
step-IsCounted os s s' (hang_up fd) h w p =
    subst IsCounted (some_eq p) (close_user-IsCounted s fd h w)
step-IsCounted os s s' (readable fd arrivals) h w p =
    subst IsCounted (some_eq p) (read_user-IsCounted s fd arrivals h w)
step-IsCounted os s s' (writable fd results) h w p =
    subst Reaches p (write_user-IsCounted s fd results h w)
step-IsCounted os s s' work h w p = subst Reaches p (work_user-IsCounted os s w)

-- Events that the kernel may bring, one behind the other.
pub data Runs (os : Os) (s : Server) : Server → Type 0 where
  here : Runs os s s
  next :
      {t u : Server}
      → Runs os s t
      → (e : Event) → IsPossible t e
      → step os t e ≡ some u
      → Runs os s u

Runs-keeps : (os : Os) {s t : Server} → Runs os s t → IsCounted s → IsCounted t
Runs-keeps os here w = w
Runs-keeps os (next {t} {u} r e h p) w = step-IsCounted os t u e h (Runs-keeps os r w) p

started-IsCounted : (users : ℕ → HttpConn) → IsCounted (started users)
started-IsCounted users = record {
  counted = ap pos (sym (count_live-none max_fd users));
  placed = λ fd h. absurd cc;
  queued = tt;
}

-- From the state in which main enters its loop, whatever the objects that it has allocated hold,
-- over any events of the loop and turns of a worker, one behind the other, in which accept returns
-- descriptors below MAX_FD that are not open and epoll reports open ones: m_user_count is the
-- number of objects of open descriptors that have a socket, every open descriptor is a place of the
-- table, and every descriptor in the queue of the pool is open.
pub Runs-IsCounted :
    (os : Os) (users : ℕ → HttpConn) (s : Server) → Runs os (started users) s → IsCounted s
Runs-IsCounted os users s r = Runs-keeps os r (started-IsCounted users)
