-- ===== src/Server/Count.antt =====
-- The objects of the table that have a socket, and how the count of them changes.
use nowcoder_linux_learning.Base.{
  ℕ, zero, suc, ◌+◌, ◌<◌, ◌≡◌, ◌⊎◌, refl, Bool, true, false, ◌++◌, ◌==◌, none, some, Bool-cases,
  ==_true, inl, inr, List, [], ◌∷◌, ℤ, pos, arith,
}
use nowcoder_linux_learning.Http.Conn.{HttpConn}
use nowcoder_linux_learning.Http.Write.{Effect}
use nowcoder_linux_learning.Http.Serve.{Served, increment, decrement, close_conn}
use nowcoder_linux_learning.Server.Sockets.{NoClose}
use nowcoder_linux_learning.Server.{max_fd, Server, perform_all}

-- 1 for an object that has a socket.
abbrev pub live : HttpConn → ℕ
live c = elim c.sockfd [ none ↦ 0 | some fd ↦ 1 ]

-- An object counts when its descriptor is one that `accept` has returned: what the array holds at the
-- other places is indeterminate.
abbrev pub in_use : Bool → HttpConn → ℕ
in_use true c = live c
in_use false c = 0

-- How many of the first `n` objects of the table are of an accepted descriptor and have a socket.
pub count_live : ℕ → (ℕ → Bool) → (ℕ → HttpConn) → ℕ
count_live zero opened users = 0
count_live (suc n) opened users = in_use (opened n) (users n) + count_live n opened users

-- No descriptor has been accepted.
pub count_live-none : (n : ℕ) (users : ℕ → HttpConn) → count_live n (λ i. false) users ≡ 0
unfolding count_live
count_live-none zero users = refl
count_live-none (suc n) users = omega (arith, count_live-none n users)

-- Two tables that agree on what counts.
pub count_live-same :
    (n : ℕ) (a b : ℕ → Bool) (users others : ℕ → HttpConn)
    → ((i : ℕ) → i < n → in_use (b i) (others i) ≡ in_use (a i) (users i))
    → count_live n b others ≡ count_live n a users
unfolding count_live
count_live-same zero a b users others h = refl
count_live-same (suc n) a b users others h =
    let rest = count_live-same n a b users others (λ i l. h i (omega arith)) in
    omega (arith, h n (omega arith), rest)

-- Two tables that agree outside the place `fd`.
pub count_live-change :
    (n fd : ℕ) (a b : ℕ → Bool) (users others : ℕ → HttpConn)
    → fd < n
    → ((i : ℕ) → (fd == i) ≡ false → in_use (b i) (others i) ≡ in_use (a i) (users i))
    → count_live n b others + in_use (a fd) (users fd)
      ≡ count_live n a users + in_use (b fd) (others fd)
unfolding count_live
count_live-change zero fd a b users others h same = absurd (omega arith)
count_live-change (suc n) fd a b users others h same = elim (Bool-cases (fd == n)) [
  | inl e ↦
      let at : fd ≡ n = ==_true fd n e in
      let rest = count_live-same n a b users others (λ i l. same i (ground (arith, at, l))) in
      rw at (omega (arith, rest))
  | inr e ↦
      let rest = count_live-change n fd a b users others (ground (arith, e)) same in
      omega (arith, rest, same n e)
]

-- The descriptors that wait in the queue are open.
abbrev pub AllOpen : (ℕ → Bool) → List ℕ → Type 0
AllOpen opened [] = Unit {0}
AllOpen opened (fd ∷ fds) = (opened fd ≡ true) × AllOpen opened fds

pub AllOpen-append :
    (opened : ℕ → Bool) (fds : List ℕ) (fd : ℕ)
    → AllOpen opened fds
    → opened fd ≡ true
    → AllOpen opened (fds ++ (fd ∷ []))
AllOpen-append opened [] fd h k = (k, tt)
AllOpen-append opened (x ∷ fds) fd h k = (h.0, AllOpen-append opened fds fd h.1 k)

pub AllOpen-mono :
    (a b : ℕ → Bool) (fds : List ℕ)
    → ((i : ℕ) → a i ≡ true → b i ≡ true)
    → AllOpen a fds
    → AllOpen b fds
AllOpen-mono a b [] f h = tt
AllOpen-mono a b (x ∷ fds) f h = (f x h.0, AllOpen-mono a b fds f h.1)

-- m_user_count is the number of objects in use, a descriptor that is open is a place of the table,
-- and so are those in the queue.
pub record IsCounted (s : Server) : Type 0 where
  pub counted : s.user_count ≡ pos (count_live max_fd s.is_open s.users)
  pub placed : (fd : ℕ) → s.is_open fd ≡ true → fd < max_fd
  pub queued : AllOpen s.is_open s.pool.workqueue

-- An object that is stored keeps its socket, or loses it and is taken off m_user_count.
abbrev pub Accounts : HttpConn → ℤ → Served → Type 0
Accounts c n r =
    ((r.conn.sockfd ≡ c.sockfd) × (r.user_count ≡ n))
    ⊎ ((r.conn.sockfd ≡ none) × (live c ≡ 1) × (r.user_count ≡ decrement n))

pub close_conn-Accounts : (c : HttpConn) (n : ℤ) (b : Bool) → Accounts c n (close_conn c n b)
unfolding close_conn
close_conn-Accounts c n b = ground arith

pub perform_all_same :
    (es : List Effect) (s : Server)
    → ((perform_all es s).users ≡ s.users)
      × ((perform_all es s).user_count ≡ s.user_count)
      × ((perform_all es s).pool ≡ s.pool)
unfolding perform_all
perform_all_same [] s = (refl, refl, refl)
perform_all_same (Effect.epoll_add fd b ∷ es) s = perform_all_same es _
perform_all_same (Effect.epoll_del fd ∷ es) s = perform_all_same es _
perform_all_same (Effect.epoll_mod fd d ∷ es) s = perform_all_same es s
perform_all_same (Effect.close fd ∷ es) s = perform_all_same es _
perform_all_same (Effect.writev l n ∷ es) s = perform_all_same es s
perform_all_same (Effect.munmap a n ∷ es) s = perform_all_same es s

-- No effect but `close` closes a descriptor.
pub perform_all-is_open :
    (es : List Effect) (s : Server) → NoClose es → (perform_all es s).is_open ≡ s.is_open
unfolding perform_all
perform_all-is_open [] s h = refl
perform_all-is_open (Effect.epoll_add fd b ∷ es) s h = perform_all-is_open es _ h
perform_all-is_open (Effect.epoll_del fd ∷ es) s h = perform_all-is_open es _ h
perform_all-is_open (Effect.epoll_mod fd d ∷ es) s h = perform_all-is_open es s h
perform_all-is_open (Effect.close fd ∷ es) s h = elim h [ ]
perform_all-is_open (Effect.writev l n ∷ es) s h = perform_all-is_open es s h
perform_all-is_open (Effect.munmap a n ∷ es) s h = perform_all-is_open es s h

pub some_eq {ℓ} : {A : Type ℓ} {a b : A} → some a ≡ some b → a ≡ b
some_eq e = cc

pub live-none : (c : HttpConn) → c.sockfd ≡ none → live c ≡ 0
live-none c e = ground arith

pub decrement_pos : (n m : ℕ) → m + 1 ≡ n → decrement (pos n) ≡ pos m
decrement_pos n m e = ground arith

pub increment_pos : (n m : ℕ) → m ≡ n + 1 → increment (pos n) ≡ pos m
increment_pos n m e = ground arith

pub live_same : (c d : HttpConn) → d.sockfd ≡ c.sockfd → live d ≡ live c
live_same c d e = ground arith
