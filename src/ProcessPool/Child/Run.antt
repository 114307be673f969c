-- ===== src/ProcessPool/Child/Run.antt =====
-- When a child stops, and what it does for a client.
use mathlib.Core.List.{append-nil}
use nowcoder_linux_learning.Base.{
  ℕ, ◌≡◌, refl, sym, ◌∙◌, Bool, true, false, not, ◌||◌, ==_true, subst, ◌==◌, Bool-cases, inl, inr,
  if◌then◌else◌, none, some, Option-cases, List, [], ◌∷◌, ◌++◌, arith,
}
use nowcoder_linux_learning.Http.Conn.{SockAddr}
use nowcoder_linux_learning.ProcessPool.{sigterm, sigint, child_signals}
use nowcoder_linux_learning.ProcessPool.Child.{
  Child, ChildEvent, told, signalled, readable, other_event, child_event, child_events, run_child,
}

-- SIGTERM or SIGINT is among the bytes.
abbrev pub asks_end : List ℕ → Bool
asks_end [] = false
asks_end (s ∷ ss) = (s == sigterm || s == sigint) || asks_end ss

abbrev pub ends : ChildEvent → Bool
ends (signalled bytes) = asks_end bytes
ends _ = false

abbrev pub any_ends : List ChildEvent → Bool
any_ends [] = false
any_ends (e ∷ events) = ends e || any_ends events

child_signals_lem :
    (bytes : List ℕ) (stop : Bool) → child_signals bytes stop ≡ (stop || asks_end bytes)
unfolding child_signals
child_signals_lem [] stop = ground arith
child_signals_lem (s ∷ ss) stop = elim (Bool-cases (s == sigterm || s == sigint)) [
  | inl e ↦ rw e (child_signals_lem ss true ∙ ground arith)
  | inr e ↦ rw e (child_signals_lem ss stop)
]

module _ {ℓ} {W U : Type ℓ} (epollfd : ℕ) (init : W → U → ℕ → ℕ → SockAddr → W × U)
    (process : W → U → W × U) where
  child_event-stop :
      (e : ChildEvent) (c d : Child W U)
      → child_event epollfd init process e c ≡ some d
      → d.stop ≡ (c.stop || ends e)
  unfolding child_event
  child_event-stop (told false a) c d h = ground (arith, h)
  child_event-stop (told true none) c d h = ground (arith, h)
  child_event-stop (told true (some (fd, addr))) c d h = ground (arith, h)
  child_event-stop (signalled bytes) c d h = ground (arith, h, child_signals_lem bytes c.stop)
  child_event-stop (readable fd) c d h = ground (arith, h)
  child_event-stop other_event c d h = ground (arith, h)

  child_events-stop :
      (events : List ChildEvent) (c d : Child W U)
      → child_events epollfd init process events c ≡ some d
      → d.stop ≡ (c.stop || any_ends events)
  unfolding child_events
  child_events-stop [] c d h = ground (arith, h)
  child_events-stop (e ∷ events) c d h =
      elim (Option-cases (child_event epollfd init process e c)) [
        | inl n ↦ absurd (ground (arith, n, h))
        | inr (u, t) ↦
            let a = child_event-stop e c u t in
            let b = child_events-stop events u d (ground (arith, t, h)) in ground (arith, a, b)
      ]

run_child_stopped {ℓ} :
    {W U : Type ℓ} (epollfd : ℕ) (init : W → U → ℕ → ℕ → SockAddr → W × U) (process : W → U → W × U)
    (batches : List (List ChildEvent)) (c : Child W U)
    → c.stop ≡ true
    → run_child epollfd init process batches c ≡ some c
unfolding run_child
run_child_stopped epollfd init process [] c h = refl
run_child_stopped epollfd init process (events ∷ more) c h = ground (arith, h)

-- An event that calls neither `init` nor `process` for the descriptor.
abbrev pub passes_by : ℕ → ChildEvent → Bool
passes_by fd (told true (some (k, addr))) = not (k == fd)
passes_by fd (readable k) = not (k == fd)
passes_by fd _ = true

-- How the user at `fd` goes from one value to another over events: `init` is called for each client
-- that is accepted with this descriptor, and `process` for each event on it, in their order, and
-- nothing else changes it. `w` is what the users share at that time.
pub data Lives {ℓ} {W U : Type ℓ} (epollfd : ℕ) (init : W → U → ℕ → ℕ → SockAddr → W × U)
    (process : W → U → W × U) (fd : ℕ) : List ChildEvent → U → U → Type ℓ where
  over : {u : U} → Lives epollfd init process fd [] u u
  begins :
      {u v : U} {events : List ChildEvent} (w : W) (addr : SockAddr)
      → Lives epollfd init process fd events (init w u epollfd fd addr).1 v
      → Lives epollfd init process fd (told true (some (fd, addr)) ∷ events) u v
  serves :
      {u v : U} {events : List ChildEvent} (w : W)
      → Lives epollfd init process fd events (process w u).1 v
      → Lives epollfd init process fd (readable fd ∷ events) u v
  waits :
      {u v : U} {events : List ChildEvent} (e : ChildEvent)
      → passes_by fd e ≡ true
      → Lives epollfd init process fd events u v
      → Lives epollfd init process fd (e ∷ events) u v

-- The events up to those that ask the child to end, and what came along with them.
abbrev pub handled : List (List ChildEvent) → List ChildEvent
handled [] = []
handled (events ∷ more) = events ++ (if any_ends events then [] else handled more)

module _ {ℓ} {W U : Type ℓ} (epollfd : ℕ) (init : W → U → ℕ → ℕ → SockAddr → W × U)
    (process : W → U → W × U) (fd : ℕ) where
  Lives-append :
      {a b : List ChildEvent} {t u v : U}
      → Lives epollfd init process fd a t u
      → Lives epollfd init process fd b u v
      → Lives epollfd init process fd (a ++ b) t v
  Lives-append over q = q
  Lives-append (begins w addr p) q = begins w addr (Lives-append p q)
  Lives-append (serves w p) q = serves w (Lives-append p q)
  Lives-append (waits e h p) q = waits e h (Lives-append p q)

  -- An event that leaves the user at `fd` as it was.
  idle-Lives :
      (e : ChildEvent) (u v : U)
      → passes_by fd e ≡ true
      → v ≡ u
      → Lives epollfd init process fd (e ∷ []) u v
  idle-Lives e u v h p = waits e h (subst (Lives epollfd init process fd [] u) (sym p) over)

  child_event-Lives :
      (e : ChildEvent) (c d : Child W U)
      → child_event epollfd init process e c ≡ some d
      → Lives epollfd init process fd (e ∷ []) (c.users fd) (d.users fd)
  unfolding child_event
  child_event-Lives (told false a) c d h = idle-Lives _ _ _ refl (ground (arith, h))
  child_event-Lives (told true none) c d h = idle-Lives _ _ _ refl (ground (arith, h))
  child_event-Lives (told true (some (k, addr))) c d h = elim (Bool-cases (k == fd)) [
    | inl e ↦
        let same : k ≡ fd = ==_true k fd e in
        let now : (init c.shared (c.users fd) epollfd fd addr).1 ≡ d.users fd =
          ground (arith, h, same) in
        subst
          (λ n.
            Lives epollfd init process fd (told true (some (n, addr)) ∷ []) (c.users fd)
              (d.users fd))
          (sym same) (begins c.shared addr (subst (Lives epollfd init process fd [] _) now over))
    | inr e ↦ idle-Lives _ _ _ (ground (arith, e)) (ground (arith, h, e))
  ]
  child_event-Lives (signalled bytes) c d h = idle-Lives _ _ _ refl (ground (arith, h))
  child_event-Lives (readable k) c d h = elim (Bool-cases (k == fd)) [
    | inl e ↦
        let same : k ≡ fd = ==_true k fd e in
        let now : (process c.shared (c.users fd)).1 ≡ d.users fd = ground (arith, h, same) in
        subst (λ n. Lives epollfd init process fd (readable n ∷ []) (c.users fd) (d.users fd))
          (sym same) (serves c.shared (subst (Lives epollfd init process fd [] _) now over))
    | inr e ↦ idle-Lives _ _ _ (ground (arith, e)) (ground (arith, h, e))
  ]
  child_event-Lives other_event c d h = idle-Lives _ _ _ refl (ground (arith, h))

  child_events-Lives :
      (events : List ChildEvent) (c d : Child W U)
      → child_events epollfd init process events c ≡ some d
      → Lives epollfd init process fd events (c.users fd) (d.users fd)
  unfolding child_events
  child_events-Lives [] c d h =
      subst (Lives epollfd init process fd [] (c.users fd)) (ground (arith, h)) over
  child_events-Lives (e ∷ events) c d h =
      elim (Option-cases (child_event epollfd init process e c)) [
        | inl n ↦ absurd (ground (arith, n, h))
        | inr (u, t) ↦
            Lives-append (child_event-Lives e c u t)
              (child_events-Lives events u d (ground (arith, t, h)))
      ]

  any_ends-append : (a b : List ChildEvent) → any_ends (a ++ b) ≡ (any_ends a || any_ends b)
  any_ends-append [] b = refl
  any_ends-append (e ∷ a) b = ground (arith, any_ends-append a b)

  -- run_child of the process pool, for a class T whose init and process change no more than the
  -- object they are called on and what all objects share, from a child that is not to stop: if no
  -- descriptor is too large for the array of users, then the user at each descriptor has lived
  -- through the events in their order, init called on it, with m_epollfd, the descriptor and the
  -- address of the client, for each client that accept gave this descriptor, process called on it
  -- for each event on this descriptor, each with some state of what is shared, and nothing else
  -- changing it, where the events are those up to the first return of epoll_wait that brings
  -- SIGTERM or SIGINT; and m_stop is set exactly if there is one.
  pub run_child-handled :
      (batches : List (List ChildEvent)) (c d : Child W U)
      → c.stop ≡ false
      → run_child epollfd init process batches c ≡ some d
      → Lives epollfd init process fd (handled batches) (c.users fd) (d.users fd)
        × (d.stop ≡ any_ends (handled batches))
  unfolding run_child
  run_child-handled [] c d s h = (
    subst (Lives epollfd init process fd [] (c.users fd)) (ground (arith, h)) over,
    ground (arith, h),
  )
  run_child-handled (events ∷ more) c d s h =
      elim (Option-cases (child_events epollfd init process events c)) [
        | inl n ↦ absurd (ground (arith, n, h, s))
        | inr (u, t) ↦
            let go : run_child epollfd init process more u ≡ some d = ground (arith, t, h, s) in
            let at_u = child_events-Lives events c u t in
            let stop = child_events-stop epollfd init process events c u t in
            elim (Bool-cases (any_ends events)) [
              | inl b ↦
                  let ended : u.stop ≡ true = ground (arith, stop, b) in
                  let same : u ≡ d = cc (run_child_stopped epollfd init process more u ended, go) in
                  rw (b, append-nil events, b, ← same) (at_u, ended)
              | inr b ↦
                  let runs : u.stop ≡ false = ground (arith, stop, b, s) in
                  let (users, stops) = run_child-handled more u d runs go in
                  rw b (
                    Lives-append at_u users,
                    stops ∙ ground (arith, any_ends-append events (handled more), b),
                  )
            ]
      ]
