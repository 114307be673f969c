-- ===== src/ProcessPool/Stops.antt =====
-- When the parent stops.
use native.Mathlib.Nat.{mod-lt}
use native.Mathlib.Decide.{dec_lt}
use nowcoder_linux_learning.Base.{
  ℕ, zero, suc, ◌+◌, ◌%◌, ◌≤◌, ◌<◌, ◌≡◌, refl, ap, sym, subst, ◌∙◌, true, false, Bool-cases, inl,
  inr, ◌==◌, ◌||◌, none, some, Option-cases, List, [], ◌∷◌, ◌++◌, length, arith,
}
use nowcoder_linux_learning.ProcessPool.{
  Process, ProcessPool, alive, dispatch, sigint, sigterm, sigchld, reap, reap_all, child_ended,
}
use nowcoder_linux_learning.ProcessPool.RoundRobin.{dispatch-alive}
use nowcoder_linux_learning.ProcessPool.Parent.{
  Sent, new_conn, Round, ParentEvent, connects, signalled, other_event, parent_signal,
  parent_signals, signal_at, parent_events,
}

-- The counter is a place of the pool, and a parent that stops has no child.
pub record Ok (p : ProcessPool) : Type 0 where
  pub counter : p.sub_process_counter < length p.sub_process
  pub childless : p.stop ≡ true → (k : ℕ) → alive p.sub_process k ≡ false

alive-above : (ps : List Process) (k : ℕ) → length ps ≤ k → alive ps k ≡ false
alive-above [] k h = refl
alive-above (p ∷ ps) zero h = absurd (omega arith)
alive-above (p ∷ ps) (suc k) h = alive-above ps k (omega arith)

length-reap : (pid : ℕ) (ps : List Process) → length (reap pid ps) ≡ length ps
unfolding reap
length-reap pid [] = refl
length-reap pid (p ∷ ps) = ap suc (length-reap pid ps)

alive-reap :
    (pid : ℕ) (ps : List Process) (k : ℕ) → alive ps k ≡ false → alive (reap pid ps) k ≡ false
unfolding reap
alive-reap pid [] k h = refl
alive-reap pid (p ∷ ps) zero h = ground (arith, h)
alive-reap pid (p ∷ ps) (suc k) h = alive-reap pid ps k h

length-reap_all : (pids : List ℕ) (ps : List Process) → length (reap_all pids ps) ≡ length ps
unfolding reap_all
length-reap_all [] ps = refl
length-reap_all (pid ∷ pids) ps = length-reap_all pids (reap pid ps) ∙ length-reap pid ps

alive-reap_all :
    (pids : List ℕ) (ps : List Process) (k : ℕ)
    → alive ps k ≡ false
    → alive (reap_all pids ps) k ≡ false
unfolding reap_all
alive-reap_all [] ps k h = h
alive-reap_all (pid ∷ pids) ps k h = alive-reap_all pids (reap pid ps) k (alive-reap pid ps k h)

child_ended-Ok : (pids : List ℕ) (p : ProcessPool) → Ok p → Ok (child_ended pids p)
unfolding child_ended
child_ended-Ok pids p w = record {
  counter = omega (arith, w.counter, length-reap_all pids p.sub_process);
  childless = λ h k. alive-reap_all pids p.sub_process k (w.childless (ground (arith, h)) k);
}

parent_signal-Ok :
    (i s : ℕ) (pids : List ℕ) (p : ProcessPool) → Ok p → Ok (parent_signal i s pids p).0
unfolding parent_signal
parent_signal-Ok i s pids p w = elim (Bool-cases (s == sigchld)) [
  | inl a ↦ rw a (child_ended-Ok pids p w)
  | inr a ↦ elim (Bool-cases (s == sigterm || s == sigint)) [
    | inl b ↦ rw (a, b) w
    | inr b ↦ rw (a, b) w
  ]
]

parent_signals-Ok :
    (i s : ℕ) (rounds : List Round) (p : ProcessPool) (sent : List Sent)
    → Ok p
    → Ok (parent_signals i s rounds p sent).0
unfolding parent_signals
parent_signals-Ok i s [] p sent w = w
parent_signals-Ok i s (r ∷ rounds) p sent w =
    parent_signals-Ok i s rounds (parent_signal i s r.pids p).0 _ (parent_signal-Ok i s r.pids p w)

-- A parent that has found no child for a connection has none.
no_child :
    (p : ProcessPool) (k : ℕ)
    → p.sub_process_counter < length p.sub_process
    → (dispatch p).1 ≡ none
    → alive p.sub_process k ≡ false
no_child p k h e = elim (dec_lt k (length p.sub_process)) [
  | no above ↦ alive-above p.sub_process k (omega arith)
  | yes below ↦ elim (Bool-cases (alive p.sub_process k)) [
    | inr a ↦ a
    | inl a ↦ let (j, told, _, _, _) = dispatch-alive p k h below a in absurd cc
  ]
]

dispatch_same : (p : ProcessPool) → (dispatch p).0.sub_process ≡ p.sub_process
unfolding dispatch
dispatch_same p = ground arith

dispatch_told :
    (p : ProcessPool) (j : ℕ)
    → (dispatch p).1 ≡ some j
    → ((dispatch p).0.stop ≡ p.stop)
      × ((dispatch p).0.sub_process_counter ≡ (j + 1) % length p.sub_process)
unfolding dispatch
dispatch_told p j e = ground (arith, e)

dispatch_untold :
    (p : ProcessPool)
    → (dispatch p).1 ≡ none
    → (dispatch p).0.sub_process_counter ≡ p.sub_process_counter
unfolding dispatch
dispatch_untold p e = ground (arith, e)

dispatch-Ok : (p : ProcessPool) → Ok p → Ok (dispatch p).0
dispatch-Ok p w = elim (Option-cases (dispatch p).1) [
  | inl e ↦ record {
    counter = omega (arith, w.counter, dispatch_untold p e, ap length (dispatch_same p));
    childless = λ h k. rw (dispatch_same p) (no_child p k w.counter e);
  }
  | inr (j, e) ↦
      let (stop, counter) = dispatch_told p j e in
      record {
        counter = omega (
          arith,
          w.counter,
          counter,
          ap length (dispatch_same p),
          mod-lt (j + 1) {m = length p.sub_process} (omega (arith, w.counter)),
        );
        childless = λ h k. rw (dispatch_same p) (w.childless (sym stop ∙ h) k);
      }
]

parent_events-Ok :
    (i : ℕ) (events : List ParentEvent) (p q : ProcessPool) (sent out : List Sent)
    → parent_events i events p sent ≡ some (q, out)
    → Ok p
    → Ok q
unfolding parent_events
parent_events-Ok i [] p q sent out e w = let same : p ≡ q = cc in subst Ok same w
parent_events-Ok i (connects ∷ events) p q sent out e w = elim (Option-cases (dispatch p).1) [
  | inl n ↦ let same : (dispatch p).0 ≡ q = ground (arith, n, e) in subst Ok same (dispatch-Ok p w)
  | inr (j, t) ↦
      parent_events-Ok (i + 1) events (dispatch p).0 q (sent ++ (new_conn j ∷ [])) out
        (ground (arith, t, e)) (dispatch-Ok p w)
]
parent_events-Ok i (signalled [] ∷ events) p q sent out e w =
    parent_events-Ok (i + 1) events p q sent out e w
parent_events-Ok i (signalled (r ∷ rounds) ∷ events) p q sent out e w =
    elim (Option-cases (signal_at (r ∷ rounds) i)) [
      | inl n ↦ absurd (ground (arith, n, e))
      | inr (s, t) ↦
          let u = parent_signals i s (r ∷ rounds) p sent in
          parent_events-Ok (i + 1) events u.0 q u.1 out (ground (arith, t, e))
            (parent_signals-Ok i s (r ∷ rounds) p sent w)
    ]
parent_events-Ok i (other_event ∷ events) p q sent out e w =
    parent_events-Ok (i + 1) events p q sent out e w

-- If the events of one call of epoll_wait stop a parent that runs, and whose counter is a place of
-- the pool, then no child runs any more, whatever signals came with them and whatever waitpid
-- returned.
pub parent_events-stop :
    (events : List ParentEvent) (p q : ProcessPool) (out : List Sent)
    → p.sub_process_counter < length p.sub_process
    → p.stop ≡ false
    → parent_events 0 events p [] ≡ some (q, out)
    → q.stop ≡ true
    → (k : ℕ) → alive q.sub_process k ≡ false
parent_events-stop events p q out c s e h k =
    let w : Ok p = record { counter = c; childless = λ t. absurd cc } in
    (parent_events-Ok 0 events p q [] out e w).childless h k
