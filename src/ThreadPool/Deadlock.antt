-- ===== src/ThreadPool/Deadlock.antt =====
-- run of chapter_5/threadpool.h, where the mutex stays locked when a request has been popped.
use nowcoder_linux_learning.Base.{
  ℕ, ◌≤◌, ◌≡◌, ◌≢◌, refl, ap, ◌∙◌, some, [], ◌∷◌, ◌++◌, length, arith,
}
use nowcoder_linux_learning.Base.Sums.{move}
use nowcoder_linux_learning.ThreadPool.{Pool, pop_request}
use nowcoder_linux_learning.ThreadPool.Threads.{
  chapter_5, worker, inside, processing, appending, System, released, Step, waits, interrupted,
  locks, finds_none, takes, processes, calls, enters, refuses, pushes, posts, Reach, here, next,
}
use nowcoder_linux_learning.ThreadPool.Safety.{Inv, IsInitial, Reach-Inv, initial-Inv}

module _ {ℓ} {A : Type ℓ} where
  -- The mutex has an owner, and nobody is behind `lock`.
  record IsStuck (i : ℕ) (s : System A) : Type ℓ where
    held : s.owner ≡ some (worker i)
    no_worker : (j : ℕ) → s.places j ≢ inside
    no_caller : (r : A) → s.caller ≢ appending r

  record Same (s t : System A) : Type ℓ where
    handed_same : t.handed ≡ s.handed
    accepted_same : t.accepted ≡ s.accepted

  IsStuck-Step :
      (i : ℕ) (s t : System A) → Step chapter_5 s t → IsStuck i s → IsStuck i t × Same s t
  IsStuck-Step i s t (waits j p a b e) k = rw e (
    record {
      held = k.held;
      no_worker = λ l. ground (arith, k.no_worker l);
      no_caller = k.no_caller;
    },
    record { handed_same = refl; accepted_same = refl },
  )
  IsStuck-Step i s t (interrupted j a e) k = rw e (
    record {
      held = k.held;
      no_worker = λ l. ground (arith, k.no_worker l);
      no_caller = k.no_caller;
    },
    record { handed_same = refl; accepted_same = refl },
  )
  IsStuck-Step i s t (locks j a b e) k = absurd (ground (arith, k.held))
  IsStuck-Step i s t (finds_none j a b e) k = absurd (k.no_worker j a)
  IsStuck-Step i s t (takes j r p a b e) k = absurd (k.no_worker j a)
  IsStuck-Step i s t (processes j r a e) k = rw e (
    record {
      held = k.held;
      no_worker = λ l. ground (arith, k.no_worker l);
      no_caller = k.no_caller;
    },
    record { handed_same = refl; accepted_same = refl },
  )
  IsStuck-Step i s t (calls r a e) k = rw e (
    record { held = k.held; no_worker = k.no_worker; no_caller = λ x h. cc },
    record { handed_same = refl; accepted_same = refl },
  )
  IsStuck-Step i s t (enters r a b e) k = absurd (ground (arith, k.held))
  IsStuck-Step i s t (refuses r a b e) k = absurd (k.no_caller r a)
  IsStuck-Step i s t (pushes r a b e) k = absurd (k.no_caller r a)
  IsStuck-Step i s t (posts a e) k = rw e (
    record { held = k.held; no_worker = k.no_worker; no_caller = λ x h. cc },
    record { handed_same = refl; accepted_same = refl },
  )

  IsStuck-Reach :
      (i : ℕ) {s t : System A} → Reach chapter_5 s t → IsStuck i s → IsStuck i t × Same s t
  IsStuck-Reach i here k = (k, record { handed_same = refl; accepted_same = refl })
  IsStuck-Reach i (next {t} {u} r st) k =
      let (k', same) = IsStuck-Reach i r k in
      let (k'', same') = IsStuck-Step i t u st k' in
      (
        k'',
        record {
          handed_same = same'.handed_same ∙ same.handed_same;
          accepted_same = same'.accepted_same ∙ same.accepted_same;
        },
      )

  -- A worker that has popped a request, on its way to `process`.
  abbrev pub popped : ℕ → A → Pool A → System A → System A
  popped i r p s = record s {
    pool = p;
    owner = released chapter_5 s.owner;
    places = move s.places i (processing r);
    handed = s.handed ++ (r ∷ []);
  }

  popped-IsStuck :
      (i : ℕ) (r : A) (p : Pool A) (s : System A)
      → Inv s
      → s.places i ≡ inside
      → IsStuck i (popped i r p s)
  popped-IsStuck i r p s w a = record {
    held = w.owned i a;
    no_worker = λ j h. ground (arith, w.owned i, w.owned j);
    no_caller = λ x h. ground (arith, w.owned i, w.owned_main x);
  }

  -- In chapter_5/threadpool.h the first worker that pops a request stops the pool for good: in
  -- every state that is reached from there, append has accepted no further request, and no worker
  -- has got one.
  pub first_request_stops_pool :
      (i : ℕ) (r : A) (p : Pool A) (s t u : System A)
      → IsInitial s
      → Reach chapter_5 s t
      → t.places i ≡ inside
      → pop_request t.pool ≡ some (r, p)
      → Reach chapter_5 (popped i r p t) u
      → (u.accepted ≡ t.accepted) × (u.handed ≡ t.handed ++ (r ∷ []))
  first_request_stops_pool i r p s t u w st a b q =
      let (_, same) =
        IsStuck-Reach i q (popped-IsStuck i r p t (Reach-Inv chapter_5 st (initial-Inv s w)) a) in
      (same.accepted_same, same.handed_same)

  -- No request has been handed out, or one has been and the pool is stuck.
  data Handed (s : System A) : Type ℓ where
    nothing : s.handed ≡ [] → Handed s
    one : (i : ℕ) → IsStuck i s → length s.handed ≡ 1 → Handed s

  Step-Handed : (s t : System A) → Step chapter_5 s t → Inv s → s.handed ≡ [] → Handed t
  Step-Handed s t (waits i p a b e) w h = rw e (nothing h)
  Step-Handed s t (interrupted i a e) w h = rw e (nothing h)
  Step-Handed s t (locks i a b e) w h = rw e (nothing h)
  Step-Handed s t (finds_none i a b e) w h = rw e (nothing h)
  Step-Handed s t (takes i r p a b e) w h = rw e (one i (popped-IsStuck i r p s w a) (rw h refl))
  Step-Handed s t (processes i r a e) w h = rw e (nothing h)
  Step-Handed s t (calls r a e) w h = rw e (nothing h)
  Step-Handed s t (enters r a b e) w h = rw e (nothing h)
  Step-Handed s t (refuses r a b e) w h = rw e (nothing h)
  Step-Handed s t (pushes r a b e) w h = rw e (nothing h)
  Step-Handed s t (posts a e) w h = rw e (nothing h)

  Reach-Handed : {s t : System A} → Reach chapter_5 s t → IsInitial s → Handed t
  Reach-Handed here w = nothing w.no_handed
  Reach-Handed {s} (next {t} {u} r st) w = elim (Reach-Handed r w) [
    | nothing h ↦ Step-Handed t u st (Reach-Inv chapter_5 r (initial-Inv s w)) h
    | one i k l ↦
        let (k', same) = IsStuck-Step i t u st k in one i k' (ap length same.handed_same ∙ l)
  ]

  -- In chapter_5/threadpool.h the workers get one request at most, however many append accepts: run
  -- keeps the mutex locked when it has popped a request.
  pub hands_out_one : (s t : System A) → IsInitial s → Reach chapter_5 s t → length t.handed ≤ 1
  hands_out_one s t w r = elim (Reach-Handed r w) [
    | nothing h ↦ omega (arith, ap length h)
    | one i k l ↦ omega (arith, l)
  ]
