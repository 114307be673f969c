-- ===== src/ThreadPool/Safety.antt =====
-- The mutex and the queue of the thread pool, over every interleaving of its threads.
use nowcoder_linux_learning.Base.{
  ℕ, ◌+◌, ◌≤◌, ◌≡◌, refl, ap, sym, ◌∙◌, true, none, some, [], ◌∷◌, ◌++◌, length, length-append,
  arith,
}
use mathlib.Core.List.{append_assoc}
use nowcoder_linux_learning.ThreadPool.{Pool, push_request, post, wait, pop_request}
use nowcoder_linux_learning.ThreadPool.Threads.{
  Version, Thread, worker, main, at_wait, inside, outside, appending, System, Step, waits,
  interrupted, locks, finds_none, takes, processes, calls, enters, refuses, pushes, posts, Reach,
  here, next,
}

-- Who is behind `lock` owns the mutex; the requests that were accepted are those handed out and
-- then those in the queue, in their order; and the queue holds one more than its maximum at most.
pub record Inv {ℓ} {A : Type ℓ} (s : System A) : Type ℓ where
  pub owned : (i : ℕ) → s.places i ≡ inside → s.owner ≡ some (worker i)
  pub owned_main : (r : A) → s.caller ≡ appending r → s.owner ≡ some main
  pub in_order : s.accepted ≡ s.handed ++ s.pool.workqueue
  pub bounded : length s.pool.workqueue ≤ s.pool.max_requests + 1

module _ {ℓ} {A : Type ℓ} where
  wait_same :
      (p q : Pool A)
      → wait p ≡ some q
      → (q.workqueue ≡ p.workqueue) × (q.max_requests ≡ p.max_requests)
  unfolding wait
  wait_same p q e = ground arith

  pop_lem :
      (p q : Pool A) (r : A)
      → pop_request p ≡ some (r, q)
      → (p.workqueue ≡ r ∷ q.workqueue) × (q.max_requests ≡ p.max_requests)
  unfolding pop_request
  pop_lem p q r e = ground arith

  push_lem :
      (p : Pool A) (r : A)
      → (push_request p r).1 ≡ true
      → ((push_request p r).0.workqueue ≡ p.workqueue ++ (r ∷ []))
        × ((push_request p r).0.max_requests ≡ p.max_requests)
        × (length p.workqueue ≤ p.max_requests)
  unfolding push_request
  push_lem p r e = ground arith

  pub Step-Inv : (v : Version) (s t : System A) → Step v s t → Inv s → Inv t
  Step-Inv v s t (waits i p a b e) w =
      let q = wait_same s.pool p b in
      rw e (record {
        owned = λ j h. ground (arith, w.owned j);
        owned_main = w.owned_main;
        in_order = rw q.0 w.in_order;
        bounded = rw (q.0, q.1) w.bounded;
      })
  Step-Inv v s t (interrupted i a e) w = rw e (record {
    owned = λ j h. ground (arith, w.owned j);
    owned_main = w.owned_main;
    in_order = w.in_order;
    bounded = w.bounded;
  })
  Step-Inv v s t (locks i a b e) w = rw e (record {
    owned = λ j h. ground (arith, w.owned j);
    owned_main = λ r h. ground (arith, w.owned_main r);
    in_order = w.in_order;
    bounded = w.bounded;
  })
  Step-Inv v s t (finds_none i a b e) w = rw e (record {
    owned = λ j h. ground (arith, w.owned j, w.owned i);
    owned_main = λ r h. ground (arith, w.owned_main r, w.owned i);
    in_order = w.in_order;
    bounded = w.bounded;
  })
  Step-Inv v s t (takes i r p a b e) w =
      let q = pop_lem s.pool p r b in
      rw e (record {
        owned = λ j h. ground (arith, w.owned j, w.owned i);
        owned_main = λ x h. ground (arith, w.owned_main x, w.owned i);
        in_order =
            w.in_order ∙ ap (◌++◌ s.handed) q.0 ∙ sym (append_assoc s.handed (r ∷ []) p.workqueue);
        bounded = omega (arith, ap length q.0, w.bounded, q.1);
      })
  Step-Inv v s t (processes i r a e) w = rw e (record {
    owned = λ j h. ground (arith, w.owned j);
    owned_main = w.owned_main;
    in_order = w.in_order;
    bounded = w.bounded;
  })
  Step-Inv v s t (calls r a e) w = rw e (record {
    owned = w.owned;
    owned_main = λ x h. cc;
    in_order = w.in_order;
    bounded = w.bounded;
  })
  Step-Inv v s t (enters r a b e) w = rw e (record {
    owned = λ j h. ground (arith, w.owned j);
    owned_main = λ x h. refl;
    in_order = w.in_order;
    bounded = w.bounded;
  })
  Step-Inv v s t (refuses r a b e) w = rw e (record {
    owned = λ j h. ground (arith, w.owned j, w.owned_main r);
    owned_main = λ x h. cc;
    in_order = w.in_order;
    bounded = w.bounded;
  })
  Step-Inv v s t (pushes r a b e) w =
      let q = push_lem s.pool r b in
      rw e (record {
        owned = λ j h. ground (arith, w.owned j, w.owned_main r);
        owned_main = λ x h. cc;
        in_order =
            ap (λ l. l ++ (r ∷ [])) w.in_order
            ∙ append_assoc s.handed s.pool.workqueue (r ∷ [])
            ∙ rw q.0;
        bounded = omega (arith, ap length q.0, length-append s.pool.workqueue (r ∷ []), q.1, q.2);
      })
  Step-Inv v s t (posts a e) w = rw e (record {
    owned = w.owned;
    owned_main = λ x h. cc;
    in_order = unfold post in w.in_order;
    bounded = unfold post in w.bounded;
  })

  pub Reach-Inv : (v : Version) {s t : System A} → Reach v s t → Inv s → Inv t
  Reach-Inv v here w = w
  Reach-Inv v (next {t} {u} r st) w = Step-Inv v t u st (Reach-Inv v r w)

  -- A pool as its constructor leaves it, with nothing accepted yet.
  pub record IsInitial (s : System A) : Type ℓ where
    pub free : s.owner ≡ none
    pub waiting : (i : ℕ) → s.places i ≡ at_wait
    pub idle : s.caller ≡ outside
    pub empty : s.pool.workqueue ≡ []
    pub no_accepted : s.accepted ≡ []
    pub no_handed : s.handed ≡ []

  pub initial-Inv : (s : System A) → IsInitial s → Inv s
  initial-Inv s w = record {
    owned = λ i h. ground (arith, w.waiting i);
    owned_main = λ r h. ground (arith, w.idle);
    in_order = rw (w.no_accepted, w.no_handed, w.empty);
    bounded = rw w.empty (omega arith);
  }

  -- A thread that is behind `lock`.
  abbrev pub Holds : System A → Thread → Type ℓ
  Holds s (worker i) = (s.places i ≡ inside)
  Holds s main = (r : A) × (s.caller ≡ appending r)

  Holds-owner : (s : System A) → Inv s → (x : Thread) → Holds s x → s.owner ≡ some x
  Holds-owner s k (worker i) h = k.owned i h
  Holds-owner s k main (r, h) = k.owned_main r h

  -- In every state that the threads of either version of the pool reach from a new pool, two
  -- threads that are between lock and unlock, workers or the caller of append, are one.
  pub Reach-exclusive :
      (v : Version) (s t : System A) (x y : Thread)
      → IsInitial s
      → Reach v s t
      → Holds t x
      → Holds t y
      → x ≡ y
  Reach-exclusive v s t x y w r h k =
      let inv = Reach-Inv v r (initial-Inv s w) in
      ground (arith, Holds-owner t inv x h, Holds-owner t inv y k)

  -- In every state that the threads of either version of the pool reach from a new pool, the
  -- requests that append accepted are those that the workers got and then those in the queue, in
  -- the order of the calls, so none is lost, made up, handed out twice or overtaken; and the queue
  -- holds one more than its maximum at most.
  pub Reach-in_order :
      (v : Version) (s t : System A)
      → IsInitial s
      → Reach v s t
      → (t.accepted ≡ t.handed ++ t.pool.workqueue)
        × (length t.pool.workqueue ≤ t.pool.max_requests + 1)
  Reach-in_order v s t w r = let k = Reach-Inv v r (initial-Inv s w) in (k.in_order, k.bounded)
