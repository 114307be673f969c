-- ===== src/Chapter3/Tickets/Total.antt =====
-- Every ticket is sold once.
use nowcoder_linux_learning.Base.{
  ℕ, suc, ◌+◌, ◌<◌, ◌≡◌, refl, Bool, true, false, ◌==◌, Bool-cases, inl, inr, some, none, arith,
}
use nowcoder_linux_learning.Base.Sums.{sum, sum-move, sum-move_from, sum_zero, move}
use nowcoder_linux_learning.Chapter3.Tickets.{
  thread_num, tickets_num, Place, trying, inside, selling, loaded, counting, leaving, stopping,
  ended, Office, opening, Step, locks, misses, finds_ticket, finds_none, loads, stores, counts,
  unlocks, stops, Reach, here, next, join_all,
}

-- A ticket that is taken off and not yet counted.
abbrev pending : Place → ℕ
pending counting = 1
pending _ = 0

-- What a thread at a place knows of the tickets.
abbrev Knows : Place → ℕ → Type 0
Knows selling n = 0 < n
Knows (loaded k) n = (k ≡ n) × (0 < n)
Knows stopping n = n ≡ 0
Knows _ n = Unit {0}

-- Between `trylock` and `unlock`.
abbrev holds : Place → Bool
holds trying = false
holds ended = false
holds _ = true

record Inv (s : Office) : Type 0 where
  total :
      s.tickets + (sum (λ x. x) thread_num s.sell + sum pending thread_num s.places) ≡ tickets_num
  owned : (i : ℕ) → holds (s.places i) ≡ true → s.mutex ≡ some i
  known : (i : ℕ) → Knows (s.places i) s.tickets
  sold_out : (i j : ℕ) → s.places i ≡ ended → (s.tickets ≡ 0) × (pending (s.places j) ≡ 0)

-- A thread without the mutex knows nothing, and has nothing to count.
Knows-free : (p : Place) (n : ℕ) → holds p ≡ false → Knows p n
Knows-free p n h = ground (arith, h)

pending-free : (p : Place) → holds p ≡ false → pending p ≡ 0
pending-free p h = ground (arith, h)

-- While `i` holds the mutex, no other thread does.
others-free :
    (s : Office) (i j : ℕ)
    → Inv s
    → holds (s.places i) ≡ true
    → (i == j) ≡ false
    → holds (s.places j) ≡ false
others-free s i j w h e = ground (arith, w.owned i, w.owned j)

-- The holder goes from a place to another, and may change the tickets and its count.
module _ (s : Office) (i : ℕ) (w : Inv s) (h : holds (s.places i) ≡ true) where
  moved-owned : (p : Place) (j : ℕ) → holds (move s.places i p j) ≡ true → s.mutex ≡ some j
  moved-owned p j a = elim (Bool-cases (i == j)) [
    | inl e ↦ ground (arith, w.owned i h)
    | inr e ↦ w.owned j (rw e at a)
  ]

  freed-owned :
      (p : Place) (j : ℕ) → holds p ≡ false → holds (move s.places i p j) ≡ true → none ≡ some j
  freed-owned p j a b = elim (Bool-cases (i == j)) [
    | inl e ↦ absurd (ground (arith, a, b))
    | inr e ↦ absurd (ground (arith, others-free s i j w h e, b))
  ]

  moved-known : (p : Place) (n j : ℕ) → Knows p n → Knows (move s.places i p j) n
  moved-known p n j k = elim (Bool-cases (i == j)) [
    | inl e ↦ rw e k
    | inr e ↦ rw e (Knows-free (s.places j) n (others-free s i j w h e))
  ]

  -- A thread that ends does so while nothing is left.
  moved-sold_out :
      (p : Place) (n j k : ℕ)
      → pending p ≡ 0
      → (s.tickets ≡ 0 → n ≡ 0)
      → (p ≡ ended → n ≡ 0)
      → move s.places i p j ≡ ended
      → (n ≡ 0) × (pending (move s.places i p k) ≡ 0)
  moved-sold_out p n j k a b c d = (
    elim (Bool-cases (i == j)) [ inl e ↦ c (rw e at d) | inr e ↦ b (w.sold_out j k (rw e at d)).0 ],
    elim (Bool-cases (i == k)) [
      | inl e ↦ rw e a
      | inr e ↦ rw e (pending-free (s.places k) (others-free s i k w h e))
    ],
  )

-- A step of the holder to a place where it keeps the mutex, and the tickets stay.
keep-Inv :
    (s : Office) (i : ℕ) (p : Place)
    → Inv s
    → i < thread_num
    → holds (s.places i) ≡ true
    → pending (s.places i) ≡ 0
    → (holds p ≡ true) × (pending p ≡ 0)
    → Knows p s.tickets
    → Inv (record s { places = move s.places i p })
keep-Inv s i p w l h none_pending (a, b) k = record {
  total = omega (arith, w.total, sum-move pending thread_num i s.places p l, none_pending, b);
  owned = moved-owned s i w h p;
  known = λ j. moved-known s i w h p s.tickets j k;
  sold_out =
      λ j m. moved-sold_out s i w h p s.tickets j m b (λ z. z) (λ z. absurd (ground (arith, z, a)));
}

-- The holder unlocks the mutex.
free-Inv :
    (s : Office) (i : ℕ) (p : Place)
    → Inv s
    → i < thread_num
    → holds (s.places i) ≡ true
    → pending (s.places i) ≡ 0
    → holds p ≡ false
    → (p ≡ ended → s.tickets ≡ 0)
    → Inv (record s { mutex = none; places = move s.places i p })
free-Inv s i p w l h none_pending a b = record {
  total =
      omega (
        arith,
        w.total,
        sum-move pending thread_num i s.places p l,
        none_pending,
        pending-free p a,
      );
  owned = λ j. freed-owned s i w h p j a;
  known = λ j. moved-known s i w h p s.tickets j (Knows-free p s.tickets a);
  sold_out = λ j m. moved-sold_out s i w h p s.tickets j m (pending-free p a) (λ z. z) b;
}

lock-Inv :
    (s : Office) (i : ℕ)
    → Inv s
    → i < thread_num
    → s.places i ≡ trying
    → s.mutex ≡ none
    → Inv (record s { mutex = some i; places = move s.places i inside })
lock-Inv s i w l h m = record {
  total = omega (arith, w.total, sum-move_from pending thread_num i s.places trying inside l h);
  owned = λ j k. ground (arith, w.owned j);
  known = λ j. ground (arith, w.known j);
  sold_out = λ j k e. ground (arith, w.sold_out j k, w.sold_out j i);
}

store-Inv :
    (s : Office) (i n : ℕ)
    → Inv s
    → i < thread_num
    → s.places i ≡ loaded (suc n)
    → Inv (record s { tickets = n; places = move s.places i counting })
store-Inv s i n w l h =
    let held : holds (s.places i) ≡ true = rw h refl in
    let value : (suc n ≡ s.tickets) × (0 < s.tickets) = rw h at (w.known i) in
    record {
      total = omega (
        arith,
        w.total,
        value.0,
        sum-move_from pending thread_num i s.places (loaded (suc n)) counting l h,
      );
      owned = moved-owned s i w held counting;
      known = λ j. moved-known s i w held counting n j tt;
      sold_out = λ j k e. absurd (ground (arith, e, value, w.sold_out j k));
    }

count-Inv :
    (s : Office) (i : ℕ)
    → Inv s
    → i < thread_num
    → s.places i ≡ counting
    → Inv (record s { sell = move s.sell i (s.sell i + 1); places = move s.places i leaving })
count-Inv s i w l h =
    let held : holds (s.places i) ≡ true = rw h refl in
    record {
      total = omega (
        arith,
        w.total,
        sum-move_from pending thread_num i s.places counting leaving l h,
        sum-move (λ x. x) thread_num i s.sell (s.sell i + 1) l,
      );
      owned = moved-owned s i w held leaving;
      known = λ j. moved-known s i w held leaving s.tickets j tt;
      sold_out =
          λ j m. moved-sold_out s i w held leaving s.tickets j m refl (λ z. z) (λ z. absurd cc);
    }

Step-Inv : (s t : Office) → Step s t → Inv s → Inv t
Step-Inv s t (locks i l a b e) w = rw e (lock-Inv s i w l a b)
Step-Inv s t (misses i k l a b e) w = rw e w
Step-Inv s t (finds_ticket i l a b e) w =
    rw e (keep-Inv s i selling w l (rw a refl) (rw a refl) (refl, refl) b)
Step-Inv s t (finds_none i l a b e) w =
    rw e (keep-Inv s i stopping w l (rw a refl) (rw a refl) (refl, refl) b)
Step-Inv s t (loads i l a e) w =
    let k : 0 < s.tickets = rw a at (w.known i) in
    rw e (keep-Inv s i (loaded s.tickets) w l (rw a refl) (rw a refl) (refl, refl) (refl, k))
Step-Inv s t (stores i n l a e) w = rw e (store-Inv s i n w l a)
Step-Inv s t (counts i l a e) w = rw e (count-Inv s i w l a)
Step-Inv s t (unlocks i l a e) w =
    rw e (free-Inv s i trying w l (rw a refl) (rw a refl) refl (λ z. absurd cc))
Step-Inv s t (stops i l a e) w =
    let k : s.tickets ≡ 0 = rw a at (w.known i) in
    rw e (free-Inv s i ended w l (rw a refl) (rw a refl) refl (λ z. k))

Reach-Inv : {s t : Office} → Reach s t → Inv s → Inv t
Reach-Inv here w = w
Reach-Inv (next {t} {u} r st) w = Step-Inv t u st (Reach-Inv r w)

opening-Inv : Inv opening
unfolding sum
opening-Inv = record {
  total = refl;
  owned = λ i h. absurd (ground (arith, h));
  known = λ i. tt;
  sold_out = λ i j h. absurd (ground (arith, h));
}

-- In chapter_3/thread/case_sell_tickets.cpp, where the test of tickets_num, the load and the store
-- of its decrement and the count of the sale are steps apart, in every state that is reached and in
-- which a thread has ended, the sum over the counts of the threads is the number of tickets, 1000.
pub join_all_ended :
    (s : Office) (i : ℕ) → Reach opening s → s.places i ≡ ended → join_all s ≡ tickets_num
unfolding join_all
join_all_ended s i r h =
    let w = Reach-Inv r opening-Inv in
    let counted = sum_zero pending thread_num s.places (λ j. (w.sold_out i j h).1) in
    omega (arith, w.total, (w.sold_out i i h).0, counted)
