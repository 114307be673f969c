-- ===== src/Chapter3/Buffer/Bounds.antt =====
-- The two semaphores count the room and the items of the buffer.
use nowcoder_linux_learning.Base.{
  ℕ, ◌+◌, ◌≤◌, ◌<◌, ◌≡◌, refl, ap, some, [], ◌∷◌, length, length-append, arith,
}
use nowcoder_linux_learning.Base.Sums.{sum, sum-move, sum-le, move}
use nowcoder_linux_learning.Chapter3.Stack.{back, pop_back_lem, back_lem}
use nowcoder_linux_learning.Chapter3.Buffer.{
  buf_size, producer_num, consumer_num, Place, at_wait, at_lock, inside, leaving, posting, Shared,
  initial, Step, producer_waits, producer_locks, producer_pushes, producer_unlocks, producer_posts,
  consumer_waits, consumer_locks, consumer_pops, consumer_unlocks, consumer_posts, Reach, here,
  next,
}

-- A thread that came out of `sem_wait` and has not changed the buffer yet.
abbrev pub pending : Place → ℕ
pending at_lock = 1
pending inside = 1
pending _ = 0

-- A thread that has changed the buffer, on its way to `sem_post`.
abbrev pub finished : Place → ℕ
finished leaving = 1
finished posting = 1
finished _ = 0

pub record Inv (s : Shared) : Type 0 where
  pub room :
      s.sem_p
        + sum pending producer_num s.producers
        + length s.buf
        + sum finished consumer_num s.consumers
      ≡ buf_size
  pub items :
      s.sem_c + sum pending consumer_num s.consumers + sum finished producer_num s.producers
      ≡ length s.buf

-- A thread moves from one place to another, and the sums change with it.
module _ (f : ℕ → Place) (i : ℕ) (a b : Place) (h : i < 5) (e : f i ≡ a) where
  pending-move : sum pending 5 (move f i b) + pending a ≡ sum pending 5 f + pending b
  pending-move = let m = ap pending e in omega (arith, sum-move pending 5 i f b h, m)

  finished-move : sum finished 5 (move f i b) + finished a ≡ sum finished 5 f + finished b
  finished-move = let m = ap finished e in omega (arith, sum-move finished 5 i f b h, m)

pub has_item :
    (s : Shared) (i : ℕ) → i < consumer_num → s.consumers i ≡ inside → Inv s → 0 < length s.buf
has_item s i h a w =
    let m = ap pending a in omega (arith, sum-le pending 5 i s.consumers h, m, w.items)

Step-Inv : (s t : Shared) → Step s t → Inv s → Inv t
Step-Inv s t (producer_waits i n h a b e) w =
    let p = pending-move s.producers i at_wait at_lock h a in
    let f = finished-move s.producers i at_wait at_lock h a in
    rw e (record { room = omega (arith, p, w.room, b); items = omega (arith, f, w.items) })
Step-Inv s t (producer_locks i h a b e) w =
    let p = pending-move s.producers i at_lock inside h a in
    let f = finished-move s.producers i at_lock inside h a in
    rw e (record { room = omega (arith, p, w.room); items = omega (arith, f, w.items) })
Step-Inv s t (producer_pushes i num h a e) w =
    let p = pending-move s.producers i inside leaving h a in
    let f = finished-move s.producers i inside leaving h a in
    let l = length-append s.buf (num ∷ []) in
    rw e (record { room = omega (arith, p, l, w.room); items = omega (arith, f, l, w.items) })
Step-Inv s t (producer_unlocks i h a e) w =
    let p = pending-move s.producers i leaving posting h a in
    let f = finished-move s.producers i leaving posting h a in
    rw e (record { room = omega (arith, p, w.room); items = omega (arith, f, w.items) })
Step-Inv s t (producer_posts i h a e) w =
    let p = pending-move s.producers i posting at_wait h a in
    let f = finished-move s.producers i posting at_wait h a in
    rw e (record { room = omega (arith, p, w.room); items = omega (arith, f, w.items) })
Step-Inv s t (consumer_waits i n h a b e) w =
    let p = pending-move s.consumers i at_wait at_lock h a in
    let f = finished-move s.consumers i at_wait at_lock h a in
    rw e (record { room = omega (arith, f, w.room); items = omega (arith, p, w.items, b) })
Step-Inv s t (consumer_locks i h a b e) w =
    let p = pending-move s.consumers i at_lock inside h a in
    let f = finished-move s.consumers i at_lock inside h a in
    rw e (record { room = omega (arith, f, w.room); items = omega (arith, p, w.items) })
Step-Inv s t (consumer_pops i h a e) w =
    let p = pending-move s.consumers i inside leaving h a in
    let f = finished-move s.consumers i inside leaving h a in
    let l = pop_back_lem s.buf (has_item s i h a w) in
    rw e (record { room = omega (arith, f, l, w.room); items = omega (arith, p, l, w.items) })
Step-Inv s t (consumer_unlocks i h a e) w =
    let p = pending-move s.consumers i leaving posting h a in
    let f = finished-move s.consumers i leaving posting h a in
    rw e (record { room = omega (arith, f, w.room); items = omega (arith, p, w.items) })
Step-Inv s t (consumer_posts i h a e) w =
    let p = pending-move s.consumers i posting at_wait h a in
    let f = finished-move s.consumers i posting at_wait h a in
    rw e (record { room = omega (arith, f, w.room); items = omega (arith, p, w.items) })

pub Reach-Inv : (s : Shared) → Reach initial s → Inv s
unfolding sum
Reach-Inv s here = record { room = refl; items = refl }
Reach-Inv s (next {t} r st) = Step-Inv t s st (Reach-Inv t r)

-- In chapter_3/thread/semaphore.cpp the buffer holds 100 items at most in every state that the
-- producers and consumers reach.
pub Reach-size : (s : Shared) → Reach initial s → length s.buf ≤ buf_size
Reach-size s r = let w = Reach-Inv s r in omega (arith, w.room)

-- In chapter_3/thread/semaphore.cpp a consumer that is about to read the back of the buffer, in any
-- state that the producers and consumers reach, finds an item there: back and pop_back are never
-- called on an empty buffer.
pub Reach-back :
    (s : Shared) (i : ℕ)
    → Reach initial s
    → i < consumer_num
    → s.consumers i ≡ inside
    → (x : ℕ) × (back s.buf ≡ some x)
Reach-back s i r h a = back_lem s.buf (has_item s i h a (Reach-Inv s r))
