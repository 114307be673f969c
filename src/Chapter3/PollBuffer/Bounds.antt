-- ===== src/Chapter3/PollBuffer/Bounds.antt =====
-- The buffer of chapter_3/thread/producer_consumer.cpp against an abstract stack.
use nowcoder_linux_learning.Base.{
  ℕ, ◌+◌, ◌≤◌, ◌<◌, ◌≡◌, refl, ap, sym, ◌∙◌, Option, none, some, [], ◌∷◌, ◌++◌, length,
  length-append, arith,
}
use nowcoder_linux_learning.Base.Sums.{sum, sum-move_from, sum-le, move}
use nowcoder_linux_learning.Chapter3.Stack.{
  StackStep, stays, pushes, pops, pop_back_lem, back_lem, pop_back-back,
}
use nowcoder_linux_learning.Chapter3.PollBuffer.{
  buf_size, producer_num, consumer_num, Place, at_lock, testing, changing, leaving, Owner, Shared,
  initial, Step, producer_locks, producer_finds_room, producer_finds_none, producer_pushes,
  producer_unlocks, consumer_locks, consumer_finds_item, consumer_finds_none, consumer_pops,
  consumer_unlocks, Reach, here, next,
}

-- A thread that has the mutex, but is not at the change of the buffer.
abbrev pub steady : Place → ℕ
steady testing = 1
steady leaving = 1
steady _ = 0

abbrev pub working : Place → ℕ
working changing = 1
working _ = 0

abbrev pub held : Option Owner → ℕ
held none = 0
held (some o) = 1

held_le : (o : Option Owner) → held o ≤ 1
held_le none = omega arith
held_le (some o) = omega arith

pub record Inv (s : Shared) : Type 0 where
  pub alone :
      sum steady producer_num s.producers
        + sum working producer_num s.producers
        + sum steady consumer_num s.consumers
        + sum working consumer_num s.consumers
      ≡ held s.mutex
  pub room : sum working producer_num s.producers + length s.buf ≤ buf_size
  pub items : sum working consumer_num s.consumers ≤ length s.buf

pub has_item :
    (s : Shared) (i : ℕ) → i < consumer_num → s.consumers i ≡ changing → Inv s → 0 < length s.buf
has_item s i h a w =
    let m = ap working a in omega (arith, sum-le working 5 i s.consumers h, m, w.items)

has_room :
    (s : Shared) (i : ℕ)
    → i < producer_num
    → s.producers i ≡ changing
    → Inv s
    → length s.buf < buf_size
has_room s i h a w =
    let m = ap working a in omega (arith, sum-le working 5 i s.producers h, m, w.room)

-- A thread moves, and the sums change with it.
moves :
    (f : ℕ → Place) (i : ℕ) (a b : Place)
    → i < 5
    → f i ≡ a
    → (sum steady 5 (move f i b) + steady a ≡ sum steady 5 f + steady b)
      × (sum working 5 (move f i b) + working a ≡ sum working 5 f + working b)
      × (steady (f i) ≤ sum steady 5 f)
      × (steady (f i) ≡ steady a)
moves f i a b h e = (
  sum-move_from steady 5 i f a b h e,
  sum-move_from working 5 i f a b h e,
  sum-le steady 5 i f h,
  ap steady e,
)

facts :
    (s : Shared)
    → Inv s
    → (sum steady producer_num s.producers
          + sum working producer_num s.producers
          + sum steady consumer_num s.consumers
          + sum working consumer_num s.consumers
        ≡ held s.mutex)
      × (sum working producer_num s.producers + length s.buf ≤ buf_size)
      × (sum working consumer_num s.consumers ≤ length s.buf)
facts s w = (w.alone, w.room, w.items)

Step-Inv : (s t : Shared) → Step s t → Inv s → Inv t
Step-Inv s t (producer_locks i h a b e) w =
    let (m, n, c, d) = moves s.producers i at_lock testing h a in
    let free = ap held b in
    let (x, y, z) = facts s w in
    rw e (record { alone = omega arith; room = omega arith; items = omega arith })
Step-Inv s t (producer_finds_room i h a b e) w =
    let (m, n, c, d) = moves s.producers i testing changing h a in
    let one = held_le s.mutex in
    let (x, y, z) = facts s w in
    rw e (record { alone = omega arith; room = omega arith; items = omega arith })
Step-Inv s t (producer_finds_none i h a b e) w =
    let (m, n, c, d) = moves s.producers i testing leaving h a in
    let one = held_le s.mutex in
    let (x, y, z) = facts s w in
    rw e (record { alone = omega arith; room = omega arith; items = omega arith })
Step-Inv s t (producer_pushes i num h a e) w =
    let (m, n, c, d) = moves s.producers i changing leaving h a in
    let l = length-append s.buf (num ∷ []) in
    let one = held_le s.mutex in
    let (x, y, z) = facts s w in
    rw e (record { alone = omega arith; room = omega arith; items = omega arith })
Step-Inv s t (producer_unlocks i h a e) w =
    let (m, n, c, d) = moves s.producers i leaving at_lock h a in
    let one = held_le s.mutex in
    let (x, y, z) = facts s w in
    rw e (record { alone = omega arith; room = omega arith; items = omega arith })
Step-Inv s t (consumer_locks i h a b e) w =
    let (m, n, c, d) = moves s.consumers i at_lock testing h a in
    let free = ap held b in
    let (x, y, z) = facts s w in
    rw e (record { alone = omega arith; room = omega arith; items = omega arith })
Step-Inv s t (consumer_finds_item i h a b e) w =
    let (m, n, c, d) = moves s.consumers i testing changing h a in
    let one = held_le s.mutex in
    let (x, y, z) = facts s w in
    rw e (record { alone = omega arith; room = omega arith; items = omega arith })
Step-Inv s t (consumer_finds_none i h a b e) w =
    let (m, n, c, d) = moves s.consumers i testing leaving h a in
    let one = held_le s.mutex in
    let (x, y, z) = facts s w in
    rw e (record { alone = omega arith; room = omega arith; items = omega arith })
Step-Inv s t (consumer_pops i h a e) w =
    let (m, n, c, d) = moves s.consumers i changing leaving h a in
    let l = pop_back_lem s.buf (has_item s i h a w) in
    let one = held_le s.mutex in
    let (x, y, z) = facts s w in
    rw e (record { alone = omega arith; room = omega arith; items = omega arith })
Step-Inv s t (consumer_unlocks i h a e) w =
    let (m, n, c, d) = moves s.consumers i leaving at_lock h a in
    let one = held_le s.mutex in
    let (x, y, z) = facts s w in
    rw e (record { alone = omega arith; room = omega arith; items = omega arith })

pub Reach-Inv : (s : Shared) → Reach initial s → Inv s
unfolding sum
Reach-Inv s here = record { alone = refl; room = omega arith; items = omega arith }
Reach-Inv s (next {t} r st) = Step-Inv t s st (Reach-Inv t r)

-- chapter_3/thread/producer_consumer.cpp implements a stack of 100 items at most: each step from a
-- state that the threads reach leaves the buffer as it is, or puts one item on top of fewer than
-- 100, or takes away the item on top of a buffer that is not empty, which is what back gives.
pub poll_refines : (s t : Shared) → Reach initial s → Step s t → StackStep buf_size s.buf t.buf
poll_refines s t r (producer_locks i h a b e) = stays (ap (λ u. u.buf) e)
poll_refines s t r (producer_finds_room i h a b e) = stays (ap (λ u. u.buf) e)
poll_refines s t r (producer_finds_none i h a b e) = stays (ap (λ u. u.buf) e)
poll_refines s t r (producer_pushes i num h a e) =
    pushes num (has_room s i h a (Reach-Inv s r)) (ap (λ u. u.buf) e)
poll_refines s t r (producer_unlocks i h a e) = stays (ap (λ u. u.buf) e)
poll_refines s t r (consumer_locks i h a b e) = stays (ap (λ u. u.buf) e)
poll_refines s t r (consumer_finds_item i h a b e) = stays (ap (λ u. u.buf) e)
poll_refines s t r (consumer_finds_none i h a b e) = stays (ap (λ u. u.buf) e)
poll_refines s t r (consumer_pops i h a e) =
    let (x, b) = back_lem s.buf (has_item s i h a (Reach-Inv s r)) in
    pops x b (pop_back-back s.buf x b ∙ ap (λ u. u ++ (x ∷ [])) (sym (ap (λ u. u.buf) e)))
poll_refines s t r (consumer_unlocks i h a e) = stays (ap (λ u. u.buf) e)
