-- ===== src/Chapter3/CondBuffer/Bounds.antt =====
-- The buffer of chapter_3/thread/pthread_cond.cpp against an abstract stack.
use nowcoder_linux_learning.Base.{refl, ap, sym, ◌∙◌, [], ◌∷◌, ◌++◌, length-append, arith}
use nowcoder_linux_learning.Base.Sums.{sum}
use nowcoder_linux_learning.Chapter3.Stack.{
  StackStep, stays, pushes, pops, pop_back_lem, back_lem, pop_back-back,
}
use nowcoder_linux_learning.Chapter3.CondBuffer.{
  buf_size, Producer, Consumer, Shared, initial, Step, producer_locks, producer_finds_room,
  producer_finds_none, producer_pushes, producer_signals, producer_signals_none, producer_unlocks,
  consumer_locks, consumer_finds_item, consumer_finds_none, consumer_pops, consumer_blocks,
  consumer_wakes, consumer_relocks, consumer_unlocks, Reach, here, next,
}
use nowcoder_linux_learning.Chapter3.CondBuffer.Counts.{
  held, held_le, Inv, has_item, has_room, producer_moves, consumer_moves, facts,
}

Step-Inv : (s t : Shared) → Step s t → Inv s → Inv t
Step-Inv s t (producer_locks i h a b e) w =
    let (m, n, c, d) = producer_moves s.producers i Producer.at_lock Producer.testing h a in
    let free = ap held b in
    let (x, y, z) = facts s w in
    rw e (record { alone = omega arith; room = omega arith; items = omega arith })
Step-Inv s t (producer_finds_room i h a b e) w =
    let (m, n, c, d) = producer_moves s.producers i Producer.testing Producer.changing h a in
    let one = held_le s.mutex in
    let (x, y, z) = facts s w in
    rw e (record { alone = omega arith; room = omega arith; items = omega arith })
Step-Inv s t (producer_finds_none i h a b e) w =
    let (m, n, c, d) = producer_moves s.producers i Producer.testing Producer.leaving h a in
    let one = held_le s.mutex in
    let (x, y, z) = facts s w in
    rw e (record { alone = omega arith; room = omega arith; items = omega arith })
Step-Inv s t (producer_pushes i num h a e) w =
    let (m, n, c, d) = producer_moves s.producers i Producer.changing Producer.signalling h a in
    let l = length-append s.buf (num ∷ []) in
    let one = held_le s.mutex in
    let (x, y, z) = facts s w in
    rw e (record { alone = omega arith; room = omega arith; items = omega arith })
Step-Inv s t (producer_signals i j h k a b e) w =
    let (m, n, c, d) = producer_moves s.producers i Producer.signalling Producer.leaving h a in
    let (q, u, v, _, _) = consumer_moves s.consumers j Consumer.blocked Consumer.woken k b in
    let one = held_le s.mutex in
    let (x, y, z) = facts s w in
    rw e (record { alone = omega arith; room = omega arith; items = omega arith })
Step-Inv s t (producer_signals_none i h a b e) w =
    let (m, n, c, d) = producer_moves s.producers i Producer.signalling Producer.leaving h a in
    let one = held_le s.mutex in
    let (x, y, z) = facts s w in
    rw e (record { alone = omega arith; room = omega arith; items = omega arith })
Step-Inv s t (producer_unlocks i h a e) w =
    let (m, n, c, d) = producer_moves s.producers i Producer.leaving Producer.at_lock h a in
    let one = held_le s.mutex in
    let (x, y, z) = facts s w in
    rw e (record { alone = omega arith; room = omega arith; items = omega arith })
Step-Inv s t (consumer_locks i h a b e) w =
    let (m, n, o, c, d) = consumer_moves s.consumers i Consumer.at_lock Consumer.testing h a in
    let free = ap held b in
    let (x, y, z) = facts s w in
    rw e (record { alone = omega arith; room = omega arith; items = omega arith })
Step-Inv s t (consumer_finds_item i h a b e) w =
    let (m, n, o, c, d) = consumer_moves s.consumers i Consumer.testing Consumer.changing h a in
    let one = held_le s.mutex in
    let (x, y, z) = facts s w in
    rw e (record { alone = omega arith; room = omega arith; items = omega arith })
Step-Inv s t (consumer_finds_none i h a b e) w =
    let (m, n, o, c, d) = consumer_moves s.consumers i Consumer.testing Consumer.empty_seen h a in
    let one = held_le s.mutex in
    let (x, y, z) = facts s w in
    rw e (record { alone = omega arith; room = omega arith; items = omega arith })
Step-Inv s t (consumer_pops i h a e) w =
    let (m, n, o, c, d) = consumer_moves s.consumers i Consumer.changing Consumer.leaving h a in
    let l = pop_back_lem s.buf (has_item s i h a w) in
    let one = held_le s.mutex in
    let (x, y, z) = facts s w in
    rw e (record { alone = omega arith; room = omega arith; items = omega arith })
Step-Inv s t (consumer_blocks i h a e) w =
    let (m, n, o, c, d) = consumer_moves s.consumers i Consumer.empty_seen Consumer.blocked h a in
    let one = held_le s.mutex in
    let (x, y, z) = facts s w in
    rw e (record { alone = omega arith; room = omega arith; items = omega arith })
Step-Inv s t (consumer_wakes i h a e) w =
    let (m, n, o, c, d) = consumer_moves s.consumers i Consumer.blocked Consumer.woken h a in
    let one = held_le s.mutex in
    let (x, y, z) = facts s w in
    rw e (record { alone = omega arith; room = omega arith; items = omega arith })
Step-Inv s t (consumer_relocks i h a b e) w =
    let (m, n, o, c, d) = consumer_moves s.consumers i Consumer.woken Consumer.leaving h a in
    let free = ap held b in
    let (x, y, z) = facts s w in
    rw e (record { alone = omega arith; room = omega arith; items = omega arith })
Step-Inv s t (consumer_unlocks i h a e) w =
    let (m, n, o, c, d) = consumer_moves s.consumers i Consumer.leaving Consumer.at_lock h a in
    let one = held_le s.mutex in
    let (x, y, z) = facts s w in
    rw e (record { alone = omega arith; room = omega arith; items = omega arith })

pub Reach-Inv : (s : Shared) → Reach initial s → Inv s
unfolding sum
Reach-Inv s here = record { alone = refl; room = omega arith; items = omega arith }
Reach-Inv s (next {t} r st) = Step-Inv t s st (Reach-Inv t r)

-- chapter_3/thread/pthread_cond.cpp implements a stack of 100 items at most, also with wakeups that
-- have no cause: each step from a state that the threads reach leaves the buffer as it is, or puts
-- one item on top of fewer than 100, or takes away the item on top of a buffer that is not empty,
-- which is what back gives.
pub cond_refines : (s t : Shared) → Reach initial s → Step s t → StackStep buf_size s.buf t.buf
cond_refines s t r (producer_locks i h a b e) = stays (ap (λ u. u.buf) e)
cond_refines s t r (producer_finds_room i h a b e) = stays (ap (λ u. u.buf) e)
cond_refines s t r (producer_finds_none i h a b e) = stays (ap (λ u. u.buf) e)
cond_refines s t r (producer_pushes i num h a e) =
    pushes num (has_room s i h a (Reach-Inv s r)) (ap (λ u. u.buf) e)
cond_refines s t r (producer_signals i j h k a b e) = stays (ap (λ u. u.buf) e)
cond_refines s t r (producer_signals_none i h a b e) = stays (ap (λ u. u.buf) e)
cond_refines s t r (producer_unlocks i h a e) = stays (ap (λ u. u.buf) e)
cond_refines s t r (consumer_locks i h a b e) = stays (ap (λ u. u.buf) e)
cond_refines s t r (consumer_finds_item i h a b e) = stays (ap (λ u. u.buf) e)
cond_refines s t r (consumer_finds_none i h a b e) = stays (ap (λ u. u.buf) e)
cond_refines s t r (consumer_pops i h a e) =
    let (x, b) = back_lem s.buf (has_item s i h a (Reach-Inv s r)) in
    pops x b (pop_back-back s.buf x b ∙ ap (λ u. u ++ (x ∷ [])) (sym (ap (λ u. u.buf) e)))
cond_refines s t r (consumer_blocks i h a e) = stays (ap (λ u. u.buf) e)
cond_refines s t r (consumer_wakes i h a e) = stays (ap (λ u. u.buf) e)
cond_refines s t r (consumer_relocks i h a b e) = stays (ap (λ u. u.buf) e)
cond_refines s t r (consumer_unlocks i h a e) = stays (ap (λ u. u.buf) e)
