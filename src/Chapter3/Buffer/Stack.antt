-- ===== src/Chapter3/Buffer/Stack.antt =====
-- The buffer of chapter_3/thread/semaphore.cpp against an abstract stack.
use nowcoder_linux_learning.Base.{ℕ, ◌<◌, ◌≡◌, ap, sym, ◌∙◌, [], ◌∷◌, ◌++◌, length, arith}
use nowcoder_linux_learning.Base.Sums.{sum-le}
use nowcoder_linux_learning.Chapter3.Stack.{StackStep, stays, pushes, pops, back_lem, pop_back-back}
use nowcoder_linux_learning.Chapter3.Buffer.{
  buf_size, producer_num, inside, Shared, initial, Step, producer_waits, producer_locks,
  producer_pushes, producer_unlocks, producer_posts, consumer_waits, consumer_locks, consumer_pops,
  consumer_unlocks, consumer_posts, Reach,
}
use nowcoder_linux_learning.Chapter3.Buffer.Bounds.{pending, Inv, has_item, Reach-Inv}

has_room :
    (s : Shared) (i : ℕ)
    → i < producer_num
    → s.producers i ≡ inside
    → Inv s
    → length s.buf < buf_size
has_room s i h a w =
    let m = ap pending a in omega (arith, sum-le pending 5 i s.producers h, m, w.room)

-- chapter_3/thread/semaphore.cpp implements a stack of 100 items at most: each step from a state
-- that the producers and consumers reach leaves the buffer as it is, or puts one item on top of
-- fewer than 100, or takes away the item on top of a buffer that is not empty, which is what back
-- gives.
pub Step-StackStep : (s t : Shared) → Reach initial s → Step s t → StackStep buf_size s.buf t.buf
Step-StackStep s t r (producer_waits i n h a b e) = stays (ap (λ u. u.buf) e)
Step-StackStep s t r (producer_locks i h a b e) = stays (ap (λ u. u.buf) e)
Step-StackStep s t r (producer_pushes i num h a e) =
    pushes num (has_room s i h a (Reach-Inv s r)) (ap (λ u. u.buf) e)
Step-StackStep s t r (producer_unlocks i h a e) = stays (ap (λ u. u.buf) e)
Step-StackStep s t r (producer_posts i h a e) = stays (ap (λ u. u.buf) e)
Step-StackStep s t r (consumer_waits i n h a b e) = stays (ap (λ u. u.buf) e)
Step-StackStep s t r (consumer_locks i h a b e) = stays (ap (λ u. u.buf) e)
Step-StackStep s t r (consumer_pops i h a e) =
    let (x, b) = back_lem s.buf (has_item s i h a (Reach-Inv s r)) in
    pops x b (pop_back-back s.buf x b ∙ ap (λ u. u ++ (x ∷ [])) (sym (ap (λ u. u.buf) e)))
Step-StackStep s t r (consumer_unlocks i h a e) = stays (ap (λ u. u.buf) e)
Step-StackStep s t r (consumer_posts i h a e) = stays (ap (λ u. u.buf) e)
