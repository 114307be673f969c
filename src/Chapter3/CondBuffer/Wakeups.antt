-- ===== src/Chapter3/CondBuffer/Wakeups.antt =====
-- Signals and blocked consumers of chapter_3/thread/pthread_cond.cpp.
use native.Mathlib.Decide.{dec_lt}
use nowcoder_linux_learning.Base.{
  ℕ, ◌+◌, ◌*◌, ◌≤◌, ◌<◌, ◌≡◌, ◌≢◌, refl, ap, [], ◌∷◌, length, length-append, arith,
}
use nowcoder_linux_learning.Base.Sums.{sum, sum-move_from, sum-le, sum_zero_below}
use nowcoder_linux_learning.Chapter3.Stack.{pop_back_lem}
use nowcoder_linux_learning.Chapter3.CondBuffer.{
  buf_size, producer_num, consumer_num, Producer, Consumer, Shared, initial, Step, producer_locks,
  producer_finds_room, producer_finds_none, producer_pushes, producer_signals,
  producer_signals_none, producer_unlocks, consumer_locks, consumer_finds_item, consumer_finds_none,
  consumer_pops, consumer_blocks, consumer_wakes, consumer_relocks, consumer_unlocks, Reach, here,
  next,
}
use nowcoder_linux_learning.Chapter3.CondBuffer.Counts.{pushing, giving_up, Inv, has_item}
use nowcoder_linux_learning.Chapter3.CondBuffer.Bounds.{Reach-Inv}

abbrev announcing : Producer → ℕ
announcing Producer.signalling = 1
announcing _ = 0

abbrev awake : Consumer → ℕ
awake Consumer.blocked = 0
awake _ = 1

-- While the buffer has an item, a consumer is awake or a producer is about to signal.
abbrev Heard : Shared → Type 0
Heard s =
    length s.buf
    ≤ buf_size * (sum announcing producer_num s.producers + sum awake consumer_num s.consumers)

asleep : (c : Consumer) → awake c ≡ 0 → c ≡ Consumer.blocked
asleep Consumer.blocked e = refl
asleep Consumer.at_lock e = absurd (omega (arith, e))
asleep Consumer.testing e = absurd (omega (arith, e))
asleep Consumer.changing e = absurd (omega (arith, e))
asleep Consumer.empty_seen e = absurd (omega (arith, e))
asleep Consumer.woken e = absurd (omega (arith, e))
asleep Consumer.leaving e = absurd (omega (arith, e))

-- A signal that finds nobody blocked finds the consumer 0 awake.
some_awake :
    (f : ℕ → Consumer)
    → ((j : ℕ) → j < consumer_num → f j ≢ Consumer.blocked)
    → 0 < sum awake consumer_num f
some_awake f h = elim (dec_lt 0 (awake (f 0))) [
  | yes p ↦ omega (arith, sum-le awake 5 0 f)
  | no p ↦ absurd (h 0 (omega arith) (asleep (f 0) (omega arith)))
]

silent : (p : Producer) → p ≢ Producer.signalling → announcing p ≡ 0
silent Producer.at_lock h = refl
silent Producer.testing h = refl
silent Producer.changing h = refl
silent Producer.signalling h = absurd (h refl)
silent Producer.leaving h = refl

Step-Heard : (s t : Shared) → Step s t → Inv s → Heard s → Heard t
Step-Heard s t (producer_locks i h a b e) v w =
    let m = sum-move_from announcing 5 i s.producers Producer.at_lock Producer.testing h a in
    rw e (omega (arith, m, w))
Step-Heard s t (producer_finds_room i h a b e) v w =
    let m = sum-move_from announcing 5 i s.producers Producer.testing Producer.changing h a in
    rw e (omega (arith, m, w))
Step-Heard s t (producer_finds_none i h a b e) v w =
    let m = sum-move_from announcing 5 i s.producers Producer.testing Producer.leaving h a in
    rw e (omega (arith, m, w))
Step-Heard s t (producer_pushes i num h a e) v w =
    let m = sum-move_from announcing 5 i s.producers Producer.changing Producer.signalling h a in
    let l = length-append s.buf (num ∷ []) in
    let r = v.room in
    let p = sum-le pushing 5 i s.producers h in let q = ap pushing a in rw e (omega (arith, m, w))
Step-Heard s t (producer_signals i j h k a b e) v w =
    let m = sum-move_from announcing 5 i s.producers Producer.signalling Producer.leaving h a in
    let n = sum-move_from awake 5 j s.consumers Consumer.blocked Consumer.woken k b in
    rw e (omega (arith, m, w))
Step-Heard s t (producer_signals_none i h a b e) v w =
    let m = sum-move_from announcing 5 i s.producers Producer.signalling Producer.leaving h a in
    let n = some_awake s.consumers b in let room = v.room in rw e (omega (arith, m, w))
Step-Heard s t (producer_unlocks i h a e) v w =
    let m = sum-move_from announcing 5 i s.producers Producer.leaving Producer.at_lock h a in
    rw e (omega (arith, m, w))
Step-Heard s t (consumer_locks i h a b e) v w =
    let m = sum-move_from awake 5 i s.consumers Consumer.at_lock Consumer.testing h a in
    rw e (omega (arith, m, w))
Step-Heard s t (consumer_finds_item i h a b e) v w =
    let m = sum-move_from awake 5 i s.consumers Consumer.testing Consumer.changing h a in
    rw e (omega (arith, m, w))
Step-Heard s t (consumer_finds_none i h a b e) v w =
    let m = sum-move_from awake 5 i s.consumers Consumer.testing Consumer.empty_seen h a in
    rw e (omega (arith, m, w))
Step-Heard s t (consumer_pops i h a e) v w =
    let m = sum-move_from awake 5 i s.consumers Consumer.changing Consumer.leaving h a in
    let l = pop_back_lem s.buf (has_item s i h a v) in rw e (omega (arith, m, w))
Step-Heard s t (consumer_blocks i h a e) v w =
    let m = sum-move_from awake 5 i s.consumers Consumer.empty_seen Consumer.blocked h a in
    let r = v.room in
    let p = sum-le giving_up 5 i s.consumers h in
    let q = ap giving_up a in rw e (omega (arith, m, w))
Step-Heard s t (consumer_wakes i h a e) v w =
    let m = sum-move_from awake 5 i s.consumers Consumer.blocked Consumer.woken h a in
    rw e (omega (arith, m, w))
Step-Heard s t (consumer_relocks i h a b e) v w =
    let m = sum-move_from awake 5 i s.consumers Consumer.woken Consumer.leaving h a in
    rw e (omega (arith, m, w))
Step-Heard s t (consumer_unlocks i h a e) v w =
    let m = sum-move_from awake 5 i s.consumers Consumer.leaving Consumer.at_lock h a in
    rw e (omega (arith, m, w))

Reach-Heard : (s : Shared) → Reach initial s → Heard s
unfolding sum
Reach-Heard s here = omega arith
Reach-Heard s (next {t} r st) = Step-Heard t s st (Reach-Inv t r) (Reach-Heard t r)

-- No wakeup is lost in chapter_3/thread/pthread_cond.cpp: in every state that the threads reach, if
-- all consumers are blocked in pthread_cond_wait and no producer is about to signal, then the
-- buffer is empty.
pub Reach-blocked :
    (s : Shared)
    → Reach initial s
    → ((j : ℕ) → j < consumer_num → s.consumers j ≡ Consumer.blocked)
    → ((i : ℕ) → i < producer_num → s.producers i ≢ Producer.signalling)
    → length s.buf ≡ 0
Reach-blocked s r c p =
    let a = sum_zero_below awake 5 s.consumers (λ j h. ap awake (c j h)) in
    let b = sum_zero_below announcing 5 s.producers (λ i h. silent (s.producers i) (p i h)) in
    omega (arith, Reach-Heard s r)
