-- ===== src/Chapter3/Buffer/Exclusion.antt =====
-- The mutex around the buffer.
use nowcoder_linux_learning.Base.{ℕ, ◌+◌, ◌≤◌, ◌<◌, ◌≡◌, refl, ap, Option, none, some, arith}
use nowcoder_linux_learning.Base.Sums.{sum, sum-move, move}
use nowcoder_linux_learning.Chapter3.Buffer.{
  producer_num, consumer_num, Place, at_wait, at_lock, inside, leaving, posting, Owner, Shared,
  initial, Step, producer_waits, producer_locks, producer_pushes, producer_unlocks, producer_posts,
  consumer_waits, consumer_locks, consumer_pops, consumer_unlocks, consumer_posts, Reach, here,
  next,
}

-- A thread between `lock` and `unlock`.
abbrev pub in_section : Place → ℕ
in_section inside = 1
in_section leaving = 1
in_section _ = 0

abbrev pub held : Option Owner → ℕ
held none = 0
held (some o) = 1

held_le : (o : Option Owner) → held o ≤ 1
held_le none = omega arith
held_le (some o) = omega arith

abbrev pub Exclusive : Shared → Type 0
Exclusive s =
    sum in_section producer_num s.producers + sum in_section consumer_num s.consumers ≡ held s.mutex

section-move :
    (f : ℕ → Place) (i : ℕ) (a b : Place)
    → i < 5
    → f i ≡ a
    → sum in_section 5 (move f i b) + in_section a ≡ sum in_section 5 f + in_section b
section-move f i a b h e =
    let m = ap in_section e in omega (arith, sum-move in_section 5 i f b h, m)

Step-Exclusive : (s t : Shared) → Step s t → Exclusive s → Exclusive t
Step-Exclusive s t (producer_waits i n h a b e) w =
    rw e (omega (arith, section-move s.producers i at_wait at_lock h a, w))
Step-Exclusive s t (producer_locks i h a b e) w =
    rw e (omega (arith, section-move s.producers i at_lock inside h a, rw b at w))
Step-Exclusive s t (producer_pushes i num h a e) w =
    rw e (omega (arith, section-move s.producers i inside leaving h a, w))
Step-Exclusive s t (producer_unlocks i h a e) w =
    rw e (omega (arith, section-move s.producers i leaving posting h a, w, held_le s.mutex))
Step-Exclusive s t (producer_posts i h a e) w =
    rw e (omega (arith, section-move s.producers i posting at_wait h a, w))
Step-Exclusive s t (consumer_waits i n h a b e) w =
    rw e (omega (arith, section-move s.consumers i at_wait at_lock h a, w))
Step-Exclusive s t (consumer_locks i h a b e) w =
    rw e (omega (arith, section-move s.consumers i at_lock inside h a, rw b at w))
Step-Exclusive s t (consumer_pops i h a e) w =
    rw e (omega (arith, section-move s.consumers i inside leaving h a, w))
Step-Exclusive s t (consumer_unlocks i h a e) w =
    rw e (omega (arith, section-move s.consumers i leaving posting h a, w, held_le s.mutex))
Step-Exclusive s t (consumer_posts i h a e) w =
    rw e (omega (arith, section-move s.consumers i posting at_wait h a, w))

-- In chapter_3/thread/semaphore.cpp, in every state that the producers and consumers reach, one
-- thread is between lock and unlock if the mutex has an owner, and otherwise none.
pub Reach-Exclusive : (s : Shared) → Reach initial s → Exclusive s
unfolding sum
Reach-Exclusive s here = refl
Reach-Exclusive s (next {t} r st) = Step-Exclusive t s st (Reach-Exclusive t r)
