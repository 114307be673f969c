-- ===== src/Chapter3/Buffer/Progress.antt =====
-- Whether a thread of chapter_3/thread/semaphore.cpp can take a step.
use nowcoder_linux_learning.Base.{
  ℕ, zero, suc, ◌≤◌, ◌<◌, ◌≡◌, refl, ap, Option-cases, inl, inr, none, some, arith,
}
use nowcoder_linux_learning.Base.Sums.{sum, sum-le, sum_mono, counted_or_zero}
use nowcoder_linux_learning.Chapter3.Buffer.{
  producer_num, consumer_num, Place, at_wait, at_lock, inside, leaving, posting, Owner, Shared,
  initial, Step, producer_waits, producer_locks, producer_pushes, producer_unlocks, producer_posts,
  consumer_waits, consumer_locks, consumer_pops, consumer_unlocks, consumer_posts, Reach,
}
use nowcoder_linux_learning.Chapter3.Buffer.Bounds.{pending, finished, Inv, Reach-Inv}
use nowcoder_linux_learning.Chapter3.Buffer.Exclusion.{in_section, held, Exclusive, Reach-Exclusive}

-- Some call of some thread can return.
abbrev pub CanStep : Shared → Type 0
CanStep s = (t : Shared) × Step s t

-- A thread that is not at `sem_wait`.
abbrev busy : Place → ℕ
busy at_wait = 0
busy _ = 1

busy_zero : (p : Place) → busy p ≡ 0 → p ≡ at_wait
busy_zero at_wait e = refl
busy_zero at_lock e = absurd (omega (arith, e))
busy_zero inside e = absurd (omega (arith, e))
busy_zero leaving e = absurd (omega (arith, e))
busy_zero posting e = absurd (omega (arith, e))

pending_le_busy : (p : Place) → pending p ≤ busy p
pending_le_busy p = ground arith

finished_le_busy : (p : Place) → finished p ≤ busy p
finished_le_busy p = ground arith

module _ (s : Shared) (i : ℕ) where
  -- What a producer does behind `lock`.
  producer_section :
      (p : Place) → i < producer_num → s.producers i ≡ p → 0 < in_section p → CanStep s
  producer_section at_wait h e c = absurd (omega arith)
  producer_section at_lock h e c = absurd (omega arith)
  producer_section inside h e c = (_, producer_pushes i 0 h e refl)
  producer_section leaving h e c = (_, producer_unlocks i h e refl)
  producer_section posting h e c = absurd (omega arith)

  consumer_section :
      (p : Place) → i < consumer_num → s.consumers i ≡ p → 0 < in_section p → CanStep s
  consumer_section at_wait h e c = absurd (omega arith)
  consumer_section at_lock h e c = absurd (omega arith)
  consumer_section inside h e c = (_, consumer_pops i h e refl)
  consumer_section leaving h e c = (_, consumer_unlocks i h e refl)
  consumer_section posting h e c = absurd (omega arith)

  producer_free :
      (p : Place) → i < producer_num → s.producers i ≡ p → s.mutex ≡ none → 0 < busy p → CanStep s
  producer_free at_wait h e m c = absurd (omega arith)
  producer_free at_lock h e m c = (_, producer_locks i h e m refl)
  producer_free inside h e m c = producer_section inside h e (omega arith)
  producer_free leaving h e m c = producer_section leaving h e (omega arith)
  producer_free posting h e m c = (_, producer_posts i h e refl)

  consumer_free :
      (p : Place) → i < consumer_num → s.consumers i ≡ p → s.mutex ≡ none → 0 < busy p → CanStep s
  consumer_free at_wait h e m c = absurd (omega arith)
  consumer_free at_lock h e m c = (_, consumer_locks i h e m refl)
  consumer_free inside h e m c = consumer_section inside h e (omega arith)
  consumer_free leaving h e m c = consumer_section leaving h e (omega arith)
  consumer_free posting h e m c = (_, consumer_posts i h e refl)

held_goes : (s : Shared) (o : Owner) → s.mutex ≡ some o → Exclusive s → CanStep s
held_goes s o m w = elim (counted_or_zero in_section producer_num s.producers) [
  | inl (i, h, c) ↦ producer_section s i (s.producers i) h refl c
  | inr p ↦ elim (counted_or_zero in_section consumer_num s.consumers) [
    | inl (i, h, c) ↦ consumer_section s i (s.consumers i) h refl c
    | inr c ↦ let one = ap held m in absurd (omega (arith, p, c, one, w))
  ]
]

-- With all at `sem_wait`, there is room or an item.
waiting_goes :
    (s : Shared)
    → Inv s
    → sum busy producer_num s.producers ≡ 0
    → sum busy consumer_num s.consumers ≡ 0
    → (n m : ℕ) → s.sem_p ≡ n
    → s.sem_c ≡ m
    → CanStep s
waiting_goes s w p c (suc n) m a b =
    let e = busy_zero (s.producers 0) (omega (arith, sum-le busy 5 0 s.producers, p)) in
    (_, producer_waits 0 n (omega arith) e a refl)
waiting_goes s w p c zero (suc m) a b =
    let e = busy_zero (s.consumers 0) (omega (arith, sum-le busy 5 0 s.consumers, c)) in
    (_, consumer_waits 0 m (omega arith) e b refl)
waiting_goes s w p c zero zero a b =
    let q = sum_mono pending busy 5 s.producers pending_le_busy in
    let r = sum_mono finished busy 5 s.producers finished_le_busy in
    let t = sum_mono pending busy 5 s.consumers pending_le_busy in
    let u = sum_mono finished busy 5 s.consumers finished_le_busy in
    absurd (omega (arith, w.room, w.items))

free_goes : (s : Shared) → s.mutex ≡ none → Inv s → CanStep s
free_goes s m w = elim (counted_or_zero busy producer_num s.producers) [
  | inl (i, h, c) ↦ producer_free s i (s.producers i) h refl m c
  | inr p ↦ elim (counted_or_zero busy consumer_num s.consumers) [
    | inl (i, h, c) ↦ consumer_free s i (s.consumers i) h refl m c
    | inr c ↦ waiting_goes s w p c s.sem_p s.sem_c refl refl
  ]
]

-- The producers and consumers of chapter_3/thread/semaphore.cpp never come to a deadlock: in every
-- state that they reach some thread can take a step.
pub Reach-CanStep : (s : Shared) → Reach initial s → CanStep s
Reach-CanStep s r = elim (Option-cases s.mutex) [
  | inl e ↦ free_goes s e (Reach-Inv s r)
  | inr (o, e) ↦ held_goes s o e (Reach-Exclusive s r)
]
