-- ===== src/Chapter3/BufferTests.antt =====
-- The theorems on the buffers of chapter_3, at short runs.
use nowcoder_linux_learning.Base.{
  ℕ, zero, suc, none, ◌<◌, ◌≡◌, refl, ◌==◌, true, some, [], ◌∷◌, length, arith,
}
use nowcoder_linux_learning.Base.Sums.{move}
use nowcoder_linux_learning.Chapter3.Stack.{StackStep}
use nowcoder_linux_learning.Chapter3.Buffer
use nowcoder_linux_learning.Chapter3.Buffer.{at_wait, at_lock, inside, leaving}
use nowcoder_linux_learning.Chapter3.Buffer.Stack.{Step-StackStep}
use nowcoder_linux_learning.Chapter3.Buffer.Progress.{CanStep, Reach-CanStep}
use nowcoder_linux_learning.Chapter3.CondBuffer
use nowcoder_linux_learning.Chapter3.CondBuffer.{Consumer, Producer}
use nowcoder_linux_learning.Chapter3.CondBuffer.Bounds.{cond_refines}
use nowcoder_linux_learning.Chapter3.CondBuffer.Wakeups.{Reach-blocked}
use nowcoder_linux_learning.Chapter3.PollBuffer
use nowcoder_linux_learning.Chapter3.PollBuffer.Bounds.{poll_refines}

-- The producer 1 is behind `lock`.
abbrev entered : Buffer.Shared
entered = record Buffer.initial {
  sem_p = 99;
  mutex = some (Buffer.producer 1);
  producers = move (move (λ i. at_wait) 1 at_lock) 1 inside;
}

initial-entered : Buffer.Reach Buffer.initial entered
initial-entered =
    Buffer.next (Buffer.next Buffer.here (Buffer.producer_waits 1 99 (omega arith) refl refl refl))
      (Buffer.producer_locks 1 (omega arith) refl refl refl)

Reach-CanStep_example : CanStep entered
Reach-CanStep_example = Reach-CanStep entered initial-entered

Step-StackStep_example : StackStep 100 [] (7 ∷ [])
Step-StackStep_example =
    Step-StackStep entered
      (record entered { buf = 7 ∷ []; producers = move entered.producers 1 leaving })
      initial-entered (Buffer.producer_pushes 1 7 (omega arith) refl refl)

-- The producer 0 of pthread_cond.cpp is about to push.
abbrev cond_pushing : CondBuffer.Shared
cond_pushing = record CondBuffer.initial {
  mutex = some (CondBuffer.producer 0);
  producers = move (move (λ i. Producer.at_lock) 0 Producer.testing) 0 Producer.changing;
}

initial-cond_pushing : CondBuffer.Reach CondBuffer.initial cond_pushing
initial-cond_pushing =
    CondBuffer.next
      (CondBuffer.next CondBuffer.here (CondBuffer.producer_locks 0 (omega arith) refl refl refl))
      (CondBuffer.producer_finds_room 0 (omega arith) refl (omega arith) refl)

cond_refines_example : StackStep 100 [] (7 ∷ [])
cond_refines_example =
    cond_refines cond_pushing
      (record cond_pushing {
        buf = 7 ∷ [];
        producers = move cond_pushing.producers 0 Producer.signalling;
      })
      initial-cond_pushing (CondBuffer.producer_pushes 0 7 (omega arith) refl refl)

abbrev poll_pushing : PollBuffer.Shared
poll_pushing = record PollBuffer.initial {
  mutex = some (PollBuffer.producer 0);
  producers = move (move (λ i. PollBuffer.at_lock) 0 PollBuffer.testing) 0 PollBuffer.changing;
}

initial-poll_pushing : PollBuffer.Reach PollBuffer.initial poll_pushing
initial-poll_pushing =
    PollBuffer.next
      (PollBuffer.next PollBuffer.here (PollBuffer.producer_locks 0 (omega arith) refl refl refl))
      (PollBuffer.producer_finds_room 0 (omega arith) refl (omega arith) refl)

poll_refines_example : StackStep 100 [] (7 ∷ [])
poll_refines_example =
    poll_refines poll_pushing
      (record poll_pushing {
        buf = 7 ∷ [];
        producers = move poll_pushing.producers 0 PollBuffer.leaving;
      })
      initial-poll_pushing (PollBuffer.producer_pushes 0 7 (omega arith) refl refl)

-- The consumer `j` finds the buffer empty, and waits.
abbrev blocks : ℕ → CondBuffer.Shared → CondBuffer.Shared
blocks j s = record s {
  mutex = none;
  consumers =
      move (move (move s.consumers j Consumer.testing) j Consumer.empty_seen) j Consumer.blocked;
}

Reach-blocks :
    (j : ℕ) (s : CondBuffer.Shared)
    → j < 5
    → s.consumers j ≡ Consumer.at_lock
    → s.mutex ≡ none
    → length s.buf ≡ 0
    → CondBuffer.Reach CondBuffer.initial s
    → CondBuffer.Reach CondBuffer.initial (blocks j s)
Reach-blocks j s h p m e r =
    let testing : (j == j) ≡ true = ground arith in
    CondBuffer.next
      (CondBuffer.next (CondBuffer.next r (CondBuffer.consumer_locks j h p m refl))
        (CondBuffer.consumer_finds_none j h (rw testing refl) e refl))
      (CondBuffer.consumer_blocks j h (rw testing refl) refl)

abbrev all_blocked : CondBuffer.Shared
all_blocked = blocks 4 (blocks 3 (blocks 2 (blocks 1 (blocks 0 CondBuffer.initial))))

initial-all_blocked : CondBuffer.Reach CondBuffer.initial all_blocked
initial-all_blocked = Reach-blocks 4 _ (omega arith) refl refl refl (
    Reach-blocks 3 _ (omega arith) refl refl refl (
      Reach-blocks 2 _ (omega arith) refl refl refl (
        Reach-blocks 1 _ (omega arith) refl refl refl
          (Reach-blocks 0 _ (omega arith) refl refl refl CondBuffer.here))))

blocked_each : (j : ℕ) → j < 5 → all_blocked.consumers j ≡ Consumer.blocked
blocked_each zero h = refl
blocked_each (suc zero) h = refl
blocked_each (suc (suc zero)) h = refl
blocked_each (suc (suc (suc zero))) h = refl
blocked_each (suc (suc (suc (suc zero)))) h = refl
blocked_each (suc (suc (suc (suc (suc j))))) h = absurd (omega arith)

Reach-blocked_example : length all_blocked.buf ≡ 0
Reach-blocked_example = Reach-blocked all_blocked initial-all_blocked blocked_each (λ i h. cc)
