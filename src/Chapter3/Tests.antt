-- ===== src/Chapter3/Tests.antt =====
-- The theorems on threads that share data, at short runs.
use nowcoder_linux_learning.Base.{
  ℕ, zero, suc, none, ◌+◌, ◌≡◌, refl, ap, true, some, [], ◌∷◌, arith,
}
use nowcoder_linux_learning.Base.Sums.{sum, move}
use nowcoder_linux_learning.Chapter3.Buffer
use nowcoder_linux_learning.Chapter3.Buffer.{
  Shared, initial, buf_size, at_lock, inside, leaving, posting, at_wait,
}
use nowcoder_linux_learning.Chapter3.RwLock
use nowcoder_linux_learning.Chapter3.RwLock.{unlocked}
use nowcoder_linux_learning.Chapter3.RwLock.Exclusion.{holding_alone, Reach-writing}
use nowcoder_linux_learning.Chapter3.Tickets
use nowcoder_linux_learning.Chapter3.Tickets.{Office, Place, opening, join_all}
use nowcoder_linux_learning.Chapter3.Tickets.Total.{join_all_ended}

-- The producer 1 puts 7 into the buffer, and the consumer 2 comes for it.
abbrev taking : Shared
taking = record initial {
  buf = 7 ∷ [];
  sem_p = 99;
  mutex = some (Buffer.consumer 2);
  producers =
      move (move (move (move (move (λ i. at_wait) 1 at_lock) 1 inside) 1 leaving) 1 posting) 1
        at_wait;
  consumers = move (move (λ i. at_wait) 2 at_lock) 2 inside;
}

initial-taking : Buffer.Reach initial taking
initial-taking =
    Buffer.next
      (Buffer.next
        (Buffer.next
          (Buffer.next
            (Buffer.next
              (Buffer.next
                (Buffer.next Buffer.here (Buffer.producer_waits 1 99 (omega arith) refl refl refl))
                (Buffer.producer_locks 1 (omega arith) refl refl refl))
              (Buffer.producer_pushes 1 7 (omega arith) refl refl))
            (Buffer.producer_unlocks 1 (omega arith) refl refl))
          (Buffer.producer_posts 1 (omega arith) refl refl))
        (Buffer.consumer_waits 2 0 (omega arith) refl refl refl))
      (Buffer.consumer_locks 2 (omega arith) refl refl refl)

-- The thread 0 sells all tickets that are left, while the others wait.
sell_out :
    (n : ℕ) (s : Office)
    → Tickets.Reach opening s
    → s.tickets ≡ n
    → s.places 0 ≡ Tickets.trying
    → s.mutex ≡ none
    → (t : Office) × Tickets.Reach opening t × (t.places 0 ≡ Tickets.ended)
sell_out zero s r e p m =
    let s1 : Office = record s { mutex = some 0; places = move s.places 0 Tickets.inside } in
    let s2 : Office = record s1 { places = move s1.places 0 Tickets.stopping } in
    let s3 : Office = record s2 { mutex = none; places = move s2.places 0 Tickets.ended } in
    (
      s3,
      Tickets.next
          (Tickets.next (Tickets.next r (Tickets.locks 0 (omega arith) p m refl))
            (Tickets.finds_none 0 (omega arith) refl e refl))
          (Tickets.stops 0 (omega arith) refl refl),
      refl,
    )
sell_out (suc n) s r e p m =
    let s1 : Office = record s { mutex = some 0; places = move s.places 0 Tickets.inside } in
    let s2 : Office = record s1 { places = move s1.places 0 Tickets.selling } in
    let s3 : Office = record s2 { places = move s2.places 0 (Tickets.loaded s2.tickets) } in
    let s4 : Office = record s3 { tickets = n; places = move s3.places 0 Tickets.counting } in
    let s5 : Office = record s4 {
      sell = move s4.sell 0 (s4.sell 0 + 1);
      places = move s4.places 0 Tickets.leaving;
    } in
    let s6 : Office = record s5 { mutex = none; places = move s5.places 0 Tickets.trying } in
    let at_s3 : Tickets.Reach opening s3 =
      Tickets.next
        (Tickets.next (Tickets.next r (Tickets.locks 0 (omega arith) p m refl))
          (Tickets.finds_ticket 0 (omega arith) refl (omega (arith, e)) refl))
        (Tickets.loads 0 (omega arith) refl refl) in
    sell_out n s6
      (Tickets.next
        (Tickets.next
          (Tickets.next at_s3 (Tickets.stores 0 n (omega arith) (ap Tickets.loaded e) refl))
          (Tickets.counts 0 (omega arith) refl refl))
        (Tickets.unlocks 0 (omega arith) refl refl))
      refl refl refl

join_all_ended_example : join_all (sell_out 1000 opening Tickets.here refl refl refl).0 ≡ 1000
join_all_ended_example =
    join_all_ended (sell_out 1000 opening Tickets.here refl refl refl).0 0
      (sell_out 1000 opening Tickets.here refl refl refl).1
      (sell_out 1000 opening Tickets.here refl refl refl).2

-- The writer 2 holds the lock.
abbrev locked : RwLock.Shared
locked = record unlocked { lock_writer = true; writers = move unlocked.writers 2 RwLock.writing }

unlocked-locked : RwLock.Reach unlocked locked
unlocked-locked = RwLock.next RwLock.here (RwLock.writer_locks 2 (omega arith) refl refl refl refl)

Reach-writing_example :
    (locked.lock_readers ≡ 0) × (locked.rdlock_num ≡ 0) × (sum holding_alone 4 locked.writers ≡ 1)
Reach-writing_example = Reach-writing locked 2 unlocked-locked (omega arith) refl
