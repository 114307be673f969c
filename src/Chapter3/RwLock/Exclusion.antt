-- ===== src/Chapter3/RwLock/Exclusion.antt =====
-- Readers and writers keep each other out.
use nowcoder_linux_learning.Base.{ℕ, ◌+◌, ◌≤◌, ◌<◌, ◌≡◌, refl, ap, Bool, true, false, arith}
use nowcoder_linux_learning.Base.Sums.{sum, sum-move, sum-le, sum_mono, move}
use nowcoder_linux_learning.Chapter3.RwLock.{
  read_threads, write_threads, Reader, trying, arriving, adding, counted, removing, leaving, Writer,
  waiting, writing, finishing, Shared, unlocked, Step, reader_locks, reader_enters, reader_adds,
  reader_returns, reader_removes, reader_unlocks, writer_locks, writer_writes, writer_unlocks,
  Reach, here, next,
}

-- Holds the read-write lock; is in `rdlock_num`; holds the lock as a writer.
abbrev holding : Reader → ℕ
holding trying = 0
holding _ = 1

abbrev in_count : Reader → ℕ
in_count counted = 1
in_count removing = 1
in_count _ = 0

abbrev pub holding_alone : Writer → ℕ
holding_alone waiting = 0
holding_alone _ = 1

abbrev one_if : Bool → ℕ
one_if true = 1
one_if false = 0

one_if-le : (b : Bool) → one_if b ≤ 1
one_if-le true = omega arith
one_if-le false = omega arith

one_if-true : (b : Bool) → 1 ≤ one_if b → b ≡ true
one_if-true true h = refl
one_if-true false h = absurd (omega arith)

record Inv (s : Shared) : Type 0 where
  held : s.lock_readers ≡ sum holding read_threads s.readers
  count : s.rdlock_num ≡ sum in_count read_threads s.readers
  alone : one_if s.lock_writer ≡ sum holding_alone write_threads s.writers
  apart : s.lock_writer ≡ true → s.lock_readers ≡ 0

module _ (f : ℕ → Reader) (i : ℕ) (a b : Reader) (h : i < 5) (e : f i ≡ a) where
  holding-move : sum holding 5 (move f i b) + holding a ≡ sum holding 5 f + holding b
  holding-move = let m = ap holding e in omega (arith, sum-move holding 5 i f b h, m)

  in_count-move : sum in_count 5 (move f i b) + in_count a ≡ sum in_count 5 f + in_count b
  in_count-move = let m = ap in_count e in omega (arith, sum-move in_count 5 i f b h, m)

holding_alone-move :
    (f : ℕ → Writer) (i : ℕ) (a b : Writer)
    → i < 4
    → f i ≡ a
    → sum holding_alone 4 (move f i b) + holding_alone a ≡ sum holding_alone 4 f + holding_alone b
holding_alone-move f i a b h e =
    let m = ap holding_alone e in omega (arith, sum-move holding_alone 4 i f b h, m)

-- A reader moves and neither count changes.
reader_moves :
    (s t : Shared) (i : ℕ) (a b : Reader)
    → i < 5
    → s.readers i ≡ a
    → holding a ≡ holding b
    → in_count a ≡ in_count b
    → t ≡ record s { mutex = t.mutex; readers = move s.readers i b }
    → Inv s
    → Inv t
reader_moves s t i a b h e p q m w = rw m (record {
  held = omega (arith, w.held, holding-move s.readers i a b h e, p);
  count = omega (arith, w.count, in_count-move s.readers i a b h e, q);
  alone = w.alone;
  apart = w.apart;
})

Step-Inv : (s t : Shared) → Step s t → Inv s → Inv t
Step-Inv s t (reader_locks i h a b e) w = rw e (record {
  held = omega (arith, w.held, holding-move s.readers i trying arriving h a);
  count = omega (arith, w.count, in_count-move s.readers i trying arriving h a);
  alone = w.alone;
  apart = λ k. ground (arith, b, k);
})
Step-Inv s t (reader_enters i h a b e) w =
    reader_moves s t i arriving adding h a refl refl (rw e refl) w
Step-Inv s t (reader_adds i h a e) w = rw e (record {
  held = omega (arith, w.held, holding-move s.readers i adding counted h a);
  count = omega (arith, w.count, in_count-move s.readers i adding counted h a);
  alone = w.alone;
  apart = w.apart;
})
Step-Inv s t (reader_returns i h a b e) w =
    reader_moves s t i counted removing h a refl refl (rw e refl) w
Step-Inv s t (reader_removes i h a e) w = rw e (record {
  held = omega (arith, w.held, holding-move s.readers i removing leaving h a);
  count = omega (arith, w.count, in_count-move s.readers i removing leaving h a);
  alone = w.alone;
  apart = w.apart;
})
Step-Inv s t (reader_unlocks i h a e) w = rw e (record {
  held = omega (arith, w.held, holding-move s.readers i leaving trying h a);
  count = omega (arith, w.count, in_count-move s.readers i leaving trying h a);
  alone = w.alone;
  apart = λ k. omega (arith, w.apart k);
})
Step-Inv s t (writer_locks i h a b c e) w = rw e (record {
  held = w.held;
  count = w.count;
  alone =
      let m = ap one_if b in
      omega (arith, w.alone, m, holding_alone-move s.writers i waiting writing h a);
  apart = λ k. c;
})
Step-Inv s t (writer_writes i h a e) w = rw e (record {
  held = w.held;
  count = w.count;
  alone = omega (arith, w.alone, holding_alone-move s.writers i writing finishing h a);
  apart = w.apart;
})
Step-Inv s t (writer_unlocks i h a e) w = rw e (record {
  held = w.held;
  count = w.count;
  alone =
      let m : one_if s.lock_writer ≤ 1 = one_if-le s.lock_writer in
      omega (arith, w.alone, m, holding_alone-move s.writers i finishing waiting h a);
  apart = λ k. ground (arith, k);
})

Reach-Inv : {s t : Shared} → Reach s t → Inv s → Inv t
Reach-Inv here w = w
Reach-Inv (next {t} {u} r st) w = Step-Inv t u st (Reach-Inv r w)

unlocked-Inv : Inv unlocked
unfolding sum
unlocked-Inv = record { held = refl; count = refl; alone = refl; apart = λ k. refl }

in_count-le : (r : Reader) → in_count r ≤ holding r
in_count-le trying = omega arith
in_count-le arriving = omega arith
in_count-le adding = omega arith
in_count-le counted = omega arith
in_count-le removing = omega arith
in_count-le leaving = omega arith

-- In chapter_3/thread/rwlock.cpp, in every state that the readers and writers reach, while a writer
-- is behind trywrlock no reader holds the lock, rdlock_num is 0, and there is no other writer
-- behind it.
pub Reach-writing :
    (s : Shared) (i : ℕ)
    → Reach unlocked s
    → i < write_threads
    → s.writers i ≡ writing
    → (s.lock_readers ≡ 0) × (s.rdlock_num ≡ 0) × (sum holding_alone write_threads s.writers ≡ 1)
Reach-writing s i r h a =
    let w = Reach-Inv r unlocked-Inv in
    let m = ap holding_alone a in
    let k = sum-le holding_alone 4 i s.writers h in
    let o : s.lock_writer ≡ true = one_if-true s.lock_writer (omega (arith, k, m, w.alone)) in
    let z = w.apart o in
    (
      z,
      omega (arith, z, w.held, w.count, sum_mono in_count holding 5 s.readers in_count-le),
      omega (arith, w.alone, ap one_if o),
    )
